-- ===== src/State/NativeWork.antt =====
-- packages/hcp-runner/src/state/index.ts: nativeWorkState, saveNativeWorkState and
-- removeEmptyNativeWorkState. The check that validation kept every key of a dictionary always
-- passes here, where a dictionary has no special keys.
pub mod Kept
pub mod Checked
pub mod History
pub mod Rollback
mod Tests
use harness_control_protocol.Base.{
  String, Bool, true, false, not, ◌&&◌, ◌||◌, Option, none, some, List, [], ◌∷◌, ltb, if◌then◌else◌,
  string_eq, length, Result, ok, err,
}
use harness_control_protocol.Base.Dict.{lookup, insert, erase}
use harness_control_protocol.Protocol.Event.{Event}
use harness_control_protocol.State.{
  StateData, Options, Failure, sequence_mismatch, not_persisted, append_unsaved,
  next_event_sequence, restore,
}
use harness_control_protocol.State.Work.{NativeWorkState}
use harness_control_protocol.State.WorkChecks.{check_save}

pub native_work_state : String → StateData → Option NativeWorkState
native_work_state id d = lookup id d.native_work

pub data SaveFailure : Type 0 where
  rejected : String → SaveFailure
  failed : Failure → SaveFailure

-- The assignments of the catch block, which leave the exit marks.
unfoldable pub undo : String → StateData → StateData → StateData
undo id d d' = record d' {
  native_work = restore id (lookup id d.native_work) d'.native_work;
  events = restore id (lookup id d.events) d'.events;
}

unfoldable pub write_work : String → NativeWorkState → StateData → StateData
write_work id w d = record d { native_work = insert id w d.native_work }

-- `if (event) this.#appendEvent(event)`: the data, or the failure of the append.
pub append_if : Options → Option Event → StateData → Result Failure StateData
unfolding next_event_sequence
append_if options none d = ok d
append_if options (some e) d = elim (append_unsaved options.event_retention_per_session e d) [
  | none ↦ err (sequence_mismatch e.sequence (next_event_sequence e.session_id d))
  | some d' ↦ ok d'
]

pub is_empty : NativeWorkState → Bool
is_empty w =
    not w.closure_unconfirmed
    && not (ltb 0 (length w.items))
    && not (ltb 0 (length w.retired))
    && not (ltb 0 (length w.root_executions))
    && not (ltb 0 (length w.goals))
    && not (ltb 0 (length w.forks))
    && not (ltb 0 (length w.reconciliations))
    && not (ltb 0 (length w.custody))

module _ (persist : StateData → Option String) (options : Options) where
  -- The data after the call, and what it throws.
  pub save_native_work_state :
      String → NativeWorkState → Option Event → StateData → StateData × Option SaveFailure
  unfolding append_if undo write_work
  save_native_work_state id w event d =
      elim (check_save (lookup id d.native_work) (length d.native_work) id w event) [
        | err message ↦ (d, some (rejected message))
        | ok _ ↦ elim (append_if options event (write_work id w d)) [
          | err failure ↦ (undo id d (write_work id w d), some (failed failure))
          | ok d' ↦ elim (persist d') [
            | none ↦ (d', none)
            | some message ↦ (undo id d d', some (failed (not_persisted message)))
          ]
        ]
      ]

  pub remove_empty_native_work_state : String → StateData → StateData × Option SaveFailure
  unfolding is_empty
  remove_empty_native_work_state id d = elim (lookup id d.native_work) [
    | none ↦ (d, none)
    | some w ↦
        let d' = record d { native_work = erase id d.native_work } in
        if not (is_empty w) then (d, none) else elim (persist d') [
          | none ↦ (d', none)
          | some message ↦ (
            record d' { native_work = insert id w d'.native_work },
            some (failed (not_persisted message)),
          )
        ]
  ]
