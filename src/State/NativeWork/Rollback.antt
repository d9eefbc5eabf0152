-- ===== src/State/NativeWork/Rollback.antt =====
-- What saveNativeWorkState leaves when it throws.
use harness_control_protocol.Base.{
  ℕ, String, ◌≡◌, ◌≢◌, ◌⊎◌, refl, ap, true, Option, none, some, [], ◌∷◌, ◌++◌, arith, string_eq,
  length, Option-cases, Result-cases, inl, inr, ok,
}
use harness_control_protocol.Base.Dict.{lookup, insert, lookup-insert, lookup-erase}
use harness_control_protocol.Protocol.Event.{Event}
use harness_control_protocol.State.{
  StateData, Options, append_unsaved, next_event_sequence, restore, mark_exited, events_of,
  shift_to,
}
use harness_control_protocol.State.Queries.{has_session_exit, is_true}
use harness_control_protocol.State.Work.{NativeWorkState}
use harness_control_protocol.State.WorkChecks.{check_save, is_elsewhere}
use harness_control_protocol.State.NativeWork.{undo, write_work, append_if, save_native_work_state}
use harness_control_protocol.State.NativeWork.History.{undo-native_work, append_if-native_work}

-- The event of a save is the session's own.
check_save-own :
    (p : Option NativeWorkState) (w : NativeWorkState) (n : ℕ) (id : String) (e : Event)
    → check_save p n id w (some e) ≡ ok tt
    → e.session_id ≡ id
unfolding check_save is_elsewhere
check_save-own p w n id e h = ground arith

-- What an append does to the other parts of the store.
record Appended (id : String) (d d' : StateData) : Type 0 where
  events : (j : String) → j ≢ id → lookup j d'.events ≡ lookup j d.events
  exits : (j : String) → j ≢ id → lookup j d'.exited_sessions ≡ lookup j d.exited_sessions
  commands : d'.command_receipts ≡ d.command_receipts
  actions : d'.local_action_receipts ≡ d.local_action_receipts

append_if-Appended :
    (options : Options) (event : Option Event) (p : Option NativeWorkState) (w : NativeWorkState)
    (n : ℕ) (id : String) (d d' : StateData)
    → check_save p n id w event ≡ ok tt
    → append_if options event d ≡ ok d'
    → Appended id d d'
unfolding append_if append_unsaved mark_exited
append_if-Appended options none p w n id d d' checked h = record {
  events = λ j other. ground arith;
  exits = λ j other. ground arith;
  commands = ground arith;
  actions = ground arith;
}
append_if-Appended options (some e) p w n id d d' checked h =
    let own = check_save-own p w n id e checked in
    let kept = shift_to options.event_retention_per_session (events_of e.session_id d ++ e ∷ []) in
    record {
      events = λ j other. ground (arith, own, lookup-insert j e.session_id kept d.events);
      exits = λ j other. ground (arith, own, lookup-insert j e.session_id true d.exited_sessions);
      commands = ground arith;
      actions = ground arith;
    }

restore-events :
    (id j : String) (d d' : StateData)
    → Appended id d d'
    → lookup j (undo id d d').events ≡ lookup j d.events
unfolding undo restore
restore-events id j d d' a = elim (string_eq.dec j id) [
  | yes same ↦ elim (Option-cases (lookup id d.events)) [
    | inl fresh ↦ ground (arith, same, fresh, lookup-erase j id d'.events)
    | inr (es, old) ↦ ground (arith, same, old, lookup-insert j id es d'.events)
  ]
  | no other ↦ elim (Option-cases (lookup id d.events)) [
    | inl fresh ↦ ground (arith, other, fresh, a.events j other, lookup-erase j id d'.events)
    | inr (es, old) ↦ ground (arith, other, old, a.events j other, lookup-insert j id es d'.events)
  ]
]

-- Appending an exit event marks the session.
append_if-exit :
    (options : Options) (e : Event) (id : String) (w : NativeWorkState) (d : StateData)
    → e.session_id ≡ id
    → e.event_type ≡ "session.exited"
    → e.sequence ≡ next_event_sequence id d
    → (d' : StateData) × (append_if options (some e) (write_work id w d) ≡ ok d')
      × (lookup id d'.exited_sessions ≡ some true)
unfolding append_if append_unsaved mark_exited write_work next_event_sequence
append_if-exit options e id w d own kind place =
    let kept = shift_to options.event_retention_per_session (events_of e.session_id d ++ e ∷ []) in
    (
      record (write_work id w d) {
        events = insert e.session_id kept d.events;
        exited_sessions = insert e.session_id true d.exited_sessions;
      },
      ground (arith, own, kind, place),
      ground (arith, own, lookup-insert id e.session_id true d.exited_sessions),
    )

Appended-write_work :
    (id : String) (w : NativeWorkState) (d : StateData) → Appended id d (write_work id w d)
unfolding write_work
Appended-write_work id w d = record {
  events = λ j other. refl;
  exits = λ j other. refl;
  commands = refl;
  actions = refl;
}

module _ (persist : StateData → Option String) (options : Options) where
  -- The data of a call that throws: what it was, or the undone data of a write.
  failed_cases :
      (id : String) (w : NativeWorkState) (event : Option Event) (d : StateData)
      → (save_native_work_state persist options id w event d).1 ≢ none
      → ((save_native_work_state persist options id w event d).0 ≡ d)
        ⊎ ((d' : StateData) × ((save_native_work_state persist options id w event d).0
              ≡ undo id d d')
            × (d'.native_work ≡ (write_work id w d).native_work)
            × Appended id d d')
  unfolding save_native_work_state
  failed_cases id w event d thrown =
      let before = lookup id d.native_work in
      let written = write_work id w d in
      elim (Result-cases (check_save before (length d.native_work) id w event)) [
        | inl (e, bad) ↦ inl (ground (arith, bad))
        | inr (u, good) ↦ elim (Result-cases (append_if options event written)) [
          | inl (e, bad) ↦
              inr (written, ground (arith, good, bad), refl, Appended-write_work id w d)
          | inr (d', fine) ↦
              let same = append_if-native_work options event written d' fine in
              let a =
                append_if-Appended options event before w (length d.native_work) id written d' good
                  fine in
              elim (Option-cases (persist d')) [
                | inr (m, lost) ↦ inr (
                  d',
                  ground (arith, good, fine, lost),
                  same,
                  record {
                    events = a.events;
                    exits = a.exits;
                    commands = a.commands;
                    actions = a.actions;
                  },
                )
                | inl saved ↦ absurd (ground (arith, good, fine, saved))
              ]
        ]
      ]

  -- A call of saveNativeWorkState that throws, for whatever reason, leaves the native work and the
  -- events of every session, the exit marks of every other session, and all receipts as they were.
  pub save_native_work_state_atomic :
      (id j : String) (w : NativeWorkState) (event : Option Event) (d : StateData)
      → (save_native_work_state persist options id w event d).1 ≢ none
      → let d' = (save_native_work_state persist options id w event d).0 in
        (lookup j d'.native_work ≡ lookup j d.native_work)
        × (lookup j d'.events ≡ lookup j d.events)
        × (j ≢ id → has_session_exit j d' ≡ has_session_exit j d)
        × (d'.command_receipts ≡ d.command_receipts)
        × (d'.local_action_receipts ≡ d.local_action_receipts)
  unfolding has_session_exit
  save_native_work_state_atomic id j w event d thrown = elim (failed_cases id w event d thrown) [
    | inl same ↦ ground (arith, same)
    | inr (d', same, work, a) ↦ rw same (
      undo-native_work id j w d d' work,
      restore-events id j d d' a,
      λ other. unfold undo in ap is_true (a.exits j other),
      unfold undo in a.commands,
      unfold undo in a.actions,
    )
  ]

  -- If a save of native work passes its checks and comes with the session's next event, which is
  -- its exit, and the data cannot be written, then the call leaves the session marked as exited,
  -- although its events are what they were.
  pub save_native_work_state_marks_exit :
      (id message : String) (w : NativeWorkState) (e : Event) (d : StateData)
      → check_save (lookup id d.native_work) (length d.native_work) id w (some e) ≡ ok tt
      → e.event_type ≡ "session.exited"
      → e.sequence ≡ next_event_sequence id d
      → ((d' : StateData) → persist d' ≡ some message)
      → let d' = (save_native_work_state persist options id w (some e) d).0 in
        (has_session_exit id d' ≡ true) × (lookup id d'.events ≡ lookup id d.events)
  unfolding save_native_work_state has_session_exit is_true
  save_native_work_state_marks_exit id message w e d checked kind place full =
      let own = check_save-own (lookup id d.native_work) w (length d.native_work) id e checked in
      let (d', fine, marked) = append_if-exit options e id w d own kind place in
      let a =
        append_if-Appended options (some e) (lookup id d.native_work) w (length d.native_work) id
          (write_work id w d) d' checked fine in
      let same : (save_native_work_state persist options id w (some e) d).0 ≡ undo id d d' =
        ground (arith, checked, fine, full d') in
      rw same (
        unfold undo in ground (arith, marked),
        restore-events id id d d' (record {
          events = a.events;
          exits = a.exits;
          commands = a.commands;
          actions = a.actions;
        }),
      )
