-- ===== src/State/NativeWork/Tests.antt =====
-- Saves of a session's native work, and the theorems about them applied to concrete records.
use harness_control_protocol.Base.{
  String, ◌≡◌, ◌≢◌, refl, true, false, Option, none, some, List, [], ◌∷◌, arith, string_eq, nat_eq,
  option_eq, ℕ_discrete, ok,
}
use harness_control_protocol.Base.Dict.{lookup, insert}
use harness_control_protocol.Protocol.Event.{Event}
use harness_control_protocol.Protocol.Event.Samples.{session, event_at}
use harness_control_protocol.State.{
  StateData, Options, empty_runner_state, append_unsaved, not_persisted, next_event_sequence,
}
use harness_control_protocol.State.Queries.{has_session_exit}
use harness_control_protocol.State.Work.{NativeWorkState, RootExecution, schema_ok, is_some}
use harness_control_protocol.State.WorkChecks.{
  check_save, same_scope, clears_closure, changes_scope, is_elsewhere, bad_root, lost_root,
  find_root,
}
use harness_control_protocol.State.NativeWork.{append_if, rejected, failed, save_native_work_state}
use harness_control_protocol.State.NativeWork.Kept.{Kept}
use harness_control_protocol.State.NativeWork.History.{WorkOp, save, remove, run_ops, run_ops-Kept}
use harness_control_protocol.State.NativeWork.Rollback.{
  save_native_work_state_atomic, save_native_work_state_marks_exit,
}

abbrev written : StateData → Option String
written d = none

abbrev disk_full : StateData → Option String
disk_full d = some "ENOSPC"

abbrev options : Options
options = record { event_retention_per_session = 2; receipt_retention_ms = 1000 }

abbrev execution : Option String → RootExecution
execution reference = record {
  admission_id = "a";
  origin_turn_id = "t";
  native_reference = "n";
  goal_admission_id = none;
  native_execution_reference = reference;
  requires_terminal_proof = true;
  phase_status = none;
}

abbrev with_roots : List RootExecution → NativeWorkState
with_roots roots = record {
  scope = record {
    provider_instance_id = "p";
    provider_binding_hash = "b";
    workspace_id = "w";
    cwd = "/w";
    execution_binding_hash = "e";
    execution_profile = none;
    conversation_key = none;
  };
  items = [];
  retired = [];
  execution_bindings = [];
  custody = [];
  goals = [];
  root_executions = roots;
  reconciliations = [];
  forks = [];
  closure_unconfirmed = false;
}

abbrev admitted : NativeWorkState
admitted = with_roots (execution none ∷ [])

abbrev acknowledged : NativeWorkState
acknowledged = with_roots (execution (some "x") ∷ [])

abbrev stored : StateData
stored = record empty_runner_state { native_work = (session, admitted) ∷ [] }

abbrev operations : List WorkOp
operations =
    save session acknowledged none ∷ save session (with_roots []) none ∷ remove session ∷ []

acknowledged_saved :
    save_native_work_state written options session acknowledged none stored
    ≡ (record stored { native_work = (session, acknowledged) ∷ [] }, none)
unfolding save_native_work_state check_save schema_ok clears_closure changes_scope same_scope
    is_some is_elsewhere bad_root lost_root find_root lookup insert string_eq nat_eq option_eq
    empty_runner_state
acknowledged_saved = refl

dropped_refused :
    (save_native_work_state written options session (with_roots []) none stored).1
    ≡ some (rejected "Native root execution admissions cannot be removed or replaced.")
unfolding save_native_work_state check_save schema_ok clears_closure changes_scope same_scope
    is_some is_elsewhere bad_root lost_root find_root lookup insert string_eq nat_eq option_eq
    empty_runner_state
dropped_refused = refl

run_ops-Kept_example :
    (v : NativeWorkState) × (lookup session (run_ops written options operations stored).native_work
      ≡ some v)
    × Kept admitted v
unfolding lookup string_eq
run_ops-Kept_example = run_ops-Kept written options operations session admitted stored refl refl

abbrev exit_first : Event
exit_first = event_at session 1 "session.exited"

exit_lost :
    (save_native_work_state disk_full options session acknowledged (some exit_first) stored).1
    ≡ some (failed (not_persisted "ENOSPC"))
unfolding save_native_work_state check_save schema_ok clears_closure changes_scope same_scope
    is_some is_elsewhere bad_root lost_root find_root lookup insert string_eq nat_eq option_eq
    empty_runner_state append_if append_unsaved next_event_sequence ℕ_discrete
exit_lost = refl

exit_not_saved :
    (save_native_work_state disk_full options session acknowledged (some exit_first) stored).1
    ≢ none
exit_not_saved h = absurd (ground (arith, exit_lost))

save_native_work_state_atomic_example :
    let d' =
      (save_native_work_state disk_full options session acknowledged (some exit_first) stored).0 in
    (lookup session d'.native_work ≡ lookup session stored.native_work)
    × (lookup session d'.events ≡ lookup session stored.events)
    × (session ≢ session → has_session_exit session d' ≡ has_session_exit session stored)
    × (d'.command_receipts ≡ stored.command_receipts)
    × (d'.local_action_receipts ≡ stored.local_action_receipts)
save_native_work_state_atomic_example =
    save_native_work_state_atomic disk_full options session session acknowledged (some exit_first)
      stored exit_not_saved

exit_checked :
    check_save (lookup session stored.native_work) 1 session acknowledged (some exit_first) ≡ ok tt
unfolding check_save schema_ok clears_closure changes_scope same_scope is_some is_elsewhere bad_root
    lost_root find_root lookup insert string_eq nat_eq option_eq empty_runner_state
exit_checked = refl

save_native_work_state_marks_exit_example :
    let d' =
      (save_native_work_state disk_full options session acknowledged (some exit_first) stored).0 in
    (has_session_exit session d' ≡ true) × (lookup session d'.events ≡ lookup session stored.events)
unfolding next_event_sequence empty_runner_state lookup
save_native_work_state_marks_exit_example =
    save_native_work_state_marks_exit disk_full options session "ENOSPC" acknowledged exit_first
      stored exit_checked refl refl (λ d. refl)
