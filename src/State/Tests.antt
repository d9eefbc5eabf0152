-- ===== src/State/Tests.antt =====
-- The store on concrete events and receipts, and its theorems applied to them.
use mathlib.Core.Bool.{false≢true}
use harness_control_protocol.Base.{
  ap, ◌==◌, not, ◌&&◌, ℕ, ok, ◌≤◌, String, ◌≡◌, ◌≢◌, refl, ap, differ, true, Option, some, none,
  List, [], ◌∷◌, arith, nat_eq, string_eq, ℕ_discrete, drop,
}
use harness_control_protocol.Base.Collation.{by_code_points}
use harness_control_protocol.Base.Dict.{lookup, insert, erase, retain}
use harness_control_protocol.Protocol.Event.{Event, Formats, snapshot_ok, snapshot_bytes}
use harness_control_protocol.Protocol.Event.Samples.{
  session, other_session, started, delta, exited, elsewhere, source, whole_session,
  whole_session_bytes,
}
use harness_control_protocol.Protocol.Reducer.{apply_snapshot}
use harness_control_protocol.Protocol.Reducer.Delivery.{deliver, HasPrefix}
use harness_control_protocol.Protocol.Reducer.Samples.{
  one_event, one_event-IsWellFormed, source-IsNumbered, one_there,
}
use harness_control_protocol.State.{
  StateData, Options, CommandReceipt, ack, not_persisted, events_of, next_event_sequence,
  next_after, append_event, append_unsaved, shift_to, mark_exited, restore, restore_exited,
}
use harness_control_protocol.State.Queries.{
  has_session_exit, replay_events_after, replay_window, after_sequence, session_snapshot,
  fit_snapshot, snapshot_of, first_sequence, final_sequence, payload_max_encoded_bytes,
}
use harness_control_protocol.State.Window.{Holds, next_event_sequence-Holds}
use harness_control_protocol.State.Events.{
  append_event-Holds, append_event_other, append_event_atomic, run, accepted, run-Holds,
}
use harness_control_protocol.State.Replay.{replay-catch_up}
use harness_control_protocol.State.Fit.{session_snapshot_lem, session_snapshot-recovers}
use harness_control_protocol.State.Receipts.{open_store, is_exit}

abbrev written : StateData → Option String
written d = none

abbrev disk_full : StateData → Option String
disk_full d = some "ENOSPC"

abbrev two_events : Options
two_events = record { event_retention_per_session = 2; receipt_retention_ms = 1000 }

abbrev nothing_stored : StateData
nothing_stored = record {
  events = [];
  command_receipts = [];
  local_action_receipts = [];
  exited_sessions = [];
  native_work = [];
  mcp_reviews = [];
}

abbrev with_events : List Event → StateData
with_events es = record nothing_stored { events = (session, es) ∷ [] }

nothing-Holds : Holds 2 session [] nothing_stored
unfolding lookup
nothing-Holds = record { numbered = tt; window = refl }

first_two : Holds 2 session (started ∷ delta ∷ []) (with_events (started ∷ delta ∷ []))
unfolding lookup string_eq
first_two = record { numbered = (refl, refl, (refl, refl, tt)); window = refl }

last_two : Holds 2 session source (with_events (delta ∷ exited ∷ []))
unfolding lookup string_eq
last_two = record { numbered = source-IsNumbered; window = refl }

all_three : Holds 5 session source (with_events source)
unfolding lookup string_eq
all_three = record { numbered = source-IsNumbered; window = refl }

third_appended :
    append_event written two_events exited (with_events (started ∷ delta ∷ []))
    ≡ (record (with_events (delta ∷ exited ∷ [])) { exited_sessions = (session, true) ∷ [] }, none)
unfolding append_event append_unsaved next_event_sequence next_after shift_to mark_exited lookup
    insert string_eq nat_eq ℕ_discrete
third_appended = refl

not_saved :
    append_event disk_full two_events exited (with_events (started ∷ delta ∷ []))
    ≡ (with_events (started ∷ delta ∷ []), some (not_persisted "ENOSPC"))
unfolding append_event append_unsaved next_event_sequence next_after shift_to mark_exited restore
    restore_exited lookup insert erase string_eq nat_eq ℕ_discrete
not_saved = refl

append_event-Holds_example :
    Holds 2 session source
      (append_event written two_events exited (with_events (started ∷ delta ∷ []))).0
append_event-Holds_example =
    append_event-Holds written two_events exited (started ∷ delta ∷ [])
      (with_events (started ∷ delta ∷ [])) (omega arith) first_two (ap (λ p. p.1) third_appended)

other_is_not_s : session ≢ other_session
unfolding string_eq
other_is_not_s = differ session other_session refl

append_event_other_example :
    events_of other_session (append_event written two_events started (with_events [])).0
    ≡ events_of other_session (with_events [])
append_event_other_example =
    append_event_other written two_events started other_session (with_events []) other_is_not_s

save_failed :
    (append_event disk_full two_events exited (with_events (started ∷ delta ∷ []))).1 ≢ none
save_failed h = absurd (ground (arith, not_saved))

append_event_atomic_example :
    let d : StateData = with_events (started ∷ delta ∷ []) in
    let d' : StateData = (append_event disk_full two_events exited d).0 in
    (lookup session d'.events ≡ lookup session d.events)
    × (has_session_exit session d' ≡ has_session_exit session d)
    × (d'.command_receipts ≡ d.command_receipts)
    × (d'.local_action_receipts ≡ d.local_action_receipts)
append_event_atomic_example =
    append_event_atomic disk_full two_events exited session (with_events (started ∷ delta ∷ []))
      save_failed

next_event_sequence-Holds_example :
    next_event_sequence session (with_events (delta ∷ exited ∷ [])) ≡ 4
next_event_sequence-Holds_example =
    next_event_sequence-Holds 2 session source (with_events (delta ∷ exited ∷ [])) (omega arith)
      last_two

run-Holds_example :
    Holds 2 session
      (accepted written two_events session
        (started ∷ elsewhere ∷ exited ∷ delta ∷ [])
        nothing_stored)
      (run written two_events (started ∷ elsewhere ∷ exited ∷ delta ∷ []) nothing_stored)
run-Holds_example =
    run-Holds written two_events session (started ∷ elsewhere ∷ exited ∷ delta ∷ []) []
      nothing_stored (omega arith) nothing-Holds

rest_replayed :
    replay_events_after session 1 (with_events (delta ∷ exited ∷ [])) ≡ some (delta ∷ exited ∷ [])
unfolding replay_events_after replay_window after_sequence lookup string_eq nat_eq ℕ_discrete
rest_replayed = refl

too_old : replay_events_after session 0 (with_events (delta ∷ exited ∷ [])) ≡ none
unfolding replay_events_after replay_window after_sequence lookup string_eq nat_eq ℕ_discrete
too_old = refl

replay-catch_up_example :
    HasPrefix by_code_points session source 3
      (deliver by_code_points session (delta ∷ exited ∷ []) one_event)
replay-catch_up_example =
    replay-catch_up by_code_points 2 session 1 source (delta ∷ exited ∷ [])
      (with_events (delta ∷ exited ∷ [])) one_event (omega arith) last_two one_there rest_replayed

whole_is_offered :
    session_snapshot "c" session "2026-01-01T00:00:00.000Z" (with_events source)
    ≡ some whole_session
unfolding session_snapshot fit_snapshot snapshot_of first_sequence final_sequence lookup string_eq
    nat_eq ℕ_discrete
whole_is_offered = rw whole_session_bytes refl

-- Of the texts and events here.
abbrev formats : Formats
formats = record {
  is_timestamp = λ t. t == "2026-01-01T00:00:00.000Z";
  is_event = λ e. e.session_id == session && not (e.event_type == "");
}

session_snapshot_lem_example :
    (snapshot_ok formats whole_session ≡ true)
    × (snapshot_bytes whole_session ≤ payload_max_encoded_bytes)
    × ((k : ℕ) × (source ≡ drop k source))
unfolding string_eq
session_snapshot_lem_example =
    session_snapshot_lem formats "c" session "2026-01-01T00:00:00.000Z" 5 source
      (with_events source) whole_session (omega arith) all_three
      (λ h. false≢true (ap (λ s. s == "") h)) (λ h. false≢true (ap (λ s. s == "") h)) refl refl
      whole_is_offered

session_snapshot-recovers_example :
    HasPrefix by_code_points session source 3
      (apply_snapshot by_code_points whole_session one_event).0
session_snapshot-recovers_example =
    session_snapshot-recovers by_code_points "c" session "2026-01-01T00:00:00.000Z" 5 source
      (with_events source) whole_session one_event (omega arith) all_three whole_is_offered refl
      one_event-IsWellFormed

abbrev settled_at : ℕ → CommandReceipt
settled_at t = record { payload_hash = "h"; outcome = ack none none; settled_at = t }

d_is_not_c : ◌≢◌ {A = String} "d" "c"
unfolding string_eq
d_is_not_c = differ {A = String} "d" "c" refl

abbrev one_receipt : StateData
one_receipt = record nothing_stored { command_receipts = ("d", settled_at 100) ∷ [] }

reopened :
    open_store two_events 500 (with_events source)
    ≡ ok (record (with_events source) { exited_sessions = (session, true) ∷ [] })
unfolding open_store is_exit insert retain string_eq nat_eq ℕ_discrete
reopened = refl
