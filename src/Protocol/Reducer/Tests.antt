-- ===== src/Protocol/Reducer/Tests.antt =====
-- Runs of the reducer on concrete events, and its theorems applied to them.
use harness_control_protocol.Base.{
  ℕ, ◌≤◌, ◌≡◌, ◌≢◌, inl, inr, refl, differ, List, [], ◌∷◌, arith, nat_eq, string_eq, ◌==◌,
  if◌then◌else◌, ℕ_discrete, drop, All,
}
use harness_control_protocol.Base.Collation.{by_code_points}
use harness_control_protocol.Base.Dict.{lookup, insert}
use harness_control_protocol.Protocol.Event.{Event, same_event}
use harness_control_protocol.Protocol.Reducer.{
  EventResult, apply_event, apply_snapshot, expected_sequence, max_key,
}
use harness_control_protocol.Protocol.Reducer.Log.{log}
use harness_control_protocol.Protocol.Reducer.Apply.{
  next_log, spec_result, apply_event-result, apply_event-log,
}
use harness_control_protocol.Protocol.Reducer.Delivery.{
  deliver, HasPrefix, FromSource, Caught, deliver-HasPrefix, deliver-catch_up,
}
use harness_control_protocol.Protocol.Reducer.Snapshots.{apply_snapshot-catch_up}
use harness_control_protocol.Protocol.Event.Samples.{
  event_at, session, other_session, started, delta, exited, elsewhere, source, end_of_session,
}
use harness_control_protocol.Protocol.Reducer.Samples.{
  one_event, one_event-IsWellFormed, source-IsNumbered, nothing_yet, one_there,
}

delta_applied :
    apply_event by_code_points delta one_event
    ≡ (("s", (1, started) ∷ (2, delta) ∷ []) ∷ [], EventResult.applied delta)
unfolding apply_event expected_sequence max_key lookup insert string_eq nat_eq ℕ_discrete
delta_applied = refl

late_is_gap : apply_event by_code_points exited one_event ≡ (one_event, EventResult.gap "s" 2 3)
unfolding apply_event expected_sequence max_key lookup insert string_eq nat_eq ℕ_discrete
late_is_gap = refl

other_is_conflict :
    apply_event by_code_points (event_at "s" 1 "session.exited") one_event
    ≡ (one_event, EventResult.conflict "s" 1 started (event_at "s" 1 "session.exited"))
unfolding apply_event expected_sequence max_key lookup insert string_eq nat_eq ℕ_discrete same_event
    by_code_points
other_is_conflict = refl

apply_event-result_example :
    (apply_event by_code_points exited one_event).1
    ≡ spec_result by_code_points exited (log "s" one_event)
apply_event-result_example =
    apply_event-result by_code_points exited one_event one_event-IsWellFormed

apply_event-log_example : log "s" (apply_event by_code_points delta one_event).0 ≡ (
    if session == session
    then next_log by_code_points delta (log "s" one_event)
    else log "s" one_event)
apply_event-log_example = apply_event-log by_code_points delta "s" one_event one_event-IsWellFormed

abbrev arrivals : List Event
arrivals = started ∷ exited ∷ elsewhere ∷ started ∷ delta ∷ []

t_is_not_s : other_session ≢ session
unfolding string_eq
t_is_not_s = differ other_session session refl

arrivals-FromSource : All (FromSource by_code_points "s" source) arrivals
arrivals-FromSource =
    (inr (0, refl), (inr (2, refl), (inl t_is_not_s, (inr (0, refl), (inr (1, refl), tt)))))

deliver-HasPrefix_example :
    (n : ℕ) × (0 ≤ n)
    × HasPrefix by_code_points "s" source n (deliver by_code_points "s" arrivals [])
deliver-HasPrefix_example =
    deliver-HasPrefix by_code_points "s" source arrivals 0 [] source-IsNumbered arrivals-FromSource
      nothing_yet

deliver-catch_up_example :
    HasPrefix by_code_points "s" source 3 (deliver by_code_points "s" (drop 0 source) one_event)
deliver-catch_up_example =
    deliver-catch_up by_code_points "s" source 1 0 one_event source-IsNumbered (omega arith)
      one_there

apply_snapshot-catch_up_example :
    Caught by_code_points "s" source 2 0 [] (apply_snapshot by_code_points end_of_session one_event)
apply_snapshot-catch_up_example =
    apply_snapshot-catch_up by_code_points end_of_session "s" source 1 1 one_event source-IsNumbered
      (omega arith) one_there refl refl
