-- ===== src/State/Reviews/Recorded.antt =====
-- The decisions that the session's events record.
pub mod Saved
use harness_control_protocol.Base.{
  ℕ, String, ◌≡◌, ◌≢◌, refl, ap, true, false, Bool, not, ◌&&◌, Option, none, some, List, [], ◌∷◌,
  ◌++◌, ◌==◌, arith, string_eq, nat_eq, option_eq, length, Option-cases, Result, ok, err, ◌>>◌,
  throw_if, passed, >>-eq-ok, inl, inr, if◌then◌else◌, and_left, and_right, sym, ◌∙◌,
}
use harness_control_protocol.Base.Dict.{lookup, insert, lookup-insert_self}
use harness_control_protocol.Protocol.Json.{Json, text}
use harness_control_protocol.Protocol.Event.{Event}
use harness_control_protocol.State.{
  StateData, Options, append_unsaved, events_of, shift_to, next_event_sequence,
}
use harness_control_protocol.State.Review.{
  Decision, accept, decline, ReviewOutcome, waiting, dispatching, declined, input_waiting,
  input_resuming, review_waiting, review_resuming, expiry_resuming, expiry_completed, completed,
  InputRound, PendingInput, HashedAction, McpReview, Platform,
}
use harness_control_protocol.State.Review.Schema.{is_text}
use harness_control_protocol.State.Review.Checks.{data_field, data_is, decision_text}
use harness_control_protocol.State.Review.Transition.{
  check_event, check_decision, event_names, decides_action, validate_mcp_transition, check_change,
  advances, from_waiting, from_dispatching, from_resuming, from_expiry, from_input, from_review,
}
use harness_control_protocol.State.Review.Same.{same_outcome}
use harness_control_protocol.State.Work.{is_some}
use harness_control_protocol.State.Review.Transition.Order.{check_change-advances}
use harness_control_protocol.State.Review.Transition.Events.{
  validate_mcp_transition-event, check_event-session,
}
use harness_control_protocol.State.Reviews.{
  append_or_fail, save_change, store_review, save_mcp_review,
}
use harness_control_protocol.State.Reviews.Checked.{Checked}
use harness_control_protocol.State.Reviews.Runs.{save_mcp_review-none}

-- The event resolves the request of the review's turn, by the actor.
pub record Resolves (w : McpReview) (kind request_id actor : String) (e : Event) : Type 0 where
  pub session_id : e.session_id ≡ w.start.session_id
  pub turn_id : e.turn_id ≡ some w.turn.turn_id
  pub event_type : e.event_type ≡ kind
  pub request : data_field "request_id" e ≡ some (text request_id)
  pub actor_id : data_field "actor_id" e ≡ some (text actor)

-- It also says what was decided, and on which action.
pub record Decides (w : McpReview) (request_id actor : String) (a : HashedAction)
    (decision : Decision) (e : Event) : Type 0 where
  pub resolves : Resolves w "approval.resolved" request_id actor e
  pub decided : data_field "decision" e ≡ some (text (decision_text decision))
  pub action_hash : data_field "action_hash" e ≡ some (text a.action_hash)

-- What the event says of an outcome that an actor decides.
abbrev pub RecordsDecision : McpReview → ReviewOutcome → Event → Type 0
RecordsDecision w (dispatching actor) e = Decides w w.request_id actor w.action accept e
RecordsDecision w (declined actor) e = Decides w w.request_id actor w.action decline e
RecordsDecision w (input_resuming r reply actor) e =
    Resolves w "input.resolved" r.input_request_id actor e
RecordsDecision w (review_resuming r a reply actor decision) e =
    Decides w r.input_request_id actor a decision e
RecordsDecision w _ e = Unit

is_text_eq : (s : String) (o : Option Json) → is_text (λ t. t == s) o ≡ true → o ≡ some (text s)
unfolding is_text
is_text_eq s o h = ground arith

data_is_eq :
    (key s : String) (e : Event) → data_is key s e ≡ true → data_field key e ≡ some (text s)
unfolding data_is
data_is_eq key s e h = is_text_eq s (data_field key e) h

names_request :
    (w : McpReview) (kind request_id actor : String) (e : Event)
    → event_names w kind request_id e ≡ true
    → data_is "actor_id" actor e ≡ true
    → Resolves w kind request_id actor e
unfolding event_names
names_request w kind request_id actor e named by = record {
  session_id = ground arith;
  turn_id = ground arith;
  event_type = ground arith;
  request = data_is_eq "request_id" request_id e (ground arith);
  actor_id = data_is_eq "actor_id" actor e by;
}

names_decision :
    (w : McpReview) (request_id actor : String) (a : HashedAction) (decision : Decision) (e : Event)
    → event_names w "approval.resolved" request_id e ≡ true
    → decides_action a actor decision e ≡ true
    → Decides w request_id actor a decision e
unfolding decides_action
names_decision w request_id actor a decision e named by = record {
  resolves = names_request w "approval.resolved" request_id actor e named (ground arith);
  decided = data_is_eq "decision" (decision_text decision) e (ground arith);
  action_hash = data_is_eq "action_hash" a.action_hash e (ground arith);
}

check_decision-Decides :
    (w : McpReview) (actor : String) (decision : Decision) (e : Event)
    → check_decision w actor decision e ≡ ok tt
    → Decides w w.request_id actor w.action decision e
unfolding check_decision
check_decision-Decides w actor decision e h =
    let (named, more) =
      >>-eq-ok (throw_if (not (event_names w "approval.resolved" w.request_id e)) _) _ h in
    let (hash, decided) =
      >>-eq-ok (throw_if (not (data_is "action_hash" w.action.action_hash e)) _) _ more in
    names_decision w w.request_id actor w.action decision e
      (passed (event_names w "approval.resolved" w.request_id e) _ named)
      (passed (decides_action w.action actor decision e) _ decided)

pub check_event-RecordsDecision :
    (w : McpReview) (o : ReviewOutcome) (e : Event)
    → w.outcome ≡ o
    → check_event w e ≡ ok tt
    → RecordsDecision w o e
unfolding check_event
check_event-RecordsDecision w waiting e same h = tt
check_event-RecordsDecision w (dispatching actor) e same h =
    check_decision-Decides w actor accept e (ground (arith, same))
check_event-RecordsDecision w (declined actor) e same h =
    check_decision-Decides w actor decline e (ground (arith, same))
check_event-RecordsDecision w (input_waiting r pending) e same h = tt
check_event-RecordsDecision w (input_resuming r reply actor) e same h =
    names_request w "input.resolved" r.input_request_id actor e (ground (arith, same))
      (ground (arith, same))
check_event-RecordsDecision w (review_waiting r a pending) e same h = tt
check_event-RecordsDecision w (review_resuming r a reply actor decision) e same h =
    let both =
      passed
        (event_names w "approval.resolved" r.input_request_id e
          && decides_action a actor decision e)
        _ (rw (same, check_event) at h) in
    names_decision w r.input_request_id actor a decision e (and_left _ _ both) (and_right _ _ both)
check_event-RecordsDecision w (expiry_resuming r reply) e same h = tt
check_event-RecordsDecision w (expiry_completed result) e same h = tt
check_event-RecordsDecision w (completed actor result) e same h = tt
