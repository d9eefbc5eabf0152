-- ===== src/State/Review/Transition.antt =====
-- packages/hcp-runner/src/state/mcp-review.ts: validateMcpTransition, whose checks are made in order.
pub mod Order
pub mod Events
use harness_control_protocol.Base.{
  ◌+◌, String, Bool, true, false, not, ◌&&◌, ◌||◌, Option, none, some, ◌==◌, string_eq, nat_eq,
  option_eq, Result, ok, err, ◌>>=◌, ◌>>◌, throw_if, if◌then◌else◌,
}
use harness_control_protocol.Protocol.Json.{Json, text}
use harness_control_protocol.Protocol.Event.{Event}
use harness_control_protocol.State.Work.{is_some}
use harness_control_protocol.State.Review.Same.{
  same_pending_input, same_hashed_action, same_outcome, same_binding,
}
use harness_control_protocol.State.Review.Checks.{
  data_is, check_attribution, check_delegated, decision_text, same_turn_of_input, ends_wait,
}
use harness_control_protocol.State.Review.{
  Decision, accept, decline, StartPayload, TurnPayload, PendingInput, InputReply, InputRound,
  HashedAction, ReviewOutcome, waiting, dispatching, declined, input_waiting, input_resuming,
  review_waiting, review_resuming, expiry_resuming, expiry_completed, completed, McpReview,
  Platform,
}
use harness_control_protocol.State.Review.Schema.{
  Delegated, ReviewAction, parse_delegated, read_action, action_bytes_ok, is_text,
}

-- `initial`
unfoldable pub may_start : ReviewOutcome → Bool
may_start waiting = true
may_start (input_waiting r pending) = r.protocol_round == 1 && r.review_actor_id == none
may_start (review_waiting r a pending) = r.protocol_round == 1 && r.review_actor_id == none
may_start _ = false

-- What may follow `waiting`, with an event.
unfoldable pub from_waiting : ReviewOutcome → Bool
from_waiting (dispatching actor) = true
from_waiting (declined actor) = true
from_waiting _ = false

-- The first input or delegated review of a call that an actor let through.
unfoldable pub asks_first : String → InputRound → Bool
asks_first actor r = r.protocol_round == 1 && r.review_actor_id == some actor

-- The next one, after an answer.
unfoldable pub asks_next : InputRound → InputRound → Bool
asks_next old r =
    r.protocol_round == old.protocol_round + 1
    && not (r.input_request_id == old.input_request_id)
    && r.review_actor_id == old.review_actor_id

unfoldable pub from_dispatching : String → ReviewOutcome → Bool → Bool
unfolding asks_first
from_dispatching actor (completed finisher result) has_event = finisher == actor && not has_event
from_dispatching actor (input_waiting r pending) has_event = asks_first actor r && has_event
from_dispatching actor (review_waiting r a pending) has_event = asks_first actor r && has_event
from_dispatching actor _ has_event = false

unfoldable pub from_resuming : InputRound → String → ReviewOutcome → Bool → Bool
unfolding asks_next
from_resuming old actor (completed finisher result) has_event = finisher == actor && not has_event
from_resuming old actor (input_waiting r pending) has_event = asks_next old r && has_event
from_resuming old actor (review_waiting r a pending) has_event = asks_next old r && has_event
from_resuming old actor _ has_event = false

unfoldable pub from_expiry : ReviewOutcome → Bool → Bool
from_expiry (expiry_completed result) has_event = not has_event
from_expiry _ has_event = false

module _ (platform : Platform) (expires_at : String) where
  unfoldable pub from_input : InputRound → PendingInput → ReviewOutcome → Bool → Result String Bool
  unfolding same_turn_of_input same_pending_input ends_wait
  from_input old pending (input_resuming r reply actor) has_event =
      ok (same_turn_of_input r old && same_pending_input reply.pending pending && has_event)
  from_input old pending (expiry_resuming r reply) has_event =
      ends_wait platform expires_at old pending r reply has_event
  from_input old pending _ has_event = ok false

  unfoldable pub from_review :
      InputRound → HashedAction → PendingInput → ReviewOutcome → Bool → Result String Bool
  unfolding same_turn_of_input same_pending_input same_hashed_action ends_wait
  from_review old a pending (review_resuming r b reply actor decision) has_event = ok (
      same_turn_of_input r old
      && same_pending_input reply.pending pending
      && same_hashed_action b a
      && has_event)
  from_review old a pending (expiry_resuming r reply) has_event =
      ends_wait platform expires_at old pending r reply has_event
  from_review old a pending _ has_event = ok false

  -- `advances`
  unfoldable pub advances : ReviewOutcome → ReviewOutcome → Bool → Result String Bool
  unfolding from_waiting from_dispatching from_resuming from_expiry from_input from_review
  advances waiting next has_event = ok (from_waiting next && has_event)
  advances (dispatching actor) next has_event = ok (from_dispatching actor next has_event)
  advances (input_waiting r pending) next has_event = from_input r pending next has_event
  advances (review_waiting r a pending) next has_event = from_review r a pending next has_event
  advances (expiry_resuming r reply) next has_event = ok (from_expiry next has_event)
  advances (input_resuming r reply actor) next has_event = ok (from_resuming r actor next has_event)
  advances (review_resuming r a reply actor decision) next has_event =
      ok (from_resuming r actor next has_event)
  advances _ next has_event = ok false

-- The result of `advances`, which throws unless it holds.
unfoldable pub must_advance : Bool → Result String Bool
must_advance b =
    if b then ok false else err "MCP continuation transition would change or replay its operation."

-- The review against the one that is stored: `true` where the function returns.
unfoldable pub check_change :
    Platform → Option McpReview → McpReview → Option Event → Result String Bool
unfolding may_start same_binding same_outcome advances must_advance
check_change platform none w event = do
  throw_if (not (may_start w.outcome) || not (is_some event))
      "A new MCP continuation requires its waiting event."
  ok false
check_change platform (some p) w event = do
  throw_if (not (same_binding p w)) "MCP continuation transition changed its binding."
  if same_outcome p.outcome w.outcome && not (is_some event)
      then ok true
      else (advances platform p.expires_at p.outcome w.outcome (is_some event) >>= must_advance)

-- The event is the turn's, of the type, and names the request.
unfoldable pub event_names : McpReview → String → String → Event → Bool
unfolding data_is
event_names w kind request_id e =
    e.session_id == w.start.session_id
    && e.turn_id == some w.turn.turn_id
    && e.event_type == kind
    && data_is "request_id" request_id e
    && data_is "session_id" w.start.session_id e
    && data_is "turn_id" w.turn.turn_id e

-- The event of an approval: of the request with its action, or of an actor's decision.
unfoldable pub requests_action : HashedAction → Event → Bool
unfolding data_is
requests_action a e = data_is "action_hash" a.action_hash e && data_is "action" a.action_json e

unfoldable pub decides_action : HashedAction → String → Decision → Event → Bool
unfolding data_is decision_text
decides_action a actor decision e =
    data_is "action_hash" a.action_hash e
    && data_is "actor_id" actor e
    && data_is "decision" (decision_text decision) e

unfoldable pub different : String
different = "MCP event differs from its private continuation."

-- The event of a decision on the review's own action.
unfoldable pub check_decision : McpReview → String → Decision → Event → Result String (Unit {0})
unfolding event_names decides_action data_is decision_text different
check_decision w actor decision e = do
  throw_if (not (event_names w "approval.resolved" w.request_id e)) different
  throw_if (not (data_is "action_hash" w.action.action_hash e))
      "MCP review event differs from its private continuation."
  throw_if (not (decides_action w.action actor decision e))
      "MCP review decision differs from its private continuation."

-- The checks of the event, of which those of one phase throw the same error but for its text.
unfoldable pub check_event : McpReview → Event → Result String (Unit {0})
unfolding event_names requests_action decides_action data_is different check_decision
check_event w e = elim w.outcome [
  | expiry_resuming r reply ↦ err "Automatic expiry cannot record a human decision event."
  | expiry_completed result ↦ err "Automatic expiry cannot record a human decision event."
  | review_waiting r a pending ↦
      throw_if
        (not (event_names w "approval.requested" r.input_request_id e && requests_action a e))
        "Delegated MCP review event differs from its private continuation."
  | review_resuming r a reply actor decision ↦
      throw_if
        (not (
          event_names w "approval.resolved" r.input_request_id e
          && decides_action a actor decision e))
        "Delegated MCP review event differs from its private continuation."
  | input_waiting r pending ↦
      throw_if (not (event_names w "input.requested" r.input_request_id e)) different
  | input_resuming r reply actor ↦ do
    throw_if (not (event_names w "input.resolved" r.input_request_id e)) different
    throw_if (not (data_is "actor_id" actor e))
        "MCP input decision differs from its private continuation."
  | waiting ↦ do
    throw_if (not (event_names w "approval.requested" w.request_id e)) different
    throw_if (not (requests_action w.action e))
        "MCP review event differs from its private continuation."
  | dispatching actor ↦ check_decision w actor accept e
  | declined actor ↦ check_decision w actor decline e
  | completed actor result ↦ check_decision w actor accept e
]

-- validateMcpTransition
unfoldable pub validate_mcp_transition :
    Platform → Option McpReview → McpReview → Option Event → Result String (Unit {0})
unfolding check_attribution check_delegated check_change check_event
validate_mcp_transition platform previous w event = do
  check_attribution w event
  check_delegated platform w
  settled ← check_change platform previous w event
  elim event [ none ↦ ok tt | some e ↦ if settled then ok tt else check_event w e ]
