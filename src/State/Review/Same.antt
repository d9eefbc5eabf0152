-- ===== src/State/Review/Same.antt =====
-- packages/hcp-runner/src/state/mcp-review.ts: the comparisons that validateMcpTransition makes. A
-- comparison of printed values compares them field by field, in the order of the schemas.
use harness_control_protocol.Base.{
  Bool, true, false, ◌&&◌, Option, none, some, ◌==◌, string_eq, nat_eq, option_eq,
}
use harness_control_protocol.Protocol.Json.{Json, obj, Fields, stringify}
use harness_control_protocol.Protocol.DeepEqual.{deep_equal}
use harness_control_protocol.Protocol.Event.{texts_equal}
use harness_control_protocol.State.Review.{
  Decision, accept, decline, PendingInput, InputReply, InputRound, HashedAction, ReviewOutcome,
  waiting, dispatching, declined, input_waiting, input_resuming, review_waiting, review_resuming,
  expiry_resuming, expiry_completed, completed, McpReview,
}

-- isDeepStrictEqual of two values of which either may be undefined.
unfoldable pub same_value : Option Json → Option Json → Bool
unfolding deep_equal
same_value none none = true
same_value (some a) (some b) = deep_equal a b
same_value _ _ = false

-- JSON.stringify(a) === JSON.stringify(b)
unfoldable pub same_fields : Fields → Fields → Bool
unfolding texts_equal stringify
same_fields a b = texts_equal (stringify (obj a)) (stringify (obj b))

unfoldable pub same_optional : Option Fields → Option Fields → Bool
unfolding same_fields
same_optional none none = true
same_optional (some a) (some b) = same_fields a b
same_optional _ _ = false

unfoldable pub same_pending_input : PendingInput → PendingInput → Bool
unfolding same_optional
same_pending_input a b =
    same_optional a.input_requests b.input_requests
    && same_optional a.meta b.meta
    && a.request_state == b.request_state

unfoldable pub same_reply : InputReply → InputReply → Bool
unfolding same_pending_input same_fields
same_reply a b = same_pending_input a.pending b.pending && same_fields a.responses b.responses

unfoldable pub same_round : InputRound → InputRound → Bool
same_round a b =
    a.input_request_id == b.input_request_id
    && a.protocol_round == b.protocol_round
    && a.review_actor_id == b.review_actor_id

unfoldable pub same_hashed_action : HashedAction → HashedAction → Bool
same_hashed_action a b = a.action_json == b.action_json && a.action_hash == b.action_hash

unfoldable pub same_decision : Decision → Decision → Bool
same_decision accept accept = true
same_decision decline decline = true
same_decision _ _ = false

unfoldable pub same_outcome : ReviewOutcome → ReviewOutcome → Bool
unfolding same_round same_pending_input same_reply same_hashed_action same_decision
same_outcome waiting waiting = true
same_outcome (dispatching a) (dispatching b) = a == b
same_outcome (declined a) (declined b) = a == b
same_outcome (input_waiting r p) (input_waiting s q) = same_round r s && same_pending_input p q
same_outcome (input_resuming r p a) (input_resuming s q b) =
    same_round r s && same_reply p q && a == b
same_outcome (review_waiting r x p) (review_waiting s y q) =
    same_round r s && same_hashed_action x y && same_pending_input p q
same_outcome (review_resuming r x p a c) (review_resuming s y q b d) =
    same_round r s && same_hashed_action x y && same_reply p q && a == b && same_decision c d
same_outcome (expiry_resuming r p) (expiry_resuming s q) = same_round r s && same_reply p q
same_outcome (expiry_completed t) (expiry_completed u) = t == u
same_outcome (completed a t) (completed b u) = a == b && t == u
same_outcome _ _ = false

-- Everything but the outcome.
unfoldable pub same_binding : McpReview → McpReview → Bool
unfolding same_fields same_optional same_hashed_action
same_binding p w =
    p.start.session_id == w.start.session_id
    && same_fields p.start.other_fields w.start.other_fields
    && p.turn.session_id == w.turn.session_id
    && p.turn.turn_id == w.turn.turn_id
    && same_fields p.turn.other_fields w.turn.other_fields
    && p.native_thread_id == w.native_thread_id
    && p.native_turn_id == w.native_turn_id
    && p.native_call_id == w.native_call_id
    && p.native_work_id == w.native_work_id
    && same_optional p.native_request w.native_request
    && p.request_id == w.request_id
    && same_hashed_action p.action w.action
    && p.expires_at == w.expires_at
