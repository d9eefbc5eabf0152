-- ===== src/State/Review/Operation.antt =====
-- The operation that a review is about, which stays the same while its outcome changes.
use harness_control_protocol.Base.{
  ℕ, ◌≡◌, refl, ap, ◌∙◌, true, Option, none, some, List, [], ◌∷◌, arith, string_eq, nat_eq,
  option_eq, eq_refl,
}
use harness_control_protocol.Protocol.Json.{obj, Fields, stringify}
use harness_control_protocol.Protocol.Event.{texts_equal, texts_equal_refl}
use harness_control_protocol.State.Review.{
  PendingInput, InputReply, InputRound, HashedAction, Decision, accept, decline, ReviewOutcome,
  waiting, dispatching, declined, input_waiting, input_resuming, review_waiting, review_resuming,
  expiry_resuming, expiry_completed, completed, McpReview,
}
use harness_control_protocol.State.Review.Same.{
  same_fields, same_optional, same_pending_input, same_reply, same_round, same_hashed_action,
  same_decision, same_outcome, same_binding,
}

-- What JSON.stringify prints, if there is a value.
abbrev printed : Option Fields → Option (List ℕ)
printed none = none
printed (some fs) = some (stringify (obj fs))

pub record SameOperation (p w : McpReview) : Type 0 where
  pub start_session : w.start.session_id ≡ p.start.session_id
  pub start_fields : stringify (obj w.start.other_fields) ≡ stringify (obj p.start.other_fields)
  pub turn_session : w.turn.session_id ≡ p.turn.session_id
  pub turn_id : w.turn.turn_id ≡ p.turn.turn_id
  pub turn_fields : stringify (obj w.turn.other_fields) ≡ stringify (obj p.turn.other_fields)
  pub native_thread_id : w.native_thread_id ≡ p.native_thread_id
  pub native_turn_id : w.native_turn_id ≡ p.native_turn_id
  pub native_call_id : w.native_call_id ≡ p.native_call_id
  pub native_work_id : w.native_work_id ≡ p.native_work_id
  pub native_request : printed w.native_request ≡ printed p.native_request
  pub request_id : w.request_id ≡ p.request_id
  pub action_json : w.action.action_json ≡ p.action.action_json
  pub action_hash : w.action.action_hash ≡ p.action.action_hash
  pub expires_at : w.expires_at ≡ p.expires_at

pub SameOperation-refl : (p : McpReview) → SameOperation p p
SameOperation-refl p = record {
  start_session = refl;
  start_fields = refl;
  turn_session = refl;
  turn_id = refl;
  turn_fields = refl;
  native_thread_id = refl;
  native_turn_id = refl;
  native_call_id = refl;
  native_work_id = refl;
  native_request = refl;
  request_id = refl;
  action_json = refl;
  action_hash = refl;
  expires_at = refl;
}

pub SameOperation-trans :
    (p v w : McpReview) → SameOperation p v → SameOperation v w → SameOperation p w
SameOperation-trans p v w h k = record {
  start_session = k.start_session ∙ h.start_session;
  start_fields = k.start_fields ∙ h.start_fields;
  turn_session = k.turn_session ∙ h.turn_session;
  turn_id = k.turn_id ∙ h.turn_id;
  turn_fields = k.turn_fields ∙ h.turn_fields;
  native_thread_id = k.native_thread_id ∙ h.native_thread_id;
  native_turn_id = k.native_turn_id ∙ h.native_turn_id;
  native_call_id = k.native_call_id ∙ h.native_call_id;
  native_work_id = k.native_work_id ∙ h.native_work_id;
  native_request = k.native_request ∙ h.native_request;
  request_id = k.request_id ∙ h.request_id;
  action_json = k.action_json ∙ h.action_json;
  action_hash = k.action_hash ∙ h.action_hash;
  expires_at = k.expires_at ∙ h.expires_at;
}

texts_equal_eq : (xs ys : List ℕ) → texts_equal xs ys ≡ true → ys ≡ xs
unfolding texts_equal
texts_equal_eq [] [] h = refl
texts_equal_eq [] (y ∷ ys) h = absurd (ground arith)
texts_equal_eq (x ∷ xs) [] h = absurd (ground arith)
texts_equal_eq (x ∷ xs) (y ∷ ys) h = ground (arith, texts_equal_eq xs ys)

same_fields_eq : (a b : Fields) → same_fields a b ≡ true → stringify (obj b) ≡ stringify (obj a)
unfolding same_fields
same_fields_eq a b h = texts_equal_eq (stringify (obj a)) (stringify (obj b)) h

same_optional_eq : (a b : Option Fields) → same_optional a b ≡ true → printed b ≡ printed a
unfolding same_optional
same_optional_eq none none h = refl
same_optional_eq none (some b) h = absurd (ground arith)
same_optional_eq (some a) none h = absurd (ground arith)
same_optional_eq (some a) (some b) h = ap some (same_fields_eq a b h)

pub same_binding-SameOperation : (p w : McpReview) → same_binding p w ≡ true → SameOperation p w
unfolding same_binding same_hashed_action
same_binding-SameOperation p w h = record {
  start_session = ground arith;
  start_fields = same_fields_eq p.start.other_fields w.start.other_fields (ground arith);
  turn_session = ground arith;
  turn_id = ground arith;
  turn_fields = same_fields_eq p.turn.other_fields w.turn.other_fields (ground arith);
  native_thread_id = ground arith;
  native_turn_id = ground arith;
  native_call_id = ground arith;
  native_work_id = ground arith;
  native_request = same_optional_eq p.native_request w.native_request (ground arith);
  request_id = ground arith;
  action_json = ground arith;
  action_hash = ground arith;
  expires_at = ground arith;
}

same_fields_refl : (a : Fields) → same_fields a a ≡ true
unfolding same_fields
same_fields_refl a = texts_equal_refl (stringify (obj a))

same_optional_refl : (a : Option Fields) → same_optional a a ≡ true
unfolding same_optional
same_optional_refl none = refl
same_optional_refl (some a) = same_fields_refl a

same_pending_input_refl : (a : PendingInput) → same_pending_input a a ≡ true
unfolding same_pending_input
same_pending_input_refl a =
    ground (arith, same_optional_refl a.input_requests, same_optional_refl a.meta)

same_reply_refl : (a : InputReply) → same_reply a a ≡ true
unfolding same_reply
same_reply_refl a = ground (arith, same_pending_input_refl a.pending, same_fields_refl a.responses)

same_round_refl : (a : InputRound) → same_round a a ≡ true
unfolding same_round
same_round_refl a = ground arith

same_hashed_action_refl : (a : HashedAction) → same_hashed_action a a ≡ true
unfolding same_hashed_action
same_hashed_action_refl a = ground arith

same_decision_refl : (d : Decision) → same_decision d d ≡ true
unfolding same_decision
same_decision_refl accept = refl
same_decision_refl decline = refl

pub same_outcome_refl : (o : ReviewOutcome) → same_outcome o o ≡ true
unfolding same_outcome
same_outcome_refl waiting = refl
same_outcome_refl (dispatching a) = eq_refl a
same_outcome_refl (declined a) = eq_refl a
same_outcome_refl (input_waiting r p) = ground (arith, same_round_refl r, same_pending_input_refl p)
same_outcome_refl (input_resuming r p a) = ground (arith, same_round_refl r, same_reply_refl p)
same_outcome_refl (review_waiting r x p) =
    ground (arith, same_round_refl r, same_hashed_action_refl x, same_pending_input_refl p)
same_outcome_refl (review_resuming r x p a d) =
    ground
      (arith, same_round_refl r, same_hashed_action_refl x, same_reply_refl p, same_decision_refl d)
same_outcome_refl (expiry_resuming r p) = ground (arith, same_round_refl r, same_reply_refl p)
same_outcome_refl (expiry_completed t) = eq_refl t
same_outcome_refl (completed a t) = ground arith
