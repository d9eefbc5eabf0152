-- ===== src/State/Review/Checks.antt =====
-- packages/hcp-runner/src/state/mcp-review.ts: the checks of validateMcpTransition on what a review says of
-- its event, of an operation it delegates and of its deadline.
use harness_control_protocol.Base.{
  String, Bool, false, not, ◌&&◌, ◌||◌, Option, none, some, leb, ltb, ◌==◌, string_eq, nat_eq,
  option_eq, Result, ok, err, ◌>>=◌, ◌>>◌, throw_if, if◌then◌else◌,
}
use harness_control_protocol.Protocol.Json.{Json, text, obj, Fields, end, field}
use harness_control_protocol.Protocol.DeepEqual.{deep_equal, get_field, size_fields}
use harness_control_protocol.Protocol.Event.{Event}
use harness_control_protocol.Mcp.Inputs.{
  Hint, no_hint, malformed_hint, hint_at, mcp_input_expires_at,
}
use harness_control_protocol.State.Work.{is_some}
use harness_control_protocol.State.Review.Same.{same_value}
use harness_control_protocol.State.Review.{
  Decision, accept, decline, PendingInput, InputReply, InputRound, HashedAction, review_waiting,
  review_resuming, McpReview, Platform,
}
use harness_control_protocol.State.Review.Schema.{
  Delegated, ReviewAction, parse_delegated, read_action, action_bytes_ok, is_text,
}

-- `key in event.data ? event.data[key] : undefined`
unfoldable pub data_field : String → Event → Option Json
unfolding get_field
data_field key e = elim e.payload [ obj fs ↦ get_field key fs | _ ↦ none ]

-- `key in event.data && event.data[key] === s`
unfoldable pub data_is : String → String → Event → Bool
unfolding data_field is_text
data_is key s e = is_text (λ t. t == s) (data_field key e)

unfoldable pub text_value : Option String → Option Json
text_value none = none
text_value (some s) = some (text s)

unfoldable pub object_value : Option Fields → Option Json
object_value none = none
object_value (some fs) = some (obj fs)

-- The first two checks.
unfoldable pub check_attribution : McpReview → Option Event → Result String (Unit {0})
unfolding data_field same_value text_value object_value
check_attribution w none = ok tt
check_attribution w (some e) = do
  throw_if (not (same_value (data_field "native_work_id" e) (text_value w.native_work_id)))
      "MCP review event changed its native work attribution."
  throw_if (not (same_value (data_field "native_request" e) (object_value w.native_request)))
      "MCP review event changed its verified native observation."

-- `?? {}`
unfoldable pub or_empty_object : Option Fields → Fields
or_empty_object none = end
or_empty_object (some fs) = fs

unfoldable pub or_throw {ℓ} : {A : Type ℓ} → Option A → Result String A
or_throw none = err "Invalid value."
or_throw (some a) = ok a

unfoldable pub review_key : String
review_key = "io.harness-control/review-v1"

-- isDeepStrictEqual(action, {...root, delegated_subject: subject})
unfoldable pub same_review_action : ReviewAction → ReviewAction → Json → Bool
unfolding deep_equal
same_review_action action root subject =
    action.attachment_name == root.attachment_name
    && action.tool_name == root.tool_name
    && deep_equal action.arguments root.arguments
    && elim action.delegated_subject [ none ↦ false | some s ↦ deep_equal s subject ]

unfoldable pub decision_text : Decision → String
decision_text accept = "accept"
decision_text decline = "decline"

-- The replies that a decision asks for.
unfoldable pub expected_responses : String → InputRound → HashedAction → Decision → Fields
expected_responses id r a accept =
    field id
      (obj (
        field "action" (text "accept") (
          field "content"
            (obj (
              field "request_id" (text r.input_request_id)
                (field "action_json" (text a.action_json) end)))
            end)))
      end
expected_responses id r a decline = field id (obj (field "action" (text "decline") end)) end

-- Each request, answered by {action: "cancel"}.
unfoldable pub cancelled : Fields → Fields
cancelled end = end
cancelled (field key v fs) = field key (obj (field "action" (text "cancel") end)) (cancelled fs)

unfoldable pub cancels_on_expiry : PendingInput → Bool
unfolding get_field or_empty_object is_text
cancels_on_expiry pending =
    is_text (λ t. t == "cancel")
      (get_field "com.prompt2agent/input-on-expiry" (or_empty_object pending.meta))

-- isDeepStrictEqual of two pending inputs.
unfoldable pub equal_pending : PendingInput → PendingInput → Bool
unfolding same_value object_value
equal_pending a b =
    same_value (object_value a.input_requests) (object_value b.input_requests)
    && same_value (object_value a.meta) (object_value b.meta)
    && a.request_state == b.request_state

-- The same input, which is answered or has expired.
unfoldable pub same_turn_of_input : InputRound → InputRound → Bool
same_turn_of_input now old =
    now.input_request_id == old.input_request_id
    && now.protocol_round == old.protocol_round
    && now.review_actor_id == old.review_actor_id

module _ (platform : Platform) where
  -- The checks of a review that another operation delegates.
  unfoldable pub check_delegated_pending :
      McpReview → HashedAction → PendingInput → Result String Delegated
  unfolding or_throw parse_delegated get_field or_empty_object review_key read_action
      same_review_action action_bytes_ok size_fields
  check_delegated_pending w a pending = do
    delegated ← or_throw (parse_delegated (get_field review_key (or_empty_object pending.meta)))
    root ← or_throw (read_action platform w.action.action_json)
    action ← or_throw (read_action platform a.action_json)
    throw_if
        (is_some root.delegated_subject
          || not (same_review_action action root delegated.subject)
          || not (action_bytes_ok platform a.action_json)
          || not (platform.sha256 a.action_json == a.action_hash)
          || not (size_fields (or_empty_object pending.input_requests) == 1)
          || not (
              is_some
                (get_field delegated.input_request_id (or_empty_object pending.input_requests))))
        "Delegated MCP review differs from its parent operation or pending subject."
    ok delegated

  unfoldable pub check_delegated : McpReview → Result String (Unit {0})
  unfolding check_delegated_pending expected_responses deep_equal
  check_delegated w = elim w.outcome [
    | review_waiting r a pending ↦ do delegated ← check_delegated_pending w a pending; ok tt
    | review_resuming r a reply actor decision ↦ do
      delegated ← check_delegated_pending w a reply.pending
      throw_if
          (not (
            deep_equal (obj reply.responses)
              (obj (expected_responses delegated.input_request_id r a decision))))
          "Delegated MCP reply differs from its recorded decision."
    | _ ↦ ok tt
  ]

  -- The server's deadline, if it gives one.
  unfoldable pub deadline_hint : PendingInput → Hint
  unfolding get_field or_empty_object
  deadline_hint pending =
      elim (get_field "com.prompt2agent/input-deadline" (or_empty_object pending.meta)) [
        | none ↦ no_hint
        | some (text t) ↦ elim (platform.parse_date t) [
          | none ↦ malformed_hint
          | some at ↦ hint_at at
        ]
        | some _ ↦ malformed_hint
      ]

  -- The end of a wait at the server's deadline: the time of the review itself has not come.
  unfoldable pub ends_wait :
      String → InputRound → PendingInput → InputRound → InputReply → Bool → Result String Bool
  unfolding cancels_on_expiry or_throw deadline_hint mcp_input_expires_at equal_pending cancelled
      deep_equal same_turn_of_input or_empty_object
  ends_wait expires_at old pending now reply has_event =
      if has_event || not (cancels_on_expiry pending) then ok false else do
        caller_expiry ← or_throw (platform.parse_date expires_at)
        elim (mcp_input_expires_at (deadline_hint pending) caller_expiry) [
          | err _ ↦ err "Invalid value."
          | ok deadline ↦ ok (
              leb deadline platform.now
              && ltb platform.now caller_expiry
              && same_turn_of_input now old
              && equal_pending reply.pending pending
              && deep_equal (obj reply.responses)
                  (obj (cancelled (or_empty_object pending.input_requests))))
        ]
