-- ===== src/State/Review.antt =====
-- packages/hcp-runner/src/state/mcp-review.ts: the data of a pending MCP review. The values of
-- the model have their keys in the order of the schemas.
pub mod Schema
pub mod Same
pub mod Operation
pub mod Checks
pub mod Transition
use harness_control_protocol.Base.{
  ℕ, ◌*◌, String, Bool, true, false, not, ◌&&◌, ◌||◌, Option, none, some, List, [], ◌∷◌, leb, ltb,
  ◌==◌, string_eq, nat_eq, length, contains, any, if◌then◌else◌, ◌+◌, Collation.codes,
}
use harness_control_protocol.Protocol.Json.{
  Json, null, boolean, whole, number, text, arr, obj, Items, nil, cons, Fields, end, field,
  utf8_bytes,
}
use harness_control_protocol.Protocol.DeepEqual.{get_field}

pub data Decision : Type 0 where
  accept decline : Decision

-- hcpSessionStartPayloadSchema and hcpTurnSendPayloadSchema, with their other fields as JSON.
pub record StartPayload : Type 0 where
  pub session_id : String
  pub other_fields : Fields

pub record TurnPayload : Type 0 where
  pub session_id : String
  pub turn_id : String
  pub other_fields : Fields

-- McpPendingInput, whose `_meta` is `meta`.
pub record PendingInput : Type 0 where
  pub input_requests : Option Fields
  pub meta : Option Fields
  pub request_state : Option String

pub record InputReply : Type 0 where
  pub pending : PendingInput
  pub responses : Fields

-- The spread of `inputRound`.
pub record InputRound : Type 0 where
  pub input_request_id : String
  pub protocol_round : ℕ
  pub review_actor_id : Option String

-- The spread of `reviewAction`.
pub record HashedAction : Type 0 where
  pub action_json : String
  pub action_hash : String

-- The field `outcome`: actor_id comes last, before the decision or after the result.
pub data ReviewOutcome : Type 0 where
  waiting : ReviewOutcome
  dispatching declined : String → ReviewOutcome
  input_waiting : InputRound → PendingInput → ReviewOutcome
  input_resuming : InputRound → InputReply → String → ReviewOutcome
  review_waiting : InputRound → HashedAction → PendingInput → ReviewOutcome
  review_resuming : InputRound → HashedAction → InputReply → String → Decision → ReviewOutcome
  expiry_resuming : InputRound → InputReply → ReviewOutcome
  expiry_completed : String → ReviewOutcome
  completed : String → String → ReviewOutcome

pub record McpReview : Type 0 where
  pub start : StartPayload
  pub turn : TurnPayload
  pub native_thread_id : String
  pub native_turn_id : String
  pub native_call_id : String
  pub native_work_id : Option String
  pub native_request : Option Fields
  pub request_id : String
  pub action : HashedAction
  pub expires_at : String
  pub outcome : ReviewOutcome

-- JSON.parse, Date.parse of a text that is an ISO timestamp, the hexadecimal SHA-256 of a text, and
-- Date.now() of the call.
pub record Platform : Type 0 where
  pub parse_json : String → Option Json
  pub parse_date : String → Option ℕ
  pub sha256 : String → String
  pub now : ℕ
