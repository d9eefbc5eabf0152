-- ===== src/State/Review/Schema.antt =====
-- packages/hcp-runner/src/state/mcp-review.ts: the schema persistedMcpReviewSchema, with the review actions of
-- packages/hcp-protocol/src/mcp-review.ts. What the schemas of other parts check (the session's start,
-- the turn, the native observation, the pending inputs with their replies) is not modelled,
-- nor that the schema of a pending input adds missing requests and drops unknown keys.
use harness_control_protocol.Base.{
  ℕ, ◌*◌, String, Bool, true, false, not, ◌&&◌, Option, none, some, List, [], ◌∷◌, leb, ltb, ◌==◌,
  string_eq, nat_eq, length, contains, any, if◌then◌else◌, ◌+◌, Collation.codes,
}
use harness_control_protocol.Protocol.Json.{Json, text, obj, Fields, end, field, utf8_bytes}
use harness_control_protocol.Protocol.DeepEqual.{get_field}
use harness_control_protocol.State.Review.{
  InputRound, HashedAction, ReviewOutcome, waiting, dispatching, declined, input_waiting,
  input_resuming, review_waiting, review_resuming, expiry_resuming, expiry_completed, completed,
  McpReview, Platform,
}

-- The length that JavaScript gives a string.
unfoldable pub units : List ℕ → ℕ
units [] = 0
units (c ∷ cs) = (if ltb c 0x10000 then 1 else 2) + units cs

-- z.string().min(1).max(most)
unfoldable pub between : ℕ → String → Bool
unfolding units
between most s = not (s == "") && leb (units (codes s)) most

unfoldable pub non_empty : String → Bool
non_empty s = not (s == "")

abbrev pub if_some {ℓ} : {A : Type ℓ} → (A → Bool) → Option A → Bool
if_some p none = true
if_some p (some a) = p a

-- The value is a text with the property.
unfoldable pub is_text : (String → Bool) → Option Json → Bool
is_text p (some (text s)) = p s
is_text p _ = false

unfoldable pub is_object : Option Json → Bool
is_object (some (obj fs)) = true
is_object _ = false

-- The keys that `.strict()` lets through.
unfoldable pub only_keys : List String → Fields → Bool
only_keys known end = true
only_keys known (field key v fs) = contains known key && only_keys known fs

unfoldable pub max_action_bytes : ℕ
max_action_bytes = 64 * 1024

-- mcpDelegatedReviewSubjectSchema
unfoldable pub subject_ok : Json → Bool
unfolding between non_empty is_text is_object only_keys get_field max_action_bytes
subject_ok (obj fs) =
    only_keys ("operation_id" ∷ "tool_name" ∷ "arguments" ∷ "binding" ∷ []) fs
    && is_text (between 256) (get_field "operation_id" fs)
    && is_text non_empty (get_field "tool_name" fs)
    && is_object (get_field "arguments" fs)
    && is_text (between max_action_bytes) (get_field "binding" fs)
subject_ok _ = false

pub record Delegated : Type 0 where
  pub input_request_id : String
  pub subject : Json

unfoldable pub delegated_of : Fields → Option Json → Option Json → Option Delegated
unfolding subject_ok between is_text only_keys get_field
delegated_of fs (some (text id)) (some subject) =
    if only_keys ("kind" ∷ "input_request_id" ∷ "subject" ∷ []) fs
      && is_text (λ kind. kind == "delegated") (get_field "kind" fs)
      && between 256 id
      && subject_ok subject
    then some (record { input_request_id = id; subject = subject })
    else none
delegated_of fs _ _ = none

-- mcpDelegatedReviewRequestSchema.parse of an optional value.
unfoldable pub parse_delegated : Option Json → Option Delegated
unfolding delegated_of get_field
parse_delegated (some (obj fs)) =
    delegated_of fs (get_field "input_request_id" fs) (get_field "subject" fs)
parse_delegated _ = none

-- McpReviewAction, whose kind is always "mcp_tool".
pub record ReviewAction : Type 0 where
  pub attachment_name : String
  pub tool_name : String
  pub arguments : Json
  pub delegated_subject : Option Json

unfoldable pub action_of : Fields → Option Json → Option Json → Option Json → Option ReviewAction
unfolding subject_ok non_empty is_text only_keys get_field
action_of fs (some (text attachment)) (some (text tool)) (some (obj arguments)) =
    if only_keys ("kind" ∷ "attachment_name" ∷ "tool_name" ∷ "arguments" ∷ "delegated_subject" ∷ [])
        fs
      && is_text (λ kind. kind == "mcp_tool") (get_field "kind" fs)
      && non_empty attachment
      && non_empty tool
      && if_some subject_ok (get_field "delegated_subject" fs)
    then some (record {
      attachment_name = attachment;
      tool_name = tool;
      arguments = obj arguments;
      delegated_subject = get_field "delegated_subject" fs;
    })
    else none
action_of fs _ _ _ = none

-- mcpReviewActionSchema.parse
unfoldable pub parse_action : Json → Option ReviewAction
unfolding action_of get_field
parse_action (obj fs) =
    action_of fs (get_field "attachment_name" fs) (get_field "tool_name" fs)
      (get_field "arguments" fs)
parse_action _ = none

module _ (platform : Platform) where
  -- mcpReviewActionSchema.parse(JSON.parse(json))
  unfoldable pub read_action : String → Option ReviewAction
  unfolding parse_action
  read_action json = elim (platform.parse_json json) [ none ↦ none | some v ↦ parse_action v ]

  -- mcpReviewActionBytes returns the text's bytes: it does not throw.
  unfoldable pub action_bytes_ok : String → Bool
  unfolding read_action utf8_bytes max_action_bytes
  action_bytes_ok json =
      not (json == "")
      && leb (utf8_bytes (codes json)) max_action_bytes
      && elim (read_action json) [ none ↦ false | some _ ↦ true ]

  unfoldable pub hash_ok : String → Bool
  hash_ok h =
      length (codes h) == 64
      && not (any (λ c. not (leb b'a' c && leb c b'f') && not (leb b'0' c && leb c b'9')) (codes h))

  unfoldable pub hashed_ok : HashedAction → Bool
  unfolding between max_action_bytes action_bytes_ok hash_ok
  hashed_ok a =
      between max_action_bytes a.action_json
      && action_bytes_ok a.action_json
      && hash_ok a.action_hash

  unfoldable pub round_ok : InputRound → Bool
  unfolding between non_empty
  round_ok r =
      between 256 r.input_request_id
      && leb 1 r.protocol_round
      && leb r.protocol_round 9
      && if_some non_empty r.review_actor_id

  unfoldable pub result_ok : String → Bool
  unfolding utf8_bytes
  result_ok json = leb (utf8_bytes (codes json)) (1024 * 1024)

  unfoldable pub outcome_ok : ReviewOutcome → Bool
  unfolding non_empty round_ok hashed_ok result_ok
  outcome_ok waiting = true
  outcome_ok (dispatching actor) = non_empty actor
  outcome_ok (declined actor) = non_empty actor
  outcome_ok (input_waiting r pending) = round_ok r
  outcome_ok (input_resuming r reply actor) = round_ok r && non_empty actor
  outcome_ok (review_waiting r a pending) = round_ok r && hashed_ok a
  outcome_ok (review_resuming r a reply actor decision) =
      round_ok r && hashed_ok a && non_empty actor
  outcome_ok (expiry_resuming r reply) = round_ok r
  outcome_ok (expiry_completed result) = result_ok result
  outcome_ok (completed actor result) = non_empty actor && result_ok result

  -- The field is absent, or the text.
  unfoldable pub text_or_absent : String → String → Fields → Bool
  unfolding get_field
  text_or_absent key s fs = elim (get_field key fs) [
    | none ↦ true
    | some v ↦ is_text (λ t. t == s) (some v)
  ]

  -- The second refinement of the schema.
  unfoldable pub native_ok : McpReview → Fields → Bool
  unfolding text_or_absent get_field is_text
  native_ok w fs =
      is_text (λ t. t == w.native_thread_id) (get_field "native_reference" fs)
      && text_or_absent "call_reference" w.native_call_id fs
      && text_or_absent "execution_reference" w.native_turn_id fs

  -- persistedMcpReviewSchema
  unfoldable pub review_ok : McpReview → Bool
  unfolding non_empty between hashed_ok outcome_ok native_ok
  review_ok w =
      non_empty w.native_thread_id
      && non_empty w.native_turn_id
      && non_empty w.native_call_id
      && if_some (between 512) w.native_work_id
      && between 256 w.request_id
      && hashed_ok w.action
      && elim (platform.parse_date w.expires_at) [ none ↦ false | some _ ↦ true ]
      && outcome_ok w.outcome
      && w.start.session_id == w.turn.session_id
      && if_some (native_ok w) w.native_request
