-- ===== src/Mcp/Inputs.antt =====
-- packages/hcp-runner/src/mcp/proxy-inputs.ts: McpProxyInputs, with mcpInputExpiresAt of
-- input-required.ts. `now` is this.now(), the same at each reading of one call. What comes from the
-- MCP client library and the platform is in `Parts`.
pub mod Bounded
pub mod OneUse
mod Tests
use harness_control_protocol.Base.{
  ℕ, ◌+◌, ◌-◌, ◌*◌, String, Bool, true, false, not, ◌&&◌, ◌||◌, Option, none, some, List, [], ◌∷◌,
  leb, ltb, ◌==◌, if◌then◌else◌, string_eq, length, Result, ok, err, throw_if, ◌>>=◌, ◌>>◌, min,
}
use harness_control_protocol.Base.Dict.{Dict, lookup, insert, erase}

-- The deadline that the server proposes under `_meta`, if it is a timestamp.
pub data Hint : Type 0 where
  no_hint malformed_hint : Hint
  hint_at : ℕ → Hint

pub data InputError : Type 0 where
  invalid_input at_capacity deadline_expired invalid_timestamp no_continuation foreign_continuation
        invalid_responses :
      InputError

-- `pending` is the JSON text of a parsed McpPendingInput, and `responses` that of an answer.
-- parse_pending is parseMcpPendingInput, bytes_of Buffer.byteLength of the text, hint_of the field of
-- `_meta`, and answers_ok the schema mcpInputReplySchema on the two.
pub record Parts : Type 0 where
  pub parse_pending : String → Option String
  pub bytes_of : String → ℕ
  pub hint_of : String → Hint
  pub answers_ok : String → String → Bool

pub record Entry : Type 0 where
  pub scope : String
  pub action : String
  pub pending : String
  pub expires : ℕ
  pub bytes : ℕ

pub record Inputs : Type 0 where
  pub pending : Dict String Entry
  pub bytes : ℕ

pub record Reply : Type 0 where
  pub pending : String
  pub responses : String

-- The argument `state` of consume.
pub data Continuation : Type 0 where
  absent not_text : Continuation
  key_text : String → Continuation

unfoldable pub no_inputs : Inputs
no_inputs = record { pending = []; bytes = 0 }

unfoldable pub remove_found : String → Option Entry → Inputs → Inputs
remove_found key none st = st
remove_found key (some e) st = record { pending = erase key st.pending; bytes = st.bytes - e.bytes }

-- #remove
unfoldable pub remove : String → Inputs → Inputs
unfolding remove_found
remove key st = remove_found key (lookup key st.pending) st

-- The loops that remove the entries with a property, over the entries at the start of the loop.
unfoldable pub remove_each : (Entry → Bool) → Dict String Entry → Inputs → Inputs
unfolding remove
remove_each p [] st = st
remove_each p ((key, e) ∷ rest) st = remove_each p rest (if p e then remove key st else st)

abbrev pub has_expired : ℕ → Entry → Bool
has_expired now e = leb e.expires now

-- #expire
unfoldable pub expire : ℕ → Inputs → Inputs
unfolding remove_each
expire now st = remove_each (has_expired now) st.pending st

-- mcpInputExpiresAt
unfoldable pub mcp_input_expires_at : Hint → ℕ → Result InputError ℕ
mcp_input_expires_at no_hint caller_expiry = ok caller_expiry
mcp_input_expires_at malformed_hint caller_expiry = err invalid_timestamp
mcp_input_expires_at (hint_at at) caller_expiry = ok (min caller_expiry at)

unfoldable pub parsed : Option String → Result InputError String
parsed none = err invalid_input
parsed (some pending) = ok pending

unfoldable pub max_bytes : ℕ
max_bytes = 8 * 1024 * 1024

-- retain behind #expire. `key` is randomUUID() and `action` is actionHash of the tool and its
-- arguments.
unfoldable pub retain_in :
    Parts → String → String → String → String → ℕ → Inputs → Result InputError Inputs
unfolding parsed mcp_input_expires_at max_bytes
retain_in parts scope action input key now st = do
  pending ← parsed (parts.parse_pending input)
  let bytes = parts.bytes_of pending
  throw_if (leb 128 (length st.pending) || ltb max_bytes (st.bytes + bytes)) at_capacity
  expires ← mcp_input_expires_at (parts.hint_of pending) (now + 5 * 60000)
  throw_if (leb expires now) deadline_expired
  let entry : Entry = record {
    scope = scope;
    action = action;
    pending = pending;
    expires = expires;
    bytes = bytes;
  }
  ok (record { pending = insert key entry st.pending; bytes = st.bytes + bytes })

-- A call leaves the inputs changed by #expire when it throws.
unfoldable pub retain :
    Parts → String → String → String → String → ℕ → Inputs → Inputs × Result InputError String
unfolding retain_in expire
retain parts scope action input key now st =
    elim (retain_in parts scope action input key now (expire now st)) [
      | err thrown ↦ (expire now st, err thrown)
      | ok next ↦ (next, ok key)
    ]

unfoldable pub or_empty : Option String → String
or_empty none = "{}"
or_empty (some responses) = responses

unfoldable pub consume_found :
    Parts → String → String → Option Entry → Option String → Result InputError Reply
unfolding or_empty
consume_found parts scope action none responses = err foreign_continuation
consume_found parts scope action (some e) responses = do
  throw_if (not (e.scope == scope) || not (e.action == action)) foreign_continuation
  throw_if (not (parts.answers_ok e.pending (or_empty responses))) invalid_responses
  ok (record { pending = e.pending; responses = or_empty responses })

-- The continuation that a state names.
unfoldable pub consume_key :
    Parts
    → String
    → String
    → String
    → Option String
    → Inputs
    → Inputs × Result InputError (Option Reply)
unfolding consume_found remove
consume_key parts scope action key responses st =
    elim (consume_found parts scope action (lookup key st.pending) responses) [
      | err thrown ↦ (st, err thrown)
      | ok reply ↦ (remove key st, ok (some reply))
    ]

unfoldable pub consume :
    Parts
    → String
    → String
    → Continuation
    → Option String
    → ℕ
    → Inputs
    → Inputs × Result InputError (Option Reply)
unfolding consume_key expire
consume parts scope action absent none now st = (expire now st, ok none)
consume parts scope action absent (some responses) now st = (expire now st, err no_continuation)
consume parts scope action not_text responses now st = (expire now st, err no_continuation)
consume parts scope action (key_text key) responses now st =
    consume_key parts scope action key responses (expire now st)

unfoldable pub close_scope : String → Inputs → Inputs
unfolding remove_each
close_scope scope st = remove_each (λ e. e.scope == scope) st.pending st

unfoldable pub close : Inputs → Inputs
close st = record { pending = []; bytes = 0 }

-- The calls of an owner in any order.
pub data Call : Type 0 where
  retained : String → String → String → String → ℕ → Call
  consumed : String → String → Continuation → Option String → ℕ → Call
  scope_closed : String → Call
  all_closed : Call

unfoldable pub call : Parts → Call → Inputs → Inputs
unfolding retain consume close_scope close
call parts (retained scope action input key now) st = (retain parts scope action input key now st).0
call parts (consumed scope action state responses now) st =
    (consume parts scope action state responses now st).0
call parts (scope_closed scope) st = close_scope scope st
call parts all_closed st = close st

unfoldable pub calls : Parts → List Call → Inputs → Inputs
unfolding call
calls parts [] st = st
calls parts (c ∷ cs) st = calls parts cs (call parts c st)
