-- ===== src/Sdk/Sessions/Calls.antt =====
-- packages/hcp-sdk/src/native-sessions.ts: #operation with open and close. The options' deadline is in
-- what the awaits bring. `log` is connection.events.events().
use harness_control_protocol.Base.{
  ℕ, String, Bool, true, false, not, ◌&&◌, ◌||◌, Option, none, some, List, leb, ◌==◌, if◌then◌else◌,
  nat_eq, string_eq, option_eq, length, any, find, select, get_last?, Result, ok, err, throw_if,
  ◌>>=◌, ◌>>◌,
}
use harness_control_protocol.Base.Dict.{lookup, insert, values}
use harness_control_protocol.Sdk.Sessions.{
  opening, reserved, active, closing, closed, Payload, Observed, Session, Token, open_token,
  close_token, Registry, Cause, not_sent_error, command_rejected, outcome_unknown, other_error,
  Outcome, not_sent, unknown, rejected, failed_unconfirmed, Reply, is_truthy, is_closed, is_pending,
  same_token, is_ready, with_phase, put_session, release, unconfirm,
}

unfoldable pub holds : Option Token → Token → Bool
unfolding same_token
holds none token = false
holds (some t) token = same_token t token

-- this.#mutations.get(sessionId) === token
unfoldable pub has_authority : String → Token → Registry → Bool
unfolding holds
has_authority id token st = holds (lookup id st.mutations) token

unfoldable pub fence_record : String → Option Session → Registry → Registry
unfolding unconfirm is_closed
fence_record id none st = release id st
fence_record id (some r) st = if is_closed r.phase then release id st else unconfirm id r st

-- The fence of a call that has claimed its token, also the signal's listener.
unfoldable pub fence : String → Token → Registry → Registry
unfolding has_authority fence_record
fence id token st =
    if has_authority id token st then fence_record id (lookup id st.records) st else st

-- The outcome of a call that has claimed its token.
unfoldable pub outcome_of : Cause → Outcome
outcome_of command_rejected = rejected
outcome_of outcome_unknown = unknown
outcome_of not_sent_error = not_sent
outcome_of other_error = failed_unconfirmed

-- The `finally` of a call.
unfoldable pub end_call : String → Token → Registry → Registry
unfolding has_authority
end_call id token st = if has_authority id token st then release id st else st

abbrev pub Settled : Type 0
Settled = Registry × Result Outcome Session

unfoldable pub fail : String → Token → Cause → Registry → Settled
unfolding fence end_call outcome_of
fail id token cause st = (end_call id token (fence id token st), err (outcome_of cause))

unfoldable pub succeed : String → Token → Session → Registry → Settled
unfolding put_session end_call
succeed id token r st = (end_call id token (put_session id r st), ok r)

-- `check`
unfoldable pub check : String → Token → Bool → Registry → Result Cause (Unit {0})
unfolding has_authority
check id token is_aborted st = throw_if (is_aborted || not (has_authority id token st)) other_error

unfoldable pub await_event : Option Observed → Result Cause Observed
await_event none = err other_error
await_event (some e) = ok e

unfoldable pub has_open_group : String → Registry → Bool
unfolding is_closed
has_open_group key st =
    any (λ (r : Session). r.payload.continuation_group_key == some key && not (is_closed r.phase))
      (values st.records)

unfoldable pub shares_group : Option String → Registry → Bool
unfolding has_open_group
shares_group none st = false
shares_group (some key) st = not (key == "") && has_open_group key st

abbrev has_record : Option Session → Bool
has_record none = false
has_record (some _) = true

known_readiness : Option String → Bool
known_readiness none = true
known_readiness (some s) = s == "configured" || s == "conversation"

abbrev pub new_session : Payload → Session
new_session p = record {
  payload = p;
  phase = opening;
  close_attempted = false;
  configured = none;
  exited = none;
}

-- open, up to the command: every error here is one of a call that has not claimed its token.
unfoldable pub open_begin : Payload → Option String → Bool → ℕ → Registry → Result Outcome Registry
unfolding shares_group known_readiness put_session
open_begin p readiness is_aborted n st = do
  throw_if (st.is_disposed || is_aborted) not_sent
  throw_if
      (not (is_truthy p.execution_profile) || p.has_first_turn || not (known_readiness readiness))
      not_sent
  throw_if (has_record (lookup p.session_id st.records) || leb 4096 (length st.records)) not_sent
  throw_if (shares_group p.continuation_group_key st) not_sent
  ok (
      put_session p.session_id (new_session p)
        (record st { mutations = insert p.session_id (open_token n) st.mutations }))

-- The event that open waits for.
unfoldable pub opens : Payload → Option String → Observed → Bool
unfolding is_ready
opens p readiness e =
    e.session_id == p.session_id
    && e.event_type == "session.configured"
    && e.execution_profile == p.execution_profile
    && (readiness == some "configured" || is_ready e p.execution_profile)

or_event : Option Observed → Observed → Observed
or_event none e = e
or_event (some latest) e = latest

-- The last ready event at or behind the awaited one, or that one.
unfoldable pub configuration : Payload → List Observed → Observed → Observed
unfolding or_event is_ready
configuration p log e =
    or_event
      (get_last? (
        select
          (λ (l : Observed).
            l.session_id == p.session_id
            && leb e.sequence l.sequence
            && is_ready l p.execution_profile)
          log))
      e

unfoldable pub changes_identity : Payload → Observed → Bool
unfolding is_ready
changes_identity p e =
    is_ready e p.execution_profile
    && is_truthy p.expected_native_reference
    && not (e.native_reference == p.expected_native_reference)

unfoldable pub open_configured : String → Token → Session → Observed → Registry → Settled
unfolding fail succeed changes_identity put_session is_ready
open_configured id token r e st =
    let next = record r { configured = some e } in
    if changes_identity r.payload e
    then fail id token other_error (put_session id next st)
    else succeed id token
        (with_phase (if is_ready e r.payload.execution_profile then active else reserved) next) st

-- What open waits for, with its last check.
unfoldable pub open_awaited :
    String → Session → Option String → Token → Reply → Registry → Result Cause Observed
unfolding opens check await_event
open_awaited id r readiness token reply st =
    reply.sent
    >> (await_event (find (opens r.payload readiness) reply.seen) >>= λ e.
        check id token reply.is_aborted st >> ok e)

unfoldable pub open_record :
    Option Session → Option String → String → ℕ → Reply → List Observed → Registry → Settled
unfolding open_awaited open_configured configuration fail
open_record none readiness id n reply log st = fail id (open_token n) other_error st
open_record (some r) readiness id n reply log st =
    elim (open_awaited id r readiness (open_token n) reply st) [
      | err cause ↦ fail id (open_token n) cause st
      | ok e ↦ open_configured id (open_token n) r (configuration r.payload log e) st
    ]

-- open, behind its awaits.
unfoldable pub open_end : Option String → String → ℕ → Reply → List Observed → Registry → Settled
unfolding open_record
open_end readiness id n reply log st =
    open_record (lookup id st.records) readiness id n reply log st

-- What close begins with: a session that is closed already, or one that is being closed.
pub data Begun : Type 0 where
  already : Session → Begun
  claimed : Registry → Begun

unfoldable pub close_record : String → ℕ → Option Session → Registry → Result Outcome Begun
unfolding is_closed is_pending put_session
close_record id n none st = err not_sent
close_record id n (some r) st =
    if is_closed r.phase
    then ok (already r)
    else if is_pending r.phase || r.close_attempted
    then err not_sent
    else ok (
        claimed (
          put_session id (record r { phase = closing; close_attempted = true })
            (record st { mutations = insert id (close_token n) st.mutations })))

-- close, up to the command.
unfoldable pub close_begin : String → Bool → ℕ → Registry → Result Outcome Begun
unfolding close_record
close_begin id is_aborted n st =
    throw_if (st.is_disposed || is_aborted) not_sent >> close_record id n (lookup id st.records) st

-- The event that close waits for.
unfoldable pub closes : String → Payload → Observed → Bool
closes id p e =
    e.session_id == id
    && e.event_type == "session.exited"
    && e.provider_instance_id == some p.provider_instance_id
    && e.native_owner_closed

unfoldable pub close_awaited : String → Session → Token → Reply → Registry → Result Cause Observed
unfolding closes check await_event
close_awaited id r token reply st =
    reply.sent
    >> (await_event (find (closes id r.payload) reply.seen) >>= λ e.
        check id token reply.is_aborted st >> ok e)

unfoldable pub close_ending : Option Session → String → ℕ → Reply → Registry → Settled
unfolding close_awaited fail succeed
close_ending none id n reply st = fail id (close_token n) other_error st
close_ending (some r) id n reply st = elim (close_awaited id r (close_token n) reply st) [
  | err cause ↦ fail id (close_token n) cause st
  | ok e ↦ succeed id (close_token n) (record r { phase = closed; exited = some e }) st
]

-- close, behind its awaits.
unfoldable pub close_end : String → ℕ → Reply → Registry → Settled
unfolding close_ending
close_end id n reply st = close_ending (lookup id st.records) id n reply st
