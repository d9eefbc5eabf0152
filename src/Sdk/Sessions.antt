-- ===== src/Sdk/Sessions.antt =====
-- packages/hcp-sdk/src/native-sessions.ts: HcpNativeSessions, the registry of the native sessions that
-- a control plane owns. `open` and `close` are cut at their awaits: what runs before the command is
-- sent, and what runs when the command is acknowledged and the awaited event is seen, or one of them
-- fails. In between, other steps of the registry run. A token is the Symbol() of one call.
pub mod Calls
pub mod Runs
pub mod Owned
pub mod Observes
pub mod Settles
pub mod Steps
pub mod Groups
pub mod Once
pub mod Watched
pub mod Lifecycle
mod Tests
use harness_control_protocol.Base.{
  ℕ, zero, suc, ◌+◌, String, Bool, true, false, not, ◌&&◌, ◌||◌, Option, none, some, List, [], ◌∷◌,
  leb, ltb, ◌==◌, if◌then◌else◌, nat_eq, string_eq, option_eq, length, any, find, select, get_last?,
  Result, ok, err, throw_if, ◌>>=◌, ◌>>◌, Eq,
}
use harness_control_protocol.Base.Dict.{Dict, lookup, insert, erase, values}

pub data Phase : Type 0 where
  opening reserved active closing closed unconfirmed : Phase

-- The fields of HcpSessionStartPayload that the registry reads.
pub record Payload : Type 0 where
  pub session_id : String
  pub provider_instance_id : String
  pub execution_profile : Option String
  pub has_first_turn : Bool
  pub continuation_group_key : Option String
  pub expected_native_reference : Option String

-- An event, with the fields of its data that the registry reads; none is a field that is no string.
pub record Observed : Type 0 where
  pub session_id : String
  pub sequence : ℕ
  pub event_type : String
  pub execution_profile : Option String
  pub native_conversation_ready : Bool
  pub native_reference : Option String
  pub provider_instance_id : Option String
  pub native_owner_closed : Bool

-- HcpNativeSessionState
pub record Session : Type 0 where
  pub payload : Payload
  pub phase : Phase
  pub close_attempted : Bool
  pub configured : Option Observed
  pub exited : Option Observed

pub data Token : Type 0 where
  open_token close_token : ℕ → Token

pub record Registry : Type 0 where
  pub records : Dict String Session
  pub mutations : Dict String Token
  pub positions : Dict String ℕ
  pub is_disposed : Bool

-- Why a call fails: what it throws itself before it sends, the connection's two errors, and others.
pub data Cause : Type 0 where
  not_sent_error command_rejected outcome_unknown other_error : Cause

pub data Outcome : Type 0 where
  not_sent unknown rejected failed_unconfirmed : Outcome

pub data Readiness : Type 0 where
  until_ready until_configured : Readiness

-- What one await brings: the acknowledgement of the command, or its error, and the events that the
-- session has had since.
pub record Reply : Type 0 where
  pub sent : Result Cause (Unit {0})
  pub seen : List Observed
  pub is_aborted : Bool

-- A string that is there and not empty.
abbrev pub is_truthy : Option String → Bool
is_truthy none = false
is_truthy (some s) = not (s == "")

unfoldable pub is_closed : Phase → Bool
is_closed closed = true
is_closed _ = false

unfoldable pub is_closing : Phase → Bool
is_closing closing = true
is_closing _ = false

unfoldable pub is_pending : Phase → Bool
is_pending opening = true
is_pending closing = true
is_pending _ = false

unfoldable pub same_token : Token → Token → Bool
same_token (open_token n) (open_token m) = n == m
same_token (close_token n) (close_token m) = n == m
same_token _ _ = false

abbrev is_some : Option String → Bool
is_some none = false
is_some (some _) = true

-- ready
unfoldable pub is_ready : Observed → Option String → Bool
is_ready e profile =
    e.event_type == "session.configured"
    && e.execution_profile == profile
    && e.native_conversation_ready
    && is_some e.native_reference

abbrev pub reference_of : Option Observed → Option String
reference_of none = none
reference_of (some e) = e.native_reference

abbrev pub with_phase : Phase → Session → Session
with_phase phase r = record r { phase = phase }

-- A write to a record that is there.
unfoldable pub put_session : String → Session → Registry → Registry
put_session id r st = record st { records = insert id r st.records }

abbrev pub release : String → Registry → Registry
release id st = record st { mutations = erase id st.mutations }

-- record.phase = "unconfirmed"; this.#mutations.delete(id);
unfoldable pub unconfirm : String → Session → Registry → Registry
unfolding put_session
unconfirm id r st = release id (put_session id (with_phase unconfirmed r) st)

-- The position that the registry has seen.
abbrev pub or_zero : Option ℕ → ℕ
or_zero none = 0
or_zero (some n) = n

-- The event shows another native conversation than the one expected or configured.
unfoldable pub is_other_conversation : Session → Observed → Bool
is_other_conversation r e =
    is_truthy r.payload.expected_native_reference
      && not (r.payload.expected_native_reference == e.native_reference)
    || is_active r.phase && not (reference_of r.configured == e.native_reference)
  where
    is_active : Phase → Bool
    is_active active = true
    is_active _ = false

abbrev pub can_configure : Phase → Bool
can_configure reserved = true
can_configure active = true
can_configure _ = false

-- The end of #observe.
unfoldable pub observe_loss : Observed → Session → Registry → Registry
unfolding unconfirm is_closing
observe_loss e r st =
    if e.event_type == "native.work.owner_lost" && not (is_closing r.phase)
    then unconfirm e.session_id r st
    else st

-- The branch of a ready session.
unfoldable pub configure : Observed → Session → Registry → Registry
unfolding unconfirm is_other_conversation observe_loss put_session
configure e r st =
    let next = record r { configured = some e; phase = active } in
    if is_other_conversation r e
    then unconfirm e.session_id r st
    else observe_loss e next (put_session e.session_id next st)

unfoldable pub observe_record : Observed → Session → Registry → Registry
unfolding unconfirm is_ready configure observe_loss is_closing
observe_record e r st =
    if e.event_type == "session.exited" && not (is_closing r.phase)
    then unconfirm e.session_id r st
    else if can_configure r.phase && is_ready e r.payload.execution_profile
    then configure e r st
    else observe_loss e r st

unfoldable pub observe_known : Observed → Option Session → Registry → Registry
unfolding is_closed observe_record
observe_known e none st = st
observe_known e (some r) st =
    if is_closed r.phase || leb e.sequence (or_zero (lookup e.session_id st.positions))
    then st
    else observe_record e r (record st { positions = insert e.session_id e.sequence st.positions })

-- #observe
unfoldable pub observe : Observed → Registry → Registry
unfolding observe_known
observe e st = observe_known e (lookup e.session_id st.records) st

-- The sessions that a lost connection names: one, or all of them.
unfoldable pub is_hit : Option String → String → Session → Bool
unfolding is_closed
is_hit which id r = (not (is_truthy which) || which == some id) && not (is_closed r.phase)

unfoldable pub lose_records : Option String → Dict String Session → Dict String Session
unfolding is_hit
lose_records which [] = []
lose_records which ((id, r) ∷ rest) =
    (id, if is_hit which id r then with_phase unconfirmed r else r) ∷ lose_records which rest

unfoldable pub lose_mutations :
    Option String → Dict String Session → Dict String Token → Dict String Token
unfolding is_hit
lose_mutations which [] m = m
lose_mutations which ((id, r) ∷ rest) m =
    lose_mutations which rest (if is_hit which id r then erase id m else m)

-- An observation that is no event: the connection, or one session of it, is lost.
unfoldable pub lose : Option String → Registry → Registry
unfolding lose_records lose_mutations
lose which st = record st {
  records = lose_records which st.records;
  mutations = lose_mutations which st.records st.mutations;
}

unfoldable pub dispose : Registry → Registry
unfolding lose_records
dispose st = record st {
  is_disposed = true;
  mutations = [];
  records = lose_records none st.records;
}
