-- ===== src/Sdk/Sessions/Lifecycle.antt =====
-- A session that nothing disturbs is opened and closed.
use harness_control_protocol.Base.{
  ℕ, String, ◌≡◌, All, refl, ap, ◌∙◌, Bool, true, false, Option, none, some, List, string_eq,
  nat_eq, arith, eq_refl, Bool-cases, inl, inr, if◌then◌else◌, ok, find,
}
use harness_control_protocol.Base.Dict.{lookup, insert, lookup-insert_self, lookup-erase}
use harness_control_protocol.Sdk.Sessions.{
  reserved, active, closing, closed, Payload, Observed, Session, Token, open_token, close_token,
  Registry, Reply, is_closed, is_pending, with_phase, put_session, is_ready, same_token,
}
use harness_control_protocol.Sdk.Sessions.Calls.{
  holds, has_authority, end_call, succeed, check, await_event, opens, closes, open_configured,
  open_awaited, open_record, open_begin, open_end, close_awaited, close_ending, close_record,
  close_begin, close_end, changes_identity, configuration, new_session, claimed,
}
use harness_control_protocol.Sdk.Sessions.Watched.{
  Works, IsQuiet, quiet-Survives, observe_all, observe_all-Works, closing-Survives,
}
use harness_control_protocol.Sdk.Sessions.Steps.{IsOpened, open_begin-IsOpened}

-- What the awaits bring when nothing fails: the acknowledgement, and the awaited event.
pub record IsGood (p : Observed → Bool) (reply : Reply) (e : Observed) : Type 0 where
  pub acknowledged : reply.sent ≡ ok tt
  pub running : reply.is_aborted ≡ false
  pub event : find p reply.seen ≡ some e

same_token_refl : (t : Token) → same_token t t ≡ true
unfolding same_token
same_token_refl (open_token n) = eq_refl n
same_token_refl (close_token n) = eq_refl n

authority :
    (id : String) (t : Token) (r : Session) (st : Registry)
    → Works id t r st
    → has_authority id t st ≡ true
unfolding has_authority holds
authority id t r st w = rw (w.token, same_token_refl t) refl

-- The session as the call leaves it, and no token.
record IsSettled (id : String) (r : Session) (st : Registry) : Type 0 where
  there : lookup id st.records ≡ some r
  free : lookup id st.mutations ≡ none
  usable : st.is_disposed ≡ false

succeed-IsSettled :
    (id : String) (t : Token) (r after : Session) (st : Registry)
    → Works id t r st
    → IsSettled id after (succeed id t after st).0
succeed-IsSettled id t r after st w =
    let mine : has_authority id t (put_session id after st) ≡ true =
      authority id t after (put_session id after st) (record {
        there = unfold put_session in lookup-insert_self id after st.records;
        token = unfold put_session in w.token;
        usable = unfold put_session in w.usable;
      }) in
    unfold succeed end_call in
    rw mine (record {
      there = unfold put_session in lookup-insert_self id after st.records;
      free = unfold put_session in ground (arith, lookup-erase id id st.mutations);
      usable = unfold put_session in w.usable;
    })

-- The session that open configures.
unfoldable pub opened_session : Payload → List Observed → Observed → Session
opened_session p log e =
    let c = configuration p log e in
    with_phase (if is_ready c p.execution_profile then active else reserved)
      (record (new_session p) { configured = some c })

open_end-succeed :
    (readiness : Option String) (p : Payload) (n : ℕ) (reply : Reply) (log : List Observed)
    (e : Observed) (st : Registry)
    → Works p.session_id (open_token n) (new_session p) st
    → IsGood (opens p readiness) reply e
    → changes_identity p (configuration p log e) ≡ false
    → open_end readiness p.session_id n reply log st
      ≡ succeed p.session_id (open_token n) (opened_session p log e) st
open_end-succeed readiness p n reply log e st w good same =
    let got : open_awaited p.session_id (new_session p) readiness (open_token n) reply st ≡ ok e =
      unfold open_awaited check await_event in
      rw
        (
          good.acknowledged,
          good.event,
          good.running,
          authority p.session_id (open_token n) (new_session p) st w,
        )
        refl in
    unfold open_end in
    rw (w.there, got, open_record) (unfold open_configured opened_session in rw same refl)

close_end-succeed :
    (id : String) (n : ℕ) (r : Session) (reply : Reply) (e : Observed) (st : Registry)
    → Works id (close_token n) r st
    → IsGood (closes id r.payload) reply e
    → close_end id n reply st
      ≡ succeed id (close_token n) (record r { phase = closed; exited = some e }) st
close_end-succeed id n r reply e st w good =
    let got : close_awaited id r (close_token n) reply st ≡ ok e =
      unfold close_awaited check await_event in
      rw (good.acknowledged, good.event, good.running, authority id (close_token n) r st w) refl in
    unfold close_end in rw (w.there, got, close_ending) refl

open_begin-Works :
    (p : Payload) (readiness : Option String) (n : ℕ) (st after : Registry)
    → open_begin p readiness false n st ≡ ok after
    → Works p.session_id (open_token n) (new_session p) after
open_begin-Works p readiness n st after h =
    let o : IsOpened p n st after = open_begin-IsOpened p readiness false n st after h in
    let usable : st.is_disposed ≡ false = unfold open_begin in ground (arith, h) in
    record {
      there =
          ap (λ a. lookup p.session_id a.records) o.result
          ∙ unfold put_session in lookup-insert_self p.session_id (new_session p) st.records;
      token =
          ap (λ a. lookup p.session_id a.mutations) o.result
          ∙ unfold put_session in lookup-insert_self p.session_id (open_token n) st.mutations;
      usable = ap (λ a. a.is_disposed) o.result ∙ unfold put_session in usable;
    }

-- What close makes of a session at its beginning and at its end.
abbrev closing_session : Session → Session
closing_session r = record r { phase = closing; close_attempted = true }

unfoldable pub closed_session : Session → Observed → Session
closed_session r x = record r { phase = closed; close_attempted = true; exited = some x }

closing_registry : String → ℕ → Session → Registry → Registry
closing_registry id m r st =
    put_session id (closing_session r)
      (record st { mutations = insert id (close_token m) st.mutations })

close_begin-claimed :
    (id : String) (m : ℕ) (r : Session) (st : Registry)
    → IsSettled id r st
    → is_closed r.phase ≡ false
    → is_pending r.phase ≡ false
    → r.close_attempted ≡ false
    → close_begin id false m st ≡ ok (claimed (closing_registry id m r st))
close_begin-claimed id m r st s unclosed idle unmarked =
    unfold close_begin close_record closing_registry in
    rw (s.usable, s.there, unclosed, idle, unmarked) refl

closing-Works :
    (id : String) (m : ℕ) (r : Session) (st : Registry)
    → IsSettled id r st
    → Works id (close_token m) (closing_session r) (closing_registry id m r st)
closing-Works id m r st s = record {
  there =
      unfold closing_registry put_session in lookup-insert_self id (closing_session r) st.records;
  token = unfold closing_registry put_session in lookup-insert_self id (close_token m) st.mutations;
  usable = unfold closing_registry put_session in s.usable;
}

opened_session-IsIdle :
    (p : Payload) (log : List Observed) (e : Observed)
    → (is_closed (opened_session p log e).phase ≡ false)
      × (is_pending (opened_session p log e).phase ≡ false)
unfolding opened_session is_closed is_pending
opened_session-IsIdle p log e =
    elim (Bool-cases (is_ready (configuration p log e) p.execution_profile)) [
      | inl ready ↦ rw ready (refl, refl)
      | inr unready ↦ rw unready (refl, refl)
    ]

-- open returns the session, close sends its command, and its end returns the session as closed, which
-- the registry then has, without a token. In both waits the registry observes what the wait sees.
pub record OpensAndCloses (readiness : Option String) (p : Payload) (n m : ℕ)
    (reply exit_reply : Reply) (log : List Observed) (e x : Observed) (begun : Registry)
    : Type 0 where
  pub opened_at : Registry
  pub opened :
      open_end readiness p.session_id n reply log (observe_all reply.seen begun)
      ≡ (opened_at, ok (opened_session p log e))
  pub closing_at : Registry
  pub claims : close_begin p.session_id false m opened_at ≡ ok (claimed closing_at)
  pub closed_at : Registry
  pub returned :
      close_end p.session_id m exit_reply (observe_all exit_reply.seen closing_at)
      ≡ (closed_at, ok (closed_session (opened_session p log e) x))
  pub kept :
      lookup p.session_id closed_at.records ≡ some (closed_session (opened_session p log e) x)
  pub free : lookup p.session_id closed_at.mutations ≡ none

-- If open sends its command, and the registry then observes every event that its wait sees, none of
-- them an exit of the session or the loss of its owner; the command is acknowledged, the awaited
-- event is among them, the call is not aborted, and a ready configuration shows no other
-- conversation than the expected: then open returns the configured session. If close begins next,
-- it sends its command; and if the registry observes every event that its wait sees, the command is
-- acknowledged, the exit is among them, and the call is not aborted, then close returns the session
-- as closed, which the registry then has, without a current token.
pub open_end-close_end :
    (readiness : Option String) (p : Payload) (n m : ℕ) (reply exit_reply : Reply)
    (log : List Observed) (e x : Observed) (st begun : Registry)
    → open_begin p readiness false n st ≡ ok begun
    → IsGood (opens p readiness) reply e
    → All (IsQuiet p.session_id) reply.seen
    → changes_identity p (configuration p log e) ≡ false
    → IsGood (closes p.session_id p) exit_reply x
    → OpensAndCloses readiness p n m reply exit_reply log e x begun
open_end-close_end readiness p n m reply exit_reply log e x st begun h good quiet same exit =
    let id : String = p.session_id in
    let r : Session = opened_session p log e in
    let watched : Registry = observe_all reply.seen begun in
    let works : Works id (open_token n) (new_session p) watched =
      observe_all-Works id (open_token n) (new_session p) reply.seen begun
        (open_begin-Works p readiness n st begun h)
        (quiet-Survives id (new_session p) reply.seen refl quiet) in
    let after : Registry = (succeed id (open_token n) r watched).0 in
    let settled : IsSettled id r after =
      succeed-IsSettled id (open_token n) (new_session p) r watched works in
    let (unclosed, idle) = opened_session-IsIdle p log e in
    let closing_at : Registry = closing_registry id m r after in
    let last : Registry = observe_all exit_reply.seen closing_at in
    let closing_works : Works id (close_token m) (closing_session r) last =
      observe_all-Works id (close_token m) (closing_session r) exit_reply.seen closing_at
        (closing-Works id m r after settled)
        (closing-Survives id (closing_session r) exit_reply.seen refl) in
    let final : Session = closed_session r x in
    let done = succeed-IsSettled id (close_token m) (closing_session r) final last closing_works in
    record {
      opened_at = after;
      opened =
          open_end-succeed readiness p n reply log e watched works good same
          ∙ unfold succeed in refl;
      closing_at = closing_at;
      claims =
          close_begin-claimed id m r after settled unclosed idle (unfold opened_session in refl);
      closed_at = (succeed id (close_token m) final last).0;
      returned =
          close_end-succeed id m (closing_session r) exit_reply x last closing_works
            (unfold opened_session in exit)
          ∙ unfold succeed closed_session in refl;
      kept = done.there;
      free = done.free;
    }
