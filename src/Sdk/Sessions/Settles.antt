-- ===== src/Sdk/Sessions/Settles.antt =====
-- What the ends of open and close do to the sessions.
use harness_control_protocol.Base.{
  ℕ, String, ◌≡◌, refl, Bool, true, false, Option, some, List, string_eq, arith, Option-cases,
  Bool-cases, Result-cases, inl, inr, if◌then◌else◌, ok, >>-eq-ok, >>=-eq-ok, ◌>>=◌, ◌>>◌, find,
  nat_eq,
}
use harness_control_protocol.Base.Dict.{lookup}
use harness_control_protocol.Sdk.Sessions.{
  opening, reserved, active, closed, Observed, Session, Token, open_token, close_token, Registry,
  Cause, Reply, other_error, is_closed, with_phase, put_session, release, is_ready, same_token,
}
use harness_control_protocol.Sdk.Sessions.Calls.{
  holds, has_authority, fence_record, fence, end_call, fail, succeed, check, await_event, opens,
  closes, open_configured, open_awaited, open_record, open_end, close_awaited, close_ending,
  close_end, changes_identity, configuration,
}
use harness_control_protocol.Sdk.Sessions.Owned.{
  Owned, Kept, Evolves, Evolves-refl, put_session-Evolves, put-release-Owned, same_phase-Owned,
  release-Owned, phase_of,
}
use harness_control_protocol.Sdk.Sessions.Observes.{Moves, Moves-refl, Moves-trans, unconfirm-Moves}

release-Moves : (id : String) (st : Registry) → Owned st → Moves st (release id st)
release-Moves id st h = record {
  owned = release-Owned id st h;
  evolves = unfold Evolves in Evolves-refl st;
}

end_call-Moves : (id : String) (t : Token) (st : Registry) → Owned st → Moves st (end_call id t st)
unfolding end_call
end_call-Moves id t st h = elim (Bool-cases (has_authority id t st)) [
  | inl mine ↦ rw mine (release-Moves id st h)
  | inr stale ↦ rw stale (Moves-refl st h)
]

pub fence-Moves : (id : String) (t : Token) (st : Registry) → Owned st → Moves st (fence id t st)
unfolding fence fence_record
fence-Moves id t st h = elim (Bool-cases (has_authority id t st)) [
  | inr stale ↦ rw stale (Moves-refl st h)
  | inl mine ↦ elim (Option-cases (lookup id st.records)) [
    | inl absent ↦ rw (mine, absent) (release-Moves id st h)
    | inr (r, there) ↦ elim (Bool-cases (is_closed r.phase)) [
      | inl done ↦ rw (mine, there, done) (release-Moves id st h)
      | inr live ↦ rw (mine, there, live) (unconfirm-Moves id r st h there live)
    ]
  ]
]

fail-Moves :
    (id : String) (t : Token) (cause : Cause) (st : Registry)
    → Owned st
    → Moves st (fail id t cause st).0
unfolding fail
fail-Moves id t cause st h =
    let fenced = fence-Moves id t st h in
    Moves-trans st (fence id t st) _ fenced (end_call-Moves id t (fence id t st) fenced.owned)

-- The current token of a call is the session's.
authority_phase :
    (id : String) (t : Token) (r : Session) (st : Registry)
    → Owned st
    → lookup id st.records ≡ some r
    → has_authority id t st ≡ true
    → r.phase ≡ phase_of t
unfolding Owned has_authority holds same_token phase_of
authority_phase id (open_token n) r st h there mine = elim (Option-cases (lookup id st.mutations)) [
  | inl free ↦ absurd (ground (arith, mine, free))
  | inr (open_token m, found) ↦
      let (q, held, phase) = h id (open_token m) found in ground (arith, held, there, phase)
  | inr (close_token m, found) ↦ absurd (ground (arith, mine, found))
]
authority_phase id (close_token n) r st h there mine =
    elim (Option-cases (lookup id st.mutations)) [
      | inl free ↦ absurd (ground (arith, mine, free))
      | inr (open_token m, found) ↦ absurd (ground (arith, mine, found))
      | inr (close_token m, found) ↦
          let (q, held, phase) = h id (close_token m) found in ground (arith, held, there, phase)
    ]

authority_put :
    (id : String) (t : Token) (r : Session) (st : Registry)
    → has_authority id t st ≡ true
    → has_authority id t (put_session id r st) ≡ true
unfolding has_authority put_session
authority_put id t r st h = h

-- A call that has its token writes its session and drops the token.
succeed-Moves :
    (id : String) (t : Token) (r after : Session) (st : Registry)
    → Owned st
    → lookup id st.records ≡ some r
    → has_authority id t st ≡ true
    → Kept r after
    → Moves st (succeed id t after st).0
succeed-Moves id t r after st h there mine kept =
    let still : has_authority id t (put_session id after st) ≡ true =
      authority_put id t after st mine in
    record {
      owned = unfold succeed end_call in rw still (put-release-Owned id after st h);
      evolves =
          unfold succeed end_call Evolves in
          rw still (unfold Evolves in put_session-Evolves id r after st there kept);
    }

check_authority :
    (id : String) (t : Token) (is_aborted : Bool) (st : Registry)
    → check id t is_aborted st ≡ ok tt
    → has_authority id t st ≡ true
unfolding check
check_authority id t is_aborted st h = ground (arith, h)

-- What an await has checked when it gives its event.
awaited_authority :
    (id : String) (t : Token) (reply : Reply) (st : Registry) (p : Observed → Bool) {e : Observed}
    → (reply.sent
        >> (await_event (find p reply.seen) >>= λ e. check id t reply.is_aborted st >> ok e))
      ≡ ok e
    → has_authority id t st ≡ true
awaited_authority id t reply st p h =
    let (_, waiting) = >>-eq-ok reply.sent _ h in
    let (e, _, checking) =
      >>=-eq-ok (await_event (find p reply.seen)) (λ e. check id t reply.is_aborted st >> ok e)
        waiting in
    let (checked, _) = >>-eq-ok (check id t reply.is_aborted st) (ok e) checking in
    check_authority id t reply.is_aborted st checked

open_awaited-has_authority :
    (id : String) (r : Session) (readiness : Option String) (t : Token) (reply : Reply)
    (st : Registry) {e : Observed}
    → open_awaited id r readiness t reply st ≡ ok e
    → has_authority id t st ≡ true
unfolding open_awaited
open_awaited-has_authority id r readiness t reply st {e} got =
    awaited_authority id t reply st (opens r.payload readiness) {e = e} got

close_awaited-has_authority :
    (id : String) (r : Session) (t : Token) (reply : Reply) (st : Registry) {e : Observed}
    → close_awaited id r t reply st ≡ ok e
    → has_authority id t st ≡ true
unfolding close_awaited
close_awaited-has_authority id r t reply st {e} got =
    awaited_authority id t reply st (closes id r.payload) {e = e} got

open_configured-Moves :
    (id : String) (n : ℕ) (r : Session) (e : Observed) (st : Registry)
    → Owned st
    → lookup id st.records ≡ some r
    → has_authority id (open_token n) st ≡ true
    → Moves st (open_configured id (open_token n) r e st).0
unfolding open_configured
open_configured-Moves id n r e st h there mine =
    let next : Session = record r { configured = some e } in
    let opening_eq : r.phase ≡ opening =
      unfold phase_of in authority_phase id (open_token n) r st h there mine in
    let unclosed : is_closed r.phase ≡ false = rw opening_eq (unfold is_closed in refl) in
    let put : Moves st (put_session id next st) = record {
      owned = same_phase-Owned id r next st there refl h;
      evolves =
          put_session-Evolves id r next st there
            (record { same_payload = refl; stays_closed = λ p. p; stays_attempted = λ p. p });
    } in
    elim (Bool-cases (changes_identity r.payload e)) [
      | inl other ↦ rw other (
          Moves-trans st (put_session id next st) _ put
            (fail-Moves id (open_token n) other_error (put_session id next st) put.owned))
      | inr same ↦ rw same (
          succeed-Moves id (open_token n) r
            (with_phase (if is_ready e r.payload.execution_profile then active else reserved) next)
            st h there mine
            (record {
              same_payload = refl;
              stays_closed = λ p. absurd (ground (arith, p, unclosed));
              stays_attempted = λ p. p;
            }))
    ]

pub open_end-Moves :
    (readiness : Option String) (id : String) (n : ℕ) (reply : Reply) (log : List Observed)
    (st : Registry)
    → Owned st
    → Moves st (open_end readiness id n reply log st).0
unfolding open_end open_record
open_end-Moves readiness id n reply log st h = elim (Option-cases (lookup id st.records)) [
  | inl absent ↦ rw absent (fail-Moves id (open_token n) other_error st h)
  | inr (r, there) ↦ elim (Result-cases (open_awaited id r readiness (open_token n) reply st)) [
    | inl (cause, failed) ↦
        rw (there, failed, open_record) (fail-Moves id (open_token n) cause st h)
    | inr (e, got) ↦
        rw (there, got, open_record)
          (open_configured-Moves id n r (configuration r.payload log e) st h there
            (open_awaited-has_authority id r readiness (open_token n) reply st {e = e} got))
  ]
]

pub close_end-Moves :
    (id : String) (n : ℕ) (reply : Reply) (st : Registry)
    → Owned st
    → Moves st (close_end id n reply st).0
unfolding close_end close_ending
close_end-Moves id n reply st h = elim (Option-cases (lookup id st.records)) [
  | inl absent ↦ rw absent (fail-Moves id (close_token n) other_error st h)
  | inr (r, there) ↦ elim (Result-cases (close_awaited id r (close_token n) reply st)) [
    | inl (cause, failed) ↦
        rw (there, failed, close_ending) (fail-Moves id (close_token n) cause st h)
    | inr (e, got) ↦
        rw (there, got, close_ending)
          (succeed-Moves id (close_token n) r (record r { phase = closed; exited = some e }) st h
            there (close_awaited-has_authority id r (close_token n) reply st {e = e} got)
            (record {
              same_payload = refl;
              stays_closed = λ p. unfold is_closed in refl;
              stays_attempted = λ p. p;
            }))
  ]
]
