-- ===== src/Sdk/Sessions/Steps.antt =====
-- What every step of a registry does to the sessions that are there, and which sessions it adds.
use harness_control_protocol.Base.{
  ℕ, ◌<◌, String, ◌≡◌, refl, sym, subst, Bool, true, false, Option, none, some, string_eq, arith,
  Option-cases, Result-cases, inl, inr, ok, length,
}
use harness_control_protocol.Base.Dict.{lookup, insert}
use harness_control_protocol.Sdk.Sessions.{
  closing, Payload, Session, open_token, close_token, Registry, is_closed, put_session,
}
use harness_control_protocol.Sdk.Sessions.Calls.{
  shares_group, new_session, open_begin, close_record, close_begin, already, claimed,
}
use harness_control_protocol.Sdk.Sessions.Runs.{
  Step, observed, lost, open_begun, open_ended, close_begun, close_ended, call_aborted, disposed,
  step, begun,
}
use harness_control_protocol.Sdk.Sessions.Owned.{
  Owned, Evolves, put_session-Evolves, claim-Owned, phase_of,
}
use harness_control_protocol.Sdk.Sessions.Observes.{
  Moves, Moves-refl, observe-Moves, lose-Moves, dispose-Moves,
}
use harness_control_protocol.Sdk.Sessions.Settles.{fence-Moves, open_end-Moves, close_end-Moves}

-- close sets the phase and the mark, and claims its token.
pub record IsClaimed (id : String) (n : ℕ) (st after : Registry) : Type 0 where
  pub session : Session
  pub there : lookup id st.records ≡ some session
  pub unclosed : is_closed session.phase ≡ false
  pub unmarked : session.close_attempted ≡ false
  pub result :
      after
      ≡ put_session id
          (record session { phase = closing; close_attempted = true })
          (record st { mutations = insert id (close_token n) st.mutations })

pub close_begin-IsClaimed :
    (id : String) (is_aborted : Bool) (n : ℕ) (st after : Registry)
    → close_begin id is_aborted n st ≡ ok (claimed after)
    → IsClaimed id n st after
unfolding close_begin close_record
close_begin-IsClaimed id is_aborted n st after h = elim (Option-cases (lookup id st.records)) [
  | inl absent ↦ absurd (ground (arith, h, absent))
  | inr (r, there) ↦ record {
    session = r;
    there = there;
    unclosed = ground (arith, h, there);
    unmarked = ground (arith, h, there);
    result = ground (arith, h, there);
  }
]

claimed-Moves :
    (id : String) (n : ℕ) (st after : Registry)
    → Owned st
    → IsClaimed id n st after
    → Moves st after
unfolding Evolves
claimed-Moves id n st after h c =
    let next : Session = record c.session { phase = closing; close_attempted = true } in
    let with_token : Registry = record st { mutations = insert id (close_token n) st.mutations } in
    subst (Moves st) (sym c.result) (record {
      owned = claim-Owned id next (close_token n) st (unfold phase_of in refl) h;
      evolves = put_session-Evolves id c.session next with_token c.there (record {
        same_payload = refl;
        stays_closed = λ p. absurd (ground (arith, p, c.unclosed));
        stays_attempted = λ p. refl;
      });
    })

close_begun-Moves :
    (id : String) (is_aborted : Bool) (n : ℕ) (st : Registry)
    → Owned st
    → Moves st (begun (close_begin id is_aborted n st) st)
close_begun-Moves id is_aborted n st h = elim (Result-cases (close_begin id is_aborted n st)) [
  | inl (_, failed) ↦ rw failed (Moves-refl st h)
  | inr (already r, found) ↦ rw found (Moves-refl st h)
  | inr (claimed after, found) ↦
      rw found
        (claimed-Moves id n st after h (close_begin-IsClaimed id is_aborted n st after found))
]

-- open adds a session whose group has no other that is not closed.
pub record IsOpened (p : Payload) (n : ℕ) (st after : Registry) : Type 0 where
  pub absent : lookup p.session_id st.records ≡ none
  pub alone : shares_group p.continuation_group_key st ≡ false
  pub few : length st.records < 4096
  pub result :
      after
      ≡ put_session p.session_id
          (new_session p)
          (record st { mutations = insert p.session_id (open_token n) st.mutations })

pub open_begin-IsOpened :
    (p : Payload) (readiness : Option String) (is_aborted : Bool) (n : ℕ) (st after : Registry)
    → open_begin p readiness is_aborted n st ≡ ok after
    → IsOpened p n st after
unfolding open_begin
open_begin-IsOpened p readiness is_aborted n st after h = record {
  absent = ground (arith, h);
  alone = ground (arith, h);
  few = ground (arith, h);
  result = ground (arith, h);
}

-- A step either keeps the sessions as they are, up to their phases and events, or opens one.
pub data Changes (st after : Registry) : Type 0 where
  moved : Moves st after → Changes st after
  opened : (p : Payload) (n : ℕ) → IsOpened p n st after → Changes st after

pub step-Changes : (s : Step) (st : Registry) → Owned st → Changes st (step s st)
unfolding step
step-Changes (observed e) st h = moved (observe-Moves e st h)
step-Changes (lost which) st h = moved (lose-Moves which st h)
step-Changes (open_begun p readiness is_aborted n) st h =
    elim (Result-cases (open_begin p readiness is_aborted n st)) [
      | inl (_, failed) ↦ rw failed (moved (Moves-refl st h))
      | inr (after, done) ↦
          rw done (opened p n (open_begin-IsOpened p readiness is_aborted n st after done))
    ]
step-Changes (open_ended readiness id n reply log) st h =
    moved (open_end-Moves readiness id n reply log st h)
step-Changes (close_begun id is_aborted n) st h = moved (close_begun-Moves id is_aborted n st h)
step-Changes (close_ended id n reply) st h = moved (close_end-Moves id n reply st h)
step-Changes (call_aborted id token) st h = moved (fence-Moves id token st h)
step-Changes disposed st h = moved (dispose-Moves st h)

pub step-Owned : (s : Step) (st : Registry) → Owned st → Owned (step s st)
step-Owned s st h = elim (step-Changes s st h) [
  | moved m ↦ m.owned
  | opened p n o ↦
      subst Owned (sym o.result)
        (claim-Owned p.session_id (new_session p) (open_token n) st (unfold phase_of in refl) h)
]
