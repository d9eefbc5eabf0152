-- ===== src/Sdk/Sessions/Owned.antt =====
-- A token of a call is current only while its session is opening or closing.
use harness_control_protocol.Base.{
  String, ◌≡◌, ◌≢◌, refl, ap, subst, sym, ◌∙◌, Option-cases, inl, inr, true, false, Option, none,
  some, string_eq, ◌==◌, arith,
}
use harness_control_protocol.Base.Dict.{lookup, insert, lookup-insert, lookup-erase}
use harness_control_protocol.Sdk.Sessions.{
  Phase, opening, closing, Session, Token, open_token, close_token, Registry, is_closed,
  put_session, release,
}

unfoldable pub phase_of : Token → Phase
phase_of (open_token _) = opening
phase_of (close_token _) = closing

unfoldable pub Owned : Registry → Type 0
Owned st =
    (id : String) (t : Token)
    → lookup id st.mutations ≡ some t
    → (r : Session) × (lookup id st.records ≡ some r) × (r.phase ≡ phase_of t)

-- What a step keeps of a session.
pub record Kept (before after : Session) : Type 0 where
  pub same_payload : after.payload ≡ before.payload
  pub stays_closed : is_closed before.phase ≡ true → is_closed after.phase ≡ true
  pub stays_attempted : before.close_attempted ≡ true → after.close_attempted ≡ true

unfoldable pub Follows : Option Session → Option Session → Type 0
Follows none o = o ≡ none
Follows (some r) o = (after : Session) × (o ≡ some after) × Kept r after

-- A step that adds no session and keeps those that are there.
unfoldable pub Evolves : Registry → Registry → Type 0
unfolding Follows
Evolves st after = (id : String) → Follows (lookup id st.records) (lookup id after.records)

pub Kept-refl : (r : Session) → Kept r r
Kept-refl r = record { same_payload = refl; stays_closed = λ h. h; stays_attempted = λ h. h }

pub Kept-trans : (a b c : Session) → Kept a b → Kept b c → Kept a c
Kept-trans a b c h k = record {
  same_payload = k.same_payload ∙ h.same_payload;
  stays_closed = λ p. k.stays_closed (h.stays_closed p);
  stays_attempted = λ p. k.stays_attempted (h.stays_attempted p);
}

Follows-refl : (o : Option Session) → Follows o o
unfolding Follows
Follows-refl none = refl
Follows-refl (some r) = (r, refl, Kept-refl r)

pub Evolves-refl : (st : Registry) → Evolves st st
unfolding Evolves
Evolves-refl st id = Follows-refl (lookup id st.records)

Follows-trans : (a b c : Option Session) → Follows a b → Follows b c → Follows a c
unfolding Follows
Follows-trans none b c h k = subst (λ o. Follows o c) h k
Follows-trans (some r) b c (r', found, kept) k =
    let (r'', there, kept') : Follows (some r') c = subst (λ o. Follows o c) found k in
    (r'', there, Kept-trans r r' r'' kept kept')

pub Evolves-trans : (a b c : Registry) → Evolves a b → Evolves b c → Evolves a c
unfolding Evolves
Evolves-trans a b c h k id =
    Follows-trans (lookup id a.records) (lookup id b.records) (lookup id c.records) (h id) (k id)

pub put_session-Evolves :
    (id : String) (r after : Session) (st : Registry)
    → lookup id st.records ≡ some r
    → Kept r after
    → Evolves st (put_session id after st)
unfolding Evolves put_session
put_session-Evolves id r after st found kept j = elim (string_eq.dec j id) [
  | yes same ↦
      subst (λ o. Follows o (lookup j (insert id after st.records)))
        (sym found ∙ ap (λ i. lookup i st.records) (sym same))
        (unfold Follows in (after, ground (arith, same, lookup-insert j id after st.records), kept))
  | no other ↦
      subst (Follows (lookup j st.records))
        (ground (arith, other, lookup-insert j id after st.records))
        (Follows-refl (lookup j st.records))
]

pub release-Owned : (id : String) (st : Registry) → Owned st → Owned (release id st)
unfolding Owned
release-Owned id st h j t found = h j t (ground (arith, found, lookup-erase j id st.mutations))

-- A write to a session whose token is dropped.
pub put-release-Owned :
    (id : String) (r : Session) (st : Registry)
    → Owned st
    → Owned (release id (put_session id r st))
unfolding Owned put_session
put-release-Owned id r st h j t found =
    let there : lookup j st.mutations ≡ some t =
      ground (arith, found, lookup-erase j id st.mutations) in
    let other : (j == id) ≡ false = ground (arith, found, lookup-erase j id st.mutations) in
    let (q, held, phase) = h j t there in
    (q, ground (arith, held, other, lookup-insert j id r st.records), phase)

-- A write to a session with no current token.
pub put_session-Owned :
    (id : String) (r : Session) (st : Registry)
    → lookup id st.mutations ≡ none
    → Owned st
    → Owned (put_session id r st)
unfolding Owned put_session
put_session-Owned id r st free h j t found =
    let other : (j == id) ≡ false = ground (arith, found, free) in
    let (q, held, phase) = h j t found in
    (q, ground (arith, held, other, lookup-insert j id r st.records), phase)

-- A write that leaves the phase alone.
pub same_phase-Owned :
    (id : String) (r after : Session) (st : Registry)
    → lookup id st.records ≡ some r
    → after.phase ≡ r.phase
    → Owned st
    → Owned (put_session id after st)
unfolding Owned put_session
same_phase-Owned id r after st there same h j t found =
    let (q, held, phase) = h j t found in
    elim (string_eq.dec j id) [
      | yes at ↦
          let q_eq : q ≡ r = ground (arith, held, there, at) in
          (
            after,
            ground (arith, at, lookup-insert j id after st.records),
            same ∙ ap (λ s. s.phase) (sym q_eq) ∙ phase,
          )
      | no other ↦ (q, ground (arith, held, other, lookup-insert j id after st.records), phase)
    ]

-- A call claims its token.
pub claim-Owned :
    (id : String) (r : Session) (t : Token) (st : Registry)
    → r.phase ≡ phase_of t
    → Owned st
    → Owned (put_session id r (record st { mutations = insert id t st.mutations }))
unfolding Owned put_session
claim-Owned id r t st phase h j u found = elim (string_eq.dec j id) [
  | yes at ↦
      let same : u ≡ t = ground (arith, found, at, lookup-insert j id t st.mutations) in
      (r, ground (arith, at, lookup-insert j id r st.records), phase ∙ ap phase_of (sym same))
  | no other ↦
      let there : lookup j st.mutations ≡ some u =
        ground (arith, found, other, lookup-insert j id t st.mutations) in
      let (q, held, phase_q) = h j u there in
      (q, ground (arith, held, other, lookup-insert j id r st.records), phase_q)
]

-- A session that is neither opening nor closing has no current token.
pub no_token :
    (id : String) (r : Session) (st : Registry)
    → Owned st
    → lookup id st.records ≡ some r
    → r.phase ≢ opening
    → r.phase ≢ closing
    → lookup id st.mutations ≡ none
unfolding Owned phase_of
no_token id r st h there not_opening not_closing = elim (Option-cases (lookup id st.mutations)) [
  | inl free ↦ free
  | inr (open_token n, found) ↦
      let (q, held, phase) = h id (open_token n) found in
      let same : q ≡ r = ground (arith, held, there) in
      absurd (not_opening (ap (λ s. s.phase) (sym same) ∙ phase))
  | inr (close_token n, found) ↦
      let (q, held, phase) = h id (close_token n) found in
      let same : q ≡ r = ground (arith, held, there) in
      absurd (not_closing (ap (λ s. s.phase) (sym same) ∙ phase))
]
