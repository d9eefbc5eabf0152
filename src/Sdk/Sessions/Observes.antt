-- ===== src/Sdk/Sessions/Observes.antt =====
-- What observations, a lost connection and dispose do to the sessions.
use harness_control_protocol.Base.{
  String, ◌≡◌, refl, sym, subst, true, false, not, ◌&&◌, Option, none, some, [], ◌∷◌, string_eq,
  ◌==◌, arith, Option-cases, Bool-cases, inl, inr, if◌then◌else◌, leb,
}
use harness_control_protocol.Base.Dict.{
  Dict, lookup, insert, erase, lookup-erase, lookup-insert_self,
}
use harness_control_protocol.Sdk.Sessions.{
  active, unconfirmed, Observed, Session, Token, Registry, is_closed, is_closing, with_phase,
  put_session, unconfirm, is_ready, is_other_conversation, observe_loss, configure, observe_record,
  observe, is_hit, lose_records, lose_mutations, lose, dispose, can_configure, observe_known,
  or_zero,
}
use harness_control_protocol.Sdk.Sessions.Owned.{
  Owned, Kept, Kept-refl, Follows, Evolves, Evolves-refl, Evolves-trans, put_session-Evolves,
  put-release-Owned, put_session-Owned, no_token,
}

-- Both of what the steps keep.
pub record Moves (st after : Registry) : Type 0 where
  pub owned : Owned after
  pub evolves : Evolves st after

pub Moves-refl : (st : Registry) → Owned st → Moves st st
Moves-refl st h = record { owned = h; evolves = Evolves-refl st }

pub unconfirm-Moves :
    (id : String) (r : Session) (st : Registry)
    → Owned st
    → lookup id st.records ≡ some r
    → is_closed r.phase ≡ false
    → Moves st (unconfirm id r st)
unfolding unconfirm Evolves
unconfirm-Moves id r st h there unclosed =
    let kept : Kept r (with_phase unconfirmed r) = record {
      same_payload = refl;
      stays_closed = λ p. absurd (ground (arith, p, unclosed));
      stays_attempted = λ p. p;
    } in
    record {
      owned = put-release-Owned id (with_phase unconfirmed r) st h;
      evolves = put_session-Evolves id r (with_phase unconfirmed r) st there kept;
    }

observe_loss-Moves :
    (e : Observed) (r : Session) (st : Registry)
    → Owned st
    → lookup e.session_id st.records ≡ some r
    → is_closed r.phase ≡ false
    → Moves st (observe_loss e r st)
unfolding observe_loss
observe_loss-Moves e r st h there unclosed =
    elim (Bool-cases (e.event_type == "native.work.owner_lost" && not (is_closing r.phase))) [
      | inl gone ↦ rw gone (unconfirm-Moves e.session_id r st h there unclosed)
      | inr stays ↦ rw stays (Moves-refl st h)
    ]

pub Moves-trans : (a b c : Registry) → Moves a b → Moves b c → Moves a c
Moves-trans a b c h k = record {
  owned = k.owned;
  evolves = Evolves-trans a b c h.evolves k.evolves;
}

-- A ready session has no call that is waiting.
configure-Moves :
    (e : Observed) (r : Session) (st : Registry)
    → Owned st
    → lookup e.session_id st.records ≡ some r
    → can_configure r.phase ≡ true
    → Moves st (configure e r st)
unfolding configure put_session
configure-Moves e r st h there ready =
    let next : Session = record r { configured = some e; phase = active } in
    let unclosed : is_closed r.phase ≡ false = unfold is_closed in ground (arith, ready) in
    let free : lookup e.session_id st.mutations ≡ none =
      no_token e.session_id r st h there (ground (arith, ready)) (ground (arith, ready)) in
    let kept : Kept r next = record {
      same_payload = refl;
      stays_closed = λ p. absurd (ground (arith, p, unclosed));
      stays_attempted = λ p. p;
    } in
    let put : Moves st (put_session e.session_id next st) = record {
      owned = put_session-Owned e.session_id next st free h;
      evolves = put_session-Evolves e.session_id r next st there kept;
    } in
    elim (Bool-cases (is_other_conversation r e)) [
      | inl other ↦ rw other (unconfirm-Moves e.session_id r st h there unclosed)
      | inr same ↦ rw same (
          Moves-trans st (put_session e.session_id next st) _ put (
            observe_loss-Moves e next (put_session e.session_id next st) put.owned
              (lookup-insert_self e.session_id next st.records) (unfold is_closed in refl)))
    ]

observe_record-Moves :
    (e : Observed) (r : Session) (st : Registry)
    → Owned st
    → lookup e.session_id st.records ≡ some r
    → is_closed r.phase ≡ false
    → Moves st (observe_record e r st)
unfolding observe_record
observe_record-Moves e r st h there unclosed =
    elim (Bool-cases (e.event_type == "session.exited" && not (is_closing r.phase))) [
      | inl exited ↦ rw exited (unconfirm-Moves e.session_id r st h there unclosed)
      | inr other ↦ elim (Bool-cases (can_configure r.phase)) [
        | inl can ↦ elim (Bool-cases (is_ready e r.payload.execution_profile)) [
          | inl ready ↦ rw (other, can, ready) (configure-Moves e r st h there can)
          | inr unready ↦ rw (other, can, unready) (observe_loss-Moves e r st h there unclosed)
        ]
        | inr cannot ↦ rw (other, cannot) (observe_loss-Moves e r st h there unclosed)
      ]
    ]

pub observe-Moves : (e : Observed) (st : Registry) → Owned st → Moves st (observe e st)
unfolding observe observe_known Owned Evolves
observe-Moves e st h = elim (Option-cases (lookup e.session_id st.records)) [
  | inl none_there ↦ rw none_there (Moves-refl st h)
  | inr (r, there) ↦ rw there (known e r st h there)
]
  where
    known :
        (e : Observed) (r : Session) (st : Registry)
        → Owned st
        → lookup e.session_id st.records ≡ some r
        → Moves st (observe_known e (some r) st)
    known e r st h there = elim (Bool-cases (is_closed r.phase)) [
      | inl done ↦ rw done (Moves-refl st h)
      | inr live ↦ elim (Bool-cases (leb e.sequence (or_zero (lookup e.session_id st.positions)))) [
        | inl old ↦ rw (live, old) (Moves-refl st h)
        | inr new ↦
            let positioned : Registry = record st {
              positions = insert e.session_id e.sequence st.positions;
            } in
            let moved : Moves positioned (observe_record e r positioned) =
              observe_record-Moves e r positioned h there live in
            rw (live, new) (record { owned = moved.owned; evolves = moved.evolves })
      ]
    ]

hit_unclosed :
    (which : Option String) (id : String) (r : Session)
    → is_hit which id r ≡ true
    → is_closed r.phase ≡ false
unfolding is_hit
hit_unclosed which id r h = ground (arith, h)

pub lookup-lose_records :
    (which : Option String) (j : String) (d : Dict String Session) {r : Session}
    → lookup j d ≡ some r
    → lookup j (lose_records which d)
      ≡ some (if is_hit which j r then with_phase unconfirmed r else r)
unfolding lookup lose_records
lookup-lose_records which j [] h = absurd (ground arith)
lookup-lose_records which j ((k, q) ∷ d) {r} h = elim (string_eq.dec j k) [
  | yes same ↦ ground (arith, same, h)
  | no other ↦ ground (arith, other, h, lookup-lose_records which j d {r = r})
]

lose_records_absent :
    (which : Option String) (j : String) (d : Dict String Session)
    → lookup j d ≡ none
    → lookup j (lose_records which d) ≡ none
unfolding lookup lose_records
lose_records_absent which j [] h = refl
lose_records_absent which j ((k, q) ∷ d) h = ground (arith, h, lose_records_absent which j d)

-- A token that is left is that of a session that is not lost.
lookup-lose_mutations :
    (which : Option String) (j : String) (d : Dict String Session) (m : Dict String Token)
    {t : Token}
    → lookup j (lose_mutations which d m) ≡ some t
    → lookup j m ≡ some t
unfolding lose_mutations
lookup-lose_mutations which j [] m h = h
lookup-lose_mutations which j ((k, q) ∷ d) m {t} h = ground (
  arith,
  lookup-erase j k m,
  lookup-lose_mutations which j d (if is_hit which k q then erase k m else m) {t = t} h,
)

left_unhit :
    (which : Option String) (j : String) (d : Dict String Session) (m : Dict String Token)
    {t : Token} {r : Session}
    → lookup j (lose_mutations which d m) ≡ some t
    → lookup j d ≡ some r
    → is_hit which j r ≡ false
unfolding lookup lose_mutations
left_unhit which j [] m h found = absurd (ground arith)
left_unhit which j ((k, q) ∷ d) m {t} {r} h found =
    let left : lookup j (if is_hit which k q then erase k m else m) ≡ some t =
      lookup-lose_mutations which j d (if is_hit which k q then erase k m else m) {t = t} h in
    let later : lookup j d ≡ some r → is_hit which j r ≡ false =
      left_unhit which j d (if is_hit which k q then erase k m else m) {t = t} {r = r} h in
    elim (string_eq.dec j k) [
      | yes same ↦ elim (Bool-cases (is_hit which k q)) [
        | inl hit ↦ absurd (ground (arith, left, hit, same, lookup-erase j k m))
        | inr miss ↦
            let at : q ≡ r = ground (arith, found, same) in
            subst (λ s. is_hit which j s ≡ false) at
              (subst (λ i. is_hit which i q ≡ false) (sym same) miss)
      ]
      | no other ↦ later (ground (arith, found, other))
    ]

lost_Kept :
    (which : Option String) (id : String) (r : Session)
    → Kept r (if is_hit which id r then with_phase unconfirmed r else r)
lost_Kept which id r = elim (Bool-cases (is_hit which id r)) [
  | inl hit ↦ rw hit (record {
    same_payload = refl;
    stays_closed = λ p. absurd (ground (arith, p, hit_unclosed which id r hit));
    stays_attempted = λ p. p;
  })
  | inr miss ↦ rw miss (Kept-refl r)
]

lose_records-Evolves :
    (which : Option String) (st after : Registry)
    → after.records ≡ lose_records which st.records
    → Evolves st after
unfolding Evolves Follows
lose_records-Evolves which st after same id = elim (Option-cases (lookup id st.records)) [
  | inl absent ↦ rw (absent, same) (lose_records_absent which id st.records absent)
  | inr (r, there) ↦
      rw (there, same)
        (
          (if is_hit which id r then with_phase unconfirmed r else r),
          lookup-lose_records which id st.records {r = r} there,
          lost_Kept which id r,
        )
]

pub lose-Moves : (which : Option String) (st : Registry) → Owned st → Moves st (lose which st)
lose-Moves which st h = record {
  owned =
      unfold Owned lose in
      λ id t left.
        let (r, there, phase) =
          h id t (lookup-lose_mutations which id st.records st.mutations {t = t} left) in
        let miss : is_hit which id r ≡ false =
          left_unhit which id st.records st.mutations {t = t} {r = r} left there in
        (r, ground (arith, miss, lookup-lose_records which id st.records {r = r} there), phase);
  evolves = lose_records-Evolves which st (lose which st) (unfold lose in refl);
}

pub dispose-Moves : (st : Registry) → Owned st → Moves st (dispose st)
dispose-Moves st h = record {
  owned = unfold Owned dispose in λ id t left. absurd (unfold lookup in ground (arith, left));
  evolves = lose_records-Evolves none st (dispose st) (unfold dispose in refl);
}
