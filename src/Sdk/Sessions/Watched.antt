-- ===== src/Sdk/Sessions/Watched.antt =====
-- Observations while a call waits: the connection notifies the registry of an event before the call that
-- waits for the event goes on.
use harness_control_protocol.Base.{
  String, ◌≡◌, ◌≢◌, ◌⊎◌, inl, inr, refl, sym, ◌∙◌, false, not, ◌&&◌, ◌||◌, some, List, [], ◌∷◌, All,
  leb, string_eq, ◌==◌, arith, Option-cases, Bool-cases,
}
use harness_control_protocol.Base.Dict.{lookup, insert, lookup-insert, lookup-erase}
use harness_control_protocol.Sdk.Sessions.{
  opening, closing, unconfirmed, active, Phase, Observed, Session, Token, Registry, is_closed,
  is_closing, with_phase, put_session, unconfirm, is_ready, is_other_conversation, observe_loss,
  configure, observe_record, observe, can_configure, observe_known, or_zero,
}

-- The registry holds a session with the token of the call that works on it.
pub record Works (id : String) (t : Token) (r : Session) (st : Registry) : Type 0 where
  pub there : lookup id st.records ≡ some r
  pub token : lookup id st.mutations ≡ some t
  pub usable : st.is_disposed ≡ false

-- The observations of a list, one after the other.
pub observe_all : List Observed → Registry → Registry
unfolding observe
observe_all [] st = st
observe_all (e ∷ es) st = observe_all es (observe e st)

-- What the registry holds of a session is as it was.
record Leaves (id : String) (st after : Registry) : Type 0 where
  record_there : lookup id after.records ≡ lookup id st.records
  token : lookup id after.mutations ≡ lookup id st.mutations
  usable : after.is_disposed ≡ st.is_disposed

Leaves-refl : (id : String) (st : Registry) → Leaves id st st
Leaves-refl id st = record { record_there = refl; token = refl; usable = refl }

put_session-Leaves :
    (id other : String) (r : Session) (st : Registry)
    → id ≢ other
    → Leaves id st (put_session other r st)
unfolding put_session
put_session-Leaves id other r st apart = record {
  record_there = ground (arith, apart, lookup-insert id other r st.records);
  token = refl;
  usable = refl;
}

unconfirm-Leaves :
    (id other : String) (r : Session) (st : Registry)
    → id ≢ other
    → Leaves id st (unconfirm other r st)
unfolding unconfirm put_session
unconfirm-Leaves id other r st apart = record {
  record_there =
      ground (arith, apart, lookup-insert id other (with_phase unconfirmed r) st.records);
  token = ground (arith, apart, lookup-erase id other st.mutations);
  usable = refl;
}

Leaves-trans : (id : String) (a b c : Registry) → Leaves id a b → Leaves id b c → Leaves id a c
Leaves-trans id a b c h k = record {
  record_there = k.record_there ∙ h.record_there;
  token = k.token ∙ h.token;
  usable = k.usable ∙ h.usable;
}

observe_loss-Leaves :
    (id : String) (e : Observed) (r : Session) (st : Registry)
    → id ≢ e.session_id
    → Leaves id st (observe_loss e r st)
unfolding observe_loss
observe_loss-Leaves id e r st apart =
    elim (Bool-cases (e.event_type == "native.work.owner_lost" && not (is_closing r.phase))) [
      | inl gone ↦ rw gone (unconfirm-Leaves id e.session_id r st apart)
      | inr stays ↦ rw stays (Leaves-refl id st)
    ]

configure-Leaves :
    (id : String) (e : Observed) (r : Session) (st : Registry)
    → id ≢ e.session_id
    → Leaves id st (configure e r st)
unfolding configure
configure-Leaves id e r st apart =
    let next : Session = record r { configured = some e; phase = active } in
    elim (Bool-cases (is_other_conversation r e)) [
      | inl other ↦ rw other (unconfirm-Leaves id e.session_id r st apart)
      | inr same ↦ rw same (
          Leaves-trans id st (put_session e.session_id next st) _
            (put_session-Leaves id e.session_id next st apart)
            (observe_loss-Leaves id e next (put_session e.session_id next st) apart))
    ]

observe_record-Leaves :
    (id : String) (e : Observed) (r : Session) (st : Registry)
    → id ≢ e.session_id
    → Leaves id st (observe_record e r st)
unfolding observe_record
observe_record-Leaves id e r st apart =
    elim (Bool-cases (e.event_type == "session.exited" && not (is_closing r.phase))) [
      | inl exited ↦ rw exited (unconfirm-Leaves id e.session_id r st apart)
      | inr stays ↦
          elim (Bool-cases (can_configure r.phase && is_ready e r.payload.execution_profile)) [
            | inl ready ↦ rw (stays, ready) (configure-Leaves id e r st apart)
            | inr unready ↦ rw (stays, unready) (observe_loss-Leaves id e r st apart)
          ]
    ]

-- An event that the session's waiting call survives: any event while it is being closed, and while it
-- is being opened every one but its exit and the loss of its owner.
abbrev pub Survives : Phase → Observed → Type 0
Survives phase e =
    (phase ≡ closing)
    ⊎ ((phase ≡ opening)
        × (e.event_type ≢ "session.exited")
        × (e.event_type ≢ "native.work.owner_lost"))

observe_record-same :
    (e : Observed) (r : Session) (st : Registry) → Survives r.phase e → observe_record e r st ≡ st
unfolding observe_record observe_loss is_closing
observe_record-same e r st (inl closes) = ground (arith, closes)
observe_record-same e r st (inr (opens, stays, keeps)) = ground (arith, opens, stays, keeps)

-- The position that an observation writes.
seen_at : Observed → Registry → Registry
seen_at e st = record st { positions = insert e.session_id e.sequence st.positions }

seen_at-Leaves : (id : String) (e : Observed) (st : Registry) → Leaves id st (seen_at e st)
unfolding seen_at
seen_at-Leaves id e st = record { record_there = refl; token = refl; usable = refl }

noticed-Leaves :
    (id : String) (e : Observed) (r q : Session) (st : Registry)
    → lookup id st.records ≡ some r
    → lookup e.session_id st.records ≡ some q
    → (e.session_id ≡ id → Survives r.phase e)
    → Leaves id st (observe_record e q (seen_at e st))
noticed-Leaves id e r q st there found survives = elim (string_eq.dec id e.session_id) [
  | no apart ↦
      Leaves-trans id st (seen_at e st) _ (seen_at-Leaves id e st)
        (observe_record-Leaves id e q (seen_at e st) apart)
  | yes own ↦
      let same : q ≡ r = ground (arith, own, there, found) in
      rw (observe_record-same e q (seen_at e st) (rw same (survives (sym own))))
        (seen_at-Leaves id e st)
]

observe-Leaves :
    (id : String) (e : Observed) (r : Session) (st : Registry)
    → lookup id st.records ≡ some r
    → (e.session_id ≡ id → Survives r.phase e)
    → Leaves id st (observe e st)
unfolding observe observe_known seen_at
observe-Leaves id e r st there survives = elim (Option-cases (lookup e.session_id st.records)) [
  | inl absent ↦ rw absent (Leaves-refl id st)
  | inr (q, found) ↦
      elim (Bool-cases
        (is_closed q.phase || leb e.sequence (or_zero (lookup e.session_id st.positions)))) [
          | inl ignored ↦ rw (found, ignored, observe_known) (Leaves-refl id st)
          | inr taken ↦
              rw (found, taken, observe_known) (noticed-Leaves id e r q st there found survives)
        ]
]

-- The waiting call still has its token and its session.
pub observe_all-Works :
    (id : String) (t : Token) (r : Session) (es : List Observed) (st : Registry)
    → Works id t r st
    → All (λ (e : Observed). e.session_id ≡ id → Survives r.phase e) es
    → Works id t r (observe_all es st)
unfolding observe_all
observe_all-Works id t r [] st w h = w
observe_all-Works id t r (e ∷ es) st w (here, rest) =
    let l = observe-Leaves id e r st w.there here in
    observe_all-Works id t r es (observe e st)
      (record {
        there = l.record_there ∙ w.there;
        token = l.token ∙ w.token;
        usable = l.usable ∙ w.usable;
      })
      rest

-- While a session is being closed, every event is survived.
pub closing-Survives :
    (id : String) (r : Session) (es : List Observed)
    → r.phase ≡ closing
    → All (λ (e : Observed). e.session_id ≡ id → Survives r.phase e) es
closing-Survives id r [] closes = tt
closing-Survives id r (e ∷ es) closes = (λ own. inl closes, closing-Survives id r es closes)

-- An event of the session that neither ends it nor loses its owner.
abbrev pub IsQuiet : String → Observed → Type 0
IsQuiet id o =
    o.session_id ≡ id
    → (o.event_type ≢ "session.exited") × (o.event_type ≢ "native.work.owner_lost")

pub quiet-Survives :
    (id : String) (r : Session) (es : List Observed)
    → r.phase ≡ opening
    → All (IsQuiet id) es
    → All (λ (e : Observed). e.session_id ≡ id → Survives r.phase e) es
quiet-Survives id r [] opens h = tt
quiet-Survives id r (e ∷ es) opens (here, rest) =
    (λ own. inr (opens, (here own).0, (here own).1), quiet-Survives id r es opens rest)
