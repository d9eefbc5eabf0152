-- ===== src/Sdk/Sessions/Once.antt =====
-- How often a registry sends the command that starts or stops one session.
use harness_control_protocol.Base.{
  ℕ, ◌+◌, ◌≤◌, String, ◌≡◌, refl, ap, subst, ◌∙◌, true, Option, none, some, List, [], ◌∷◌, ◌++◌,
  string_eq, ◌==◌, arith, Bool-cases, Result-cases, inl, inr, if◌then◌else◌,
}
use harness_control_protocol.Base.Dict.{lookup, lookup-insert_self, lookup-insert_ne}
use harness_control_protocol.Sdk.Sessions.{Session, closing, Payload, Registry, put_session}
use harness_control_protocol.Sdk.Sessions.Calls.{
  new_session, open_begin, close_begin, already, claimed,
}
use harness_control_protocol.Sdk.Sessions.Runs.{
  Step, observed, lost, open_begun, open_ended, close_begun, close_ended, call_aborted, disposed,
  Sent, start, stop, step, sends, run, new_registry,
}
use harness_control_protocol.Sdk.Sessions.Owned.{Owned, Follows, Evolves}
use harness_control_protocol.Sdk.Sessions.Steps.{
  IsOpened, Changes, moved, opened, step-Changes, step-Owned, IsClaimed, close_begin-IsClaimed,
  open_begin-IsOpened,
}
use harness_control_protocol.Sdk.Sessions.Groups.{new_registry-Owned}

unfoldable pub starts_of : String → List Sent → ℕ
starts_of id [] = 0
starts_of id (start j ∷ rest) = (if id == j then 1 else 0) + starts_of id rest
starts_of id (stop j ∷ rest) = starts_of id rest

unfoldable pub stops_of : String → List Sent → ℕ
stops_of id [] = 0
stops_of id (stop j ∷ rest) = (if id == j then 1 else 0) + stops_of id rest
stops_of id (start j ∷ rest) = stops_of id rest

starts_of-append :
    (id : String) (xs ys : List Sent) → starts_of id (xs ++ ys) ≡ starts_of id xs + starts_of id ys
unfolding starts_of
starts_of-append id [] ys = omega arith
starts_of-append id (start j ∷ xs) ys = omega (arith, starts_of-append id xs ys)
starts_of-append id (stop j ∷ xs) ys = starts_of-append id xs ys

stops_of-append :
    (id : String) (xs ys : List Sent) → stops_of id (xs ++ ys) ≡ stops_of id xs + stops_of id ys
unfolding stops_of
stops_of-append id [] ys = omega arith
stops_of-append id (stop j ∷ xs) ys = omega (arith, stops_of-append id xs ys)
stops_of-append id (start j ∷ xs) ys = stops_of-append id xs ys

-- What the registry remembers of the commands that it has sent for a session.
unfoldable started : Option Session → ℕ
started none = 0
started (some r) = 1

unfoldable stopped : Option Session → ℕ
stopped none = 0
stopped (some r) = if r.close_attempted then 1 else 0

Remembers : String → Registry → Registry → List Sent → Type 0
Remembers id st after sent =
    (starts_of id sent + started (lookup id st.records) ≤ started (lookup id after.records))
    × (stops_of id sent + stopped (lookup id st.records) ≤ stopped (lookup id after.records))

-- Nothing that is remembered is forgotten.
Grows : Option Session → Option Session → Type 0
Grows a b = (started a ≤ started b) × (stopped a ≤ stopped b)

Follows-Grows : (a b : Option Session) → Follows a b → Grows a b
unfolding Follows Grows started stopped
Follows-Grows none b h = (omega arith, omega arith)
Follows-Grows (some r) b (after, there, kept) =
    let marks = kept.stays_attempted in
    elim (Bool-cases r.close_attempted) [
      | inl marked ↦ rw there (omega arith, ground (arith, marked, marks marked))
      | inr unmarked ↦ rw there (omega arith, ground (arith, unmarked))
    ]

Changes-Grows :
    (st after : Registry)
    → Changes st after
    → (id : String) → Grows (lookup id st.records) (lookup id after.records)
Changes-Grows st after (moved m) id =
    Follows-Grows (lookup id st.records) (lookup id after.records) (unfold Evolves in m.evolves id)
Changes-Grows st after (opened p n o) id = elim (string_eq.dec id p.session_id) [
  | yes same ↦
      let absent : lookup id st.records ≡ none = ap (λ i. lookup i st.records) same ∙ o.absent in
      unfold Grows started stopped in rw absent (omega arith, omega arith)
  | no other ↦
      let kept : lookup id after.records ≡ lookup id st.records =
        ap (λ a. lookup id a.records) o.result
        ∙ unfold put_session in lookup-insert_ne id p.session_id (new_session p) st.records other in
      unfold Grows in rw kept (omega arith, omega arith)
]

nothing_sent : (id : String) (st after : Registry) → Changes st after → Remembers id st after []
unfolding Remembers starts_of stops_of Grows
nothing_sent id st after h =
    let (starts, stops) : Grows (lookup id st.records) (lookup id after.records) =
      Changes-Grows st after h id in
    (omega (arith, starts), omega (arith, stops))

start_sent-Remembers :
    (id : String) (p : Payload) (n : ℕ) (st after : Registry)
    → IsOpened p n st after
    → Remembers id st after (start p.session_id ∷ [])
unfolding Remembers starts_of stops_of
start_sent-Remembers id p n st after o =
    let (starts, stops) = nothing_sent id st after (opened p n o) in
    elim (string_eq.dec id p.session_id) [
      | yes same ↦
          let before : lookup id st.records ≡ none =
            ap (λ i. lookup i st.records) same ∙ o.absent in
          let now : lookup id after.records ≡ some (new_session p) =
            ap (λ a. lookup id a.records) o.result
            ∙ unfold put_session in
              ground (arith, same, lookup-insert_self p.session_id (new_session p) st.records) in
          (rw (before, now) (unfold started in ground (arith, same)), stops)
      | no other ↦ (ground (arith, other, starts), stops)
    ]

stop_sent-Remembers :
    (id j : String) (n : ℕ) (st after : Registry)
    → IsClaimed j n st after
    → Changes st after
    → Remembers id st after (stop j ∷ [])
unfolding Remembers starts_of stops_of
stop_sent-Remembers id j n st after c changes =
    let (starts, stops) = nothing_sent id st after changes in
    elim (string_eq.dec id j) [
      | yes same ↦
          let before : lookup id st.records ≡ some c.session =
            ap (λ i. lookup i st.records) same ∙ c.there in
          let next : Session = record c.session { phase = closing; close_attempted = true } in
          let now : lookup id after.records ≡ some next =
            ap (λ a. lookup id a.records) c.result
            ∙ unfold put_session in ground (arith, same, lookup-insert_self j next st.records) in
          (starts, rw (before, now) (unfold stopped in ground (arith, same, c.unmarked)))
      | no other ↦ (starts, ground (arith, other, stops))
    ]

step-Remembers :
    (id : String) (s : Step) (st : Registry) → Owned st → Remembers id st (step s st) (sends s st)
unfolding sends
step-Remembers id (observed e) st h = nothing_sent id st _ (step-Changes (observed e) st h)
step-Remembers id (lost which) st h = nothing_sent id st _ (step-Changes (lost which) st h)
step-Remembers id (open_ended readiness j n reply log) st h =
    nothing_sent id st _ (step-Changes (open_ended readiness j n reply log) st h)
step-Remembers id (close_ended j n reply) st h =
    nothing_sent id st _ (step-Changes (close_ended j n reply) st h)
step-Remembers id (call_aborted j token) st h =
    nothing_sent id st _ (step-Changes (call_aborted j token) st h)
step-Remembers id disposed st h = nothing_sent id st _ (step-Changes disposed st h)
step-Remembers id (open_begun p readiness is_aborted n) st h =
    elim (Result-cases (open_begin p readiness is_aborted n st)) [
      | inl (_, failed) ↦
          rw failed (nothing_sent id st _ (step-Changes (open_begun p readiness is_aborted n) st h))
      | inr (after, done) ↦
          let next : step (open_begun p readiness is_aborted n) st ≡ after =
            unfold step in rw done refl in
          rw (done, next)
            (start_sent-Remembers id p n st after
              (open_begin-IsOpened p readiness is_aborted n st after done))
    ]
step-Remembers id (close_begun j is_aborted n) st h =
    let changes = step-Changes (close_begun j is_aborted n) st h in
    elim (Result-cases (close_begin j is_aborted n st)) [
      | inl (_, failed) ↦ rw failed (nothing_sent id st _ changes)
      | inr (already r, found) ↦ rw found (nothing_sent id st _ changes)
      | inr (claimed after, found) ↦
          let next : step (close_begun j is_aborted n) st ≡ after = unfold step in rw found refl in
          rw (found, next)
            (stop_sent-Remembers id j n st after
              (close_begin-IsClaimed j is_aborted n st after found)
              (subst (Changes st) next changes))
    ]

run-Remembers :
    (id : String) (steps : List Step) (st : Registry)
    → Owned st
    → Remembers id st (run steps st).0 (run steps st).1
unfolding run Remembers
run-Remembers id [] st h = (unfold starts_of in omega arith, unfold stops_of in omega arith)
run-Remembers id (s ∷ steps) st h =
    let (starts, stops) : Remembers id st (step s st) (sends s st) = step-Remembers id s st h in
    let rest : List Sent = (run steps (step s st)).1 in
    let (later_starts, later_stops) = run-Remembers id steps (step s st) (step-Owned s st h) in
    (
      omega (arith, starts, later_starts, starts_of-append id (sends s st) rest),
      omega (arith, stops, later_stops, stops_of-append id (sends s st) rest),
    )

bounded : (o : Option Session) → (started o ≤ 1) × (stopped o ≤ 1)
unfolding started stopped
bounded none = (omega arith, omega arith)
bounded (some r) = (omega arith, ground arith)

-- In every run of the registry's steps, the commands that start one session and that stop it are
-- each sent at most once, whatever the outcome of the calls.
pub run-at_most_once :
    (steps : List Step) (id : String)
    → (starts_of id (run steps new_registry).1 ≤ 1) × (stops_of id (run steps new_registry).1 ≤ 1)
unfolding Remembers
run-at_most_once steps id =
    let (starts, stops) : Remembers id new_registry (run steps new_registry).0
        (run steps new_registry).1 =
      run-Remembers id steps new_registry new_registry-Owned in
    let (few, few_stops) = bounded (lookup id (run steps new_registry).0.records) in
    (omega (arith, starts, few), omega (arith, stops, few_stops))
