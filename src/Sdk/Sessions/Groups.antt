-- ===== src/Sdk/Sessions/Groups.antt =====
-- A continuation group has one owner at a time: two of its sessions are never both unclosed.
use harness_control_protocol.Base.{
  ℕ, String, ◌≡◌, ◌≢◌, refl, ap, sym, subst, ◌∙◌, false, not, ◌&&◌, Option, none, some,
  some-injective, List, [], ◌∷◌, string_eq, ◌==◌, arith, eq_refl, Bool-cases, inl, inr, option_eq,
}
use harness_control_protocol.Base.Dict.{
  lookup, insert, lookup-insert, lookup-insert_self, lookup-any_values,
}
use harness_control_protocol.Sdk.Sessions.{Payload, Session, Registry, is_closed, put_session}
use harness_control_protocol.Sdk.Sessions.Calls.{has_open_group, shares_group, new_session}
use harness_control_protocol.Sdk.Sessions.Runs.{Step, step, run, new_registry}
use harness_control_protocol.Sdk.Sessions.Owned.{Owned, Kept, Follows, Evolves}
use harness_control_protocol.Sdk.Sessions.Observes.{Moves}
use harness_control_protocol.Sdk.Sessions.Steps.{IsOpened, moved, opened, step-Changes, step-Owned}

-- The session at a key is of a group and not closed.
pub record Holds (key id : String) (st : Registry) : Type 0 where
  pub session : Session
  pub there : lookup id st.records ≡ some session
  pub group : session.payload.continuation_group_key ≡ some key
  pub unclosed : is_closed session.phase ≡ false

unfoldable pub Exclusive : Registry → Type 0
Exclusive st = (key i j : String) → key ≢ "" → Holds key i st → Holds key j st → i ≡ j

-- Where a session of the state behind a step comes from.
Follows-Kept :
    (a b : Option Session) (after : Session)
    → Follows a b
    → b ≡ some after
    → (r : Session) × (a ≡ some r) × Kept r after
unfolding Follows
Follows-Kept none b after h found = absurd (ground (arith, h, found))
Follows-Kept (some r) b after (q, there, kept) found =
    (r, refl, subst (Kept r) (some-injective q after (sym there ∙ found)) kept)

before_Holds :
    (key id : String) (st after : Registry)
    → Evolves st after
    → Holds key id after
    → Holds key id st
unfolding Evolves
before_Holds key id st after evolves h =
    let (r, there, kept) =
      Follows-Kept (lookup id st.records) (lookup id after.records) h.session (evolves id)
        h.there in
    record {
      session = r;
      there = there;
      group = ap (λ p. p.continuation_group_key) (sym kept.same_payload) ∙ h.group;
      unclosed = elim (Bool-cases (is_closed r.phase)) [
        | inl done ↦ absurd (ground (arith, kept.stays_closed done, h.unclosed))
        | inr live ↦ live
      ];
    }

Moves-Exclusive : (st after : Registry) → Moves st after → Exclusive st → Exclusive after
unfolding Exclusive
Moves-Exclusive st after m h key i j named at_i at_j =
    h key i j named (before_Holds key i st after m.evolves at_i)
      (before_Holds key j st after m.evolves at_j)

-- No session of the group of the new one was unclosed.
alone_group :
    (group : Option String) (key : String) (st : Registry)
    → shares_group group st ≡ false
    → group ≡ some key
    → key ≢ ""
    → has_open_group key st ≡ false
unfolding shares_group
alone_group none key st alone grouped named = absurd (ground (arith, grouped))
alone_group (some other) key st alone grouped named =
    let same : other ≡ key = some-injective other key grouped in
    let here : (not (key == "") && has_open_group key st) ≡ false =
      subst (λ k. (not (k == "") && has_open_group k st) ≡ false) same alone in
    ground (arith, here, named)

alone-Holds : (key id : String) (st : Registry) → has_open_group key st ≡ false → ¬ Holds key id st
unfolding has_open_group
alone-Holds key id st alone h =
    let others : (h.session.payload.continuation_group_key == some key
          && not (is_closed h.session.phase))
        ≡ false =
      lookup-any_values
        (λ (r : Session). r.payload.continuation_group_key == some key && not (is_closed r.phase))
        id st.records {v = h.session} alone h.there in
    let same : (some key == some key && not (is_closed h.session.phase)) ≡ false =
      subst (λ g. (g == some key && not (is_closed h.session.phase)) ≡ false) h.group others in
    ground (arith, same, h.unclosed, eq_refl (some key))

-- A session at another key was there before.
other_Holds :
    (p : Payload) (n : ℕ) (st after : Registry) (key id : String)
    → IsOpened p n st after
    → id ≢ p.session_id
    → Holds key id after
    → Holds key id st
unfolding put_session
other_Holds p n st after key id o other h =
    let there : lookup id (insert p.session_id (new_session p) st.records) ≡ some h.session =
      subst (λ a. lookup id a.records ≡ some h.session) o.result h.there in
    record {
      session = h.session;
      there =
          ground (arith, there, other, lookup-insert id p.session_id (new_session p) st.records);
      group = h.group;
      unclosed = h.unclosed;
    }

new_group :
    (p : Payload) (n : ℕ) (st after : Registry) (key : String)
    → IsOpened p n st after
    → Holds key p.session_id after
    → p.continuation_group_key ≡ some key
unfolding put_session
new_group p n st after key o h =
    let there : lookup p.session_id (insert p.session_id (new_session p) st.records)
        ≡ some h.session =
      subst (λ a. lookup p.session_id a.records ≡ some h.session) o.result h.there in
    let same : new_session p ≡ h.session =
      some-injective (new_session p) h.session
        (sym (lookup-insert_self p.session_id (new_session p) st.records) ∙ there) in
    ap (λ r. r.payload.continuation_group_key) same ∙ h.group

-- The new session is alone in its group.
new_alone :
    (p : Payload) (n : ℕ) (st after : Registry) (key j : String)
    → IsOpened p n st after
    → key ≢ ""
    → Holds key p.session_id after
    → Holds key j after
    → j ≡ p.session_id
new_alone p n st after key j o named at_new at_j = elim (string_eq.dec j p.session_id) [
  | yes same ↦ same
  | no other ↦
      let alone : has_open_group key st ≡ false =
        alone_group p.continuation_group_key key st o.alone (new_group p n st after key o at_new)
          named in
      absurd (alone-Holds key j st alone (other_Holds p n st after key j o other at_j))
]

opened-Exclusive :
    (p : Payload) (n : ℕ) (st after : Registry)
    → IsOpened p n st after
    → Exclusive st
    → Exclusive after
unfolding Exclusive
opened-Exclusive p n st after o h key i j named at_i at_j = elim (string_eq.dec i p.session_id) [
  | yes i_new ↦
      let at_new : Holds key p.session_id after = subst (λ k. Holds key k after) i_new at_i in
      i_new ∙ sym (new_alone p n st after key j o named at_new at_j)
  | no i_old ↦ elim (string_eq.dec j p.session_id) [
    | yes j_new ↦
        let at_new : Holds key p.session_id after = subst (λ k. Holds key k after) j_new at_j in
        new_alone p n st after key i o named at_new at_i ∙ sym j_new
    | no j_old ↦
        h key i j named (other_Holds p n st after key i o i_old at_i)
          (other_Holds p n st after key j o j_old at_j)
  ]
]

step-Exclusive : (s : Step) (st : Registry) → Owned st → Exclusive st → Exclusive (step s st)
step-Exclusive s st owned h = elim (step-Changes s st owned) [
  | moved m ↦ Moves-Exclusive st (step s st) m h
  | opened p n o ↦ opened-Exclusive p n st (step s st) o h
]

run_from-Exclusive :
    (steps : List Step) (st : Registry) → Owned st → Exclusive st → Exclusive (run steps st).0
unfolding run
run_from-Exclusive [] st owned h = h
run_from-Exclusive (s ∷ steps) st owned h =
    run_from-Exclusive steps (step s st) (step-Owned s st owned) (step-Exclusive s st owned h)

pub new_registry-Owned : Owned new_registry
unfolding Owned new_registry
new_registry-Owned id t found = absurd (unfold lookup in ground (arith, found))

new_registry-Exclusive : Exclusive new_registry
unfolding Exclusive
new_registry-Exclusive key i j named at_i at_j =
    absurd (unfold lookup new_registry in ground (arith, at_i.there))

-- In every run of the registry's steps, with observations, losses, aborted calls and disposal
-- between the parts of open and close: two sessions of one named continuation group that are both
-- not closed are the same session.
pub run-Exclusive : (steps : List Step) → Exclusive (run steps new_registry).0
run-Exclusive steps =
    run_from-Exclusive steps new_registry new_registry-Owned new_registry-Exclusive
