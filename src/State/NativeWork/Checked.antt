-- ===== src/State/NativeWork/Checked.antt =====
-- What the checks of saveNativeWorkState guarantee of the record before.
use harness_control_protocol.Base.{
  ℕ, String, ◌≡◌, refl, subst, Bool, true, false, Option, none, some, List, arith, ◌==◌, string_eq,
  nat_eq, option_eq, any, find, find-any, find-true, Option-cases, inl, inr, ok,
}
use harness_control_protocol.Base.Dict.{lookup, lookup-any}
use harness_control_protocol.Protocol.Event.{Event}
use harness_control_protocol.State.Work.{
  NativeWorkState, BindingKind, root_binding, work_binding, Binding, Custody, Goal, GoalSnapshot,
  RootExecution, Fork, is_some,
}
use harness_control_protocol.State.WorkChecks.{
  same_kind, clears_closure, changes_scope, find_binding, find_root, find_goal, find_fork,
  lost_binding, same_admission, is_changed, lost_custody, lost_fork, lost_root, lost_goal,
  is_regressed, check_save,
}
use harness_control_protocol.State.NativeWork.Kept.{
  Stays, CustodyKept, RootKept, SnapshotKept, GoalKept, ForkKept, Kept,
}

is_changed-Stays : (a b : Option String) → is_changed a b ≡ false → Stays a b
unfolding is_changed is_some
is_changed-Stays none b h = tt
is_changed-Stays (some a) b h = ground arith

is_regressed-SnapshotKept :
    (a b : Option GoalSnapshot) → is_regressed a b ≡ false → SnapshotKept a b
unfolding is_regressed
is_regressed-SnapshotKept none b h = tt
is_regressed-SnapshotKept (some s) none h = cc
is_regressed-SnapshotKept (some s) (some t) h =
    (ground arith, ground arith, ground arith, ground arith)

lost_custody-CustodyKept :
    (now : List (String × Custody)) (id : String) (a : Custody)
    → lost_custody now (id, a) ≡ false
    → (b : Custody) × (lookup id now ≡ some b) × CustodyKept a b
unfolding lost_custody same_admission
lost_custody-CustodyKept now id a h = elim (Option-cases (lookup id now)) [
  | inl gone ↦ absurd (ground (arith, gone))
  | inr (b, found) ↦
      let changed = is_changed-Stays a.native_execution_reference b.native_execution_reference in
      (
        b,
        found,
        record {
          work_id = ground (arith, found);
          native_reference = ground (arith, found);
          origin_turn_id = ground (arith, found);
          parent_work_id = ground (arith, found);
          native_execution_reference = changed (ground (arith, found));
        },
      )
]

lost_root-RootKept :
    (now : List RootExecution) (a : RootExecution)
    → lost_root now a ≡ false
    → (b : RootExecution) × (find_root a.admission_id now ≡ some b) × RootKept a b
unfolding lost_root
lost_root-RootKept now a h = elim (Option-cases (find_root a.admission_id now)) [
  | inl gone ↦ absurd (ground (arith, gone))
  | inr (b, found) ↦ (
    b,
    found,
    record {
      origin_turn_id = ground (arith, found);
      native_reference = ground (arith, found);
      goal_admission_id = ground (arith, found);
      requires_terminal_proof = ground (arith, found);
      native_execution_reference = is_changed-Stays _ _ (ground (arith, found));
      phase_status = is_changed-Stays _ _ (ground (arith, found));
    },
  )
]

lost_goal-GoalKept :
    (now : List Goal) (a : Goal)
    → lost_goal now a ≡ false
    → (b : Goal) × (find_goal a.admission_id now ≡ some b) × GoalKept a b
unfolding lost_goal
lost_goal-GoalKept now a h = elim (Option-cases (find_goal a.admission_id now)) [
  | inl gone ↦ absurd (ground (arith, gone))
  | inr (b, found) ↦ (
    b,
    found,
    record {
      origin_turn_id = ground (arith, found);
      native_reference = ground (arith, found);
      objective = ground (arith, found);
      token_budget = ground (arith, found);
      confirmed = λ done. ground (arith, found, done);
      snapshot = is_regressed-SnapshotKept _ _ (ground (arith, found));
    },
  )
]

lost_fork-ForkKept :
    (now : List Fork) (a : Fork)
    → lost_fork now a ≡ false
    → (b : Fork) × (find_fork a.command_id now ≡ some b) × ForkKept a b
unfolding lost_fork
lost_fork-ForkKept now a h = elim (Option-cases (find_fork a.command_id now)) [
  | inl gone ↦ absurd (ground (arith, gone))
  | inr (b, found) ↦ (
    b,
    found,
    record {
      work_id = ground (arith, found);
      request_hash = ground (arith, found);
      completed = λ done. ground (arith, found, done);
    },
  )
]

-- What is kept of each element is kept of the element with a key.
find_kept {ℓ} :
    {A : Type 0} (key : A → String) (K : A → A → Type ℓ) (lost : A → Bool) (now before : List A)
    → ((a : A) → lost a ≡ false → (b : A) × (find (λ x. key x == key a) now ≡ some b) × K a b)
    → any lost before ≡ false
    → (id : String) (a : A) → find (λ x. key x == id) before ≡ some a
    → (b : A) × (find (λ x. key x == id) now ≡ some b) × K a b
find_kept key K lost now before one h id a found =
    let named = find-true (λ x. key x == id) before found in
    let (b, there, kept) = one a (find-any _ lost before h found) in
    (b, ground (arith, there, named), kept)

same_kind-eq : (a b : BindingKind) → same_kind a b ≡ true → a ≡ b
unfolding same_kind
same_kind-eq root_binding root_binding h = refl
same_kind-eq work_binding work_binding h = refl
same_kind-eq root_binding work_binding h = cc
same_kind-eq work_binding root_binding h = cc

find_binding_kept :
    (now before : List Binding)
    → any (lost_binding now) before ≡ false
    → (kind : BindingKind) (id : String) (a : Binding) → find_binding kind id before ≡ some a
    → (b : Binding) × (find_binding kind id now ≡ some b) × (b.binding_hash ≡ a.binding_hash)
unfolding find_binding lost_binding
find_binding_kept now before h kind id a found =
    let named = find-true _ before found in
    let there = find-any _ (lost_binding now) before h found in
    let kinds : a.binding_kind ≡ kind = same_kind-eq a.binding_kind kind (ground (arith, named)) in
    let ids : a.admission_id ≡ id = ground (arith, named) in
    elim (Option-cases (find_binding a.binding_kind a.admission_id now)) [
      | inl gone ↦ absurd (ground (arith, there, gone))
      | inr (b, here) ↦ (
        b,
        subst (λ k. find_binding k id now ≡ some b) kinds
            (subst (λ i. find_binding a.binding_kind i now ≡ some b) ids here),
        ground (arith, there, here),
      )
    ]

lookup-CustodyKept :
    (now before : List (String × Custody))
    → any (lost_custody now) before ≡ false
    → (id : String) (a : Custody) → lookup id before ≡ some a
    → (b : Custody) × (lookup id now ≡ some b) × CustodyKept a b
lookup-CustodyKept now before h id a found =
    lost_custody-CustodyKept now id a (lookup-any (lost_custody now) id before h found)

-- The checks of a save, as what they say of the record before it.
pub check_save-Kept :
    (p w : NativeWorkState) (sessions : ℕ) (id : String) (event : Option Event)
    → check_save (some p) sessions id w event ≡ ok tt
    → Kept p w
unfolding check_save find_root find_goal find_fork clears_closure changes_scope
check_save-Kept p w sessions id event h = record {
  scope = ground arith;
  closure = λ unsure. ground arith;
  bindings = find_binding_kept w.execution_bindings p.execution_bindings (ground arith);
  custody = lookup-CustodyKept w.custody p.custody (ground arith);
  roots =
      find_kept _ RootKept (lost_root w.root_executions) w.root_executions p.root_executions
        (lost_root-RootKept w.root_executions) (ground arith);
  goals =
      find_kept _ GoalKept (lost_goal w.goals) w.goals p.goals (lost_goal-GoalKept w.goals)
        (ground arith);
  forks =
      find_kept _ ForkKept (lost_fork w.forks) w.forks p.forks (lost_fork-ForkKept w.forks)
        (ground arith);
}
