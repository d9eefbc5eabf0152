-- ===== src/State/NativeWork/Kept.antt =====
-- What a session's native work keeps, whatever is saved later.
use harness_control_protocol.Base.{
  ◌≤◌, String, ◌≡◌, refl, ◌∙◌, true, Option, none, some, arith, string_eq, nat_eq, option_eq,
}
use harness_control_protocol.Base.Dict.{lookup}
use harness_control_protocol.State.Work.{
  NativeWorkState, Scope, BindingKind, Binding, Custody, Goal, GoalSnapshot, RootExecution, Fork,
}
use harness_control_protocol.State.WorkChecks.{
  same_scope, find_binding, find_root, find_goal, find_fork,
}

-- An evidence that is there stays as it is.
abbrev pub Stays {ℓ} : {A : Type ℓ} → Option A → Option A → Type ℓ
Stays none now = Unit
Stays (some a) now = now ≡ some a

pub record CustodyKept (a b : Custody) : Type 0 where
  pub work_id : b.work_id ≡ a.work_id
  pub native_reference : b.native_reference ≡ a.native_reference
  pub origin_turn_id : b.origin_turn_id ≡ a.origin_turn_id
  pub parent_work_id : b.parent_work_id ≡ a.parent_work_id
  pub native_execution_reference : Stays a.native_execution_reference b.native_execution_reference

pub record RootKept (a b : RootExecution) : Type 0 where
  pub origin_turn_id : b.origin_turn_id ≡ a.origin_turn_id
  pub native_reference : b.native_reference ≡ a.native_reference
  pub goal_admission_id : b.goal_admission_id ≡ a.goal_admission_id
  pub requires_terminal_proof : b.requires_terminal_proof ≡ a.requires_terminal_proof
  pub native_execution_reference : Stays a.native_execution_reference b.native_execution_reference
  pub phase_status : Stays a.phase_status b.phase_status

-- The counters of a goal's snapshot do not fall.
abbrev pub SnapshotKept : Option GoalSnapshot → Option GoalSnapshot → Type 0
SnapshotKept none now = Unit
SnapshotKept (some s) none = ⊥
SnapshotKept (some s) (some t) =
    (t.native_created_at ≡ s.native_created_at)
    × (s.native_updated_at ≤ t.native_updated_at)
    × (s.tokens_used ≤ t.tokens_used)
    × (s.time_used_seconds ≤ t.time_used_seconds)

pub record GoalKept (a b : Goal) : Type 0 where
  pub origin_turn_id : b.origin_turn_id ≡ a.origin_turn_id
  pub native_reference : b.native_reference ≡ a.native_reference
  pub objective : b.objective ≡ a.objective
  pub token_budget : b.token_budget ≡ a.token_budget
  pub confirmed : a.is_confirmed ≡ true → b.is_confirmed ≡ true
  pub snapshot : SnapshotKept a.snapshot b.snapshot

pub record ForkKept (a b : Fork) : Type 0 where
  pub work_id : b.work_id ≡ a.work_id
  pub request_hash : b.request_hash ≡ a.request_hash
  pub completed : a.is_completed ≡ true → b.is_completed ≡ true

-- Everything that was admitted is still there, with the same identity.
pub record Kept (p w : NativeWorkState) : Type 0 where
  pub scope : same_scope p.scope w.scope ≡ true
  pub closure : p.closure_unconfirmed ≡ true → w.closure_unconfirmed ≡ true
  pub bindings :
      (kind : BindingKind) (id : String) (a : Binding)
      → find_binding kind id p.execution_bindings ≡ some a
      → (b : Binding) × (find_binding kind id w.execution_bindings ≡ some b)
        × (b.binding_hash ≡ a.binding_hash)
  pub custody :
      (id : String) (a : Custody)
      → lookup id p.custody ≡ some a
      → (b : Custody) × (lookup id w.custody ≡ some b) × CustodyKept a b
  pub roots :
      (id : String) (a : RootExecution)
      → find_root id p.root_executions ≡ some a
      → (b : RootExecution) × (find_root id w.root_executions ≡ some b) × RootKept a b
  pub goals :
      (id : String) (a : Goal)
      → find_goal id p.goals ≡ some a
      → (b : Goal) × (find_goal id w.goals ≡ some b) × GoalKept a b
  pub forks :
      (id : String) (a : Fork)
      → find_fork id p.forks ≡ some a
      → (b : Fork) × (find_fork id w.forks ≡ some b) × ForkKept a b

Stays-refl {ℓ} : {A : Type ℓ} (a : Option A) → Stays a a
Stays-refl none = tt
Stays-refl (some a) = refl

Stays-trans {ℓ} : {A : Type ℓ} (a b c : Option A) → Stays a b → Stays b c → Stays a c
Stays-trans none b c h k = tt
Stays-trans (some a) none c h k = absurd (ground arith)
Stays-trans (some a) (some b) c h k = k ∙ h

CustodyKept-trans : (a b c : Custody) → CustodyKept a b → CustodyKept b c → CustodyKept a c
CustodyKept-trans a b c h k = record {
  work_id = k.work_id ∙ h.work_id;
  native_reference = k.native_reference ∙ h.native_reference;
  origin_turn_id = k.origin_turn_id ∙ h.origin_turn_id;
  parent_work_id = k.parent_work_id ∙ h.parent_work_id;
  native_execution_reference =
      Stays-trans _ _ _ h.native_execution_reference k.native_execution_reference;
}

RootKept-trans : (a b c : RootExecution) → RootKept a b → RootKept b c → RootKept a c
RootKept-trans a b c h k = record {
  origin_turn_id = k.origin_turn_id ∙ h.origin_turn_id;
  native_reference = k.native_reference ∙ h.native_reference;
  goal_admission_id = k.goal_admission_id ∙ h.goal_admission_id;
  requires_terminal_proof = k.requires_terminal_proof ∙ h.requires_terminal_proof;
  native_execution_reference =
      Stays-trans _ _ _ h.native_execution_reference k.native_execution_reference;
  phase_status = Stays-trans _ _ _ h.phase_status k.phase_status;
}

SnapshotKept-refl : (s : Option GoalSnapshot) → SnapshotKept s s
SnapshotKept-refl none = tt
SnapshotKept-refl (some s) = (refl, omega arith, omega arith, omega arith)

SnapshotKept-trans :
    (a b c : Option GoalSnapshot) → SnapshotKept a b → SnapshotKept b c → SnapshotKept a c
SnapshotKept-trans none b c h k = tt
SnapshotKept-trans (some a) none c h k = absurd h
SnapshotKept-trans (some a) (some b) none h k = k
SnapshotKept-trans (some a) (some b) (some c) h k =
    (k.0 ∙ h.0, omega arith, omega arith, omega arith)

GoalKept-trans : (a b c : Goal) → GoalKept a b → GoalKept b c → GoalKept a c
GoalKept-trans a b c h k = record {
  origin_turn_id = k.origin_turn_id ∙ h.origin_turn_id;
  native_reference = k.native_reference ∙ h.native_reference;
  objective = k.objective ∙ h.objective;
  token_budget = k.token_budget ∙ h.token_budget;
  confirmed = λ done. k.confirmed (h.confirmed done);
  snapshot = SnapshotKept-trans a.snapshot b.snapshot c.snapshot h.snapshot k.snapshot;
}

-- Two lookups one after the other.
kept_trans {ℓ} :
    {A : Type 0} {B C : Option A} (K : A → A → Type ℓ)
    → ((a b c : A) → K a b → K b c → K a c)
    → (a : A) → (b : A) × (B ≡ some b) × K a b
    → ((b : A) → B ≡ some b → (c : A) × (C ≡ some c) × K b c)
    → (c : A) × (C ≡ some c) × K a c
kept_trans K trans a (b, found, h) next =
    let (c, there, k) = next b found in (c, there, trans a b c h k)

same_scope_refl : (a : Scope) → same_scope a a ≡ true
unfolding same_scope
same_scope_refl a = ground arith

same_scope_trans :
    (a b c : Scope) → same_scope a b ≡ true → same_scope b c ≡ true → same_scope a c ≡ true
unfolding same_scope
same_scope_trans a b c h k = ground arith

pub Kept-refl : (p : NativeWorkState) → Kept p p
Kept-refl p = record {
  scope = same_scope_refl p.scope;
  closure = λ h. h;
  bindings = λ kind id a found. (a, found, refl);
  custody = λ id a found. (
    a,
    found,
    record {
      work_id = refl;
      native_reference = refl;
      origin_turn_id = refl;
      parent_work_id = refl;
      native_execution_reference = Stays-refl a.native_execution_reference;
    },
  );
  roots = λ id a found. (
    a,
    found,
    record {
      origin_turn_id = refl;
      native_reference = refl;
      goal_admission_id = refl;
      requires_terminal_proof = refl;
      native_execution_reference = Stays-refl a.native_execution_reference;
      phase_status = Stays-refl a.phase_status;
    },
  );
  goals = λ id a found. (
    a,
    found,
    record {
      origin_turn_id = refl;
      native_reference = refl;
      objective = refl;
      token_budget = refl;
      confirmed = λ h. h;
      snapshot = SnapshotKept-refl a.snapshot;
    },
  );
  forks =
      λ id a found. (a, found, record { work_id = refl; request_hash = refl; completed = λ h. h });
}

pub Kept-trans : (p v w : NativeWorkState) → Kept p v → Kept v w → Kept p w
Kept-trans p v w h k = record {
  scope = same_scope_trans p.scope v.scope w.scope h.scope k.scope;
  closure = λ unsure. k.closure (h.closure unsure);
  bindings = λ kind id a found.
      kept_trans (λ x y. y.binding_hash ≡ x.binding_hash) (λ x y z s t. t ∙ s) a
        (h.bindings kind id a found) (k.bindings kind id);
  custody = λ id a found.
      kept_trans CustodyKept CustodyKept-trans a (h.custody id a found) (k.custody id);
  roots = λ id a found. kept_trans RootKept RootKept-trans a (h.roots id a found) (k.roots id);
  goals = λ id a found. kept_trans GoalKept GoalKept-trans a (h.goals id a found) (k.goals id);
  forks = λ id a found.
      kept_trans ForkKept
        (λ x y z s t. record {
          work_id = t.work_id ∙ s.work_id;
          request_hash = t.request_hash ∙ s.request_hash;
          completed = λ done. t.completed (s.completed done);
        })
        a (h.forks id a found) (k.forks id);
}
