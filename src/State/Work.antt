-- ===== src/State/Work.antt =====
-- packages/hcp-runner/src/state/index.ts: the record that the store keeps of a session's native work
-- (NativeWorkState), and what nativeWorkStateSchema refines. A list or dictionary that is absent is
-- empty here, which is how every use of it reads it. The schema's bounds on the lengths of texts, and
-- their patterns, are not modelled; an identity that is there is not empty by them.
use harness_control_protocol.Base.{
  ℕ, String, ◌<>◌, Bool, true, false, not, ◌&&◌, ◌||◌, Option, none, some, List, [], ◌∷◌, map, leb,
  ◌==◌, contains, string_eq, nat_eq, option_eq, length, all, if◌then◌else◌,
}
use harness_control_protocol.Base.Dict.{Dict}
use harness_control_protocol.Protocol.Json.{Json}

pub data WorkStatus : Type 0 where
  running waiting work_completed work_failed work_cancelled work_unknown : WorkStatus

-- HarnessNativeWorkRecord, with the fields that the store does not read as `rest`.
pub record WorkItem : Type 0 where
  pub work_id : String
  pub native_reference : String
  pub origin_turn_id : String
  pub parent_work_id : Option String
  pub kind : String
  pub status : WorkStatus
  pub rest : Json

pub record Scope : Type 0 where
  pub provider_instance_id : String
  pub provider_binding_hash : String
  pub workspace_id : String
  pub cwd : String
  pub execution_binding_hash : String
  pub execution_profile : Option String
  pub conversation_key : Option String

pub data BindingKind : Type 0 where
  root_binding work_binding : BindingKind

pub record Binding : Type 0 where
  pub binding_kind : BindingKind
  pub admission_id : String
  pub binding_hash : String

-- NativeWorkCustody
pub record Custody : Type 0 where
  pub source : String
  pub work_id : String
  pub native_reference : String
  pub origin_turn_id : String
  pub parent_work_id : Option String
  pub root_native_reference : String
  pub parent_native_reference : String
  pub launch_native_reference : String
  pub native_execution_reference : Option String

-- HarnessNativeGoalRecord, with its status in `rest`.
pub record GoalSnapshot : Type 0 where
  pub admission_id : String
  pub origin_turn_id : String
  pub native_reference : String
  pub objective : String
  pub token_budget : Option ℕ
  pub native_created_at : ℕ
  pub native_updated_at : ℕ
  pub tokens_used : ℕ
  pub time_used_seconds : ℕ
  pub rest : Json

pub record Goal : Type 0 where
  pub admission_id : String
  pub origin_turn_id : String
  pub native_reference : String
  pub objective : String
  pub token_budget : Option ℕ
  pub expected_native_created_at : Option ℕ
  pub is_confirmed : Bool
  pub snapshot : Option GoalSnapshot

pub record RootExecution : Type 0 where
  pub admission_id : String
  pub origin_turn_id : String
  pub native_reference : String
  pub goal_admission_id : Option String
  pub native_execution_reference : Option String
  pub requires_terminal_proof : Bool
  pub phase_status : Option String

-- The parts of a conversation result that the refinements read, and the whole.
pub record ConversationResult : Type 0 where
  pub command_id : String
  pub operation : String
  pub work_action : Option String
  pub work_id : Option String
  pub whole_result : Json

pub record Reconciliation : Type 0 where
  pub command_id : String
  pub request_hash : String
  pub result : ConversationResult

pub record Fork : Type 0 where
  pub command_id : String
  pub request_hash : String
  pub work_id : String
  pub is_completed : Bool
  pub result : Option ConversationResult

pub record NativeWorkState : Type 0 where
  pub scope : Scope
  pub items : Dict String WorkItem
  pub retired : Dict String WorkItem
  pub execution_bindings : List Binding
  pub custody : Dict String Custody
  pub goals : List Goal
  pub root_executions : List RootExecution
  pub reconciliations : List Reconciliation
  pub forks : List Fork
  pub closure_unconfirmed : Bool

unfoldable pub is_some {ℓ} : {A : Type ℓ} → Option A → Bool
is_some none = false
is_some (some a) = true

-- new Set(keys).size === keys.length
distinct : List String → Bool
distinct [] = true
distinct (k ∷ ks) = not (contains ks k) && distinct ks

-- `${value.kind}:${value.admission_id}`
binding_key : Binding → String
binding_key b = elim b.binding_kind [
  | root_binding ↦ "root:" <> b.admission_id
  | work_binding ↦ "work:" <> b.admission_id
]

keys_match : Dict String WorkItem → Bool
keys_match = all (λ (key, work). work.work_id == key)

snapshot_matches : Goal → GoalSnapshot → Bool
snapshot_matches g s =
    s.admission_id == g.admission_id
    && s.origin_turn_id == g.origin_turn_id
    && s.native_reference == g.native_reference
    && s.objective == g.objective
    && s.token_budget == g.token_budget
    && (not (is_some g.expected_native_created_at)
        || some s.native_created_at == g.expected_native_created_at)

goal_ok : Goal → Bool
unfolding is_some snapshot_matches
goal_ok g =
    if g.is_confirmed
    then elim g.snapshot [ none ↦ false | some s ↦ snapshot_matches g s ]
    else not (is_some g.snapshot)

reconciliation_ok : Reconciliation → Bool
reconciliation_ok r =
    r.result.command_id == r.command_id
    && r.result.operation == "work"
    && r.result.work_action == some "reconcile"

fork_ok : Fork → Bool
unfolding is_some
fork_ok f = elim f.result [
  | none ↦ not f.is_completed
  | some r ↦
      f.is_completed
      && r.command_id == f.command_id
      && r.operation == "work"
      && r.work_action == some "fork"
      && r.work_id == some f.work_id
]

-- What nativeWorkStateSchema asks beyond the shape of the record.
unfoldable pub schema_ok : NativeWorkState → Bool
unfolding distinct binding_key keys_match goal_ok reconciliation_ok fork_ok is_some
schema_ok w =
    keys_match w.items
    && keys_match w.retired
    && leb (length w.execution_bindings) 2176
    && distinct (map binding_key w.execution_bindings)
    && leb (length w.goals) 128
    && distinct (map (λ g. g.admission_id) w.goals)
    && all goal_ok w.goals
    && leb (length w.root_executions) 1024
    && all (λ r. not (is_some r.phase_status) || is_some r.native_execution_reference)
        w.root_executions
    && distinct (map (λ r. r.admission_id) w.root_executions)
    && leb (length w.reconciliations) 1024
    && distinct (map (λ r. r.command_id) w.reconciliations)
    && all reconciliation_ok w.reconciliations
    && leb (length w.forks) 1024
    && distinct (map (λ f. f.command_id) w.forks)
    && all fork_ok w.forks
