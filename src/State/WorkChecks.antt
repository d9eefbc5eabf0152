-- ===== src/State/WorkChecks.antt =====
-- packages/hcp-runner/src/state/index.ts: the checks of saveNativeWorkState, in their order. Each loop
-- that throws is a test of the list's elements.
use harness_control_protocol.Base.{
  ℕ, String, Bool, true, false, not, ◌&&◌, ◌||◌, Option, none, some, List, [], leb, ltb, ◌==◌,
  string_eq, nat_eq, option_eq, length, any, find, Result, ◌>>◌, throw_if,
}
use harness_control_protocol.Base.Dict.{Dict, lookup}
use harness_control_protocol.Protocol.DeepEqual.{deep_equal}
use harness_control_protocol.Protocol.Event.{Event}
use harness_control_protocol.State.Work.{
  NativeWorkState, WorkItem, Scope, BindingKind, root_binding, work_binding, Binding, Custody, Goal,
  GoalSnapshot, RootExecution, ConversationResult, Reconciliation, Fork, is_some, schema_ok,
}

unfoldable pub or_else {ℓ} : {A : Type ℓ} → Option A → Option A → Option A
or_else (some a) o = some a
or_else none o = o

-- state.items[id] ?? state.retired[id]
unfoldable pub find_work : String → NativeWorkState → Option WorkItem
unfolding or_else
find_work id w = or_else (lookup id w.items) (lookup id w.retired)

-- JSON.stringify(a) === JSON.stringify(b), for scopes that the schema has put in order.
unfoldable pub same_scope : Scope → Scope → Bool
same_scope a b =
    a.provider_instance_id == b.provider_instance_id
    && a.provider_binding_hash == b.provider_binding_hash
    && a.workspace_id == b.workspace_id
    && a.cwd == b.cwd
    && a.execution_binding_hash == b.execution_binding_hash
    && a.execution_profile == b.execution_profile
    && a.conversation_key == b.conversation_key

unfoldable pub same_kind : BindingKind → BindingKind → Bool
same_kind root_binding root_binding = true
same_kind work_binding work_binding = true
same_kind _ _ = false

unfoldable pub find_binding : BindingKind → String → List Binding → Option Binding
find_binding kind id = find (λ b. same_kind b.binding_kind kind && b.admission_id == id)

unfoldable pub find_root : String → List RootExecution → Option RootExecution
find_root id = find (λ r. r.admission_id == id)

unfoldable pub find_goal : String → List Goal → Option Goal
find_goal id = find (λ g. g.admission_id == id)

unfoldable pub find_fork : String → List Fork → Option Fork
find_fork id = find (λ f. f.command_id == id)

unfoldable pub find_reconciliation : String → List Reconciliation → Option Reconciliation
find_reconciliation id = find (λ r. r.command_id == id)

unfoldable pub binding_admitted : NativeWorkState → Binding → Bool
unfolding is_some find_root find_work
binding_admitted w b = elim b.binding_kind [
  | root_binding ↦ is_some (find_root b.admission_id w.root_executions)
  | work_binding ↦ is_some (find_work b.admission_id w)
]

unfoldable pub bad_binding : List Binding → NativeWorkState → Binding → Bool
unfolding binding_admitted find_binding is_some
bad_binding previous w b =
    not (binding_admitted w b)
    || (not (is_some (find_binding b.binding_kind b.admission_id previous))
        && not (b.binding_hash == w.scope.execution_binding_hash))

unfoldable pub lost_binding : List Binding → Binding → Bool
lost_binding now b = elim (find_binding b.binding_kind b.admission_id now) [
  | none ↦ true
  | some c ↦ not (b.binding_hash == c.binding_hash)
]

unfoldable pub bad_custody : NativeWorkState → String × Custody → Bool
unfolding find_work
bad_custody w (id, proof) = elim (find_work id w) [
  | none ↦ true
  | some work ↦
      not (id == proof.work_id)
      || not (work.native_reference == proof.native_reference)
      || not (work.origin_turn_id == proof.origin_turn_id)
      || not (work.parent_work_id == proof.parent_work_id)
      || not (work.kind == "agent")
]

-- The two proofs but for the native execution's reference.
unfoldable pub same_admission : Custody → Custody → Bool
same_admission a b =
    a.source == b.source
    && a.work_id == b.work_id
    && a.native_reference == b.native_reference
    && a.origin_turn_id == b.origin_turn_id
    && a.parent_work_id == b.parent_work_id
    && a.root_native_reference == b.root_native_reference
    && a.parent_native_reference == b.parent_native_reference
    && a.launch_native_reference == b.launch_native_reference

-- `old && now !== old`
unfoldable pub is_changed : Option String → Option String → Bool
unfolding is_some
is_changed old now = is_some old && not (now == old)

unfoldable pub lost_custody : Dict String Custody → String × Custody → Bool
unfolding same_admission is_changed
lost_custody now (id, proof) = elim (lookup id now) [
  | none ↦ true
  | some next ↦
      not (same_admission next proof)
      || is_changed proof.native_execution_reference next.native_execution_reference
]

same_result : Option ConversationResult → Option ConversationResult → Bool
same_result none none = true
same_result (some a) (some b) = deep_equal a.whole_result b.whole_result
same_result _ _ = false

same_flag : Bool → Bool → Bool
same_flag true b = b
same_flag false b = not b

-- isDeepStrictEqual of two receipts.
same_fork : Fork → Fork → Bool
unfolding same_result same_flag
same_fork a b =
    a.command_id == b.command_id
    && a.request_hash == b.request_hash
    && a.work_id == b.work_id
    && same_flag a.is_completed b.is_completed
    && same_result a.result b.result

unfoldable pub lost_fork : List Fork → Fork → Bool
unfolding same_fork
lost_fork now f = elim (find_fork f.command_id now) [
  | none ↦ true
  | some next ↦
      not (next.work_id == f.work_id)
      || not (next.request_hash == f.request_hash)
      || (f.is_completed && not (same_fork next f))
]

unfoldable pub lost_reconciliation : List Reconciliation → Reconciliation → Bool
unfolding deep_equal
lost_reconciliation now r = elim (find_reconciliation r.command_id now) [
  | none ↦ true
  | some next ↦ not (
      next.request_hash == r.request_hash
      && deep_equal next.result.whole_result r.result.whole_result)
]

unfoldable pub lost_root : List RootExecution → RootExecution → Bool
unfolding is_changed same_flag
lost_root now r = elim (find_root r.admission_id now) [
  | none ↦ true
  | some next ↦
      not (next.origin_turn_id == r.origin_turn_id)
      || not (next.native_reference == r.native_reference)
      || not (next.goal_admission_id == r.goal_admission_id)
      || not (same_flag next.requires_terminal_proof r.requires_terminal_proof)
      || is_changed r.native_execution_reference next.native_execution_reference
      || is_changed r.phase_status next.phase_status
]

-- An autonomous execution without its confirmed original goal.
unfoldable pub bad_root : List Goal → RootExecution → Bool
bad_root goals r = elim r.goal_admission_id [
  | none ↦ false
  | some id ↦ not (
      any
        (λ g.
          g.admission_id == id
          && g.is_confirmed
          && g.origin_turn_id == r.origin_turn_id
          && g.native_reference == r.native_reference)
        goals)
]

unfoldable pub is_regressed : Option GoalSnapshot → Option GoalSnapshot → Bool
is_regressed none now = false
is_regressed (some s) none = true
is_regressed (some s) (some t) =
    not (t.native_created_at == s.native_created_at)
    || ltb t.native_updated_at s.native_updated_at
    || ltb t.tokens_used s.tokens_used
    || ltb t.time_used_seconds s.time_used_seconds

unfoldable pub lost_goal : List Goal → Goal → Bool
unfolding is_regressed
lost_goal now g = elim (find_goal g.admission_id now) [
  | none ↦ true
  | some next ↦
      not (next.origin_turn_id == g.origin_turn_id)
      || not (next.native_reference == g.native_reference)
      || not (next.objective == g.objective)
      || not (next.token_budget == g.token_budget)
      || not (next.expected_native_created_at == g.expected_native_created_at)
      || (g.is_confirmed && not next.is_confirmed)
      || is_regressed g.snapshot next.snapshot
]

-- previous?.list ?? []
unfoldable pub of_previous {ℓ} :
    {A : Type ℓ} → (NativeWorkState → List A) → Option NativeWorkState → List A
of_previous list none = []
of_previous list (some p) = list p

unfoldable pub clears_closure : Option NativeWorkState → NativeWorkState → Bool
clears_closure none w = false
clears_closure (some p) w = p.closure_unconfirmed && not w.closure_unconfirmed

unfoldable pub changes_scope : Option NativeWorkState → NativeWorkState → Bool
unfolding same_scope
changes_scope none w = false
changes_scope (some p) w = not (same_scope p.scope w.scope)

unfoldable pub is_elsewhere : String → Option Event → Bool
is_elsewhere id none = false
is_elsewhere id (some e) = not (e.session_id == id)

-- The checks, for the record before, the number of sessions with a record, and the event to append.
unfoldable pub check_save :
    Option NativeWorkState → ℕ → String → NativeWorkState → Option Event → Result String (Unit {0})
unfolding of_previous
check_save previous sessions id w event = do
  throw_if (not (schema_ok w)) "The native work does not match its schema."
  throw_if (clears_closure previous w)
      "Unconfirmed native closure requires authoritative reconciliation; it cannot be cleared by metadata updates."
  throw_if (not (is_some previous) && leb 1024 sessions) "Native work session capacity exceeded."
  throw_if (ltb 128 (length w.items))
      "Native work capacity exceeded; retire completed work before admitting another child."
  throw_if (ltb 1024 (length w.retired))
      "Native work tombstone capacity exceeded; close the execution lease before retiring further work."
  throw_if (any (λ (key, work). not (key == work.work_id)) w.items) "Native work identity mismatch."
  throw_if (changes_scope previous w) "Native work execution scope changed."
  throw_if
      (any (bad_binding (of_previous (λ p. p.execution_bindings) previous) w) w.execution_bindings)
      "Native execution policy history must belong to its admitted configuration."
  throw_if
      (any (lost_binding w.execution_bindings) (of_previous (λ p. p.execution_bindings) previous))
      "Native execution policy history cannot be erased or replaced."
  throw_if (ltb 1152 (length w.custody)) "Native work custody capacity exceeded."
  throw_if (any (bad_custody w) w.custody) "Native work custody does not match its admitted child."
  throw_if (any (lost_custody w.custody) (of_previous (λ p. p.custody) previous))
      "Native work custody cannot be replaced or removed."
  throw_if (any (lost_fork w.forks) (of_previous (λ p. p.forks) previous))
      "Native child fork dispatch receipts cannot be removed or replaced."
  throw_if
      (any (lost_reconciliation w.reconciliations) (of_previous (λ p. p.reconciliations) previous))
      "Native reconciliation receipts cannot be removed or replaced."
  throw_if (any (lost_root w.root_executions) (of_previous (λ p. p.root_executions) previous))
      "Native root execution admissions cannot be removed or replaced."
  throw_if (any (bad_root w.goals) w.root_executions)
      "Native autonomous execution requires its confirmed original goal admission."
  throw_if (any (lost_goal w.goals) (of_previous (λ p. p.goals) previous))
      "Native goal admissions cannot be removed, replaced or regressed."
  throw_if (is_elsewhere id event) "Native work event targets another session."
