-- ===== src/Connection/Actions/Once.antt =====
-- Every local action that was dispatched has a record, so that it is dispatched once.
use harness_control_protocol.Base.{
  ℕ, ◌+◌, ◌≤◌, ◌<>◌, String, ◌≡◌, ◌⊎◌, inl, inr, refl, ◌∙◌, Bool, true, false, Option, none, some,
  List, [], ◌∷◌, arith, ◌==◌, if◌then◌else◌, string_eq, Option-cases,
}
use harness_control_protocol.Base.Dict.{lookup, insert, lookup-insert}
use harness_control_protocol.State.{StateData, Options, ActionOutcome}
use harness_control_protocol.State.Receipts.{get_local_action_receipt, set_local_action_receipt}
use harness_control_protocol.Connection.{Clock, must_run}
use harness_control_protocol.Connection.Runs.{one_if_run}
use harness_control_protocol.Connection.Actions.{
  ActionRecord, pending_action, settled_action, Actions, Dispatched, send_record, existing_action,
  answer_mismatch, answer_action, action_receipt, resume_actions, receive_action, answer_finished,
  finish_action, ActionStep, receive_request, finish_request, connection_step, apply_action_step,
}

unfoldable pub has_record : Option ActionRecord → Bool
has_record none = false
has_record (some r) = true

resume_actions-records :
    (id : String) (o : ActionOutcome) (ws : List String) (a : Actions)
    → (resume_actions id o ws a).records ≡ a.records
unfolding resume_actions send_record
resume_actions-records id o [] a = refl
resume_actions-records id o (w ∷ ws) a =
    let same : (if w == id then (send_record o a).0 else a).records ≡ a.records = ground arith in
    resume_actions-records id o ws (if w == id then (send_record o a).0 else a) ∙ same

answer_finished-records :
    (id : String) (d : Dispatched) (a : Actions) → (answer_finished id d a).records ≡ a.records
unfolding answer_finished send_record
answer_finished-records id d a = resume_actions-records id d.outcome a.waiting _

answer_mismatch-records :
    (key : String) (mismatch : Dispatched) (o : Option ActionOutcome) (a : Actions)
    → (answer_mismatch key mismatch o a).0.records ≡ a.records
unfolding answer_mismatch send_record
answer_mismatch-records key mismatch none a = refl
answer_mismatch-records key mismatch (some o) a = refl

answer_action-records :
    (id hash : String) (mismatch : Dispatched) (r : ActionRecord) (a : Actions)
    → (answer_action id hash mismatch r a).0.records ≡ a.records
unfolding answer_action send_record
answer_action-records id hash mismatch (pending_action h) a =
    let key = id <> ":" <> hash in
    ground (arith, answer_mismatch-records key mismatch (lookup key a.mismatch_records) a)
answer_action-records id hash mismatch (settled_action h o) a =
    let key = id <> ":" <> hash in
    ground (arith, answer_mismatch-records key mismatch (lookup key a.mismatch_records) a)

module _ (persist : StateData → Option String) (options : Options) where
  -- 1 if the step dispatches the request.
  dispatches_in : String → ActionStep → Actions → ℕ
  dispatches_in id (receive_request j hash clock mismatch) a =
      if j == id then one_if_run (receive_action persist options j hash clock mismatch a).1 else 0
  dispatches_in id (finish_request j hash request clock d) a = 0
  dispatches_in id (connection_step s) a = 0

  -- How often the request is dispatched.
  pub dispatches_of : String → List ActionStep → Actions → ℕ
  unfolding dispatches_in
  dispatches_of id [] a = 0
  dispatches_of id (s ∷ ss) a =
      dispatches_in id s a + dispatches_of id ss (apply_action_step persist options s a)

  receive_action-has_record :
      (j id hash : String) (clock : Clock) (mismatch : Dispatched) (a : Actions)
      → has_record (lookup j a.records) ≡ true
      → has_record (lookup j (receive_action persist options id hash clock mismatch a).0.records)
        ≡ true
  unfolding receive_action has_record
  receive_action-has_record j id hash clock mismatch a known =
      let (store, failed, receipt) =
        get_local_action_receipt persist options id clock.ms a.connection.store in
      let a' : Actions = record a { connection = record (a.connection) { store = store } } in
      elim (Option-cases (existing_action (lookup id a.records) receipt)) [
        | inl fresh ↦ ground (arith, fresh, lookup-insert j id (pending_action hash) a.records)
        | inr (r, old) ↦ ground (arith, old, answer_action-records id hash mismatch r a')
      ]

  receive_action-must_run :
      (id hash : String) (clock : Clock) (mismatch : Dispatched) (a : Actions)
      → (receive_action persist options id hash clock mismatch a).1 ≡ must_run
      → (has_record (lookup id a.records) ≡ false)
        × (has_record
              (lookup id (receive_action persist options id hash clock mismatch a).0.records)
            ≡ true)
  unfolding receive_action answer_action has_record
  receive_action-must_run id hash clock mismatch a run =
      ground (arith, lookup-insert id id (pending_action hash) a.records)

  apply_action_step-has_record :
      (j : String) (s : ActionStep) (a : Actions)
      → has_record (lookup j a.records) ≡ true
      → has_record (lookup j (apply_action_step persist options s a).records) ≡ true
  unfolding apply_action_step finish_action has_record
  apply_action_step-has_record j (receive_request id hash clock mismatch) a known =
      receive_action-has_record j id hash clock mismatch a known
  apply_action_step-has_record j (finish_request id hash request clock d) a known = ground (
    arith,
    known,
    answer_finished-records id d (record a {
      records = insert id (settled_action hash d.outcome) a.records;
      connection = record (a.connection) {
        store =
            (set_local_action_receipt persist options id (action_receipt hash request clock d)
              clock.ms a.connection.store).0;
      };
    }),
    lookup-insert j id (settled_action hash d.outcome) a.records,
  )
  apply_action_step-has_record j (connection_step s) a known = known

  dispatches_in_cases :
      (id : String) (s : ActionStep) (a : Actions)
      → (dispatches_in id s a ≡ 0)
        ⊎ ((dispatches_in id s a ≡ 1)
            × (has_record (lookup id a.records) ≡ false)
            × (has_record (lookup id (apply_action_step persist options s a).records) ≡ true))
  unfolding dispatches_in apply_action_step one_if_run
  dispatches_in_cases id (receive_request j hash clock mismatch) a =
      ground (arith, receive_action-must_run j hash clock mismatch a)
  dispatches_in_cases id (finish_request j hash request clock d) a = inl refl
  dispatches_in_cases id (connection_step s) a = inl refl

  dispatches_of-has_record :
      (id : String) (ss : List ActionStep) (a : Actions)
      → has_record (lookup id a.records) ≡ true
      → dispatches_of id ss a ≡ 0
  unfolding dispatches_of
  dispatches_of-has_record id [] a known = refl
  dispatches_of-has_record id (s ∷ ss) a known = ground (
    arith,
    dispatches_in_cases id s a,
    dispatches_of-has_record id ss (apply_action_step persist options s a)
        (apply_action_step-has_record id s a known),
  )

  -- Whatever requests, completions and connection steps there are, a local action request with a
  -- given id is dispatched at most once.
  pub dispatches_of_at_most_once :
      (id : String) (ss : List ActionStep) (a : Actions) → dispatches_of id ss a ≤ 1
  unfolding dispatches_of
  dispatches_of_at_most_once id [] a = omega arith
  dispatches_of_at_most_once id (s ∷ ss) a =
      let rest = dispatches_of_at_most_once id ss (apply_action_step persist options s a) in
      elim (dispatches_in_cases id s a) [
        | inl none_here ↦ omega (arith, none_here, rest)
        | inr (one, _, known) ↦ omega (
          arith,
          one,
          dispatches_of-has_record id ss (apply_action_step persist options s a) known,
        )
      ]
