-- ===== src/LocalActions/Engine/Guarantees.antt =====
-- What an authorisation of the engine guarantees, and what it costs when it is refused late.
use harness_control_protocol.Base.{
  ℕ, String, ◌≡◌, inl, inr, refl, sym, subst, some, arith, string_eq, nat_eq, ok, err, ◌>>◌,
  >>=-eq-ok, >>-eq-ok, Option-cases,
}
use harness_control_protocol.LocalActions.Lease.{
  full_access, CommandPolicy, Grant, Lease, Manager, Checked,
}
use harness_control_protocol.LocalActions.Manager.{assert_action_allowed}
use harness_control_protocol.LocalActions.Manager.Allowed.{
  IsAllowed, counted, assert_action_allowed-IsAllowed,
}
use harness_control_protocol.LocalActions.Policy.{
  Platform, CommandRequest, assert_executable_grant_allowed, assert_command_policy_allows,
}
use harness_control_protocol.LocalActions.Policy.Satisfied.{
  Satisfies, assert_command_policy_allows-Satisfies,
}
use harness_control_protocol.LocalActions.Engine.{
  Binding, start, DevServerCommand, request_for, policy_checks, start_checks, start_only,
  complete_command, then_check, authorize_shell_command, authorize_dev_server_action,
}

executable_grant :
    (grant : Grant) (label : String) (policy : CommandPolicy)
    → assert_executable_grant_allowed grant label ≡ ok policy
    → (grant.approval_policy ≡ some full_access) × (grant.command_policy ≡ some policy)
unfolding assert_executable_grant_allowed
executable_grant grant label policy h = ground arith

module _ (platform : Platform) where
  -- A grant that lets a command run: it is fully approved and its policy is satisfied.
  pub record Permits (grant : Grant) (command : CommandRequest) : Type 0 where
    pub approved : grant.approval_policy ≡ some full_access
    pub policy : CommandPolicy
    pub structured : grant.command_policy ≡ some policy
    pub satisfied : Satisfies platform policy command

  permits :
      (grant : Grant) (label : String) (command : CommandRequest) (policy : CommandPolicy)
      → assert_executable_grant_allowed grant label ≡ ok policy
      → assert_command_policy_allows platform policy command ≡ ok tt
      → Permits grant command
  permits grant label command policy h k =
      let (approved, structured) = executable_grant grant label policy h in
      record {
        approved = approved;
        policy = policy;
        structured = structured;
        satisfied = assert_command_policy_allows-Satisfies platform policy command k;
      }

  policy_checks-Permits :
      (grant g : Grant) (label : String) (command : CommandRequest)
      → policy_checks platform grant label command ≡ ok g
      → (g ≡ grant) × Permits grant command
  unfolding policy_checks
  policy_checks-Permits grant g label command h =
      let (policy, found, rest) = >>=-eq-ok (assert_executable_grant_allowed grant label) _ h in
      let (passed, last) =
        >>-eq-ok (assert_command_policy_allows platform policy command) (ok grant) rest in
      (ground arith, permits grant label command policy found passed)

  -- A shell command that is authorised meets every condition of assertActionAllowed for the shell
  -- capability, is counted, and runs under a grant with full access whose structured policy it
  -- satisfies.
  pub authorize_shell_command-Permits :
      (lease : Lease) (b : Binding) (command : CommandRequest) (now : ℕ) (m m' : Manager)
      (g : Grant)
      → authorize_shell_command platform lease b command now m ≡ (m', ok g)
      → IsAllowed lease (request_for b "shell" "workspace" "run_command") now m g
        × (m' ≡ counted lease g m)
        × Permits g command
  unfolding authorize_shell_command then_check
  authorize_shell_command-Permits lease b command now m m' g h = go _ refl h
    where
      go :
          (r : Checked (Grant × Manager))
          → assert_action_allowed lease (request_for b "shell" "workspace" "run_command") now m ≡ r
          → then_check m r (λ grant. policy_checks platform grant "Shell actions" command)
            ≡ (m', ok g)
          → IsAllowed lease (request_for b "shell" "workspace" "run_command") now m g
            × (m' ≡ counted lease g m)
            × Permits g command
      go (err e) first h = absurd (ground arith)
      go (ok (grant, m'')) first h =
          let (same, allowed) =
            policy_checks-Permits grant g "Shell actions" command (ground arith) in
          let place : m'' ≡ m' = ground arith in
          let found : assert_action_allowed lease (request_for b "shell" "workspace" "run_command")
                now m
              ≡ ok (g, m') =
            cc in
          let (is_allowed, after) = assert_action_allowed-IsAllowed lease _ now m m' g found in
          (is_allowed, after, subst (λ x. Permits x command) (sym same) allowed)

  start_checks-Permits :
      (grant g : Grant) (c : DevServerCommand)
      → start_checks platform grant c ≡ ok g
      → (g ≡ grant)
        × ((command : CommandRequest) × (complete_command c ≡ some command) × Permits grant command)
  unfolding start_checks
  start_checks-Permits grant g c h =
      let (policy, found, rest) =
        >>=-eq-ok (assert_executable_grant_allowed grant "Dev server start actions") _ h in
      elim (Option-cases (complete_command c)) [
        | inl missing ↦ absurd (ground arith)
        | inr (command, complete) ↦
            let passes : (assert_command_policy_allows platform policy command >> ok grant) ≡ ok g =
              ground arith in
            let (passed, last) =
              >>-eq-ok (assert_command_policy_allows platform policy command) (ok grant) passes in
            (
              ground arith,
              (
                command,
                complete,
                permits grant "Dev server start actions" command policy found passed,
              ),
            )
      ]

  -- A dev server start that is authorised meets every condition of assertActionAllowed for the dev
  -- server capability, is counted, has every field of its command, and runs under a grant with full
  -- access whose structured policy the command satisfies.
  authorize_dev_server_action-Permits :
      (lease : Lease) (b : Binding) (c : DevServerCommand) (now : ℕ) (m m' : Manager) (g : Grant)
      → authorize_dev_server_action platform lease b start c now m ≡ (m', ok g)
      → IsAllowed lease (request_for b "dev_server" "workspace" "start") now m g
        × (m' ≡ counted lease g m)
        × ((command : CommandRequest) × (complete_command c ≡ some command) × Permits g command)
  unfolding authorize_dev_server_action then_check
  authorize_dev_server_action-Permits lease b c now m m' g h = go _ refl h
    where
      go :
          (r : Checked (Grant × Manager))
          → assert_action_allowed lease (request_for b "dev_server" "workspace" "start") now m ≡ r
          → then_check m r (start_only platform start c) ≡ (m', ok g)
          → IsAllowed lease (request_for b "dev_server" "workspace" "start") now m g
            × (m' ≡ counted lease g m)
            × ((command : CommandRequest) × (complete_command c ≡ some command) × Permits g command)
      go (err e) first h = absurd (ground arith)
      go (ok (grant, m'')) first h =
          let (same, rest) = start_checks-Permits grant g c (ground arith) in
          let (command, complete, allowed) = rest in
          let place : m'' ≡ m' = ground arith in
          let found : assert_action_allowed lease (request_for b "dev_server" "workspace" "start")
                now m
              ≡ ok (g, m') =
            cc in
          let (is_allowed, after) = assert_action_allowed-IsAllowed lease _ now m m' g found in
          (
            is_allowed,
            after,
            (command, complete, subst (λ x. Permits x command) (sym same) allowed),
          )
