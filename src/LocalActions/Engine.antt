-- ===== src/LocalActions/Engine.antt =====
-- packages/hcp-runner/src/local-actions/index.ts: LocalCapabilityEngine. An authorisation gives the
-- grant and the manager after the counted call, or the manager after the call with an error.
pub mod Guarantees
mod Tests
use harness_control_protocol.Base.{
  ℕ, ◌+◌, ◌≤◌, String, ◌≡◌, ◌≢◌, ◌⊎◌, inl, inr, refl, Bool, true, false, not, ◌||◌, Option, none,
  some, List, [], ◌∷◌, arith, ◌==◌, contains, if◌then◌else◌, string_eq, nat_eq, Result, ok, err,
  ◌>>=◌, ◌>>◌,
}
use harness_control_protocol.Base.Dict.{Dict}
use harness_control_protocol.LocalActions.Lease.{
  ApprovalPolicy, full_access, CommandPolicy, Grant, Lease, PolicyError, ActionRequest, Manager,
  Checked,
}
use harness_control_protocol.LocalActions.Manager.{assert_action_allowed, fail}
use harness_control_protocol.LocalActions.Manager.Allowed.{
  IsAllowed, counted, assert_action_allowed-IsAllowed,
}
use harness_control_protocol.LocalActions.Policy.{
  Platform, CommandRequest, assert_executable_grant_allowed, assert_command_policy_allows,
}
use harness_control_protocol.LocalActions.Policy.Satisfied.{
  Satisfies, assert_command_policy_allows-Satisfies,
}

pub data FilesystemAction : Type 0 where
  read list write create delete patch : FilesystemAction

pub data GitAction : Type 0 where
  status diff branch commit_metadata commit checkout push : GitAction

pub data DevServerAction : Type 0 where
  start stop inspect : DevServerAction

pub filesystem_scope_for_action : FilesystemAction → String
filesystem_scope_for_action read = "workspace_read"
filesystem_scope_for_action list = "workspace_read"
filesystem_scope_for_action _ = "workspace_write"

pub git_scope_for_action : GitAction → String
git_scope_for_action status = "workspace_read"
git_scope_for_action diff = "workspace_read"
git_scope_for_action branch = "workspace_read"
git_scope_for_action commit_metadata = "workspace_read"
git_scope_for_action _ = "workspace_write"

filesystem_text : FilesystemAction → String
filesystem_text read = "read"
filesystem_text list = "list"
filesystem_text write = "write"
filesystem_text create = "create"
filesystem_text delete = "delete"
filesystem_text patch = "patch"

git_text : GitAction → String
git_text status = "status"
git_text diff = "diff"
git_text branch = "branch"
git_text commit_metadata = "commit_metadata"
git_text commit = "commit"
git_text checkout = "checkout"
git_text push = "push"

dev_server_text : DevServerAction → String
dev_server_text start = "start"
dev_server_text stop = "stop"
dev_server_text inspect = "inspect"

-- The fields that every authorisation request has.
pub record Binding : Type 0 where
  pub session_id : String
  pub turn_id : String
  pub workspace_id : String
  pub provider_instance_id : String

-- The optional command fields of LocalDevServerAuthorizationRequest.
pub record DevServerCommand : Type 0 where
  pub executable : Option String
  pub argv : Option (List String)
  pub cwd : Option String
  pub workspace_root : Option String
  pub use_shell : Option Bool
  pub timeout_seconds : Option ℕ
  pub env : Option (Dict String String)

unfoldable pub request_for : Binding → String → String → String → ActionRequest
request_for b capability_id scope action = record {
  session_id = b.session_id;
  turn_id = b.turn_id;
  workspace_id = b.workspace_id;
  provider_instance_id = b.provider_instance_id;
  capability_id = capability_id;
  scope = scope;
  action = action;
}

pub authorize_filesystem_action :
    Lease → Binding → FilesystemAction → ℕ → Manager → Checked (Grant × Manager)
unfolding request_for filesystem_text
authorize_filesystem_action lease b action now m =
    assert_action_allowed lease
      (request_for b "filesystem" (filesystem_scope_for_action action) (filesystem_text action)) now
      m

pub authorize_git_action : Lease → Binding → GitAction → ℕ → Manager → Checked (Grant × Manager)
unfolding request_for git_text
authorize_git_action lease b action now m =
    assert_action_allowed lease
      (request_for b "git" (git_scope_for_action action) (git_text action)) now m

-- The manager after a call that may fail once it has been counted, and its result.
abbrev pub Counted : Type 0
Counted = Manager × Checked Grant

-- request.env ?? {}
env_or_empty : Option (Dict String String) → Dict String String
env_or_empty none = []
env_or_empty (some env) = env

-- The command, if every field is given; an empty text counts as missing.
given_text : Option String → Option String
given_text none = none
given_text (some s) = if s == "" then none else some s

pub complete_command : DevServerCommand → Option CommandRequest
unfolding given_text env_or_empty
complete_command c = elim (given_text c.executable) [
  | none ↦ none
  | some executable ↦ elim c.argv [
    | none ↦ none
    | some argv ↦ elim (given_text c.cwd) [
      | none ↦ none
      | some cwd ↦ elim (given_text c.workspace_root) [
        | none ↦ none
        | some workspace_root ↦ elim c.use_shell [
          | none ↦ none
          | some use_shell ↦ elim c.timeout_seconds [
            | none ↦ none
            | some timeout_seconds ↦ some (record {
              executable = executable;
              argv = argv;
              cwd = cwd;
              workspace_root = workspace_root;
              use_shell = use_shell;
              timeout_seconds = timeout_seconds;
              env = env_or_empty c.env;
            })
          ]
        ]
      ]
    ]
  ]
]

then_check : Manager → Checked (Grant × Manager) → (Grant → Checked Grant) → Counted
then_check m (err e) check = (m, err e)
then_check m (ok (grant, m')) check = (m', check grant)

module _ (platform : Platform) where
  policy_checks : Grant → String → CommandRequest → Checked Grant
  policy_checks grant label command = do
    policy ← assert_executable_grant_allowed grant label
    assert_command_policy_allows platform policy command
    ok grant

  -- The checks of a started dev server: the grant first, then the fields, then the policy.
  start_checks : Grant → DevServerCommand → Checked Grant
  unfolding complete_command fail
  start_checks grant c =
      assert_executable_grant_allowed grant "Dev server start actions" >>= λ policy.
      elim (complete_command c) [
        | none ↦ err (
            fail "local_capability_command_policy_required"
              "Dev server start actions require executable, argv, cwd, workspace root, shell mode, and timeout.")
        | some command ↦ assert_command_policy_allows platform policy command >> ok grant
      ]

  pub authorize_shell_command : Lease → Binding → CommandRequest → ℕ → Manager → Counted
  unfolding request_for policy_checks then_check
  authorize_shell_command lease b command now m =
      then_check m
        (assert_action_allowed lease (request_for b "shell" "workspace" "run_command") now m)
        (λ grant. policy_checks grant "Shell actions" command)

  start_only : DevServerAction → DevServerCommand → Grant → Checked Grant
  unfolding start_checks
  start_only start c grant = start_checks grant c
  start_only stop c grant = ok grant
  start_only inspect c grant = ok grant

  pub authorize_dev_server_action :
      Lease → Binding → DevServerAction → DevServerCommand → ℕ → Manager → Counted
  unfolding request_for dev_server_text start_only then_check
  authorize_dev_server_action lease b action c now m =
      then_check m
        (assert_action_allowed lease
          (request_for b "dev_server" "workspace" (dev_server_text action)) now m)
        (start_only action c)
