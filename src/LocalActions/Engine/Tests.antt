-- ===== src/LocalActions/Engine/Tests.antt =====
-- A lease with a shell and a dev server grant, calls on it, and the theorems applied to them.
use harness_control_protocol.Base.{
  ℕ, ◌+◌, ◌≤◌, String, ◌≡◌, ◌↔◌, refl, true, false, some, none, List, [], ◌∷◌, arith, nat_eq,
  string_eq, ok, ℕ_discrete,
}
use harness_control_protocol.Base.Dict.{lookup, insert}
use harness_control_protocol.LocalActions.Lease.{
  selected_workspace_only, minimal, inherit, full_access, CommandPolicy, Grant, Lease, available,
  CapabilityConfig, ActionRequest, Manager,
}
use harness_control_protocol.LocalActions.Manager.{count_key, assert_action_allowed}
use harness_control_protocol.LocalActions.Manager.Allowed.{
  IsAllowed, counted, assert_action_allowed_iff,
}
use harness_control_protocol.LocalActions.Manager.Calls.{hits, hits-le-max_calls}
use harness_control_protocol.LocalActions.Policy.{
  Platform, answer, CommandRequest, assert_executable_grant_allowed, assert_command_policy_allows,
}
use harness_control_protocol.LocalActions.Policy.Satisfied.{
  Satisfies, assert_command_policy_allows_iff,
}
use harness_control_protocol.LocalActions.Engine.{
  Binding, start, DevServerCommand, request_for, authorize_shell_command,
  authorize_dev_server_action,
}
use harness_control_protocol.LocalActions.Engine.Guarantees.{
  Permits, authorize_shell_command-Permits,
}

-- A platform with one workspace, whose directories are their own real paths.
abbrev relative_to_workspace : String → String → String
relative_to_workspace root path = elim (string_eq.dec root path) [
  | yes _ ↦ ""
  | no _ ↦ "../elsewhere"
]

abbrev one_workspace : Platform
one_workspace = record {
  realpath = λ path. answer path;
  relative = relative_to_workspace;
  is_absolute = λ path. false;
  regex_test = λ pattern line. answer true;
}

abbrev test_policy : CommandPolicy
test_policy = record {
  allowed_executables = some ("npm" ∷ []);
  denied_executables = none;
  argv_patterns = some ("^test" ∷ []);
  cwd_policy = selected_workspace_only;
  env_policy = minimal;
  allow_shell = false;
  timeout_seconds = 60;
  network_policy = inherit;
}

abbrev grant_of : String → Grant
grant_of id = record {
  id = id;
  scopes = "workspace" ∷ [];
  approval_policy = some full_access;
  command_policy = some test_policy;
  max_calls = some 2;
}

abbrev lease : Lease
lease = record {
  lease_id = "l";
  hcp_session_id = "s";
  execution_host_id = "h";
  provider_instance_id = "p";
  workspace_id = "w";
  expires_at = some 100;
  capabilities = grant_of "shell" ∷ grant_of "dev_server" ∷ [];
}

abbrev capability : String → CapabilityConfig
capability id = record { id = id; status = available; scopes = "workspace" ∷ [] }

abbrev manager : Manager
manager = record {
  local_capabilities = capability "shell" ∷ capability "dev_server" ∷ [];
  host_id = "h";
  revoked_lease_ids = [];
  call_counts = [];
}

abbrev binding : Binding
binding = record { session_id = "s"; turn_id = "t"; workspace_id = "w"; provider_instance_id = "p" }

abbrev npm_test : CommandRequest
npm_test = record {
  executable = "npm";
  argv = "test" ∷ [];
  cwd = "/work";
  workspace_root = "/work";
  use_shell = false;
  timeout_seconds = 30;
  env = [];
}

abbrev run_command : ActionRequest
run_command = record {
  session_id = "s";
  turn_id = "t";
  workspace_id = "w";
  provider_instance_id = "p";
  capability_id = "shell";
  scope = "workspace";
  action = "run_command";
}

shell_authorized :
    authorize_shell_command one_workspace lease binding npm_test 10 manager
    ≡ (counted lease (grant_of "shell") manager, ok (grant_of "shell"))
unfolding authorize_shell_command assert_action_allowed counted assert_executable_grant_allowed
    assert_command_policy_allows string_eq nat_eq ℕ_discrete lookup
shell_authorized = refl

authorize_shell_command-Permits_example :
    IsAllowed lease
      (request_for binding "shell" "workspace" "run_command")
      10
      manager
      (grant_of "shell")
    × (counted lease (grant_of "shell") manager ≡ counted lease (grant_of "shell") manager)
    × Permits one_workspace (grant_of "shell") npm_test
authorize_shell_command-Permits_example =
    authorize_shell_command-Permits one_workspace lease binding npm_test 10 manager
      (counted lease (grant_of "shell") manager) (grant_of "shell") shell_authorized

abbrev npm_start : DevServerCommand
npm_start = record {
  executable = some "npm";
  argv = some ("start" ∷ []);
  cwd = some "/work";
  workspace_root = some "/work";
  use_shell = some false;
  timeout_seconds = some 30;
  env = none;
}

start_authorized :
    authorize_dev_server_action one_workspace lease binding start npm_start 10 manager
    ≡ (counted lease (grant_of "dev_server") manager, ok (grant_of "dev_server"))
unfolding authorize_dev_server_action assert_action_allowed counted assert_executable_grant_allowed
    assert_command_policy_allows string_eq nat_eq ℕ_discrete lookup
start_authorized = refl

assert_action_allowed_iff_example :
    (assert_action_allowed lease run_command 10 manager
      ≡ ok (grant_of "shell", counted lease (grant_of "shell") manager))
    ↔ (IsAllowed lease run_command 10 manager (grant_of "shell")
        × (counted lease (grant_of "shell") manager ≡ counted lease (grant_of "shell") manager))
assert_action_allowed_iff_example =
    assert_action_allowed_iff lease run_command 10 manager
      (counted lease (grant_of "shell") manager) (grant_of "shell")

abbrev calls : List (ℕ × ActionRequest)
calls = (1, run_command) ∷ (2, run_command) ∷ (3, run_command) ∷ (200, run_command) ∷ []

two_hits : hits lease "l:shell" calls manager ≡ 2
unfolding hits count_key assert_action_allowed string_eq nat_eq ℕ_discrete lookup insert
two_hits = refl

hits-le-max_calls_example : 0 + hits lease "l:shell" calls manager ≤ 2
unfolding lookup
hits-le-max_calls_example =
    hits-le-max_calls lease "l:shell" 2 calls manager
      ((λ same. (2, refl, omega arith)), ((λ same. (2, refl, omega arith)), tt)) (omega arith)

assert_command_policy_allows_iff_example :
    (assert_command_policy_allows one_workspace test_policy npm_test ≡ ok tt)
    ↔ Satisfies one_workspace test_policy npm_test
assert_command_policy_allows_iff_example =
    assert_command_policy_allows_iff one_workspace test_policy npm_test
