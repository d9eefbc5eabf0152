-- ===== src/LocalActions/Policy.antt =====
-- packages/hcp-runner/src/local-actions/index.ts: assertExecutableGrantAllowed and
-- assertCommandPolicyAllows. The file system, the path functions and the regular expressions of the
-- platform are a parameter.
pub mod Satisfied
use harness_control_protocol.Base.{
  ℕ, ◌≤◌, String, ◌<>◌, ◌≡◌, ◌↔◌, refl, Bool, true, false, not, ◌&&◌, ◌||◌, Option, none, some,
  List, [], ◌∷◌, arith, ltb, ◌==◌, contains, nat_eq, string_eq, ok, err, throw_if, ◌>>=◌, ◌>>◌, ◌⊎◌,
  inl, inr,
}
use text.Mathlib.Text.{starts_with}
use harness_control_protocol.Base.Dict.{Dict}
use harness_control_protocol.LocalActions.Lease.{
  EnvPolicy, minimal, NetworkPolicy, inherit, disabled, network_allowlisted, full_access,
  CommandPolicy, Grant, Checked,
}
use harness_control_protocol.LocalActions.Manager.{fail}

-- What realpath answers, or the message of its error; node's path.relative and path.isAbsolute, and
-- String.startsWith(".."); whether a regular expression matches, or the message of its SyntaxError.
pub data Answer (A : Type 0) : Type 0 where
  answer : A → Answer A
  failed : String → Answer A

pub Answer-cases :
    {A : Type 0} (a : Answer A) → ((x : A) × (a ≡ answer x)) ⊎ ((m : String) × (a ≡ failed m))
Answer-cases (answer x) = inl (x, refl)
Answer-cases (failed m) = inr (m, refl)

pub record Platform : Type 0 where
  pub realpath : String → Answer String
  pub relative : String → String → String
  pub is_absolute : String → Bool
  pub regex_test : String → String → Answer Bool

pub record CommandRequest : Type 0 where
  pub executable : String
  pub argv : List String
  pub cwd : String
  pub workspace_root : String
  pub use_shell : Bool
  pub timeout_seconds : ℕ
  pub env : Dict String String

unfoldable pub assert_executable_grant_allowed : Grant → String → Checked CommandPolicy
unfolding fail
assert_executable_grant_allowed grant label = elim grant.approval_policy [
  | some full_access ↦ elim grant.command_policy [
    | some policy ↦ ok policy
    | none ↦ err (
        fail "local_capability_command_policy_required"
          (label <> " require a structured command policy."))
  ]
  | _ ↦ err (
      fail "local_capability_approval_required"
        (label <> " require a local capability lease grant with approval_policy 'full_access'."))
]

unfoldable pub join_space : List String → String
join_space [] = ""
join_space (s ∷ []) = s
join_space (s ∷ t ∷ ts) = s <> " " <> join_space (t ∷ ts)

unfoldable pub network_ok : NetworkPolicy → Bool
network_ok inherit = true
network_ok _ = false

network_text : NetworkPolicy → String
network_text inherit = "inherit"
network_text disabled = "disabled"
network_text network_allowlisted = "allowlisted"

-- policy.env_policy === "minimal" && Object.keys(env).length > 0
unfoldable pub env_denied : EnvPolicy → Dict String String → Bool
env_denied minimal (_ ∷ _) = true
env_denied _ _ = false

unfoldable pub listed : Option (List String) → String → Bool
listed none s = false
listed (some names) s = contains names s

unfoldable pub not_listed : Option (List String) → String → Bool
not_listed none s = false
not_listed (some names) s = not (contains names s)

module _ (platform : Platform) where
  open platform use {realpath, relative, is_absolute, regex_test}

  -- patterns.some(...): the patterns in order, up to the first that matches or is invalid.
  unfoldable pub any_pattern : String → List String → Checked Bool
  unfolding fail
  any_pattern line [] = ok false
  any_pattern line (p ∷ ps) =
      let rest = any_pattern line ps in
      elim (regex_test p line) [
        | answer true ↦ ok true
        | answer false ↦ rest
        | failed message ↦ err (
            fail "local_capability_command_policy_invalid"
              ("Command policy argv pattern '" <> p <> "' is invalid: " <> message))
      ]

  unfoldable pub argv_matches_policy : List String → List String → Checked Bool
  unfolding any_pattern join_space
  argv_matches_policy argv patterns = any_pattern (join_space argv) patterns

  unfoldable pub argv_allowed : Option (List String) → List String → Checked Bool
  unfolding argv_matches_policy
  argv_allowed none argv = ok true
  argv_allowed (some patterns) argv = argv_matches_policy argv patterns

  unfoldable pub realpath_for_policy : String → Checked String
  unfolding fail
  realpath_for_policy path = elim (realpath path) [
    | answer resolved ↦ ok resolved
    | failed message ↦ err (
        fail "local_capability_path_unresolved"
          ("Path '" <> path <> "' could not be resolved: " <> message))
  ]

  -- The relative path does not leave the workspace.
  unfoldable pub stays_inside : String → Bool
  stays_inside child = child == "" || (not (starts_with child "..") && not (is_absolute child))

  unfoldable pub assert_path_inside_workspace : String → String → Checked (Unit {0})
  unfolding realpath_for_policy stays_inside fail
  assert_path_inside_workspace path root = do
    resolved_path ← realpath_for_policy path
    resolved_root ← realpath_for_policy root
    throw_if (not (stays_inside (relative resolved_root resolved_path))) (
        fail "local_capability_cwd_denied"
          ("Path '" <> path <> "' is outside the selected workspace."))
    ok tt

  -- The guards of a structured policy; a number in a message is not printed.
  unfoldable pub assert_command_policy_allows : CommandPolicy → CommandRequest → Checked (Unit {0})
  unfolding network_ok network_text env_denied listed not_listed argv_allowed
      assert_path_inside_workspace fail
  assert_command_policy_allows policy request = do
    throw_if (not policy.allow_shell && request.use_shell)
        (fail "local_capability_shell_denied" "Shell wrappers are not allowed by policy.")
    throw_if (ltb policy.timeout_seconds request.timeout_seconds)
        (fail "local_capability_timeout_exceeded" "Requested timeout exceeds policy timeout.")
    throw_if (not (network_ok policy.network_policy)) (
        fail "local_capability_network_policy_unsupported" (
          "Network policy '"
          <> network_text policy.network_policy
          <> "' cannot be enforced by this runner."))
    throw_if (env_denied policy.env_policy request.env) (
        fail "local_capability_env_denied"
          "Custom environment variables are not allowed by minimal environment policy.")
    throw_if (listed policy.denied_executables request.executable) (
        fail "local_capability_executable_denied"
          ("Executable '" <> request.executable <> "' is denied by policy."))
    throw_if (not_listed policy.allowed_executables request.executable) (
        fail "local_capability_executable_not_allowed"
          ("Executable '" <> request.executable <> "' is not allowed by policy."))
    matches ← argv_allowed policy.argv_patterns request.argv
    throw_if (not matches)
        (fail "local_capability_argv_denied" "Command arguments do not match policy.")
    assert_path_inside_workspace request.cwd request.workspace_root
