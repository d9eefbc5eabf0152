-- ===== src/LocalActions/Errors.antt =====
-- packages/hcp-runner/src/local-actions/dispatcher.ts: how a thrown error becomes the error, the status
-- and the audit references of the protocol's answer.
use text.Mathlib.Text.{starts_with}
use harness_control_protocol.Base.{
  ℕ, ◌+◌, ◌/◌, String, ◌≡◌, refl, Bool, true, false, Option, none, some, List, [], ◌∷◌, arith, ◌==◌,
  contains, if◌then◌else◌, string_eq, all, find, max,
}
use harness_control_protocol.Protocol.Event.{Event}
use harness_control_protocol.LocalActions.Lease.{PolicyError}

-- What was thrown: a policy error, another Error with its message, or something else.
pub data Cause : Type 0 where
  policy : PolicyError → Cause
  process : String → Cause
  unknown_cause : Cause

-- A LocalCapabilityExecutionError carries its cause; anything else is its own.
pub data Thrown : Type 0 where
  execution_error : Cause → Thrown
  other_error : Cause → Thrown

abbrev pub cause_of : Thrown → Cause
cause_of (execution_error c) = c
cause_of (other_error c) = c

abbrev unchanged_codes : List String
unchanged_codes =
    "local_capability_lease_missing" ∷ "local_capability_lease_expired"
    ∷ "local_capability_lease_revoked" ∷ "local_capability_session_mismatch"
    ∷ "local_capability_workspace_mismatch" ∷ "local_capability_provider_mismatch"
    ∷ "local_capability_scope_not_granted" ∷ "local_capability_approval_required"
    ∷ "local_capability_expected_hash_mismatch" ∷ "local_capability_output_limit_exceeded"
    ∷ "local_capability_timeout" ∷ "local_capability_cancelled" ∷ "local_capability_command_denied"
    ∷ "local_capability_dev_server_exists" ∷ "local_capability_dev_server_not_found" ∷ []

abbrev not_granted_codes : List String
not_granted_codes =
    "local_capability_scope_unavailable" ∷ "local_capability_not_granted"
    ∷ "local_capability_unavailable" ∷ "local_capability_provider_unsupported"
    ∷ "local_capability_max_calls_exceeded" ∷ []

abbrev path_denied_codes : List String
path_denied_codes =
    "local_capability_path_denied" ∷ "local_capability_cwd_denied"
    ∷ "local_capability_path_unresolved" ∷ []

abbrev command_denied_codes : List String
command_denied_codes =
    "local_capability_shell_denied" ∷ "local_capability_timeout_exceeded"
    ∷ "local_capability_network_policy_unsupported" ∷ "local_capability_env_denied"
    ∷ "local_capability_executable_denied" ∷ "local_capability_executable_not_allowed"
    ∷ "local_capability_argv_denied" ∷ "local_capability_command_policy_required"
    ∷ "local_capability_command_policy_invalid" ∷ "local_capability_dev_server_host_denied"
    ∷ "local_capability_dev_server_port_denied" ∷ []

-- The switch, a case for each group of labels.
pub map_policy_error_code : String → String
map_policy_error_code code =
    if contains unchanged_codes code
    then code
    else if contains not_granted_codes code
    then "local_capability_scope_not_granted"
    else if code == "local_capability_sandbox_read_only"
    then "local_capability_sandbox_denied"
    else if contains path_denied_codes code
    then "local_capability_path_denied"
    else if contains command_denied_codes code
    then "local_capability_command_denied"
    else if code == "local_capability_dev_server_start_failed"
    then "local_capability_process_failed"
    else "local_capability_action_failed"

pub map_process_error_code : String → String
map_process_error_code message =
    if starts_with message "spawn "
    then "local_capability_process_failed"
    else "local_capability_action_failed"

pub record ActionError : Type 0 where
  pub code : String
  pub message : String
  pub retryable : Bool

pub error_of_cause : Cause → ActionError
unfolding map_policy_error_code map_process_error_code
error_of_cause (policy e) = record {
  code = map_policy_error_code e.code;
  message = e.message;
  retryable = false;
}
error_of_cause (process message) = record {
  code = map_process_error_code message;
  message = message;
  retryable = false;
}
error_of_cause unknown_cause = record {
  code = "local_capability_action_failed";
  message = "Local action failed.";
  retryable = false;
}

pub to_local_action_error : Thrown → ActionError
unfolding error_of_cause
to_local_action_error thrown = error_of_cause (cause_of thrown)

-- LocalActionErrorCode, the codes that the protocol's schema accepts.
abbrev pub local_action_error_codes : List String
local_action_error_codes =
    "local_capability_lease_missing" ∷ "local_capability_lease_expired"
    ∷ "local_capability_lease_revoked" ∷ "local_capability_session_mismatch"
    ∷ "local_capability_workspace_mismatch" ∷ "local_capability_provider_mismatch"
    ∷ "local_capability_scope_not_granted" ∷ "local_capability_sandbox_denied"
    ∷ "local_capability_approval_required" ∷ "local_capability_approval_mismatch"
    ∷ "local_capability_path_denied" ∷ "local_capability_expected_hash_mismatch"
    ∷ "local_capability_output_limit_exceeded" ∷ "local_capability_timeout"
    ∷ "local_capability_cancelled" ∷ "local_capability_command_denied"
    ∷ "local_capability_process_failed" ∷ "local_capability_dev_server_exists"
    ∷ "local_capability_dev_server_not_found" ∷ "local_capability_action_failed" ∷ []

pub data ErrorStatus : Type 0 where
  failed cancelled timed_out : ErrorStatus

pub error_status : ActionError → ErrorStatus
error_status e =
    if e.code == "local_capability_timeout"
    then timed_out
    else if e.code == "local_capability_cancelled"
    then cancelled
    else failed

-- Math.max(1, Math.ceil(timeoutMs / 1000)), where a missing timeout is 30,000 ms.
pub timeout_seconds_for : Option ℕ → ℕ
timeout_seconds_for none = 30
timeout_seconds_for (some ms) = max 1 ((ms + 999) / 1000)

pub record AuditEvents : Type 0 where
  pub started : Option ℕ
  pub settled : Option ℕ

sequence_of : Option Event → Option ℕ
sequence_of none = none
sequence_of (some e) = some e.sequence

-- responseAuditEvents and errorAuditEvents, which differ in the type of the settling event.
audit_events : String → List Event → AuditEvents
unfolding sequence_of
audit_events settled es = record {
  started = sequence_of (find (λ e. e.event_type == "local_capability.action.started") es);
  settled = sequence_of (find (λ e. e.event_type == settled) es);
}

pub response_audit_events : List Event → AuditEvents
unfolding audit_events
response_audit_events = audit_events "local_capability.action.completed"

pub error_audit_events : List Event → AuditEvents
unfolding audit_events
error_audit_events = audit_events "local_capability.action.failed"

contains_sub :
    (xs ys : List String) (c : String)
    → all (contains ys) xs ≡ true
    → contains xs c ≡ true
    → contains ys c ≡ true
contains_sub [] ys c h k = ground arith
contains_sub (x ∷ xs) ys c h k = ground (arith, contains_sub xs ys c)

unchanged_valid : all (contains local_action_error_codes) unchanged_codes ≡ true
unfolding string_eq
unchanged_valid = refl

answered_valid :
    (contains local_action_error_codes "local_capability_scope_not_granted" ≡ true)
    × (contains local_action_error_codes "local_capability_sandbox_denied" ≡ true)
    × (contains local_action_error_codes "local_capability_path_denied" ≡ true)
    × (contains local_action_error_codes "local_capability_command_denied" ≡ true)
    × (contains local_action_error_codes "local_capability_process_failed" ≡ true)
    × (contains local_action_error_codes "local_capability_action_failed" ≡ true)
unfolding string_eq
answered_valid = (refl, refl, refl, refl, refl, refl)

map_policy_error_code-valid :
    (c : String) → contains local_action_error_codes (map_policy_error_code c) ≡ true
unfolding map_policy_error_code
map_policy_error_code-valid c =
    let unchanged : contains unchanged_codes c ≡ true → contains local_action_error_codes c ≡ true =
      contains_sub unchanged_codes local_action_error_codes c unchanged_valid in
    let (not_granted, sandbox, path, command, started, action) = answered_valid in ground arith

if-contains :
    (codes : List String) (test : Bool) (x y : String)
    → contains codes x ≡ true
    → contains codes y ≡ true
    → contains codes (if test then x else y) ≡ true
if-contains codes true x y h k = h
if-contains codes false x y h k = k

error_of_cause-code :
    (cause : Cause) → contains local_action_error_codes (error_of_cause cause).code ≡ true
unfolding error_of_cause map_process_error_code
error_of_cause-code (policy e) = map_policy_error_code-valid e.code
error_of_cause-code (process message) =
    let (not_granted, sandbox, path, command, started, action) = answered_valid in
    if-contains local_action_error_codes (starts_with message "spawn ") _ _ started action
error_of_cause-code unknown_cause = unfold string_eq in refl

-- Whatever was thrown, the error that toLocalActionError answers has a code that the protocol's
-- schema accepts.
to_local_action_error-code :
    (thrown : Thrown) → contains local_action_error_codes (to_local_action_error thrown).code ≡ true
unfolding to_local_action_error
to_local_action_error-code thrown = error_of_cause-code (cause_of thrown)
