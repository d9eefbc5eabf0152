-- ===== src/LocalActions/Lease.antt =====
-- The data that local actions are judged by: leases, grants and command policies
-- (packages/hcp-protocol/src/index.ts), and what the runner's configuration says of a capability
-- (packages/hcp-runner/src/config/index.ts). A lease's expiry is Date.parse of its text: `none` is NaN.
use harness_control_protocol.Base.{ℕ, String, Bool, Option, List, Result}
use harness_control_protocol.Base.Dict.{Dict}

pub data CwdPolicy : Type 0 where
  selected_workspace_only : CwdPolicy

pub data EnvPolicy : Type 0 where
  minimal env_allowlisted : EnvPolicy

pub data NetworkPolicy : Type 0 where
  inherit disabled network_allowlisted : NetworkPolicy

pub data ApprovalPolicy : Type 0 where
  ask auto_edits full_access : ApprovalPolicy

pub record CommandPolicy : Type 0 where
  pub allowed_executables : Option (List String)
  pub denied_executables : Option (List String)
  pub argv_patterns : Option (List String)
  pub cwd_policy : CwdPolicy
  pub env_policy : EnvPolicy
  pub allow_shell : Bool
  pub timeout_seconds : ℕ
  pub network_policy : NetworkPolicy

pub record Grant : Type 0 where
  pub id : String
  pub scopes : List String
  pub approval_policy : Option ApprovalPolicy
  pub command_policy : Option CommandPolicy
  pub max_calls : Option ℕ

pub record Lease : Type 0 where
  pub lease_id : String
  pub hcp_session_id : String
  pub execution_host_id : String
  pub provider_instance_id : String
  pub workspace_id : String
  pub expires_at : Option ℕ
  pub capabilities : List Grant

pub data CapabilityStatus : Type 0 where
  available unavailable is_disabled unknown : CapabilityStatus

-- LocalCapabilityConfig, without its message.
pub record CapabilityConfig : Type 0 where
  pub id : String
  pub status : CapabilityStatus
  pub scopes : List String

-- The fields of ProviderInstanceConfig that a lease is checked against.
pub record ProviderConfig : Type 0 where
  pub id : String
  pub local_capabilities : List String

-- The fields of HcpSessionStartPayload that a lease is checked against.
pub record SessionStart : Type 0 where
  pub session_id : String
  pub provider_instance_id : String
  pub workspace_id : String
  pub local_capability_lease : Option Lease

-- LocalCapabilityPolicyError
pub record PolicyError : Type 0 where
  pub code : String
  pub message : String

pub record ActionRequest : Type 0 where
  pub session_id : String
  pub turn_id : String
  pub workspace_id : String
  pub provider_instance_id : String
  pub capability_id : String
  pub scope : String
  pub action : String

-- LocalCapabilityLeaseManager: its configuration and its two mutable maps.
pub record Manager : Type 0 where
  pub local_capabilities : List CapabilityConfig
  pub host_id : String
  pub revoked_lease_ids : List String
  pub call_counts : Dict String ℕ

abbrev pub Checked {ℓ} : Type ℓ → Type ℓ
Checked A = Result PolicyError A
