-- ===== src/LocalActions/Manager/Allowed.antt =====
-- assertActionAllowed and validateSessionLease against what they promise.
use harness_control_protocol.Base.{
  ℕ, ◌+◌, String, ◌≡◌, ◌↔◌, true, false, some, arith, ◌==◌, contains, nat_eq, string_eq, find, ok,
  Option-cases, inl, inr,
}
use harness_control_protocol.Base.Dict.{insert}
use harness_control_protocol.LocalActions.Lease.{
  Grant, Lease, available, CapabilityConfig, ActionRequest, Manager,
}
use harness_control_protocol.LocalActions.Manager.{
  count_key, call_count, has_expired, assert_lease_usable, require_configured_capability,
  is_exhausted, assert_action_allowed,
}

-- What a call needs to be allowed, with the grant that it gets.
pub record IsAllowed (lease : Lease) (request : ActionRequest) (now : ℕ) (m : Manager) (g : Grant)
    : Type 0 where
  pub not_revoked : contains m.revoked_lease_ids lease.lease_id ≡ false
  pub unexpired : has_expired lease.expires_at now ≡ false
  pub session : request.session_id ≡ lease.hcp_session_id
  pub workspace : request.workspace_id ≡ lease.workspace_id
  pub provider : request.provider_instance_id ≡ lease.provider_instance_id
  pub granted : find (λ g. g.id == request.capability_id) lease.capabilities ≡ some g
  pub in_scope : contains g.scopes request.scope ≡ true
  pub capability : CapabilityConfig
  pub configured : find (λ c. c.id == request.capability_id) m.local_capabilities ≡ some capability
  pub is_available : capability.status ≡ available
  pub runner_scope : contains capability.scopes request.scope ≡ true
  pub below_limit : is_exhausted g.max_calls (call_count (count_key lease g) m) ≡ false

-- The manager after an allowed call.
unfoldable pub counted : Lease → Grant → Manager → Manager
counted lease g m =
    let key = count_key lease g in
    record m { call_counts = insert key (call_count key m + 1) m.call_counts }

usable :
    (lease : Lease) (now : ℕ) (m : Manager)
    → assert_lease_usable lease now m ≡ ok tt
    → (contains m.revoked_lease_ids lease.lease_id ≡ false)
      × (has_expired lease.expires_at now ≡ false)
unfolding assert_lease_usable
usable lease now m h = ground arith

configured_ok :
    (id : String) (m : Manager) (c : CapabilityConfig)
    → require_configured_capability id m ≡ ok c
    → (find (λ c. c.id == id) m.local_capabilities ≡ some c) × (c.status ≡ available)
unfolding require_configured_capability
configured_ok id m c h = ground arith

-- The capability that the runner has configured, if the call is allowed.
runner_capability :
    (lease : Lease) (request : ActionRequest) (now : ℕ) (m m' : Manager) (g : Grant)
    → assert_action_allowed lease request now m ≡ ok (g, m')
    → (c : CapabilityConfig) × (find (λ c. c.id == request.capability_id) m.local_capabilities
        ≡ some c)
unfolding assert_action_allowed
runner_capability lease request now m m' g h =
    elim (Option-cases (find (λ c. c.id == request.capability_id) m.local_capabilities)) [
      | inl missing ↦ absurd (ground arith)
      | inr (c, found) ↦ (c, found)
    ]

pub assert_action_allowed-IsAllowed :
    (lease : Lease) (request : ActionRequest) (now : ℕ) (m m' : Manager) (g : Grant)
    → assert_action_allowed lease request now m ≡ ok (g, m')
    → IsAllowed lease request now m g × (m' ≡ counted lease g m)
unfolding assert_action_allowed counted
assert_action_allowed-IsAllowed lease request now m m' g h =
    let (c, found) = runner_capability lease request now m m' g h in
    (
      record {
        not_revoked = ground arith;
        unexpired = ground arith;
        session = ground arith;
        workspace = ground arith;
        provider = ground arith;
        granted = ground arith;
        in_scope = ground arith;
        capability = c;
        configured = found;
        is_available = ground arith;
        runner_scope = ground arith;
        below_limit = ground arith;
      },
      ground arith,
    )

pub IsAllowed-assert_action_allowed :
    (lease : Lease) (request : ActionRequest) (now : ℕ) (m : Manager) (g : Grant)
    → IsAllowed lease request now m g
    → assert_action_allowed lease request now m ≡ ok (g, counted lease g m)
unfolding assert_action_allowed counted
IsAllowed-assert_action_allowed lease request now m g a = ground arith

-- assertActionAllowed gives grant g and leaves manager m' exactly when every condition holds - the
-- lease is neither revoked nor expired and has the request's session, workspace and provider; its
-- first grant of the capability is g; g and the runner's available capability both have the scope;
-- g's limit is not reached - and m' is the manager with the call counted.
pub assert_action_allowed_iff :
    (lease : Lease) (request : ActionRequest) (now : ℕ) (m m' : Manager) (g : Grant)
    → (assert_action_allowed lease request now m ≡ ok (g, m'))
      ↔ (IsAllowed lease request now m g × (m' ≡ counted lease g m))
assert_action_allowed_iff lease request now m m' g = (
  assert_action_allowed-IsAllowed lease request now m m' g,
  λ (a, e). rw e (IsAllowed-assert_action_allowed lease request now m g a),
)
