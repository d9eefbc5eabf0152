-- ===== src/LocalActions/Manager.antt =====
-- packages/hcp-runner/src/local-actions/index.ts: LocalCapabilityLeaseManager. `now` is
-- this.#now().getTime(); a method that changes the manager returns it.
pub mod Allowed
pub mod Calls
use harness_control_protocol.Base.{
  ℕ, ◌+◌, String, ◌<>◌, Bool, true, false, not, ◌&&◌, ◌||◌, Option, none, some, List, [], ◌∷◌, ◌++◌,
  leb, ltb, ◌==◌, contains, if◌then◌else◌, nat_eq, string_eq, find, select, ok, err, throw_if,
  ◌>>=◌, ◌>>◌,
}
use harness_control_protocol.Base.Dict.{lookup, insert}
use harness_control_protocol.LocalActions.Lease.{
  Grant, Lease, CapabilityStatus, available, unavailable, is_disabled, unknown, CapabilityConfig,
  ProviderConfig, SessionStart, PolicyError, ActionRequest, Manager, Checked,
}

unfoldable pub fail : String → String → PolicyError
fail code message = record { code = code; message = message }

-- Number.isNaN(expiresAt) || expiresAt <= now
unfoldable pub has_expired : Option ℕ → ℕ → Bool
has_expired none now = true
has_expired (some at) now = leb at now

unfoldable pub assert_lease_usable : Lease → ℕ → Manager → Checked (Unit {0})
unfolding has_expired fail
assert_lease_usable lease now m = do
  throw_if (contains m.revoked_lease_ids lease.lease_id) (
      fail "local_capability_lease_revoked"
        ("Local capability lease '" <> lease.lease_id <> "' has been revoked."))
  throw_if (has_expired lease.expires_at now) (
      fail "local_capability_lease_expired"
        ("Local capability lease '" <> lease.lease_id <> "' has expired."))

status_text : CapabilityStatus → String
status_text available = "available"
status_text unavailable = "unavailable"
status_text is_disabled = "disabled"
status_text unknown = "unknown"

check_status : CapabilityConfig → Checked CapabilityConfig
unfolding status_text fail
check_status c = elim c.status [
  | available ↦ ok c
  | other ↦ err (
      fail "local_capability_unavailable"
        ("Capability '" <> c.id <> "' is " <> status_text other <> "."))
]

check_configured : String → Option CapabilityConfig → Checked CapabilityConfig
unfolding check_status fail
check_configured id none = err (
    fail "local_capability_unavailable"
      ("Capability '" <> id <> "' is not configured by this runner."))
check_configured id (some c) = check_status c

unfoldable pub require_configured_capability : String → Manager → Checked CapabilityConfig
unfolding check_configured
require_configured_capability id m =
    check_configured id (find (λ c. c.id == id) m.local_capabilities)

-- `${lease.lease_id}:${grant.id}`
unfoldable pub count_key : Lease → Grant → String
count_key lease grant = lease.lease_id <> ":" <> grant.id

abbrev pub or_zero : Option ℕ → ℕ
or_zero none = 0
or_zero (some n) = n

abbrev pub call_count : String → Manager → ℕ
call_count key m = or_zero (lookup key m.call_counts)

-- grant.max_calls !== undefined && existingCallCount >= grant.max_calls
unfoldable pub is_exhausted : Option ℕ → ℕ → Bool
is_exhausted none count = false
is_exhausted (some most) count = leb most count

require_grant : Lease → String → Option Grant → Checked Grant
unfolding fail
require_grant lease id none = err (
    fail "local_capability_not_granted"
      ("Capability '" <> id <> "' is not granted by lease '" <> lease.lease_id <> "'."))
require_grant lease id (some g) = ok g

unfoldable pub assert_action_allowed :
    Lease → ActionRequest → ℕ → Manager → Checked (Grant × Manager)
unfolding assert_lease_usable require_configured_capability require_grant is_exhausted fail
assert_action_allowed lease request now m = do
  assert_lease_usable lease now m
  throw_if (not (request.session_id == lease.hcp_session_id)) (
      fail "local_capability_session_mismatch"
        "Local capability action session does not match the lease.")
  throw_if (not (request.workspace_id == lease.workspace_id)) (
      fail "local_capability_workspace_mismatch"
        "Local capability action workspace does not match the lease.")
  throw_if (not (request.provider_instance_id == lease.provider_instance_id)) (
      fail "local_capability_provider_mismatch"
        "Local capability action provider does not match the lease.")
  grant ←
      require_grant lease request.capability_id
        (find (λ g. g.id == request.capability_id) lease.capabilities)
  throw_if (not (contains grant.scopes request.scope)) (
      fail "local_capability_scope_not_granted" (
        "Scope '" <> request.scope <> "' is not granted for capability '" <> request.capability_id
        <> "'."))
  configured ← require_configured_capability request.capability_id m
  throw_if (not (contains configured.scopes request.scope)) (
      fail "local_capability_scope_unavailable" (
        "Scope '" <> request.scope <> "' is not available for capability '" <> request.capability_id
        <> "' on this runner."))
  let key = count_key lease grant
  throw_if (is_exhausted grant.max_calls (call_count key m)) (
      fail "local_capability_max_calls_exceeded"
        ("Capability '" <> request.capability_id <> "' exceeded its max call count."))
  ok (grant, record m { call_counts = insert key (call_count key m + 1) m.call_counts })

-- revokeLease: a set keeps one copy.
pub revoke_lease : String → Manager → Manager
revoke_lease id m =
    if contains m.revoked_lease_ids id
    then m
    else record m { revoked_lease_ids = m.revoked_lease_ids ++ id ∷ [] }

assert_lease_binding : Lease → SessionStart → Manager → Checked (Unit {0})
unfolding fail
assert_lease_binding lease payload m = do
  throw_if (not (lease.hcp_session_id == payload.session_id)) (
      fail "local_capability_session_mismatch"
        "Local capability lease session does not match the HCP session.")
  throw_if (not (lease.execution_host_id == m.host_id)) (
      fail "local_capability_host_mismatch"
        "Local capability lease host does not match this runner.")
  throw_if (not (lease.provider_instance_id == payload.provider_instance_id)) (
      fail "local_capability_provider_mismatch"
        "Local capability lease provider does not match the selected provider.")
  throw_if (not (lease.workspace_id == payload.workspace_id)) (
      fail "local_capability_workspace_mismatch"
        "Local capability lease workspace does not match the selected workspace.")

join_comma : List String → String
join_comma [] = ""
join_comma (s ∷ []) = s
join_comma (s ∷ t ∷ ts) = s <> ", " <> join_comma (t ∷ ts)

assert_grant_scopes_allowed : CapabilityConfig → Grant → Checked (Unit {0})
unfolding fail join_comma
assert_grant_scopes_allowed configured grant =
    let missing = select (λ s. not (contains configured.scopes s)) grant.scopes in
    elim missing [
      | [] ↦ ok tt
      | s ∷ ss ↦ err (
          fail "local_capability_scope_unavailable" (
            "Capability '"
            <> grant.id
            <> "' requested unavailable scopes: "
            <> join_comma (s ∷ ss)
            <> "."))
    ]

assert_provider_supports : ProviderConfig → String → Checked (Unit {0})
unfolding fail
assert_provider_supports provider id = throw_if (not (contains provider.local_capabilities id)) (
    fail "local_capability_provider_unsupported"
      ("Provider '" <> provider.id <> "' does not support capability '" <> id <> "'."))

-- The loop over the grants of the lease.
check_grants : List Grant → ProviderConfig → Manager → Checked (Unit {0})
unfolding require_configured_capability assert_grant_scopes_allowed assert_provider_supports
check_grants [] provider m = ok tt
check_grants (grant ∷ grants) provider m =
    require_configured_capability grant.id m >>= λ configured.
    assert_grant_scopes_allowed configured grant
    >> (assert_provider_supports provider grant.id >> check_grants grants provider m)

validate_lease : Lease → SessionStart → ProviderConfig → ℕ → Manager → Checked (Option Lease)
unfolding assert_lease_binding assert_lease_usable check_grants
validate_lease lease payload provider now m = do
  assert_lease_binding lease payload m
  assert_lease_usable lease now m
  check_grants lease.capabilities provider m
  ok (some lease)

pub validate_session_lease : SessionStart → ProviderConfig → ℕ → Manager → Checked (Option Lease)
unfolding validate_lease
validate_session_lease payload provider now m = elim payload.local_capability_lease [
  | none ↦ ok none
  | some lease ↦ validate_lease lease payload provider now m
]
