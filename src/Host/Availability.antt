-- ===== src/Host/Availability.antt =====
-- When a provider's snapshot says that it is available.
use harness_control_protocol.Base.{String, ◌≡◌, ◌↔◌, true, none, arith, string_eq}
use harness_control_protocol.Host.{ProviderInstance, Registry}
use harness_control_protocol.Host.Snapshot.{snapshot_provider}

-- A provider's snapshot has no message exactly when it says that the provider is available.
pub snapshot_provider-message :
    (r : Registry) (now : String) (p : ProviderInstance)
    → ((snapshot_provider r now p).message ≡ none)
      ↔ ((snapshot_provider r now p).is_available ≡ true)
unfolding snapshot_provider
snapshot_provider-message r now p = (λ quiet. ground arith, λ on. ground arith)
