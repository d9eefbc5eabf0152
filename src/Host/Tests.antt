-- ===== src/Host/Tests.antt =====
-- Three providers and their driver, and the theorems applied to them.
use harness_control_protocol.Base.{
  String, ◌≡◌, ◌↔◌, refl, true, some, none, List, [], ◌∷◌, string_eq,
}
use harness_control_protocol.Base.Dict.{lookup, insert}
use harness_control_protocol.Host.{
  ProviderInstance, Driver, Registry, registry, compute_continuation_group_key, group_providers,
}
use harness_control_protocol.Host.Snapshot.{snapshot_provider}
use harness_control_protocol.Host.Groups.{members}
use harness_control_protocol.Host.Availability.{snapshot_provider-message}

abbrev provider_at : String → String → String → ProviderInstance
provider_at id kind home = record {
  id = id;
  driver_kind = kind;
  display_name = none;
  accent_color = none;
  enabled = true;
  continuation_group_key = none;
  home = some home;
  models = [];
  hidden_models = [];
  model_order = [];
  favorite_models = [];
  local_capabilities = "git" ∷ [];
}

abbrev codex : Driver
codex = record {
  execution_capabilities = none;
  provider_instance_id = none;
  driver_kind = "codex";
  installed = true;
  available = true;
  status = none;
  auth_status = none;
  version = some "1";
  message = none;
  models = [];
}

abbrev providers : List ProviderInstance
providers =
    provider_at "a" "codex" "/x" ∷ provider_at "b" "claude" "/x" ∷ provider_at "c" "codex" "/x" ∷ []

abbrev sample : Registry
sample = record {
  provider_instances = providers;
  drivers_by_kind = ("codex", codex) ∷ [];
  drivers_by_provider_id = [];
}

built : registry providers (codex ∷ []) ≡ sample
unfolding registry insert
built = refl

codex_group : members (lookup "codex:/x" (group_providers providers [])) ≡ "a" ∷ "c" ∷ []
unfolding members group_providers compute_continuation_group_key lookup insert string_eq
codex_group = refl

snapshot_provider-message_example :
    ((snapshot_provider sample "now" (provider_at "b" "claude" "/x")).message ≡ none)
    ↔ ((snapshot_provider sample "now" (provider_at "b" "claude" "/x")).is_available ≡ true)
snapshot_provider-message_example =
    snapshot_provider-message sample "now" (provider_at "b" "claude" "/x")
