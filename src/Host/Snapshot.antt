-- ===== src/Host/Snapshot.antt =====
-- packages/hcp-runner/src/host/provider-registry.ts: the snapshot of the providers, with the normalised models.
use harness_control_protocol.Base.{
  String, ◌<>◌, Bool, false, not, ◌&&◌, Option, none, some, List, [], ◌∷◌, map, if◌then◌else◌,
  string_eq,
}
use harness_control_protocol.Base.Dict.{lookup}
use harness_control_protocol.Protocol.Json.{Json}
use harness_control_protocol.Host.{
  OptionDescriptor, Model, ProviderInstance, ProviderStatus, is_unavailable, AuthStatus, ready,
  unauthenticated, disabled, auth_unknown, not_authenticated, Driver, Registry, truthy,
  compute_continuation_group_key,
}

normalize_option_descriptor : OptionDescriptor → OptionDescriptor
normalize_option_descriptor o = record {
  id = o.id;
  label = o.label;
  option_type = o.option_type;
  values = o.values;
  default_value = o.default_value;
  current_value = o.current_value;
  prompt_injected_values = o.prompt_injected_values;
}

normalize_model : Model → Model
unfolding normalize_option_descriptor
normalize_model m = record {
  id = m.id;
  label = m.label;
  is_default = m.is_default;
  option_descriptors = map normalize_option_descriptor m.option_descriptors;
}

pub normalize_harness_models : List Model → List Model
unfolding normalize_model
normalize_harness_models = map normalize_model

pub record ProviderSnapshot : Type 0 where
  pub execution_capabilities : Option Json
  pub provider_instance_id : String
  pub driver_kind : String
  pub display_name : Option String
  pub accent_color : Option String
  pub enabled : Bool
  pub installed : Bool
  pub status : ProviderStatus
  pub is_available : Bool
  pub version : Option String
  pub message : Option String
  pub checked_at : String
  pub continuation_group_key : String
  pub auth : AuthStatus
  pub models : List Model
  pub hidden_models : Option (List String)
  pub model_order : Option (List String)
  pub favorite_models : Option (List String)
  pub local_capabilities : List String

unfoldable pub or_else {ℓ} : {A : Type ℓ} → Option A → Option A → Option A
or_else (some a) o = some a
or_else none o = o

-- A driver of the provider itself goes before one of its kind.
unfoldable pub driver_for : ProviderInstance → Registry → Option Driver
unfolding or_else
driver_for p r =
    or_else (lookup p.id r.drivers_by_provider_id) (lookup p.driver_kind r.drivers_by_kind)

unfoldable pub driver_available : Option Driver → Bool
driver_available none = false
driver_available (some d) = d.available

driver_installed : Option Driver → Bool
driver_installed none = false
driver_installed (some d) = d.installed

status_given : Option Driver → Option ProviderStatus
status_given none = none
status_given (some d) = d.status

status_of : Bool → Bool → Option Driver → ProviderStatus
unfolding status_given
status_of enabled available driver = if not enabled then disabled else elim (status_given driver) [
  | some s ↦ s
  | none ↦ if available then ready else is_unavailable
]

auth_given : Option Driver → Option AuthStatus
auth_given none = none
auth_given (some d) = d.auth_status

auth_of : ProviderStatus → Option Driver → AuthStatus
unfolding auth_given
auth_of status driver = elim (auth_given driver) [
  | some s ↦ s
  | none ↦ elim status [ unauthenticated ↦ not_authenticated | _ ↦ auth_unknown ]
]

given_message : Option String → String
unfolding truthy
given_message o = elim (truthy o) [ some m ↦ m | none ↦ "Provider is unavailable." ]

unfoldable pub unavailable_message : ProviderInstance → Option Driver → String
unfolding given_message
unavailable_message p driver =
    if not p.enabled then "Provider is disabled in runner config." else elim driver [
      | none ↦ "Unsupported provider driver '" <> p.driver_kind <> "'."
      | some d ↦ given_message d.message
    ]

execution_given : Option Driver → Option Json
execution_given none = none
execution_given (some d) = d.execution_capabilities

version_given : Option Driver → Option String
unfolding truthy
version_given none = none
version_given (some d) = truthy d.version

driver_models : Option Driver → List Model
driver_models none = []
driver_models (some d) = d.models

models_of : List Model → Option Driver → List Model
unfolding normalize_harness_models driver_models
models_of [] driver = driver_models driver
models_of (m ∷ ms) driver = normalize_harness_models (m ∷ ms)

-- The list, if it is not empty.
listed {ℓ} : {A : Type ℓ} → List A → Option (List A)
listed [] = none
listed (x ∷ xs) = some (x ∷ xs)

unfoldable pub snapshot_provider : Registry → String → ProviderInstance → ProviderSnapshot
unfolding driver_for driver_available driver_installed status_of auth_of execution_given
    version_given models_of listed truthy
snapshot_provider r now p =
    let driver = driver_for p r in
    let available = p.enabled && driver_available driver in
    let status = status_of p.enabled available driver in
    record {
      execution_capabilities = execution_given driver;
      provider_instance_id = p.id;
      driver_kind = p.driver_kind;
      display_name = truthy p.display_name;
      accent_color = truthy p.accent_color;
      enabled = p.enabled;
      installed = driver_installed driver;
      status = status;
      is_available = available;
      version = version_given driver;
      message = if available then none else some (unavailable_message p driver);
      checked_at = now;
      continuation_group_key = compute_continuation_group_key p;
      auth = auth_of status driver;
      models = models_of p.models driver;
      hidden_models = listed p.hidden_models;
      model_order = listed p.model_order;
      favorite_models = listed p.favorite_models;
      local_capabilities = p.local_capabilities;
    }

pub snapshot_providers : Registry → String → List ProviderSnapshot
unfolding snapshot_provider
snapshot_providers r now = map (snapshot_provider r now) r.provider_instances
