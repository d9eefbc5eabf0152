-- ===== src/Host.antt =====
-- packages/hcp-runner/src/host/provider-registry.ts: ProviderInstanceRegistry, with the fields of the
-- configuration (packages/hcp-runner/src/config/index.ts) that it reads. Execution capabilities are
-- JSON, and the value of an option is JSON too.
pub mod Groups
pub mod Snapshot
pub mod Availability
mod Tests
use harness_control_protocol.Base.{
  ℕ, String, ◌<>◌, Bool, true, false, not, ◌&&◌, Option, none, some, List, [], ◌∷◌, ◌++◌, map, ◌==◌,
  if◌then◌else◌, string_eq,
}
use harness_control_protocol.Base.Dict.{Dict, lookup, insert, values}
use harness_control_protocol.Protocol.Json.{Json}

pub data OptionType : Type 0 where
  select_option boolean_option number_option string_option : OptionType

pub record OptionValue : Type 0 where
  pub value : String
  pub label : String

pub record OptionDescriptor : Type 0 where
  pub id : String
  pub label : String
  pub option_type : OptionType
  pub values : Option (List OptionValue)
  pub default_value : Option Json
  pub current_value : Option Json
  pub prompt_injected_values : Option (List String)

pub record Model : Type 0 where
  pub id : String
  pub label : String
  pub is_default : Option Bool
  pub option_descriptors : List OptionDescriptor

pub record ProviderInstance : Type 0 where
  pub id : String
  pub driver_kind : String
  pub display_name : Option String
  pub accent_color : Option String
  pub enabled : Bool
  pub continuation_group_key : Option String
  pub home : Option String
  pub models : List Model
  pub hidden_models : List String
  pub model_order : List String
  pub favorite_models : List String
  pub local_capabilities : List String

pub data ProviderStatus : Type 0 where
  ready is_unavailable unauthenticated disabled in_error unknown : ProviderStatus

pub data AuthStatus : Type 0 where
  is_authenticated not_authenticated auth_unknown : AuthStatus

-- ProviderDriverStatus
pub record Driver : Type 0 where
  pub execution_capabilities : Option Json
  pub provider_instance_id : Option String
  pub driver_kind : String
  pub installed : Bool
  pub available : Bool
  pub status : Option ProviderStatus
  pub auth_status : Option AuthStatus
  pub version : Option String
  pub message : Option String
  pub models : List Model

pub record Registry : Type 0 where
  pub provider_instances : List ProviderInstance
  pub drivers_by_kind : Dict String Driver
  pub drivers_by_provider_id : Dict String Driver

-- A text that is there and not empty, which is what a condition tests.
unfoldable pub truthy : Option String → Option String
truthy none = none
truthy (some s) = if s == "" then none else some s

unfoldable pub add_driver : Registry → Driver → Registry
unfolding truthy
add_driver r d = elim (truthy d.provider_instance_id) [
  | some id ↦ record r { drivers_by_provider_id = insert id d r.drivers_by_provider_id }
  | none ↦ record r { drivers_by_kind = insert d.driver_kind d r.drivers_by_kind }
]

unfoldable pub add_drivers : Registry → List Driver → Registry
unfolding add_driver
add_drivers r [] = r
add_drivers r (d ∷ ds) = add_drivers (add_driver r d) ds

-- The constructor.
pub registry : List ProviderInstance → List Driver → Registry
unfolding add_drivers
registry providers drivers =
    add_drivers
      (record { provider_instances = providers; drivers_by_kind = []; drivers_by_provider_id = [] })
      drivers

-- The home of a provider of this kind, if it is given.
home_of : String → ProviderInstance → Option String
unfolding truthy
home_of kind p = if p.driver_kind == kind then truthy p.home else none

unfoldable pub compute_continuation_group_key : ProviderInstance → String
unfolding home_of truthy
compute_continuation_group_key p = elim (truthy p.continuation_group_key) [
  | some key ↦ key
  | none ↦ elim (home_of "codex" p) [
    | some home ↦ "codex:" <> home
    | none ↦ elim (home_of "claude" p) [
      | some home ↦ "claude:" <> home
      | none ↦ "driver:" <> p.driver_kind
    ]
  ]
]

pub record ContinuationGroup : Type 0 where
  pub key : String
  pub driver_kind : String
  pub provider_instance_ids : List String

-- The group with the provider at its end, or a new one.
unfoldable pub joined : String → ProviderInstance → Option ContinuationGroup → ContinuationGroup
joined key p none = record {
  key = key;
  driver_kind = p.driver_kind;
  provider_instance_ids = p.id ∷ [];
}
joined key p (some g) = record g { provider_instance_ids = g.provider_instance_ids ++ p.id ∷ [] }

unfoldable pub group_providers :
    List ProviderInstance → Dict String ContinuationGroup → Dict String ContinuationGroup
unfolding joined
group_providers [] g = g
group_providers (p ∷ ps) g =
    let key = compute_continuation_group_key p in
    group_providers ps (insert key (joined key p (lookup key g)) g)

pub compute_continuation_groups : Registry → List ContinuationGroup
unfolding group_providers
compute_continuation_groups r = values (group_providers r.provider_instances [])
