-- ===== src/Accounts.antt =====
-- packages/hcp-protocol/src/accounts.ts: the observations of accounts and HcpAccountUsageReducer. The
-- key of a source, JSON.stringify of two texts, is the pair of them.
pub mod Updates
pub mod Views
mod Tests
use harness_control_protocol.Base.{
  ℕ, ◌+◌, ◌-◌, String, ◌≡◌, refl, Bool, true, false, not, ◌&&◌, ◌||◌, Option, none, some, List, [],
  ◌∷◌, ◌++◌, leb, ltb, ◌==◌, if◌then◌else◌, Eq, pair_eq, string_eq, nat_eq, contains, all, Result,
  ok, err, throw_if, ◌>>=◌, ◌>>◌, map,
}
use harness_control_protocol.Base.Dict.{Dict, lookup, insert, erase, keys, values}

-- A timestamp: its text and Date.parse of it.
pub record Timestamp : Type 0 where
  pub iso : String
  pub ms : ℕ

pub data ScopeSource : Type 0 where
  provider operator local : ScopeSource

pub record Identity : Type 0 where
  pub key : String
  pub provider : String
  pub scope_source : ScopeSource
  pub label : String

pub data LimitKind : Type 0 where
  quota spend : LimitKind

-- `used_percent` is the number's text.
pub record Limit : Type 0 where
  pub id : String
  pub label : String
  pub kind : LimitKind
  pub used_percent : Option String
  pub resets_at : Option Timestamp
  pub window_minutes : Option ℕ

pub data Source : Type 0 where
  codex_app_server claude_sdk_experimental : Source

pub record Available : Type 0 where
  pub observed_at : Timestamp
  pub account : Identity
  pub source : Source
  pub plan : Option String
  pub limits : List Limit

pub data UnavailableReason : Type 0 where
  is_disabled unsupported unauthenticated not_applicable timeout provider_error invalid_response :
      UnavailableReason

pub data Observation : Type 0 where
  available : Available → Observation
  unavailable : Timestamp → UnavailableReason → String → Observation

pub record Reading : Type 0 where
  pub provider_instance_id : String
  pub observation : Observation

pub record AccountsSnapshot : Type 0 where
  pub request_id : String
  pub host_id : String
  pub providers : List Reading

pub record SourceState : Type 0 where
  pub host_id : String
  pub provider_instance_id : String
  pub latest : Observation
  pub last_success : Option Available

-- Date.parse(observation.observed_at)
abbrev pub observed_ms : Observation → ℕ
observed_ms (available a) = a.observed_at.ms
observed_ms (unavailable at reason message) = at.ms

abbrev pub Sources : Type 0
Sources = Dict (String × String) SourceState

-- new Set(ids).size === ids.length
unfoldable pub is_unique : List String → Bool
is_unique [] = true
is_unique (x ∷ xs) = not (contains xs x) && is_unique xs

limits_unique : Observation → Bool
unfolding is_unique
limits_unique (available a) = is_unique (map (λ l. l.id) a.limits)
limits_unique (unavailable at reason message) = true

-- What hcpAccountsSnapshotPayloadSchema and the schemas inside it refine: unique provider ids, and
-- unique limit ids in each observation.
unfoldable pub snapshot_valid : AccountsSnapshot → Bool
unfolding is_unique limits_unique
snapshot_valid s =
    is_unique (map (λ r. r.provider_instance_id) s.providers)
    && all (λ r. limits_unique r.observation) s.providers

-- reading.observation.status === "available" ? reading.observation : existing?.last_success
unfoldable pub success_of : Observation → Option SourceState → Option Available
success_of (available a) existing = some a
success_of (unavailable at reason message) none = none
success_of (unavailable at reason message) (some s) = s.last_success

-- existing && Date.parse(existing.latest.observed_at) >= Date.parse(reading.observation.observed_at)
unfoldable pub is_known_since : Option SourceState → Observation → Bool
is_known_since none o = false
is_known_since (some s) o = leb (observed_ms o) (observed_ms s.latest)

unfoldable pub source_after : String → Reading → Option SourceState → SourceState
unfolding success_of
source_after host r existing = record {
  host_id = host;
  provider_instance_id = r.provider_instance_id;
  latest = r.observation;
  last_success = success_of r.observation existing;
}

-- The loop's body, for a host.
unfoldable pub apply_reading : String → Reading → Sources → Sources
unfolding is_known_since source_after
apply_reading host r m =
    let key : String × String = (host, r.provider_instance_id) in
    let existing = lookup key m in
    if is_known_since existing r.observation then m else insert key (source_after host r existing) m

unfoldable pub apply_readings : String → List Reading → Sources → Sources
unfolding apply_reading
apply_readings host [] m = m
apply_readings host (r ∷ rs) m = apply_readings host rs (apply_reading host r m)

-- HcpAccountUsageReducer.apply: the sources, or the schema's error.
pub apply : AccountsSnapshot → Sources → Result String Sources
unfolding apply_readings snapshot_valid
apply s m = do
  throw_if (not (snapshot_valid s)) "invalid snapshot"
  ok (apply_readings s.host_id s.providers m)

pub remove_source : String → String → Sources → Sources
remove_source host id m = erase (host, id) m

pub snapshot : Sources → List SourceState
snapshot m = values m

pub data Freshness : Type 0 where
  fresh stale is_unavailable : Freshness

pub record SourceId : Type 0 where
  pub host_id : String
  pub provider_instance_id : String

pub record UsageView : Type 0 where
  pub account : Identity
  pub observation : Available
  pub freshness : Freshness
  pub sources : List SourceId

-- A source with its last success.
abbrev pub Succeeded : Type 0
Succeeded = Available × SourceState

unfoldable pub group_of : Option (List Succeeded) → List Succeeded
group_of none = []
group_of (some g) = g

-- The loop that groups the sources by their account.
unfoldable pub group_sources :
    List SourceState → Dict String (List Succeeded) → Dict String (List Succeeded)
unfolding group_of
group_sources [] g = g
group_sources (s ∷ ss) g = elim s.last_success [
  | none ↦ group_sources ss g
  | some a ↦
      group_sources ss (insert a.account.key (group_of (lookup a.account.key g) ++ (a, s) ∷ []) g)
]

-- sources.reduce(...): the first of those with the newest success.
unfoldable pub newest : Succeeded → List Succeeded → Succeeded
newest a [] = a
newest a (b ∷ rest) = newest (if leb (b.0).observed_at.ms (a.0).observed_at.ms then a else b) rest

unfoldable pub is_available : Observation → Bool
is_available (available a) = true
is_available (unavailable at reason message) = false

-- age < 0 || age > maxAgeMs is stale, where age is now - observed.
unfoldable pub freshness_of : ℕ → ℕ → Succeeded → Freshness
unfolding is_available
freshness_of now max_age_ms (a, s) =
    if not (is_available s.latest)
    then is_unavailable
    else if ltb now a.observed_at.ms || ltb (a.observed_at.ms + max_age_ms) now
    then stale
    else fresh

abbrev pub source_id : Succeeded → SourceId
source_id (_, s) = record { host_id = s.host_id; provider_instance_id = s.provider_instance_id }

unfoldable pub view_of : ℕ → ℕ → List Succeeded → List UsageView
unfolding newest freshness_of
view_of now max_age_ms [] = []
view_of now max_age_ms (x ∷ xs) =
    let selected = newest x xs in
    record {
      account = (selected.0).account;
      observation = selected.0;
      freshness = freshness_of now max_age_ms selected;
      sources = map source_id (x ∷ xs);
    }
    ∷ []

unfoldable pub views_of : ℕ → ℕ → List (List Succeeded) → List UsageView
unfolding view_of
views_of now max_age_ms [] = []
views_of now max_age_ms (g ∷ gs) = view_of now max_age_ms g ++ views_of now max_age_ms gs

-- HcpAccountUsageReducer.accounts; a group is never empty.
unfoldable pub accounts : ℕ → ℕ → Sources → Result String (List UsageView)
unfolding group_sources views_of
accounts now max_age_ms m = do
  throw_if (ltb max_age_ms 1) "Invalid freshness bounds."
  ok (views_of now max_age_ms (values (group_sources (values m) [])))
