-- ===== src/Accounts/Updates.antt =====
-- What HcpAccountUsageReducer.apply keeps of each source.
use harness_control_protocol.Base.{
  ◌≤◌, String, ◌≡◌, ◌≢◌, refl, ap, ◌∙◌, Option, none, some, false, List, [], ◌∷◌, arith, leb,
  if◌then◌else◌, string_eq, nat_eq, pair_eq, All, ok, Bool-cases, Option-cases, inl, inr, subst,
  sym,
}
use harness_control_protocol.Base.Dict.{lookup, insert, lookup-insert, Every, insert-Every}
use harness_control_protocol.Accounts.{
  Available, Observation, available, unavailable, Reading, AccountsSnapshot, SourceState,
  observed_ms, Sources, success_of, is_known_since, source_after, apply_reading, apply_readings,
  apply, Succeeded, newest,
}

-- An available source has the same success, and no success is newer than the latest observation.
abbrev pub IsSoundAt : Observation → Option Available → Type 0
IsSoundAt (available a) success = success ≡ some a
IsSoundAt (unavailable at reason message) none = Unit
IsSoundAt (unavailable at reason message) (some a) = a.observed_at.ms ≤ at.ms

abbrev pub IsSoundSource : String × String → SourceState → Type 0
IsSoundSource key s =
    (key ≡ (s.host_id, s.provider_instance_id)) × IsSoundAt s.latest s.last_success

-- Every source stands at its own key and is sound.
pub record IsSound (m : Sources) : Type 0 where
  pub sources : Every IsSoundSource m

-- No success is newer than the latest observation.
success_le :
    (o : Observation) (success : Option Available) (a : Available)
    → IsSoundAt o success
    → success ≡ some a
    → a.observed_at.ms ≤ observed_ms o
success_le (available b) success a sound found = ground arith
success_le (unavailable at reason message) none a sound found = ground arith
success_le (unavailable at reason message) (some b) a sound found = ground arith

source_after-IsSoundAt :
    (host : String) (r : Reading) (existing : Option SourceState)
    → ((s : SourceState) → existing ≡ some s → IsSoundAt s.latest s.last_success)
    → is_known_since existing r.observation ≡ false
    → IsSoundAt (source_after host r existing).latest (source_after host r existing).last_success
unfolding source_after success_of is_known_since
source_after-IsSoundAt host r existing sound newer = go r.observation existing sound newer
  where
    go :
        (o : Observation) (existing : Option SourceState)
        → ((s : SourceState) → existing ≡ some s → IsSoundAt s.latest s.last_success)
        → is_known_since existing o ≡ false
        → IsSoundAt o (success_of o existing)
    go (available a) existing sound newer = refl
    go (unavailable at reason message) none sound newer = tt
    go (unavailable at reason message) (some s) sound newer = bound s.last_success refl
      where
        bound :
            (success : Option Available)
            → s.last_success ≡ success
            → IsSoundAt (unavailable at reason message) success
        bound none e = tt
        bound (some a) e = ground (arith, success_le s.latest s.last_success a (sound s refl) e)

apply_reading-IsSound :
    (host : String) (r : Reading) (m : Sources) → IsSound m → IsSound (apply_reading host r m)
unfolding apply_reading
apply_reading-IsSound host r m wf =
    let key : String × String = (host, r.provider_instance_id) in
    let existing = lookup key m in
    elim (Bool-cases (is_known_since existing r.observation)) [
      | inl old ↦
          let same : apply_reading host r m ≡ m = ground (arith, old) in subst IsSound (sym same) wf
      | inr newer ↦
          let next = source_after host r existing in
          let same : apply_reading host r m ≡ insert key next m = ground (arith, newer) in
          let sound : IsSoundSource key next = (
            unfold source_after in refl,
            source_after-IsSoundAt host r existing (λ s found. (wf.sources key s found).1) newer,
          ) in
          subst IsSound (sym same)
            (record { sources = insert-Every IsSoundSource key next m wf.sources sound })
    ]

pub apply_readings-IsSound :
    (host : String) (rs : List Reading) (m : Sources)
    → IsSound m
    → IsSound (apply_readings host rs m)
unfolding apply_readings
apply_readings-IsSound host [] m wf = wf
apply_readings-IsSound host (r ∷ rs) m wf =
    apply_readings-IsSound host rs (apply_reading host r m) (apply_reading-IsSound host r m wf)

-- The source has an observation that is at least as new as the reading.
abbrev pub IsCovered : String → Sources → Reading → Type 0
IsCovered host m r =
    (s : SourceState) × (lookup (host, r.provider_instance_id) m ≡ some s)
    × (observed_ms r.observation ≤ observed_ms s.latest)

apply_reading-IsCovered_self :
    (host : String) (r : Reading) (m : Sources) → IsCovered host (apply_reading host r m) r
unfolding apply_reading is_known_since source_after
apply_reading-IsCovered_self host r m =
    let key : String × String = (host, r.provider_instance_id) in
    let next = source_after host r (lookup key m) in
    let written = lookup-insert key key next m in
    elim (Option-cases (lookup key m)) [
      | inl missing ↦ (next, ground (arith, missing, written), omega arith)
      | inr (s, found) ↦
          elim (Bool-cases (leb (observed_ms r.observation) (observed_ms s.latest))) [
            | inl old ↦ (s, ground (arith, found, old), ground (arith, old))
            | inr newer ↦ (next, ground (arith, found, newer, written), omega arith)
          ]
    ]

apply_reading-IsCovered :
    (host : String) (r r' : Reading) (m : Sources)
    → IsCovered host m r'
    → IsCovered host (apply_reading host r m) r'
unfolding apply_reading is_known_since source_after
apply_reading-IsCovered host r r' m (s, found, le) =
    let key : String × String = (host, r.provider_instance_id) in
    let key' : String × String = (host, r'.provider_instance_id) in
    let next = source_after host r (lookup key m) in
    let written = lookup-insert key' key next m in
    elim (Bool-cases (is_known_since (lookup key m) r.observation)) [
      | inl old ↦ (s, ground (arith, found, old), le)
      | inr newer ↦ elim (string_eq.dec r'.provider_instance_id r.provider_instance_id) [
        | yes same ↦
            (next, ground (arith, same, newer, written), ground (arith, found, same, newer, le))
        | no other ↦ (s, ground (arith, found, newer, written, other), le)
      ]
    ]

apply_readings-IsCovered :
    (host : String) (rs : List Reading) (r' : Reading) (m : Sources)
    → IsCovered host m r'
    → IsCovered host (apply_readings host rs m) r'
unfolding apply_readings
apply_readings-IsCovered host [] r' m covered = covered
apply_readings-IsCovered host (r ∷ rs) r' m covered =
    apply_readings-IsCovered host rs r' (apply_reading host r m)
      (apply_reading-IsCovered host r r' m covered)

pub apply_readings-All :
    (host : String) (rs : List Reading) (m : Sources)
    → All (IsCovered host (apply_readings host rs m)) rs
unfolding apply_readings
apply_readings-All host [] m = tt
apply_readings-All host (r ∷ rs) m = (
  apply_readings-IsCovered host rs r (apply_reading host r m)
      (apply_reading-IsCovered_self host r m),
  apply_readings-All host rs (apply_reading host r m),
)

-- If every source stands at its own key, an available source has the same observation as its last
-- success, and no success is newer than the latest observation, then this is so after apply accepts
-- a snapshot.
pub apply-IsSound :
    (s : AccountsSnapshot) (m m' : Sources) → IsSound m → apply s m ≡ ok m' → IsSound m'
unfolding apply
apply-IsSound s m m' wf done =
    let same : apply_readings s.host_id s.providers m ≡ m' = ground arith in
    subst IsSound same (apply_readings-IsSound s.host_id s.providers m wf)

-- After apply accepts a snapshot, each source that it reads has an observation at least as new as
-- the reading.
apply_newest :
    (s : AccountsSnapshot) (m m' : Sources)
    → apply s m ≡ ok m'
    → All (IsCovered s.host_id m') s.providers
unfolding apply
apply_newest s m m' done =
    let same : apply_readings s.host_id s.providers m ≡ m' = ground arith in
    subst (λ m. All (IsCovered s.host_id m) s.providers) same
      (apply_readings-All s.host_id s.providers m)

apply_reading_other :
    (host : String) (r : Reading) (key : String × String) (m : Sources)
    → key.0 ≢ host
    → lookup key (apply_reading host r m) ≡ lookup key m
unfolding apply_reading
apply_reading_other host r key m other = ground (
  arith,
  lookup-insert key (host, r.provider_instance_id)
      (source_after host r (lookup (host, r.provider_instance_id) m)) m,
  λ (p : key ≡ (host, r.provider_instance_id)). ap (λ k. k.0) p,
)

apply_readings_other :
    (host : String) (rs : List Reading) (key : String × String) (m : Sources)
    → key.0 ≢ host
    → lookup key (apply_readings host rs m) ≡ lookup key m
unfolding apply_readings
apply_readings_other host [] key m other = refl
apply_readings_other host (r ∷ rs) key m other =
    apply_readings_other host rs key (apply_reading host r m) other
    ∙ apply_reading_other host r key m other

pub apply_other :
    (s : AccountsSnapshot) (key : String × String) (m m' : Sources)
    → key.0 ≢ s.host_id
    → apply s m ≡ ok m'
    → lookup key m' ≡ lookup key m
unfolding apply
apply_other s key m m' other done =
    ground (arith, apply_readings_other s.host_id s.providers key m other)

-- One of the group, and none of it has a newer success.
newest-le :
    (x : Succeeded) (xs : List Succeeded)
    → ((x.0).observed_at.ms ≤ ((newest x xs).0).observed_at.ms)
      × All (λ y. (y.0).observed_at.ms ≤ ((newest x xs).0).observed_at.ms) xs
unfolding newest
newest-le x [] = (omega arith, tt)
newest-le x (y ∷ xs) =
    let (first, rest) =
      newest-le (if leb (y.0).observed_at.ms (x.0).observed_at.ms then x else y) xs in
    (ground (arith, first), (ground (arith, first), rest))
