-- ===== src/Base/Dict.antt =====
-- JavaScript's `Map` and its dictionaries: entries in insertion order, where a write to a key that is
-- there keeps its place.
use harness_control_protocol.Base.Equality.{Eq, ◌==◌, if◌then◌else◌}
use mathlib.Core.Path.{◌≡◌, refl}
use mathlib.Core.Logic.{◌≢◌}
use mathlib.Core.Bool.{Bool, false}
use mathlib.Core.Option.{Option, none, some}
use mathlib.Core.List.{List, [], ◌∷◌, ◌++◌, map}
use harness_control_protocol.Base.Lists.{All, any}
use native.Mathlib.Omega.{arith}

abbrev pub Dict {ℓ κ} : Type ℓ → Type κ → Type (ℓ ⊔ κ)
Dict K V = List (K × V)

abbrev pub keys {ℓ κ} : {K : Type ℓ} {V : Type κ} → Dict K V → List K
keys = map (λ (k, _). k)

abbrev pub values {ℓ κ} : {K : Type ℓ} {V : Type κ} → Dict K V → List V
values = map (λ (_, v). v)

abbrev pub keep {κ} : {V : Type κ} → (V → Bool) → Option V → Option V
keep p none = none
keep p (some v) = if p v then some v else none

module _ {ℓ κ} {K : Type ℓ} {V : Type κ} ⦃e : Eq K⦄ where
  unfoldable pub lookup : K → Dict K V → Option V
  lookup k [] = none
  lookup k ((j, v) ∷ d) = if k == j then some v else lookup k d

  unfoldable pub insert : K → V → Dict K V → Dict K V
  insert k v [] = (k, v) ∷ []
  insert k v ((j, w) ∷ d) = if k == j then (j, v) ∷ d else (j, w) ∷ insert k v d

  unfoldable pub erase : K → Dict K V → Dict K V
  erase k [] = []
  erase k ((j, w) ∷ d) = let rest = erase k d in if k == j then rest else (j, w) ∷ rest

  pub lookup-insert :
      (j k : K) (v : V) (d : Dict K V)
      → lookup j (insert k v d) ≡ (if j == k then some v else lookup j d)
  unfolding lookup insert
  lookup-insert j k v [] = refl
  lookup-insert j k v ((i, w) ∷ d) = ground (arith, lookup-insert j k v d)

  pub lookup-erase :
      (j k : K) (d : Dict K V) → lookup j (erase k d) ≡ (if j == k then none else lookup j d)
  unfolding lookup erase
  lookup-erase j k [] = ground arith
  lookup-erase j k ((i, w) ∷ d) = ground (arith, lookup-erase j k d)

  pub lookup-insert_self : (k : K) (v : V) (d : Dict K V) → lookup k (insert k v d) ≡ some v
  lookup-insert_self k v d = ground (arith, lookup-insert k k v d)

  pub lookup-insert_ne :
      (j k : K) (v : V) (d : Dict K V) → j ≢ k → lookup j (insert k v d) ≡ lookup j d
  lookup-insert_ne j k v d h = ground (arith, lookup-insert j k v d)

  -- A new key goes to the end.
  pub insert_absent :
      (k : K) (v : V) (d : Dict K V) → lookup k d ≡ none → insert k v d ≡ d ++ (k, v) ∷ []
  unfolding lookup insert
  insert_absent k v [] h = refl
  insert_absent k v ((j, w) ∷ d) h = ground (arith, insert_absent k v d)

  -- A property of every entry is kept by a write that has it.
  abbrev pub Every {μ} : (K → V → Type μ) → Dict K V → Type (ℓ ⊔ κ ⊔ μ)
  Every P d = (k : K) (v : V) → lookup k d ≡ some v → P k v

  pub insert-Every {μ} :
      (P : K → V → Type μ) (k : K) (v : V) (d : Dict K V)
      → Every P d
      → P k v
      → Every P (insert k v d)
  insert-Every P k v d h p j w found = ground (arith, lookup-insert j k v d, h j w)

  -- No key is there twice, as in every dictionary that is built by writes.
  abbrev pub NodupKeys : Dict K V → Type κ
  NodupKeys [] = Unit
  NodupKeys ((k, _) ∷ d) = (lookup k d ≡ none) × NodupKeys d

  -- The loop that deletes the entries whose value does not pass the test.
  unfoldable pub retain : (V → Bool) → Dict K V → Dict K V
  retain p [] = []
  retain p ((k, v) ∷ d) = if p v then (k, v) ∷ retain p d else retain p d

  pub lookup-retain :
      (p : V → Bool) (k : K) (d : Dict K V)
      → NodupKeys d
      → lookup k (retain p d) ≡ keep p (lookup k d)
  unfolding lookup retain
  lookup-retain p k [] u = refl
  lookup-retain p k ((j, v) ∷ d) (fresh, u) = ground (arith, lookup-retain p k d u)

  retain_absent :
      (p : V → Bool) (k : K) (d : Dict K V) → lookup k d ≡ none → lookup k (retain p d) ≡ none
  unfolding lookup retain
  retain_absent p k [] h = refl
  retain_absent p k ((j, v) ∷ d) h = ground (arith, retain_absent p k d)

  pub retain-NodupKeys : (p : V → Bool) (d : Dict K V) → NodupKeys d → NodupKeys (retain p d)
  unfolding retain
  retain-NodupKeys p [] u = tt
  retain-NodupKeys p ((j, v) ∷ d) (fresh, u) =
      ground (arith, retain_absent p j d fresh, retain-NodupKeys p d u)

  pub insert-NodupKeys : (k : K) (v : V) (d : Dict K V) → NodupKeys d → NodupKeys (insert k v d)
  unfolding insert lookup
  insert-NodupKeys k v [] u = (refl, tt)
  insert-NodupKeys k v ((j, w) ∷ d) (fresh, u) =
      ground (arith, insert-NodupKeys k v d u, lookup-insert j k v d)

  erase_absent : (j k : K) (d : Dict K V) → lookup j d ≡ none → lookup j (erase k d) ≡ none
  erase_absent j k d h = ground (arith, lookup-erase j k d)

  pub erase-NodupKeys : (k : K) (d : Dict K V) → NodupKeys d → NodupKeys (erase k d)
  unfolding erase
  erase-NodupKeys k [] u = tt
  erase-NodupKeys k ((j, w) ∷ d) (fresh, u) =
      ground (arith, erase-NodupKeys k d u, erase_absent j k d fresh)

  -- What every lookup finds has a property, so every value has it.
  pub values-All {μ} :
      (Q : V → Type μ) (d : Dict K V)
      → NodupKeys d
      → ((k : K) (v : V) → lookup k d ≡ some v → Q v)
      → All Q (values d)
  unfolding lookup
  values-All Q [] u h = tt
  values-All Q ((j, w) ∷ d) (fresh, u) h =
      (h j w (ground arith), values-All Q d u (λ k v found. h k v (ground (arith, fresh, found))))

  -- What `lookup` returns fails every test that no entry passes.
  pub lookup-any :
      (q : K × V → Bool) (k : K) (d : Dict K V) {v : V}
      → any q d ≡ false
      → lookup k d ≡ some v
      → q (k, v) ≡ false
  unfolding lookup
  lookup-any q k [] h found = absurd (ground arith)
  lookup-any q k ((j, w) ∷ d) {v} h found = ground (arith, lookup-any q k d {v = v})

  pub lookup-any_values :
      (p : V → Bool) (k : K) (d : Dict K V) {v : V}
      → any p (values d) ≡ false
      → lookup k d ≡ some v
      → p v ≡ false
  unfolding lookup
  lookup-any_values p k [] h found = absurd (ground arith)
  lookup-any_values p k ((j, w) ∷ d) {v} h found = ground (arith, lookup-any_values p k d {v = v})
