-- ===== src/Base/Weights.antt =====
-- Sums over the values of a dictionary, and its size, when entries come and go.
use harness_control_protocol.Base.Equality.{Eq}
use harness_control_protocol.Base.Lists.{length}
use harness_control_protocol.Base.Dict.{Dict, lookup, insert, erase, values, NodupKeys}
use Prim.Native.Nat.{ℕ, suc, ◌+◌, ◌≤◌}
use mathlib.Core.Path.{◌≡◌, refl}
use mathlib.Core.Option.{none, some}
use mathlib.Core.List.{List, [], ◌∷◌}
use native.Mathlib.Omega.{arith}

unfoldable pub sum_of {κ} : {V : Type κ} → (V → ℕ) → List V → ℕ
sum_of weight [] = 0
sum_of weight (v ∷ vs) = weight v + sum_of weight vs

module _ {ℓ κ} {K : Type ℓ} {V : Type κ} ⦃e : Eq K⦄ where
  pub length-erase : (k : K) (d : Dict K V) → length (erase k d) ≤ length d
  unfolding erase
  length-erase k [] = omega arith
  length-erase k ((i, f) ∷ d) = ground (arith, length-erase k d)

  pub length-insert : (k : K) (v : V) (d : Dict K V) → length (insert k v d) ≤ suc (length d)
  unfolding insert
  length-insert k v [] = omega arith
  length-insert k v ((i, f) ∷ d) = ground (arith, length-insert k v d)

  pub length-values : (d : Dict K V) → length (values d) ≡ length d
  length-values [] = refl
  length-values ((k, v) ∷ d) = ground (arith, length-values d)

  -- A write to a key that is there.
  pub length-insert_present :
      (k : K) (v w : V) (d : Dict K V) → lookup k d ≡ some w → length (insert k v d) ≡ length d
  unfolding insert lookup
  length-insert_present k v w [] h = absurd (ground arith)
  length-insert_present k v w ((i, f) ∷ d) h = ground (arith, length-insert_present k v w d)

  pub length-erase_present :
      (k : K) (v : V) (d : Dict K V) → lookup k d ≡ some v → suc (length (erase k d)) ≤ length d
  unfolding erase lookup
  length-erase_present k v [] h = absurd (ground arith)
  length-erase_present k v ((i, f) ∷ d) h =
      ground (arith, length-erase_present k v d, length-erase k d)

  module _ (weight : V → ℕ) where
    abbrev pub total : Dict K V → ℕ
    total d = sum_of weight (values d)

    total-erase_absent : (k : K) (d : Dict K V) → lookup k d ≡ none → total (erase k d) ≡ total d
    unfolding erase lookup sum_of
    total-erase_absent k [] h = refl
    total-erase_absent k ((i, f) ∷ d) h = ground (arith, total-erase_absent k d)

    pub total-erase :
        (k : K) (v : V) (d : Dict K V)
        → NodupKeys d
        → lookup k d ≡ some v
        → total (erase k d) + weight v ≡ total d
    unfolding erase lookup sum_of
    total-erase k v [] u h = absurd (ground arith)
    total-erase k v ((i, f) ∷ d) (fresh, u) h =
        ground (arith, fresh, total-erase k v d u, total-erase_absent k d)

    pub total-insert : (k : K) (v : V) (d : Dict K V) → total (insert k v d) ≤ total d + weight v
    unfolding insert sum_of
    total-insert k v [] = omega arith
    total-insert k v ((i, f) ∷ d) = ground (arith, total-insert k v d)

    pub total-insert_absent :
        (k : K) (v : V) (d : Dict K V)
        → lookup k d ≡ none
        → total (insert k v d) ≡ total d + weight v
    unfolding insert lookup sum_of
    total-insert_absent k v [] h = omega arith
    total-insert_absent k v ((i, f) ∷ d) h = ground (arith, total-insert_absent k v d)
