-- ===== src/Base/Fallible.antt =====
-- Fallible code: a value, or the error that the source throws.
use mathlib.Core.Path.{◌≡◌, refl}
use mathlib.Core.Bool.{Bool, true, false, not}
use mathlib.Core.Logic.{◌⊎◌, inl, inr}
use harness_control_protocol.Base.Equality.{if◌then◌else◌}

pub data Result {ℓ κ} (E : Type ℓ) (A : Type κ) : Type (ℓ ⊔ κ) where
  ok : A → Result E A
  err : E → Result E A

module _ {ℓ κ μ} {E : Type ℓ} {A : Type κ} {B : Type μ} where
  infixl 5 ◌>>=◌
  abbrev pub ◌>>=◌ : Result E A → (A → Result E B) → Result E B
  err thrown >>= next = err thrown
  ok value >>= next = next value

  -- A chain that succeeds has a first step that succeeds.
  pub >>=-eq-ok :
      (step : Result E A) (next : A → Result E B) {out : B}
      → step >>= next ≡ ok out
      → (value : A) × (step ≡ ok value) × (next value ≡ ok out)
  >>=-eq-ok (err thrown) next done = cc
  >>=-eq-ok (ok value) next done = (value, refl, done)

module _ {ℓ μ} {E : Type ℓ} {B : Type μ} where
  infixl 5 ◌>>◌
  abbrev pub ◌>>◌ : Result E (Unit {0}) → Result E B → Result E B
  err thrown >> rest = err thrown
  ok _ >> rest = rest

  pub >>-eq-ok :
      (check : Result E (Unit {0})) (rest : Result E B) {out : B}
      → check >> rest ≡ ok out
      → (check ≡ ok tt) × (rest ≡ ok out)
  >>-eq-ok (err thrown) rest done = cc
  >>-eq-ok (ok tt) rest done = (refl, done)

pub Result-cases {ℓ κ} :
    {E : Type ℓ} {A : Type κ} (r : Result E A) → ((e : E) × (r ≡ err e)) ⊎ ((a : A) × (r ≡ ok a))
Result-cases (err e) = inl (e, refl)
Result-cases (ok a) = inr (a, refl)

-- `if (bad) throw thrown`
abbrev pub throw_if {ℓ} : {E : Type ℓ} → Bool → E → Result E (Unit {0})
throw_if bad thrown = if bad then err thrown else ok tt

-- A check that does not throw passes.
pub passed {ℓ} : {E : Type ℓ} (b : Bool) (thrown : E) → throw_if (not b) thrown ≡ ok tt → b ≡ true
passed true thrown h = refl
passed false thrown h = cc
