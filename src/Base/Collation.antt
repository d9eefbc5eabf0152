-- ===== src/Base/Collation.antt =====
-- `String.prototype.localeCompare`, whose order is the platform's: an interface with what every
-- order has, and the order by code points as an instance of it.
use Prim.Native.Nat.{ℕ}
use Prim.Native.Char.{code}
use Prim.Native.String.{String}
use mathlib.Core.Path.{◌≡◌, refl}
use mathlib.Core.Logic.{◌⊎◌, inl, inr}
use mathlib.Core.Bool.{Bool, true, false}
use mathlib.Core.List.{List, [], ◌∷◌}
use native.Mathlib.Omega.{arith}
use harness_control_protocol.Base.Equality.{ltb, if◌then◌else◌}

-- `before s t` is `s.localeCompare(t) <= 0`.
pub record Collation : Type 0 where
  pub before : String → String → Bool
  pub before_total : (s t : String) → (before s t ≡ true) ⊎ (before t s ≡ true)
  pub before_trans : (s t u : String) → before s t ≡ true → before t u ≡ true → before s u ≡ true

abbrev pub codes : String → List ℕ
codes String.[] = []
codes (String.◌∷◌ c s) = code c ∷ codes s

lex : List ℕ → List ℕ → Bool
lex [] ys = true
lex (x ∷ xs) [] = false
lex (x ∷ xs) (y ∷ ys) = if ltb x y then true else if ltb y x then false else lex xs ys

lex_total : (xs ys : List ℕ) → (lex xs ys ≡ true) ⊎ (lex ys xs ≡ true)
unfolding lex
lex_total [] ys = inl refl
lex_total (x ∷ xs) [] = inr refl
lex_total (x ∷ xs) (y ∷ ys) = ground (arith, lex_total xs ys)

lex_trans : (xs ys zs : List ℕ) → lex xs ys ≡ true → lex ys zs ≡ true → lex xs zs ≡ true
unfolding lex
lex_trans [] ys zs h k = refl
lex_trans (x ∷ xs) [] zs h k = ground arith
lex_trans (x ∷ xs) (y ∷ ys) [] h k = ground arith
lex_trans (x ∷ xs) (y ∷ ys) (z ∷ zs) h k = ground (arith, lex_trans xs ys zs)

unfoldable pub by_code_points : Collation
unfolding lex lex_total lex_trans
by_code_points = record {
  before = λ s t. lex (codes s) (codes t);
  before_total = λ s t. lex_total (codes s) (codes t);
  before_trans = λ s t u. lex_trans (codes s) (codes t) (codes u);
}
