-- ===== src/LocalActions/Patch/Digits.antt =====
-- Reading back the numbers of a hunk header.
use harness_control_protocol.Base.{
  ℕ, zero, suc, ◌+◌, ◌-◌, ◌*◌, ◌/◌, ◌%◌, ◌<◌, ◌≡◌, ◌≢◌, refl, ap, ◌∙◌, Bool, true, false, some, [],
  ◌∷◌, ◌++◌, arith, ltb, nat_eq, all, Bool-cases, inl, inr,
}
use harness_control_protocol.Protocol.Json.{decimal}
use harness_control_protocol.LocalActions.Patch.{Text, is_digit, read_digits, number}

-- The number that digits spell, behind the ones already read.
value : ℕ → Text → ℕ
value n [] = n
value n (c ∷ cs) = value (n * 10 + (c - b'0')) cs

value-append : (n : ℕ) (xs : Text) (c : ℕ) → value n (xs ++ c ∷ []) ≡ value n xs * 10 + (c - b'0')
unfolding value
value-append n [] c = refl
value-append n (x ∷ xs) c = value-append (n * 10 + (x - b'0')) xs c

all-append :
    (p : ℕ → Bool) (xs : Text) (c : ℕ) → all p xs ≡ true → p c ≡ true → all p (xs ++ c ∷ []) ≡ true
all-append p [] c h k = ground arith
all-append p (x ∷ xs) c h k = ground (arith, all-append p xs c)

is_digit-add : (n : ℕ) → n < 10 → is_digit (b'0' + n) ≡ true
unfolding is_digit
is_digit-add n h = ground arith

pub decimal-digits : (fuel n : ℕ) → all is_digit (decimal fuel n) ≡ true
unfolding decimal
decimal-digits zero n = refl
decimal-digits (suc fuel) n = elim (Bool-cases (ltb n 10)) [
  | inl small ↦ ground (arith, small, is_digit-add n)
  | inr large ↦ ground (
    arith,
    large,
    all-append is_digit (decimal fuel (n / 10)) (b'0' + n % 10),
    decimal-digits fuel (n / 10),
    is_digit-add (n % 10),
  )
]

value-decimal : (fuel n : ℕ) → n < fuel → value 0 (decimal fuel n) ≡ n
unfolding decimal
value-decimal zero n h = absurd (omega arith)
value-decimal (suc fuel) n h = elim (Bool-cases (ltb n 10)) [
  | inl small ↦ unfold value in ground (arith, small)
  | inr large ↦ ground (
    arith,
    large,
    value-append 0 (decimal fuel (n / 10)) (b'0' + n % 10),
    value-decimal fuel (n / 10),
  )
]

-- A text that does not go on with a digit.
abbrev pub NoDigit : Text → Type 0
NoDigit [] = Unit
NoDigit (c ∷ cs) = is_digit c ≡ false

read_digits-append :
    (n : ℕ) (xs rest : Text)
    → all is_digit xs ≡ true
    → NoDigit rest
    → read_digits n (xs ++ rest) ≡ (value n xs, rest)
unfolding read_digits value
read_digits-append n [] [] h k = refl
read_digits-append n [] (c ∷ cs) h k = ground arith
read_digits-append n (x ∷ xs) rest h k =
    ground (arith, read_digits-append (n * 10 + (x - b'0')) xs rest (ground arith) k)

number_digits :
    (xs rest : Text)
    → xs ≢ []
    → all is_digit xs ≡ true
    → NoDigit rest
    → number (xs ++ rest) ≡ some (value 0 xs, rest)
unfolding number
number_digits [] rest some_digit h k = absurd (some_digit refl)
number_digits (x ∷ xs) rest some_digit h k = ground (arith, read_digits-append 0 (x ∷ xs) rest h k)

append-ne-nil : (xs : Text) (c : ℕ) → xs ++ c ∷ [] ≢ []
append-ne-nil [] c e = cc
append-ne-nil (x ∷ xs) c e = cc

decimal-ne-nil : (fuel n : ℕ) → decimal (suc fuel) n ≢ []
unfolding decimal
decimal-ne-nil fuel n = elim (Bool-cases (ltb n 10)) [
  | inl small ↦ λ e. ground (arith, small, e)
  | inr large ↦
      λ e. append-ne-nil (decimal fuel (n / 10)) (b'0' + n % 10) (ground (arith, large, e))
]

pub number-decimal :
    (n : ℕ) (rest : Text) → NoDigit rest → number (decimal (suc n) n ++ rest) ≡ some (n, rest)
number-decimal n rest k =
    number_digits (decimal (suc n) n) rest (decimal-ne-nil n n) (decimal-digits (suc n) n) k
    ∙ ap (λ v. some (v, rest)) (value-decimal (suc n) n (omega arith))
