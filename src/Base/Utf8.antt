-- ===== src/Base/Utf8.antt =====
-- UTF-8, as Buffer.from(text, "utf8") writes it and a fatal TextDecoder reads it, on code points.
use harness_control_protocol.Base.Equality.{ltb, leb, if◌then◌else◌}
use harness_control_protocol.Base.Lists.{All}
use Prim.Native.Nat.{ℕ, zero, suc, ◌+◌, ◌-◌, ◌*◌, ◌/◌, ◌%◌, ◌≤◌, ◌<◌}
use mathlib.Core.Path.{◌≡◌, refl, ap, ◌∙◌}
use mathlib.Core.Logic.{◌⊎◌}
use mathlib.Core.Bool.{Bool, true, false, ◌&&◌}
use mathlib.Core.Option.{Option, none, some}
use mathlib.Core.List.{List, [], ◌∷◌}
use native.Mathlib.Omega.{arith}

-- A code point that is no surrogate.
abbrev pub IsScalar : ℕ → Type 0
IsScalar c = (c < 0xD800) ⊎ ((0xE000 ≤ c) × (c < 0x110000))

-- A lone surrogate is written as U+FFFD.
unfoldable pub scalar : ℕ → ℕ
scalar c = if leb 0xD800 c && ltb c 0xE000 then 0xFFFD else c

unfoldable pub encode_point : ℕ → List ℕ → List ℕ
encode_point c rest =
    if ltb c 0x80
    then c ∷ rest
    else if ltb c 0x800
    then (0xC0 + c / 64) ∷ (0x80 + c % 64) ∷ rest
    else if ltb c 0x10000
    then (0xE0 + c / 4096) ∷ (0x80 + c / 64 % 64) ∷ (0x80 + c % 64) ∷ rest
    else (0xF0 + c / 262144)
      ∷ (0x80 + c / 4096 % 64)
      ∷ (0x80 + c / 64 % 64)
      ∷ (0x80 + c % 64)
      ∷ rest

unfoldable pub encode : List ℕ → List ℕ
encode [] = []
encode (c ∷ cs) = encode_point (scalar c) (encode cs)

-- What a byte starts: a code point of its own, or one with more bytes, the bits read, and the bounds
-- of the second byte, which exclude overlong forms, surrogates and what is behind the last code point.
pub data Lead : Type 0 where
  ascii : ℕ → Lead
  starts : ℕ → ℕ → ℕ → ℕ → Lead
  invalid : Lead

unfoldable lead : ℕ → Lead
lead b =
    if ltb b 0x80
    then ascii b
    else if ltb b 0xC2
    then invalid
    else if ltb b 0xE0
    then starts 0 (b - 0xC0) 0x80 0xBF
    else if ltb b 0xF0
    then starts 1 (b - 0xE0) (if ltb b 0xE1 then 0xA0 else 0x80)
        (if leb 0xED b && ltb b 0xEE then 0x9F else 0xBF)
    else if ltb b 0xF5
    then starts 2 (b - 0xF0) (if ltb b 0xF1 then 0x90 else 0x80) (if leb 0xF4 b then 0x8F else 0xBF)
    else invalid

abbrev put : ℕ → Option (List ℕ) → Option (List ℕ)
put c none = none
put c (some cs) = some (c ∷ cs)

unfoldable inside : ℕ → ℕ → ℕ → Bool
inside low high b = leb low b && leb b high

-- The number of bytes that a code point still needs, and the bits of it that are read.
unfoldable decode_from : ℕ → ℕ → ℕ → ℕ → List ℕ → Option (List ℕ)
decode_from zero bits low high [] = some []
decode_from (suc needed) bits low high [] = none
decode_from zero bits low high (b ∷ bs) = elim (lead b) [
  | ascii c ↦ put c (decode_from 0 0 0 0 bs)
  | starts more first least most ↦ decode_from (suc more) first least most bs
  | invalid ↦ none
]
decode_from (suc zero) bits low high (b ∷ bs) = elim (inside low high b) [
  | true ↦ put (bits * 64 + (b - 0x80)) (decode_from 0 0 0 0 bs)
  | false ↦ none
]
decode_from (suc (suc needed)) bits low high (b ∷ bs) = elim (inside low high b) [
  | true ↦ decode_from (suc needed) (bits * 64 + (b - 0x80)) 0x80 0xBF bs
  | false ↦ none
]

unfoldable pub decode : List ℕ → Option (List ℕ)
unfolding decode_from lead inside
decode = decode_from 0 0 0 0

first_byte :
    (b more first least most : ℕ) (bs : List ℕ)
    → lead b ≡ starts more first least most
    → decode_from 0 0 0 0 (b ∷ bs) ≡ decode_from (suc more) first least most bs
unfolding decode_from
first_byte b more first least most bs h = rw (h, decode_from) refl

last_byte :
    (bits low high b : ℕ) (bs : List ℕ)
    → inside low high b ≡ true
    → decode_from 1 bits low high (b ∷ bs) ≡ put (bits * 64 + (b - 0x80)) (decode_from 0 0 0 0 bs)
unfolding decode_from
last_byte bits low high b bs h = rw (h, decode_from) refl

next_byte :
    (needed bits low high b : ℕ) (bs : List ℕ)
    → inside low high b ≡ true
    → decode_from (suc (suc needed)) bits low high (b ∷ bs)
      ≡ decode_from (suc needed) (bits * 64 + (b - 0x80)) 0x80 0xBF bs
unfolding decode_from
next_byte needed bits low high b bs h = rw (h, decode_from) refl

one_byte :
    (c : ℕ) (bs : List ℕ) → c < 0x80 → decode_from 0 0 0 0 (c ∷ bs) ≡ put c (decode_from 0 0 0 0 bs)
unfolding decode_from
one_byte c bs h =
    let is_ascii : lead c ≡ ascii c = unfold lead in ground arith in rw (is_ascii, decode_from) refl

inside_lem : (low high b : ℕ) → low ≤ b → b ≤ high → inside low high b ≡ true
inside_lem low high b h k = unfold inside in ground arith

two_bytes :
    (c : ℕ) (bs : List ℕ)
    → 0x80 ≤ c
    → c < 0x800
    → decode_from 0 0 0 0 ((0xC0 + c / 64) ∷ (0x80 + c % 64) ∷ bs) ≡ put c (decode_from 0 0 0 0 bs)
two_bytes c bs h k =
    let starts_two : lead (0xC0 + c / 64) ≡ starts 0 (c / 64) 0x80 0xBF =
      unfold lead in ground arith in
    let value : c / 64 * 64 + (0x80 + c % 64 - 0x80) ≡ c = omega arith in
    first_byte _ _ _ _ _ _ starts_two
    ∙ last_byte _ _ _ _ _ (inside_lem 0x80 0xBF (0x80 + c % 64) (omega arith) (omega arith))
    ∙ ap (λ n. put n (decode_from 0 0 0 0 bs)) value

three_bytes :
    (c : ℕ) (bs : List ℕ)
    → 0x800 ≤ c
    → c < 0x10000
    → IsScalar c
    → decode_from 0 0 0 0 ((0xE0 + c / 4096) ∷ (0x80 + c / 64 % 64) ∷ (0x80 + c % 64) ∷ bs)
      ≡ put c (decode_from 0 0 0 0 bs)
three_bytes c bs h k scalar_c =
    let low : ℕ = if ltb (0xE0 + c / 4096) 0xE1 then 0xA0 else 0x80 in
    let high : ℕ =
      if leb 0xED (0xE0 + c / 4096) && ltb (0xE0 + c / 4096) 0xEE then 0x9F else 0xBF in
    let starts_three : lead (0xE0 + c / 4096) ≡ starts 1 (c / 4096) low high =
      unfold lead in ground arith in
    let second : inside low high (0x80 + c / 64 % 64) ≡ true = unfold inside in ground arith in
    let value : (c / 4096 * 64 + (0x80 + c / 64 % 64 - 0x80)) * 64 + (0x80 + c % 64 - 0x80) ≡ c =
      omega arith in
    first_byte _ _ _ _ _ _ starts_three
    ∙ next_byte 0 _ _ _ _ _ second
    ∙ last_byte _ _ _ _ _ (inside_lem 0x80 0xBF (0x80 + c % 64) (omega arith) (omega arith))
    ∙ ap (λ n. put n (decode_from 0 0 0 0 bs)) value

four_bytes :
    (c : ℕ) (bs : List ℕ)
    → 0x10000 ≤ c
    → c < 0x110000
    → decode_from 0 0 0 0
        ((0xF0 + c / 262144) ∷ (0x80 + c / 4096 % 64) ∷ (0x80 + c / 64 % 64) ∷ (0x80 + c % 64) ∷ bs)
      ≡ put c (decode_from 0 0 0 0 bs)
four_bytes c bs h k =
    let low : ℕ = if ltb (0xF0 + c / 262144) 0xF1 then 0x90 else 0x80 in
    let high : ℕ = if leb 0xF4 (0xF0 + c / 262144) then 0x8F else 0xBF in
    let starts_four : lead (0xF0 + c / 262144) ≡ starts 2 (c / 262144) low high =
      unfold lead in ground arith in
    let second : inside low high (0x80 + c / 4096 % 64) ≡ true = unfold inside in ground arith in
    let value : ((c / 262144 * 64 + (0x80 + c / 4096 % 64 - 0x80)) * 64
              + (0x80 + c / 64 % 64 - 0x80))
            * 64
          + (0x80 + c % 64 - 0x80)
        ≡ c =
      omega arith in
    first_byte _ _ _ _ _ _ starts_four
    ∙ next_byte 1 _ _ _ _ _ second
    ∙ next_byte 0 _ _ _ _ _ (inside_lem 0x80 0xBF (0x80 + c / 64 % 64) (omega arith) (omega arith))
    ∙ last_byte _ _ _ _ _ (inside_lem 0x80 0xBF (0x80 + c % 64) (omega arith) (omega arith))
    ∙ ap (λ n. put n (decode_from 0 0 0 0 bs)) value

decode_from-encode_point :
    (c : ℕ) (bs : List ℕ)
    → IsScalar c
    → decode_from 0 0 0 0 (encode_point (scalar c) bs) ≡ put c (decode_from 0 0 0 0 bs)
decode_from-encode_point c bs h =
    let same : scalar c ≡ c = unfold scalar in ground arith in
    rw same (
      unfold encode_point in
      ground (arith, one_byte c bs, two_bytes c bs, three_bytes c bs, four_bytes c bs))

pub decode-encode : (cs : List ℕ) → All IsScalar cs → decode (encode cs) ≡ some cs
unfolding decode encode decode_from
decode-encode [] h = refl
decode-encode (c ∷ cs) (h, hs) =
    decode_from-encode_point c (encode cs) h ∙ ap (put c) (decode-encode cs hs)
