-- ===== src/LocalActions/Patch/Split.antt =====
-- Splitting a text into lines and joining it again.
use harness_control_protocol.Base.{
  ℕ, ◌≡◌, refl, sym, ap, ◌∙◌, Bool, false, true, false, not, ◌||◌, List, [], ◌∷◌, ◌++◌, arith, ◌==◌,
  if◌then◌else◌, nat_eq, all, All,
}
use mathlib.Core.List.{append-nil, append_assoc}
use harness_control_protocol.LocalActions.Patch.{
  Text, is_separator, split_from, split_lines_preserving_endings, join, apply_unified_diff,
}

-- A code unit that ends no line and separates none.
abbrev pub is_plain : ℕ → Bool
is_plain c = not (c == 0x0a || c == 0x0d || c == 0x2028 || c == 0x2029)

-- A text with a line feed at its end and plain before.
abbrev pub IsLine : Text → Type 0
IsLine [] = ⊥
IsLine (c ∷ []) = c ≡ 0x0a
IsLine (c ∷ d ∷ cs) = (is_plain c ≡ true) × IsLine (d ∷ cs)

split_from-line :
    (line l rest : Text) → IsLine l → split_from line (l ++ rest) ≡ (line ++ l) ∷ split_from [] rest
unfolding split_from is_separator
split_from-line line [] rest h = absurd h
split_from-line line (c ∷ []) [] h = ground arith
split_from-line line (c ∷ []) (d ∷ ds) h = ground arith
split_from-line line (c ∷ d ∷ cs) rest (p, h) =
    ground
      (arith, split_from-line (line ++ c ∷ []) (d ∷ cs) rest h, append_assoc line (c ∷ []) (d ∷ cs))

split_from-join : (ls : List Text) → All IsLine ls → split_from [] (join ls) ≡ ls
unfolding join split_from
split_from-join [] h = refl
split_from-join (l ∷ ls) (p, h) =
    split_from-line [] l (join ls) p ∙ ap (λ m. l ∷ m) (split_from-join ls h)

pub split-join : (ls : List Text) → All IsLine ls → split_lines_preserving_endings (join ls) ≡ ls
unfolding split_lines_preserving_endings
split-join ls h = split_from-join ls h

-- One step of the split, with what follows shut.
split_from-step :
    (line : Text) (c d : ℕ) (cs : Text)
    → split_from line (c ∷ d ∷ cs) ≡ (
        if c == 0x0a
        then (line ++ c ∷ []) ∷ split_from [] (d ∷ cs)
        else if c == 0x0d
        then (if d == 0x0a
            then (line ++ c ∷ d ∷ []) ∷ split_from [] cs
            else (line ++ c ∷ []) ∷ split_from [] (d ∷ cs))
        else if is_separator c
        then split_from [] (d ∷ cs)
        else split_from (line ++ c ∷ []) (d ∷ cs))
unfolding split_from
split_from-step line c d cs = refl

join-split_from_end : (line : Text) → join (split_from line []) ≡ line
unfolding split_from join
join-split_from_end [] = refl
join-split_from_end (x ∷ xs) = append-nil (x ∷ xs)

join-split_from_one :
    (line : Text) (c : ℕ)
    → is_separator c ≡ false
    → join (split_from line (c ∷ [])) ≡ line ++ c ∷ []
unfolding split_from join
join-split_from_one line c h = ground (arith, append-nil (line ++ c ∷ []))

join-split_from :
    (line t : Text)
    → all (λ c. not (is_separator c)) t ≡ true
    → join (split_from line t) ≡ line ++ t
unfolding join
join-split_from line [] h = join-split_from_end line ∙ sym (append-nil line)
join-split_from line (c ∷ []) h = join-split_from_one line c (ground arith)
join-split_from line (c ∷ d ∷ cs) h = ground (
  arith,
  split_from-step line c d cs,
  join-split_from [] (d ∷ cs),
  join-split_from [] cs,
  join-split_from (line ++ c ∷ []) (d ∷ cs),
  append_assoc line (c ∷ []) (d ∷ cs),
  append_assoc line (c ∷ d ∷ []) cs,
)

-- A text without separators is cut into lines that make it up again.
pub join-split :
    (t : Text)
    → all (λ c. not (is_separator c)) t ≡ true
    → join (split_lines_preserving_endings t) ≡ t
unfolding split_lines_preserving_endings
join-split t h = join-split_from [] t h

-- A separator drops the plain code units before it.
split_from-separator :
    (line a t : Text) (c : ℕ)
    → all is_plain a ≡ true
    → is_separator c ≡ true
    → split_from line (a ++ c ∷ t) ≡ split_from [] t
unfolding is_separator
split_from-separator line [] [] c h k = unfold split_from in ground arith
split_from-separator line [] (d ∷ ds) c h k = ground (arith, split_from-step line c d ds)
split_from-separator line (x ∷ []) t c h k =
    ground (arith, split_from-step line x c t, split_from-separator (line ++ x ∷ []) [] t c)
split_from-separator line (x ∷ y ∷ ys) t c h k = ground (
  arith,
  split_from-step line x y (ys ++ c ∷ t),
  split_from-separator (line ++ x ∷ []) (y ∷ ys) t c,
)

-- If a file begins with code units that end no line and then a line or paragraph separator (U+2028
-- or U+2029), applying any patch gives what it gives on the text behind the separator: what stood
-- before it, and the separator, are dropped without an error.
pub apply_unified_diff-separator :
    (a t patch : Text) (c : ℕ)
    → all is_plain a ≡ true
    → is_separator c ≡ true
    → apply_unified_diff (a ++ c ∷ t) patch ≡ apply_unified_diff t patch
unfolding apply_unified_diff
apply_unified_diff-separator a t patch c h k =
    let same : split_lines_preserving_endings (a ++ c ∷ t) ≡ split_lines_preserving_endings t =
      unfold split_lines_preserving_endings in split_from-separator [] a t c h k in
    rw same refl
