-- ===== src/LocalActions/Patch/Script.antt =====
-- Unified diffs as edit scripts, their printed form, and the lines that it consists of.
use harness_control_protocol.Base.{
  ℕ, zero, suc, ◌<◌, ◌⊎◌, ◌+◌, ◌≡◌, refl, Bool, true, false, ◌||◌, List, [], ◌∷◌, ◌++◌, arith,
  nat_eq, ℕ_discrete, all, All, All-append, All-split, length,
}
use harness_control_protocol.Base.Collation.{codes}
use harness_control_protocol.Protocol.Json.{decimal}
use harness_control_protocol.LocalActions.Patch.{Text, is_digit}
use harness_control_protocol.LocalActions.Patch.Digits.{decimal-digits}
use harness_control_protocol.LocalActions.Patch.Split.{IsLine, is_plain}

pub data Edit : Type 0 where
  keep remove insert : Text → Edit

-- The lines of the original and of the result.
abbrev pub before_edits : List Edit → List Text
before_edits [] = []
before_edits (keep l ∷ es) = l ∷ before_edits es
before_edits (remove l ∷ es) = l ∷ before_edits es
before_edits (insert l ∷ es) = before_edits es

abbrev pub after_edits : List Edit → List Text
after_edits [] = []
after_edits (keep l ∷ es) = l ∷ after_edits es
after_edits (remove l ∷ es) = after_edits es
after_edits (insert l ∷ es) = l ∷ after_edits es

abbrev pub is_change : List Edit → Bool
is_change [] = false
is_change (keep l ∷ es) = is_change es
is_change (remove l ∷ es) = true
is_change (insert l ∷ es) = true

abbrev pub print_edits : List Edit → List Text
print_edits [] = []
print_edits (keep l ∷ es) = (b' ' ∷ l) ∷ print_edits es
print_edits (remove l ∷ es) = (b'-' ∷ l) ∷ print_edits es
print_edits (insert l ∷ es) = (b'+' ∷ l) ∷ print_edits es

-- @@ -start,count +start,count @@
unfoldable pub print_header : ℕ → ℕ → ℕ → ℕ → Text
print_header start count new_start new_count =
    codes "@@ -"
    ++ (decimal (suc start) start
        ++ (b','
            ∷ (decimal (suc count) count
                ++ (codes " +"
                    ++ (decimal (suc new_start) new_start
                        ++ (b',' ∷ (decimal (suc new_count) new_count ++ codes " @@\n")))))))

-- Lines that the patch passes by, and the edits behind them.
pub record Hunk : Type 0 where
  pub skipped : List Text
  pub edits : List Edit

abbrev pub before_hunks : List Hunk → List Text → List Text
before_hunks [] tail = tail
before_hunks (h ∷ hs) tail = h.skipped ++ (before_edits h.edits ++ before_hunks hs tail)

abbrev pub after_hunks : List Hunk → List Text
after_hunks [] = []
after_hunks (h ∷ hs) = h.skipped ++ (after_edits h.edits ++ after_hunks hs)

abbrev pub changes_hunks : List Hunk → Bool
changes_hunks [] = false
changes_hunks (h ∷ hs) = is_change h.edits || changes_hunks hs

-- The number in a header for `count` lines behind `before` others: that of the first of them, or of the
-- line before, if there are none.
unfoldable pub unified_start : ℕ → ℕ → ℕ
unified_start before zero = before
unified_start before (suc more) = suc before

-- The hunk keeps or removes a line, or it passes by none.
abbrev pub IsAnchored : Hunk → Type 0
IsAnchored h = (0 < length (before_edits h.edits)) ⊎ (h.skipped ≡ [])

-- The patch, for the numbers of lines that come before in the original and in the result.
abbrev pub print_hunks : ℕ → ℕ → List Hunk → List Text
print_hunks i j [] = []
print_hunks i j (h ∷ hs) =
    let old = length (before_edits h.edits) in
    let new = length (after_edits h.edits) in
    let skip = length h.skipped in
    print_header (unified_start (i + skip) old) old (unified_start (j + skip) new) new
    ∷ (print_edits h.edits ++ print_hunks (i + skip + old) (j + skip + new) hs)

IsLine-append : (xs rest : Text) → all is_plain xs ≡ true → IsLine rest → IsLine (xs ++ rest)
IsLine-append [] rest h k = k
IsLine-append (x ∷ []) [] h k = absurd k
IsLine-append (x ∷ []) (c ∷ cs) h k = (ground arith, k)
IsLine-append (x ∷ y ∷ ys) rest h k = (ground arith, IsLine-append (y ∷ ys) rest (ground arith) k)

digits-plain : (xs : Text) → all is_digit xs ≡ true → all is_plain xs ≡ true
unfolding is_digit
digits-plain [] h = refl
digits-plain (x ∷ xs) h = ground (arith, digits-plain xs)

number-IsLine : (n : ℕ) (rest : Text) → IsLine rest → IsLine (decimal (suc n) n ++ rest)
number-IsLine n rest h =
    IsLine-append (decimal (suc n) n) rest
      (digits-plain (decimal (suc n) n) (decimal-digits (suc n) n)) h

pub print_header-IsLine : (a b c d : ℕ) → IsLine (print_header a b c d)
unfolding print_header nat_eq ℕ_discrete
print_header-IsLine a b c d =
    let last : IsLine (codes " @@\n") = (refl, (refl, (refl, refl))) in
    let fourth = number-IsLine d (codes " @@\n") last in
    let third =
      number-IsLine c (b',' ∷ (decimal (suc d) d ++ codes " @@\n"))
        (IsLine-append (b',' ∷ []) _ refl fourth) in
    let second = number-IsLine b _ (IsLine-append (codes " +") _ refl third) in
    let first = number-IsLine a _ (IsLine-append (b',' ∷ []) _ refl second) in
    IsLine-append (codes "@@ -") _ refl first

pub prefixed-IsLine : (c : ℕ) (l : Text) → is_plain c ≡ true → IsLine l → IsLine (c ∷ l)
prefixed-IsLine c [] h k = absurd k
prefixed-IsLine c (d ∷ ds) h k = (h, k)

print_edits-IsLine :
    (es : List Edit)
    → All IsLine (before_edits es)
    → All IsLine (after_edits es)
    → All IsLine (print_edits es)
unfolding nat_eq ℕ_discrete
print_edits-IsLine [] h k = tt
print_edits-IsLine (keep l ∷ es) (p, h) (q, k) =
    (prefixed-IsLine b' ' l refl p, print_edits-IsLine es h k)
print_edits-IsLine (remove l ∷ es) (p, h) k =
    (prefixed-IsLine b'-' l refl p, print_edits-IsLine es h k)
print_edits-IsLine (insert l ∷ es) h (q, k) =
    (prefixed-IsLine b'+' l refl q, print_edits-IsLine es h k)

pub print_hunks-IsLine :
    (hs : List Hunk) (tail : List Text) (i j : ℕ)
    → All IsLine (before_hunks hs tail)
    → All IsLine (after_hunks hs)
    → All IsLine (print_hunks i j hs)
print_hunks-IsLine [] tail i j h k = tt
print_hunks-IsLine (x ∷ hs) tail i j h k =
    let (_, there) = All-split IsLine x.skipped _ h in
    let (old, rest) = All-split IsLine (before_edits x.edits) (before_hunks hs tail) there in
    let (_, here) = All-split IsLine x.skipped _ k in
    let (new, others) = All-split IsLine (after_edits x.edits) (after_hunks hs) here in
    (
      print_header-IsLine _ _ _ _,
      All-append IsLine (print_edits x.edits) _ (print_edits-IsLine x.edits old new)
          (print_hunks-IsLine hs tail _ _ rest others),
    )
