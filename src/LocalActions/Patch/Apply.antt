-- ===== src/LocalActions/Patch/Apply.antt =====
-- What the loops of applyUnifiedDiff do on the lines of a printed script.
use harness_control_protocol.Base.{
  ℕ, zero, suc, ◌-◌, ◌<◌, ◌⊎◌, inl, inr, All, ◌+◌, ◌≡◌, refl, ap, Bool, true, false, ◌||◌, some,
  List, [], ◌∷◌, ◌++◌, arith, nat_eq, ℕ_discrete, length, ok,
}
use mathlib.Core.List.{append-nil, append_assoc}
use harness_control_protocol.Base.Collation.{codes}
use harness_control_protocol.Protocol.Json.{decimal}
use harness_control_protocol.LocalActions.Patch.{
  Text, literal, skip_count, match_header, is_bare_header, parse_unified_diff_hunk_header, Progress,
  copy_lines, start_hunk, same_text, hunk_line, patch_line, patch_lines, starts_with, is_digit,
}
use harness_control_protocol.LocalActions.Patch.Digits.{number-decimal, NoDigit}
use harness_control_protocol.LocalActions.Patch.Script.{
  Edit, keep, remove, insert, before_edits, after_edits, is_change, print_edits, print_header, Hunk,
  before_hunks, after_hunks, changes_hunks, print_hunks, unified_start, IsAnchored,
}

skip_count-decimal :
    (n : ℕ) (rest : Text) → NoDigit rest → skip_count (b',' ∷ (decimal (suc n) n ++ rest)) ≡ rest
unfolding skip_count
skip_count-decimal n rest h = ground (arith, number-decimal n rest h)

match_header-print_header : (a b c d : ℕ) → match_header (print_header a b c d) ≡ some a
unfolding match_header print_header is_digit nat_eq ℕ_discrete
match_header-print_header a b c d =
    let r4 : Text = codes " @@\n" in
    let r3 : Text = decimal (suc d) d ++ r4 in
    let r2 : Text = codes " +" ++ (decimal (suc c) c ++ (b',' ∷ r3)) in
    let r1 : Text = b',' ∷ (decimal (suc b) b ++ r2) in
    rw
      (
        number-decimal a r1 refl,
        skip_count-decimal b r2 refl,
        number-decimal c (b',' ∷ r3) refl,
        skip_count-decimal d r4 refl,
      )
      refl

print_header-is_bare_header : (a b c d : ℕ) → is_bare_header (print_header a b c d) ≡ false
unfolding is_bare_header literal print_header nat_eq ℕ_discrete
print_header-is_bare_header a b c d = refl

parse-print_header : (a b c d : ℕ) → parse_unified_diff_hunk_header (print_header a b c d) ≡ ok a
unfolding parse_unified_diff_hunk_header
parse-print_header a b c d =
    ground (arith, print_header-is_bare_header a b c d, match_header-print_header a b c d)

same_text_refl : (l : Text) → same_text l l ≡ true
unfolding same_text
same_text_refl [] = refl
same_text_refl (c ∷ cs) = ground (arith, same_text_refl cs)

-- The loops' variables, one by one.
abbrev pub progress : List Text → ℕ → List Text → Bool → Bool → Progress
progress rest index output changed inside = record {
  rest = rest;
  index = index;
  output = output;
  changed = changed;
  inside = inside;
}

copy_lines-skipped :
    (skipped r o : List Text) (i : ℕ) (c b : Bool)
    → copy_lines (length skipped) (progress (skipped ++ r) i o c b)
      ≡ ok (progress r (i + length skipped) (o ++ skipped) c b)
unfolding copy_lines
copy_lines-skipped [] r o i c b = ground (arith, append-nil o)
copy_lines-skipped (l ∷ ls) r o i c b =
    ground (arith, copy_lines-skipped ls r (o ++ l ∷ []) (i + 1) c b, append_assoc o (l ∷ []) ls)

keep_line :
    (l : Text) (r o : List Text) (i : ℕ) (c : Bool)
    → patch_line (b' ' ∷ l) (progress (l ∷ r) i o c true)
      ≡ ok (progress r (i + 1) (o ++ l ∷ []) c true)
unfolding patch_line hunk_line nat_eq ℕ_discrete
keep_line l r o i c = ground (arith, same_text_refl l)

remove_line :
    (l : Text) (r o : List Text) (i : ℕ) (c : Bool)
    → patch_line (b'-' ∷ l) (progress (l ∷ r) i o c true) ≡ ok (progress r (i + 1) o true true)
unfolding patch_line hunk_line nat_eq ℕ_discrete
remove_line l r o i c = ground (arith, same_text_refl l)

pub insert_line :
    (l : Text) (r o : List Text) (i : ℕ) (c : Bool)
    → patch_line (b'+' ∷ l) (progress r i o c true) ≡ ok (progress r i (o ++ l ∷ []) true true)
unfolding patch_line hunk_line nat_eq ℕ_discrete
insert_line l r o i c = ground arith

patch_lines-print_edits :
    (es : List Edit) (more r o : List Text) (i : ℕ) (c : Bool)
    → patch_lines (print_edits es ++ more) (progress (before_edits es ++ r) i o c true)
      ≡ patch_lines more
          (progress r (i + length (before_edits es)) (o ++ after_edits es) (c || is_change es) true)
unfolding patch_lines
patch_lines-print_edits [] more r o i c = ground (arith, append-nil o)
patch_lines-print_edits (keep l ∷ es) more r o i c = ground (
  arith,
  keep_line l (before_edits es ++ r) o i c,
  patch_lines-print_edits es more r (o ++ l ∷ []) (i + 1) c,
  append_assoc o (l ∷ []) (after_edits es),
)
patch_lines-print_edits (remove l ∷ es) more r o i c = ground (
  arith,
  remove_line l (before_edits es ++ r) o i c,
  patch_lines-print_edits es more r o (i + 1) true,
)
patch_lines-print_edits (insert l ∷ es) more r o i c = ground (
  arith,
  insert_line l (before_edits es ++ r) o i c,
  patch_lines-print_edits es more r (o ++ l ∷ []) i true,
  append_assoc o (l ∷ []) (after_edits es),
)

print_header-starts_with : (a b c d : ℕ) → starts_with (codes "@@") (print_header a b c d) ≡ true
unfolding starts_with print_header nat_eq ℕ_discrete
print_header-starts_with a b c d = refl

pub header_line :
    (skipped r o : List Text) (i start count new new_count : ℕ) (c b : Bool)
    → start - 1 - i ≡ length skipped
    → patch_line (print_header start count new new_count) (progress (skipped ++ r) i o c b)
      ≡ ok (progress r (i + length skipped) (o ++ skipped) c true)
unfolding patch_line start_hunk
header_line skipped r o i start count new new_count c b h = ground (
  arith,
  print_header-starts_with start count new new_count,
  parse-print_header start count new new_count,
  copy_lines-skipped skipped r o i c true,
)

-- The header of an anchored hunk names the place behind the lines that the hunk passes by.
unified_start-length :
    (skipped : List Text) (i old : ℕ)
    → (0 < old) ⊎ (skipped ≡ [])
    → unified_start (i + length skipped) old - 1 - i ≡ length skipped
unfolding unified_start
unified_start-length skipped i zero (inl pos) = absurd (omega arith)
unified_start-length skipped i zero (inr none_passed) =
    let short : length skipped ≡ 0 = ap length none_passed in omega arith
unified_start-length skipped i (suc m) either = omega arith

pub patch_lines-print_hunks :
    (hs : List Hunk) (tail o : List Text) (i j : ℕ) (c b : Bool)
    → All IsAnchored hs
    → (k : ℕ) × ((inside : Bool) × (patch_lines
            (print_hunks i j hs)
            (progress (before_hunks hs tail) i o c b)
          ≡ ok (progress tail k (o ++ after_hunks hs) (c || changes_hunks hs) inside)))
unfolding patch_lines
patch_lines-print_hunks [] tail o i j c b tt = (i, (b, ground (arith, append-nil o)))
patch_lines-print_hunks (h ∷ hs) tail o i j c b (here, anchored) =
    let old = length (before_edits h.edits) in
    let new = length (after_edits h.edits) in
    let skip = length h.skipped in
    let rest = before_hunks hs tail in
    let more = print_hunks (i + skip + old) (j + skip + new) hs in
    let o' = (o ++ h.skipped) ++ after_edits h.edits in
    let (k, (inside, done)) =
      patch_lines-print_hunks hs tail o' (i + skip + old) (j + skip + new) (c || is_change h.edits)
        true anchored in
    (
      k,
      (
        inside,
        ground (
          arith,
          header_line h.skipped (before_edits h.edits ++ rest) o i (unified_start (i + skip) old)
              old (unified_start (j + skip) new) new c b
              (unified_start-length h.skipped i old here),
          patch_lines-print_edits h.edits more rest (o ++ h.skipped) (i + skip) c,
          done,
          append_assoc o h.skipped (after_edits h.edits),
          append_assoc o h.skipped (after_edits h.edits ++ after_hunks hs),
          append_assoc (o ++ h.skipped) (after_edits h.edits) (after_hunks hs),
        ),
      ),
    )
