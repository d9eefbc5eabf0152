-- ===== src/LocalActions/Patch.antt =====
-- packages/hcp-runner/src/local-actions/executors.ts: applyUnifiedDiff and its helpers. A text is the
-- list of its code units. The two nested loops over the patch are one, with a flag for the inner one:
-- leaving it does not advance, and the outer loop skips the line on which it was left.
pub mod Digits
pub mod Split
pub mod Script
pub mod Apply
pub mod RoundTrip
mod Tests
use harness_control_protocol.Base.{
  ℕ, zero, suc, ◌+◌, ◌-◌, ◌*◌, String, Bool, true, false, not, ◌&&◌, ◌||◌, Option, none, some, List,
  [], ◌∷◌, ◌++◌, ltb, leb, ◌==◌, if◌then◌else◌, nat_eq, all, Result, ok, err, ◌>>=◌,
}
use harness_control_protocol.Base.Collation.{codes}

abbrev pub Text : Type 0
Text = List ℕ

-- The line separators of JavaScript that end no line here: `.` does not match them.
unfoldable pub is_separator : ℕ → Bool
is_separator c = c == 0x2028 || c == 0x2029

-- The matches of /.*(?:\r\n|\n|\r|$)/g that are not empty; `line` is what the match at hand has read.
-- A match that meets a separator fails at every start up to it, so the search goes on behind it.
unfoldable pub split_from : Text → Text → List Text
unfolding is_separator
split_from [] [] = []
split_from (x ∷ xs) [] = (x ∷ xs) ∷ []
split_from line (c ∷ []) = if is_separator c then [] else (line ++ c ∷ []) ∷ []
split_from line (c ∷ d ∷ cs) =
    let more = split_from (line ++ c ∷ []) (d ∷ cs) in
    let ended = (line ++ c ∷ []) ∷ split_from [] (d ∷ cs) in
    let ended_both = (line ++ c ∷ d ∷ []) ∷ split_from [] cs in
    let dropped = split_from [] (d ∷ cs) in
    if c == 0x0a
    then ended
    else if c == 0x0d
    then (if d == 0x0a then ended_both else ended)
    else if is_separator c
    then dropped
    else more

unfoldable pub split_lines_preserving_endings : Text → List Text
unfolding split_from
split_lines_preserving_endings t = split_from [] t

unfoldable pub starts_with : Text → Text → Bool
starts_with [] t = true
starts_with (c ∷ cs) [] = false
starts_with (c ∷ cs) (d ∷ ds) = c == d && starts_with cs ds

-- \s
is_space : ℕ → Bool
is_space c =
    (leb 9 c && leb c 13)
    || c == 32
    || c == 160
    || c == 0x1680
    || (leb 0x2000 c && leb c 0x200a)
    || c == 0x2028
    || c == 0x2029
    || c == 0x202f
    || c == 0x205f
    || c == 0x3000
    || c == 0xfeff

unfoldable pub is_digit : ℕ → Bool
is_digit c = leb b'0' c && leb c b'9'

-- The digits at the front, as a number behind the ones already read.
unfoldable pub read_digits : ℕ → Text → ℕ × Text
unfolding is_digit
read_digits n [] = (n, [])
read_digits n (c ∷ cs) =
    let more = read_digits (n * 10 + (c - b'0')) cs in if is_digit c then more else (n, c ∷ cs)

-- \d+
unfoldable pub number : Text → Option (ℕ × Text)
unfolding is_digit read_digits
number [] = none
number (c ∷ cs) = if is_digit c then some (read_digits 0 (c ∷ cs)) else none

-- A literal.
unfoldable pub literal : Text → Text → Option Text
literal [] t = some t
literal (c ∷ cs) [] = none
literal (c ∷ cs) (d ∷ ds) = if c == d then literal cs ds else none

-- (?:,\d+)?
unfoldable pub skip_count : Text → Text
skip_count [] = []
skip_count (c ∷ cs) = elim (number cs) [
  | none ↦ c ∷ cs
  | some (n, rest) ↦ if c == b',' then rest else c ∷ cs
]

infixl 5 ◌and_then◌
abbrev pub ◌and_then◌ : {A B : Type 0} → Option A → (A → Option B) → Option B
none and_then f = none
some a and_then f = f a

-- /^@@ -(?<oldStart>\d+)(?:,\d+)? \+\d+(?:,\d+)? @@/
unfoldable pub match_header : Text → Option ℕ
unfolding literal
match_header t = literal (codes "@@ -") t and_then λ rest.
    number rest and_then λ (start, after_start).
    literal (codes " +") (skip_count after_start) and_then λ new.
    number new and_then λ (new_start, after_new).
    literal (codes " @@") (skip_count after_new) and_then λ _. some start

-- /^@@\s*$/
unfoldable pub is_bare_header : Text → Bool
unfolding is_space
is_bare_header t = elim (literal (codes "@@") t) [ none ↦ false | some rest ↦ all is_space rest ]

-- The errors that are thrown, each with the code local_capability_action_failed; two of them quote a
-- line of the patch.
pub data PatchError : Type 0 where
  invalid_header : Text → PatchError
  starts_beyond_end : PatchError
  context_mismatch : PatchError
  unsupported_line : Text → PatchError

unfoldable pub parse_unified_diff_hunk_header : Text → Result PatchError ℕ
parse_unified_diff_hunk_header t =
    if is_bare_header t
    then ok 1
    else elim (match_header t) [ some start ↦ ok start | none ↦ err (invalid_header t) ]

-- The loops' variables: the lines of the original from originalIndex on, the index itself, the
-- output, `changed`, and whether the inner loop is on.
pub record Progress : Type 0 where
  pub rest : List Text
  pub index : ℕ
  pub output : List Text
  pub changed : Bool
  pub inside : Bool

-- The loop that copies `count` lines of the original, which pass the hunk by.
unfoldable pub copy_lines : ℕ → Progress → Result PatchError Progress
copy_lines zero p = ok p
copy_lines (suc count) p = elim p.rest [
  | [] ↦ err starts_beyond_end
  | line ∷ more ↦
      copy_lines count
        (record p { rest = more; index = p.index + 1; output = p.output ++ line ∷ [] })
]

unfoldable pub start_hunk : Text → Progress → Result PatchError Progress
start_hunk line p = parse_unified_diff_hunk_header line >>= λ old_start.
    copy_lines (old_start - 1 - p.index) (record p { inside = true })

same_text : Text → Text → Bool
same_text [] [] = true
same_text (x ∷ xs) (y ∷ ys) = x == y && same_text xs ys
same_text _ _ = false

-- assertPatchLineMatches with the original's line at originalIndex, and the lines behind it.
unfoldable pub assert_patch_line_matches : Text → List Text → Result PatchError (List Text)
unfolding same_text
assert_patch_line_matches expected [] = err context_mismatch
assert_patch_line_matches expected (actual ∷ more) =
    if same_text actual expected then ok more else err context_mismatch

body_of : Text → Text
body_of [] = []
body_of (c ∷ cs) = cs

-- A line of the inner loop.
unfoldable pub hunk_line : Text → Progress → Result PatchError Progress
unfolding starts_with body_of assert_patch_line_matches
hunk_line line p =
    let body = body_of line in
    let keep = assert_patch_line_matches body p.rest >>= λ more.
    ok (record p { rest = more; index = p.index + 1; output = p.output ++ body ∷ [] }) in
    let remove = assert_patch_line_matches body p.rest >>= λ more.
    ok (record p { rest = more; index = p.index + 1; changed = true }) in
    if starts_with (codes "\\ ") line
    then ok p
    else if starts_with (codes " ") line
    then keep
    else if starts_with (codes "-") line
    then remove
    else if starts_with (codes "+") line
    then ok (record p { output = p.output ++ body ∷ []; changed = true })
    else if starts_with (codes "--- ") line || starts_with (codes "+++ ") line
    then ok (record p { inside = false })
    else err (unsupported_line line)

unfoldable pub patch_line : Text → Progress → Result PatchError Progress
unfolding starts_with
patch_line line p =
    if starts_with (codes "@@") line
    then start_hunk line p
    else if p.inside
    then hunk_line line p
    else ok p

unfoldable pub patch_lines : List Text → Progress → Result PatchError Progress
patch_lines [] p = ok p
patch_lines (line ∷ lines) p = patch_line line p >>= patch_lines lines

pub record TextPatchResult : Type 0 where
  pub content : Text
  pub changed : Bool

unfoldable pub join : List Text → Text
join [] = []
join (line ∷ lines) = line ++ join lines

pub apply_unified_diff : Text → Text → Result PatchError TextPatchResult
unfolding patch_lines join
apply_unified_diff original patch =
    patch_lines (split_lines_preserving_endings patch) (record {
      rest = split_lines_preserving_endings original;
      index = 0;
      output = [];
      changed = false;
      inside = false;
    })
    >>= λ p. ok (record { content = join (p.output ++ p.rest); changed = p.changed })
