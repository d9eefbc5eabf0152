-- ===== src/LocalActions/Patch/Tests.antt =====
-- Unified diffs applied to concrete texts, and the theorems about them.
use harness_control_protocol.Base.{
  ◌≡◌, inl, inr, arith, refl, true, List, [], ◌∷◌, ◌++◌, nat_eq, ℕ_discrete, ok, err,
}
use harness_control_protocol.Base.Collation.{codes}
use harness_control_protocol.Protocol.Json.{decimal}
use harness_control_protocol.LocalActions.Patch.{
  Text, context_mismatch, invalid_header, join, split_lines_preserving_endings, apply_unified_diff,
  is_separator, match_header, parse_unified_diff_hunk_header, is_bare_header, number, skip_count,
  literal, copy_lines, start_hunk, hunk_line, patch_line,
}
use harness_control_protocol.LocalActions.Patch.Split.{join-split, apply_unified_diff-separator}
use harness_control_protocol.LocalActions.Patch.Script.{
  keep, remove, insert, Hunk, before_hunks, print_hunks, print_header, unified_start,
}
use harness_control_protocol.LocalActions.Patch.RoundTrip.{
  apply_unified_diff-print_hunks, apply_unified_diff-insertion,
}

-- The file header is passed by, the second line replaced.
replaced :
    apply_unified_diff (codes "a\nb\nc\n") (codes "--- a\n+++ b\n@@ -2,2 +2,2 @@\n-b\n+B\n c\n")
    ≡ ok (record { content = codes "a\nB\nc\n"; changed = true })
unfolding apply_unified_diff split_lines_preserving_endings nat_eq ℕ_discrete patch_line start_hunk
    parse_unified_diff_hunk_header is_bare_header literal match_header number skip_count copy_lines
    hunk_line
replaced = refl

wrong_context : apply_unified_diff (codes "a\nb\n") (codes "@@\n x\n") ≡ err context_mismatch
unfolding apply_unified_diff split_lines_preserving_endings nat_eq ℕ_discrete patch_line start_hunk
    parse_unified_diff_hunk_header is_bare_header literal match_header number skip_count copy_lines
    hunk_line
wrong_context = refl

bad_header :
    apply_unified_diff (codes "a\n") (codes "@@ 1\n") ≡ err (invalid_header (codes "@@ 1\n"))
unfolding apply_unified_diff split_lines_preserving_endings nat_eq ℕ_discrete patch_line start_hunk
    parse_unified_diff_hunk_header is_bare_header literal match_header number skip_count copy_lines
    hunk_line
bad_header = refl

abbrev line : Text → Text
line t = t ++ 0x0a ∷ []

-- The first hunk inserts at the top.
abbrev hunks : List Hunk
hunks =
    record { skipped = []; edits = insert (line (codes "top")) ∷ [] }
    ∷ record {
      skipped = line (codes "a") ∷ [];
      edits = remove (line (codes "b")) ∷ insert (line (codes "B")) ∷ keep (line (codes "c")) ∷ [];
    }
    ∷ []

abbrev tail : List Text
tail = line (codes "d") ∷ []

-- The header of an insertion names the line before it.
printed :
    join (print_hunks 0 0 hunks) ≡ codes "@@ -0,0 +1,1 @@\n+top\n@@ -2,2 +3,2 @@\n-b\n+B\n c\n"
unfolding join print_header unified_start decimal nat_eq ℕ_discrete
printed = refl

apply_unified_diff-print_hunks_example :
    apply_unified_diff (join (before_hunks hunks tail)) (join (print_hunks 0 0 hunks))
    ≡ ok (record { content = codes "top\na\nB\nc\nd\n"; changed = true })
unfolding join nat_eq ℕ_discrete
apply_unified_diff-print_hunks_example =
    apply_unified_diff-print_hunks hunks tail
      ((refl, refl), ((refl, refl), ((refl, refl), ((refl, refl), tt))))
      ((refl, (refl, (refl, refl))), ((refl, refl), ((refl, refl), ((refl, refl), tt))))
      (inr refl, (inl (omega arith), tt))

-- A hunk for the place behind the second line.
apply_unified_diff-insertion_example :
    apply_unified_diff (codes "a\nb\nc\n") (join (print_header 2 0 3 1 ∷ codes "+new\n" ∷ []))
    ≡ ok (record { content = codes "a\nnew\nb\nc\n"; changed = true })
unfolding join nat_eq ℕ_discrete
apply_unified_diff-insertion_example =
    apply_unified_diff-insertion (line (codes "a") ∷ []) (line (codes "b")) (line (codes "new"))
      (line (codes "c") ∷ []) 3 1 ((refl, refl), ((refl, refl), ((refl, refl), tt)))
      (refl, (refl, (refl, refl)))

apply_unified_diff-separator_example :
    apply_unified_diff (codes "kept? " ++ 0x2028 ∷ codes "b\n") (codes "@@ -1 +1 @@\n-b\n+c\n")
    ≡ apply_unified_diff (codes "b\n") (codes "@@ -1 +1 @@\n-b\n+c\n")
unfolding is_separator nat_eq ℕ_discrete
apply_unified_diff-separator_example =
    apply_unified_diff-separator (codes "kept? ") (codes "b\n") (codes "@@ -1 +1 @@\n-b\n+c\n")
      0x2028 refl refl

join-split_example :
    join (split_lines_preserving_endings (codes "a\r\nb\n\nc")) ≡ codes "a\r\nb\n\nc"
unfolding is_separator nat_eq ℕ_discrete
join-split_example = join-split (codes "a\r\nb\n\nc") refl
