-- ===== src/LocalActions/Patch/RoundTrip.antt =====
-- Applying a printed edit script to the text that it was made for.
use harness_control_protocol.Base.{
  ℕ, suc, ◌+◌, ◌≡◌, refl, subst, true, false, List, [], ◌∷◌, ◌++◌, arith, nat_eq, ℕ_discrete, All,
  length, ok,
}
use mathlib.Core.List.{append_assoc}
use harness_control_protocol.LocalActions.Patch.{
  Text, patch_line, patch_lines, join, apply_unified_diff,
}
use harness_control_protocol.LocalActions.Patch.Split.{IsLine, split-join}
use harness_control_protocol.LocalActions.Patch.Script.{
  print_header, Hunk, before_hunks, after_hunks, changes_hunks, print_hunks, IsAnchored,
  print_header-IsLine, prefixed-IsLine, print_hunks-IsLine,
}
use harness_control_protocol.LocalActions.Patch.Apply.{
  progress, header_line, insert_line, patch_lines-print_hunks,
}

-- For an edit script of hunks, each with lines that it passes by and edits that keep, remove or
-- insert a line, where a hunk that only inserts passes by no line (it stands at the top or directly
-- behind another hunk), and for the lines behind them, all lines ended by a line feed and without
-- other line ends: applying the script's printed unified diff, whose headers give an empty range
-- the number of the line before it, to the original text gives the edited text, and says that it is
-- changed exactly when an edit removes or inserts.
pub apply_unified_diff-print_hunks :
    (hs : List Hunk) (tail : List Text)
    → All IsLine (before_hunks hs tail)
    → All IsLine (after_hunks hs)
    → All IsAnchored hs
    → apply_unified_diff (join (before_hunks hs tail)) (join (print_hunks 0 0 hs))
      ≡ ok (record { content = join (after_hunks hs ++ tail); changed = changes_hunks hs })
unfolding apply_unified_diff
apply_unified_diff-print_hunks hs tail h k anchored =
    let (index, (inside, done)) = patch_lines-print_hunks hs tail [] 0 0 false false anchored in
    let old = split-join (before_hunks hs tail) h in
    let new = split-join (print_hunks 0 0 hs) (print_hunks-IsLine hs tail 0 0 h k) in
    rw (old, new, done) refl

inserted_early :
    (skipped : List Text) (x new : Text) (tail : List Text) (n m : ℕ)
    → (k : ℕ) × (patch_lines
          (print_header (suc (length skipped)) 0 n m ∷ (b'+' ∷ new) ∷ [])
          (progress (skipped ++ x ∷ tail) 0 [] false false)
        ≡ ok (progress (x ∷ tail) k (skipped ++ new ∷ []) true true))
unfolding patch_lines
inserted_early skipped x new tail n m =
    let e : 0 + length skipped ≡ length skipped = omega arith in
    let first : patch_line (print_header (suc (length skipped)) 0 n m)
          (progress (skipped ++ x ∷ tail) 0 [] false false)
        ≡ ok (progress (x ∷ tail) (length skipped) skipped false true) =
      subst
        (λ z.
          patch_line (print_header (suc (length skipped)) 0 n m)
            (progress (skipped ++ x ∷ tail) 0 [] false false)
          ≡ ok (progress (x ∷ tail) z skipped false true))
        e
        (header_line skipped (x ∷ tail) [] 0 (suc (length skipped)) 0 n m false false
          (omega arith)) in
    (
      length skipped,
      ground (arith, first, insert_line new (x ∷ tail) skipped (length skipped) false),
    )

-- A hunk that keeps and removes nothing, whose header names a line that is there, inserts its line
-- before the line that the header names, for lines ended by a line feed and without other line
-- ends.
pub apply_unified_diff-insertion :
    (skipped : List Text) (x new : Text) (tail : List Text) (n m : ℕ)
    → All IsLine (skipped ++ x ∷ tail)
    → IsLine new
    → apply_unified_diff
        (join (skipped ++ x ∷ tail))
        (join (print_header (suc (length skipped)) 0 n m ∷ (b'+' ∷ new) ∷ []))
      ≡ ok (record { content = join (skipped ++ new ∷ x ∷ tail); changed = true })
unfolding apply_unified_diff nat_eq ℕ_discrete
apply_unified_diff-insertion skipped x new tail n m h k =
    let patch : List Text = print_header (suc (length skipped)) 0 n m ∷ (b'+' ∷ new) ∷ [] in
    let (index, done) = inserted_early skipped x new tail n m in
    let old = split-join (skipped ++ x ∷ tail) h in
    let cut =
      split-join patch (print_header-IsLine _ _ _ _, (prefixed-IsLine b'+' new refl k, tt)) in
    rw (old, cut, done) (ground (arith, append_assoc skipped (new ∷ []) (x ∷ tail)))
