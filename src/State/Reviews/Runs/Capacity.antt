-- ===== src/State/Reviews/Runs/Capacity.antt =====
-- The number of reviews that wait.
use harness_control_protocol.Base.{
  ◌≤◌, ◌<◌, ◌⊎◌, String, ◌≡◌, true, Option, none, some, List, [], ◌∷◌, ◌==◌, arith, string_eq,
  length, Option-cases, Result-cases, Bool-cases, inl, inr,
}
use harness_control_protocol.Base.Dict.{Dict, lookup, insert, erase, lookup-insert_self}
use harness_control_protocol.Base.Weights.{
  length-values, length-erase, length-insert, length-insert_present, length-erase_present,
}
use harness_control_protocol.State.{StateData, Options, restore}
use harness_control_protocol.State.Work.{is_some}
use harness_control_protocol.State.Review.{McpReview}
use harness_control_protocol.State.Reviews.{
  ReviewFailure, ReviewOp, save, clear, apply_call, save_change, clear_change, check_review,
  persist_mcp_change, save_mcp_review, clear_mcp_review, undo_change, pending_mcp_reviews,
}
use harness_control_protocol.State.Reviews.Checked.{check_review-Checked}
use harness_control_protocol.State.Reviews.Runs.{cleared, save_change-reviews, clear_change-reviews}
use harness_control_protocol.State.Reviews.Runs.Progress.{run_calls}

-- The reviews after the catch block of a save are no more than there were before.
restore-save_size :
    (id : String) (w : McpReview) (d : Dict String McpReview)
    → length (restore id (lookup id d) (insert id w d)) ≤ length d
unfolding restore
restore-save_size id w d =
    let there = lookup-insert_self id w d in
    elim (Option-cases (lookup id d)) [
      | inl fresh ↦
          ground
            (arith, fresh, length-insert id w d, length-erase_present id w (insert id w d) there)
      | inr (p, old) ↦ ground (
        arith,
        old,
        length-insert_present id w p d old,
        length-insert_present id p w (insert id w d) there,
      )
    ]

-- A clear fails before or after the review is deleted.
restore-clear_size :
    (id : String) (p : McpReview) (d : Dict String McpReview) (failure : Option ReviewFailure)
    → lookup id d ≡ some p
    → length (restore id (lookup id d) (cleared failure id d)) ≤ length d
unfolding restore
restore-clear_size id p d none there =
    ground (arith, there, length-insert id p (erase id d), length-erase_present id p d there)
restore-clear_size id p d (some f) there =
    ground (arith, there, length-insert_present id p p d there)

cleared_size :
    (failure : Option ReviewFailure) (id : String) (d : Dict String McpReview)
    → length d ≤ 16
    → length (cleared failure id d) ≤ 16
cleared_size none id d small = ground (arith, length-erase id d)
cleared_size (some f) id d small = small

insert_size :
    (id : String) (w : McpReview) (d : Dict String McpReview)
    → (is_some (lookup id d) ≡ true) ⊎ (length d < 16)
    → length d ≤ 16
    → length (insert id w d) ≤ 16
unfolding is_some
insert_size id w d room small = elim (Option-cases (lookup id d)) [
  | inl fresh ↦ ground (arith, fresh, room, length-insert id w d)
  | inr (p, there) ↦ ground (arith, length-insert_present id w p d there)
]

module _ (persist : StateData → Option String) (options : Options) where
  -- A change, with the reviews that it leaves, and those of the catch block.
  persist_mcp_change_size :
      (id : String) (changed : StateData × Option ReviewFailure) (d : StateData)
      → length changed.0.mcp_reviews ≤ 16
      → length (restore id (lookup id d.mcp_reviews) changed.0.mcp_reviews) ≤ length d.mcp_reviews
      → length d.mcp_reviews ≤ 16
      → length (persist_mcp_change persist options id changed d).0.mcp_reviews ≤ 16
  unfolding persist_mcp_change undo_change
  persist_mcp_change_size id (d', some failure) d after undone small = omega arith
  persist_mcp_change_size id (d', none) d after undone small = elim (Option-cases (persist d')) [
    | inl saved ↦ rw (saved, persist_mcp_change) after
    | inr (m, lost) ↦ rw (lost, persist_mcp_change) (omega arith)
  ]

  apply_call_size :
      (op : ReviewOp) (d : StateData)
      → length d.mcp_reviews ≤ 16
      → length (apply_call persist options op d).0.mcp_reviews ≤ 16
  unfolding apply_call
  apply_call_size (save platform w event) d small =
      let limit = options.event_retention_per_session in
      let id = w.start.session_id in
      let previous = lookup id d.mcp_reviews in
      let reviews = save_change-reviews limit w event d in
      elim (Result-cases (check_review platform previous (length d.mcp_reviews) w event)) [
        | inl (m, bad) ↦ rw (bad, save_mcp_review) small
        | inr (u, good) ↦
            let room = (check_review-Checked platform previous _ w event good).room in
            rw (good, save_mcp_review)
              (persist_mcp_change_size id (save_change limit w event d) d
                (rw reviews (insert_size id w d.mcp_reviews room small))
                (rw reviews (restore-save_size id w d.mcp_reviews)) small)
      ]
  apply_call_size (clear id request_id events) d small =
      let limit = options.event_retention_per_session in
      let reviews = clear_change-reviews limit id events d in
      let failure = (clear_change limit id events d).1 in
      elim (Option-cases (lookup id d.mcp_reviews)) [
        | inl absent ↦ rw (absent, clear_mcp_review) small
        | inr (w, there) ↦ elim (Bool-cases (w.request_id == request_id)) [
          | inr other ↦ rw (there, other, clear_mcp_review) small
          | inl same ↦
              rw (there, same, clear_mcp_review)
                (persist_mcp_change_size id (clear_change limit id events d) d
                  (rw reviews (cleared_size failure id d.mcp_reviews small))
                  (rw reviews (restore-clear_size id w d.mcp_reviews failure there)) small)
        ]
      ]

  runs_size :
      (ops : List ReviewOp) (d : StateData)
      → length d.mcp_reviews ≤ 16
      → length (run_calls persist options ops d).mcp_reviews ≤ 16
  unfolding run_calls
  runs_size [] d small = small
  runs_size (op ∷ ops) d small =
      runs_size ops (apply_call persist options op d).0 (apply_call_size op d small)

  -- If at most sixteen reviews are pending, then at most sixteen are after any calls of
  -- saveMcpReview and clearMcpReview, failed ones included.
  pub length-pending_mcp_reviews :
      (ops : List ReviewOp) (d : StateData)
      → length (pending_mcp_reviews d) ≤ 16
      → length (pending_mcp_reviews (run_calls persist options ops d)) ≤ 16
  unfolding pending_mcp_reviews
  length-pending_mcp_reviews ops d small =
      let after = run_calls persist options ops d in
      rw (length-values after.mcp_reviews)
        (runs_size ops d (rw (length-values d.mcp_reviews) at small))
