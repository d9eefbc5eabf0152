-- ===== src/State/Reviews/Runs/Progress.antt =====
-- A pending review goes forward through its phases, and stays about one operation.
use harness_control_protocol.Base.{
  ℕ, ◌+◌, ◌≤◌, String, ◌≡◌, ◌≢◌, ap, ◌∙◌, true, Option, none, some, List, [], ◌∷◌, All, arith,
  string_eq, Option-cases, and_left, and_right, inl, inr, if◌then◌else◌,
}
use harness_control_protocol.Base.Dict.{lookup, insert, lookup-insert, lookup-erase}
use harness_control_protocol.Protocol.Event.{Event}
use harness_control_protocol.State.{StateData, Options}
use harness_control_protocol.State.Review.{McpReview, Platform}
use harness_control_protocol.State.Review.Schema.{outcome_ok, review_ok}
use harness_control_protocol.State.Review.Same.{same_outcome}
use harness_control_protocol.State.Review.Operation.{
  SameOperation, SameOperation-refl, SameOperation-trans, same_binding-SameOperation,
  same_outcome_refl,
}
use harness_control_protocol.State.Review.Transition.Order.{
  rank, outcome_ok-rank, same_outcome-rank, Follows, validate_mcp_transition-Follows,
}
use harness_control_protocol.State.Reviews.{ReviewOp, save, clear, apply_call}
use harness_control_protocol.State.Reviews.Rollback.{apply_call-Unchanged}
use harness_control_protocol.State.Reviews.Runs.{
  save_change-reviews, save_mcp_review-none, clear_mcp_review-none,
}

-- 1 if a review has come to another outcome.
unfoldable pub change_of : Option McpReview → Option McpReview → ℕ
change_of (some p) (some w) = if same_outcome p.outcome w.outcome then 0 else 1
change_of _ _ = 0

-- The call is not a clear of the session's review.
abbrev pub Leaves : String → ReviewOp → Type 0
Leaves id (save platform w event) = Unit
Leaves id (clear other request_id events) = other ≢ id

-- The store holds a review of the same operation, at least `n` phases on.
pub record IsFurther (id : String) (n : ℕ) (p : McpReview) (d : StateData) : Type 0 where
  pub review : McpReview
  pub is_stored : lookup id d.mcp_reviews ≡ some review
  pub operation : SameOperation p review
  pub progress : rank p.outcome + n ≤ rank review.outcome
  pub bound : rank review.outcome ≤ 20

review_ok-rank :
    (platform : Platform) (w : McpReview) → review_ok platform w ≡ true → rank w.outcome ≤ 20
unfolding review_ok
review_ok-rank platform w h =
    outcome_ok-rank platform w.outcome (and_right _ _ (and_left _ _ (and_left _ _ h)))

-- The review is as it was.
stays :
    (id : String) (p : McpReview) (d d' : StateData)
    → lookup id d.mcp_reviews ≡ some p
    → rank p.outcome ≤ 20
    → lookup id d'.mcp_reviews ≡ lookup id d.mcp_reviews
    → IsFurther id (change_of (lookup id d.mcp_reviews) (lookup id d'.mcp_reviews)) p d'
unfolding change_of
stays id p d d' there small same = record {
  review = p;
  is_stored = same ∙ there;
  operation = SameOperation-refl p;
  progress = rw (same, there) (ground (arith, same_outcome_refl p.outcome));
  bound = small;
}

follows :
    (id : String) (p w : McpReview) (event : Option Event) (d d' : StateData)
    → lookup id d.mcp_reviews ≡ some p
    → Follows p w event
    → lookup id d'.mcp_reviews ≡ some w
    → rank w.outcome ≤ 20
    → IsFurther id (change_of (lookup id d.mcp_reviews) (lookup id d'.mcp_reviews)) p d'
unfolding change_of
follows id p w event d d' there f now small = record {
  review = w;
  is_stored = now;
  operation = same_binding-SameOperation p w f.binding;
  progress =
      rw (now, there)
        (elim f.change [
          | inl (same, quiet) ↦ ground (arith, same, same_outcome-rank p.outcome w.outcome same)
          | inr forward ↦ ground (arith, forward)
        ]);
  bound = small;
}

module _ (persist : StateData → Option String) (options : Options) where
  unfoldable pub run_calls : List ReviewOp → StateData → StateData
  run_calls [] d = d
  run_calls (op ∷ ops) d = run_calls ops (apply_call persist options op d).0

  -- How often the session's review came to another outcome.
  unfoldable pub changes : String → List ReviewOp → StateData → ℕ
  unfolding change_of
  changes id [] d = 0
  changes id (op ∷ ops) d =
      let next = (apply_call persist options op d).0 in
      change_of (lookup id d.mcp_reviews) (lookup id next.mcp_reviews) + changes id ops next

  -- A call that does not throw.
  done-IsFurther :
      (id : String) (op : ReviewOp) (p : McpReview) (d : StateData)
      → Leaves id op
      → lookup id d.mcp_reviews ≡ some p
      → rank p.outcome ≤ 20
      → (apply_call persist options op d).1 ≡ none
      → let d' = (apply_call persist options op d).0 in
        IsFurther id (change_of (lookup id d.mcp_reviews) (lookup id d'.mcp_reviews)) p d'
  unfolding apply_call
  done-IsFurther id (save platform w event) p d leaves there small fine =
      let d' = (apply_call persist options (save platform w event) d).0 in
      let (checked, saved, appended) =
        save_mcp_review-none persist options platform w event d fine in
      let reviews : d'.mcp_reviews ≡ insert w.start.session_id w d.mcp_reviews =
        ap (λ x. x.mcp_reviews) saved
        ∙ save_change-reviews options.event_retention_per_session w event d in
      let found = ap (lookup id) reviews ∙ lookup-insert id w.start.session_id w d.mcp_reviews in
      elim (string_eq.dec id w.start.session_id) [
        | yes own ↦
            let previous : lookup w.start.session_id d.mcp_reviews ≡ some p = rw own at there in
            follows id p w event d d' there
              (validate_mcp_transition-Follows platform p w event small
                (rw previous at checked.valid))
              (ground (arith, found, own)) (review_ok-rank platform w checked.fits)
        | no other ↦ stays id p d d' there small (ground (arith, found, other))
      ]
  done-IsFurther id (clear j request_id events) p d leaves there small fine =
      let d' = (apply_call persist options (clear j request_id events) d).0 in
      let found =
        ap (lookup id) (clear_mcp_review-none persist options j request_id events d fine)
        ∙ lookup-erase id j d.mcp_reviews in
      stays id p d d' there small (ground (arith, found, leaves))

  apply_call-IsFurther :
      (id : String) (op : ReviewOp) (p : McpReview) (d : StateData)
      → Leaves id op
      → lookup id d.mcp_reviews ≡ some p
      → rank p.outcome ≤ 20
      → let d' = (apply_call persist options op d).0 in
        IsFurther id (change_of (lookup id d.mcp_reviews) (lookup id d'.mcp_reviews)) p d'
  unfolding apply_call
  apply_call-IsFurther id op p d leaves there small =
      elim (Option-cases (apply_call persist options op d).1) [
        | inr (f, thrown) ↦
            stays id p d (apply_call persist options op d).0 there small
              ((apply_call-Unchanged persist options op d (ground (arith, thrown))).reviews id)
        | inl fine ↦ done-IsFurther id op p d leaves there small fine
      ]

  further :
      (id : String) (ops : List ReviewOp) (p : McpReview) (d : StateData)
      → All (Leaves id) ops
      → lookup id d.mcp_reviews ≡ some p
      → rank p.outcome ≤ 20
      → IsFurther id (changes id ops d) p (run_calls ops d)
  unfolding changes run_calls
  further id [] p d leaves there small = record {
    review = p;
    is_stored = there;
    operation = SameOperation-refl p;
    progress = omega arith;
    bound = small;
  }
  further id (op ∷ ops) p d (here, leaves) there small =
      let next = (apply_call persist options op d).0 in
      let first = apply_call-IsFurther id op p d here there small in
      let rest = further id ops first.review next leaves first.is_stored first.bound in
      let before = first.progress in
      let after = rest.progress in
      record {
        review = rest.review;
        is_stored = rest.is_stored;
        operation = SameOperation-trans p first.review rest.review first.operation rest.operation;
        progress = omega arith;
        bound = rest.bound;
      }

  -- Over any calls of saveMcpReview and clearMcpReview, failed ones included, of which none clears
  -- the session's review, a stored review whose outcome passes the schema stays a review of the
  -- same operation, and each change of its outcome takes it at least one step on in the order of
  -- the phases and rounds, which has twenty steps: it comes to another outcome at most twenty
  -- times.
  pub run_calls-IsFurther :
      (platform : Platform) (id : String) (ops : List ReviewOp) (p : McpReview) (d : StateData)
      → All (Leaves id) ops
      → lookup id d.mcp_reviews ≡ some p
      → outcome_ok platform p.outcome ≡ true
      → IsFurther id (changes id ops d) p (run_calls ops d)
  run_calls-IsFurther platform id ops p d leaves there fine =
      further id ops p d leaves there (outcome_ok-rank platform p.outcome fine)
