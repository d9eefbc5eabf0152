-- ===== src/State/Reviews/Runs.antt =====
-- The reviews that the store holds, over any sequence of calls.
pub mod Capacity
pub mod Progress
use harness_control_protocol.Base.{
  ℕ, ◌+◌, ◌≤◌, ◌<◌, String, ◌≡◌, ◌≢◌, ◌⊎◌, refl, ap, ◌∙◌, true, false, Bool, Option, none, some,
  List, [], ◌∷◌, ◌==◌, arith, string_eq, length, Option-cases, Result-cases, Bool-cases, inl, inr,
  ok, if◌then◌else◌,
}
use harness_control_protocol.Base.Dict.{Dict, lookup, insert, erase, lookup-insert, lookup-erase}
use harness_control_protocol.Protocol.Event.{Event}
use harness_control_protocol.State.{StateData, Options, append_unsaved}
use harness_control_protocol.State.Review.{McpReview, ReviewOutcome, Platform}
use harness_control_protocol.State.Review.Schema.{review_ok, outcome_ok}
use harness_control_protocol.State.Review.Same.{same_outcome}
use harness_control_protocol.State.Review.Operation.{
  SameOperation, SameOperation-refl, SameOperation-trans, same_binding-SameOperation,
  same_outcome_refl,
}
use harness_control_protocol.State.Review.Transition.Order.{
  rank, outcome_ok-rank, Follows, validate_mcp_transition-Follows,
}
use harness_control_protocol.State.Reviews.{
  ReviewFailure, check_review, append_or_fail, store_review, save_change, drop_review, clear_change,
  undo_change, persist_mcp_change, save_mcp_review, clear_mcp_review, ReviewOp, save, clear,
  apply_call,
}
use harness_control_protocol.State.Reviews.Checked.{Checked, check_review-Checked}
use harness_control_protocol.State.Reviews.Rollback.{Unchanged, apply_call-Unchanged}

pub append_or_fail-reviews :
    (limit : ℕ) (e : Event) (d : StateData)
    → (append_or_fail limit e d).0.mcp_reviews ≡ d.mcp_reviews
unfolding append_or_fail append_unsaved
append_or_fail-reviews limit e d = ground arith

pub save_change-reviews :
    (limit : ℕ) (w : McpReview) (event : Option Event) (d : StateData)
    → (save_change limit w event d).0.mcp_reviews ≡ insert w.start.session_id w d.mcp_reviews
unfolding save_change store_review
save_change-reviews limit w none d = refl
save_change-reviews limit w (some e) d = append_or_fail-reviews limit e (store_review w d)

-- The reviews after the change of a clear: without the session's, or as they were if it fails.
abbrev pub cleared :
    {A : Type 0} → Option A → String → Dict String McpReview → Dict String McpReview
cleared none id reviews = erase id reviews
cleared (some failure) id reviews = reviews

pub clear_change-reviews :
    (limit : ℕ) (id : String) (es : List Event) (d : StateData)
    → (clear_change limit id es d).0.mcp_reviews
      ≡ cleared (clear_change limit id es d).1 id d.mcp_reviews
unfolding clear_change drop_review
clear_change-reviews limit id [] d = refl
clear_change-reviews limit id (e ∷ es) d = ground (
  arith,
  append_or_fail-reviews limit e d,
  clear_change-reviews limit id es (append_or_fail limit e d).0,
)

module _ (persist : StateData → Option String) (options : Options) where
  persist_mcp_change-none :
      (id : String) (changed : StateData × Option ReviewFailure) (d : StateData)
      → (persist_mcp_change persist options id changed d).1 ≡ none
      → ((persist_mcp_change persist options id changed d).0 ≡ changed.0) × (changed.1 ≡ none)
  unfolding persist_mcp_change
  persist_mcp_change-none id (d', some failure) d h = absurd (ground arith)
  persist_mcp_change-none id (d', none) d h = elim (Option-cases (persist d')) [
    | inl saved ↦ (ground (arith, saved), refl)
    | inr (m, lost) ↦ absurd (ground (arith, lost))
  ]

  -- A save that does not throw has made its checks, and the review is stored.
  pub save_mcp_review-none :
      (platform : Platform) (w : McpReview) (event : Option Event) (d : StateData)
      → (save_mcp_review persist options platform w event d).1 ≡ none
      → Checked platform (lookup w.start.session_id d.mcp_reviews) (length d.mcp_reviews) w event
        × ((save_mcp_review persist options platform w event d).0
            ≡ (save_change options.event_retention_per_session w event d).0)
        × ((save_change options.event_retention_per_session w event d).1 ≡ none)
  unfolding save_mcp_review
  save_mcp_review-none platform w event d h =
      let previous = lookup w.start.session_id d.mcp_reviews in
      let count = length d.mcp_reviews in
      elim (Result-cases (check_review platform previous count w event)) [
        | inl (m, bad) ↦ absurd (ground (arith, bad))
        | inr (u, good) ↦
            let stored =
              persist_mcp_change-none w.start.session_id
                (save_change options.event_retention_per_session w event d) d
                (rw (good, save_mcp_review) at h) in
            (
              check_review-Checked platform previous count w event good,
              rw (good, save_mcp_review) stored.0,
              stored.1,
            )
      ]

  -- A clear that does not throw has removed the session's review, and no other.
  pub clear_mcp_review-none :
      (id request_id : String) (events : List Event) (d : StateData)
      → (clear_mcp_review persist options id request_id events d).1 ≡ none
      → (clear_mcp_review persist options id request_id events d).0.mcp_reviews
        ≡ erase id d.mcp_reviews
  unfolding clear_mcp_review
  clear_mcp_review-none id request_id events d h =
      let limit = options.event_retention_per_session in
      elim (Option-cases (lookup id d.mcp_reviews)) [
        | inl absent ↦ absurd (ground (arith, absent))
        | inr (w, there) ↦ elim (Bool-cases (w.request_id == request_id)) [
          | inr other ↦ absurd (ground (arith, there, other))
          | inl same ↦
              let erased = clear_change-reviews limit id events d in
              let (left, fine) =
                persist_mcp_change-none id (clear_change limit id events d) d
                  (rw (there, same, clear_mcp_review) at h) in
              rw (there, same, clear_mcp_review) (rw left (rw fine at erased))
        ]
      ]
