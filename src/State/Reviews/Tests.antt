-- ===== src/State/Reviews/Tests.antt =====
-- A review that is requested and then decided, and the theorems about such calls at these values.
use harness_control_protocol.Base.{
  ◌≤◌, String, ◌≡◌, ◌≢◌, refl, false, Option, none, some, List, [], ◌∷◌, arith, string_eq, nat_eq,
  option_eq, ℕ_discrete, length,
}
use harness_control_protocol.Base.Dict.{lookup, insert}
use harness_control_protocol.Protocol.Json.{text, obj, end, field}
use harness_control_protocol.Protocol.Event.{Event}
use harness_control_protocol.State.{StateData, Options, empty_runner_state, not_persisted}
use harness_control_protocol.State.Review.{
  McpReview, Platform, ReviewOutcome, waiting, dispatching, completed,
}
use harness_control_protocol.State.Review.Schema.{outcome_ok}
use harness_control_protocol.State.Work.{is_some}
use harness_control_protocol.State.Review.Same.{same_outcome}
use harness_control_protocol.State.Reviews.Rollback.{Unchanged, apply_call-Unchanged}
use harness_control_protocol.State.Reviews.Recorded.Saved.{IsRecorded, save_mcp_review-IsRecorded}
use harness_control_protocol.State.Reviews.Runs.Progress.{
  IsFurther, changes, run_calls, run_calls-IsFurther,
}
use harness_control_protocol.State.Reviews.Runs.Capacity.{length-pending_mcp_reviews}
use harness_control_protocol.State.Reviews.{
  ReviewOp, save, apply_call, save_mcp_review, refused, not_stored, pending_mcp_reviews,
}

abbrev options : Options
options = record { event_retention_per_session = 2; receipt_retention_ms = 1000 }

abbrev written : StateData → Option String
written d = none

abbrev disk_full : StateData → Option String
disk_full d = some "ENOSPC"

abbrev digest : String
digest = "0123456789abcdef0123456789abcdef0123456789abcdef0123456789abcdef"

abbrev platform : Platform
platform = record {
  parse_json = λ s. some (
      obj (
        field "kind" (text "mcp_tool") (
          field "attachment_name" (text "selected")
            (field "tool_name" (text "lookup") (field "arguments" (obj end) end)))));
  parse_date = λ s. some 1000;
  sha256 = λ s. digest;
  now = 0;
}

abbrev review_with : ReviewOutcome → McpReview
review_with outcome = record {
  start = record { session_id = "s"; other_fields = end };
  turn = record { session_id = "s"; turn_id = "t"; other_fields = end };
  native_thread_id = "thread";
  native_turn_id = "turn";
  native_call_id = "call";
  native_work_id = none;
  native_request = none;
  request_id = "r";
  action = record { action_json = "{}"; action_hash = digest };
  expires_at = "2026-09-20T00:00:00Z";
  outcome = outcome;
}

abbrev resolved : String → Event
resolved decision = record {
  session_id = "s";
  turn_id = some "t";
  sequence = 1;
  event_type = "approval.resolved";
  created_at = "2026-09-19T00:01:00Z";
  payload = obj (
      field "session_id" (text "s") (
        field "turn_id" (text "t") (
          field "request_id" (text "r") (
            field "action_hash" (text digest)
              (field "actor_id" (text "a") (field "decision" (text decision) end))))));
  raw = none;
}

abbrev pending : StateData
pending = record empty_runner_state { mcp_reviews = ("s", review_with waiting) ∷ [] }

abbrev dispatched : McpReview
dispatched = review_with (dispatching "a")

abbrev finished : McpReview
finished = review_with (completed "a" "done")

dispatched_saved :
    (save_mcp_review written options platform dispatched (some (resolved "accept")) pending).1
    ≡ none
unfolding save_mcp_review lookup string_eq nat_eq option_eq empty_runner_state ℕ_discrete is_some
dispatched_saved = refl

-- The event of a decline does not let a call through, and no event does not either.
declined_refused :
    (save_mcp_review written options platform dispatched (some (resolved "decline")) pending).1
    ≡ some (refused "MCP review decision differs from its private continuation.")
unfolding save_mcp_review lookup string_eq nat_eq option_eq empty_runner_state ℕ_discrete is_some
declined_refused = refl

silent_refused :
    (save_mcp_review written options platform dispatched none pending).1
    ≡ some (refused "MCP continuation transition would change or replay its operation.")
unfolding save_mcp_review lookup string_eq nat_eq option_eq empty_runner_state ℕ_discrete is_some
silent_refused = refl

lost :
    (save_mcp_review disk_full options platform dispatched (some (resolved "accept")) pending).1
    ≡ some (not_stored (not_persisted "ENOSPC"))
unfolding save_mcp_review lookup string_eq nat_eq option_eq empty_runner_state ℕ_discrete is_some
lost = refl

not_saved :
    (apply_call disk_full options (save platform dispatched (some (resolved "accept"))) pending).1
    ≢ none
unfolding apply_call
not_saved h = absurd (ground (arith, lost))

apply_call-Unchanged_example :
    Unchanged pending
      (apply_call disk_full options (save platform dispatched (some (resolved "accept"))) pending).0
apply_call-Unchanged_example =
    apply_call-Unchanged disk_full options (save platform dispatched (some (resolved "accept")))
      pending not_saved

stored_differs :
    (p : McpReview)
    → lookup "s" pending.mcp_reviews ≡ some p
    → same_outcome p.outcome (dispatching "a") ≡ false
unfolding lookup string_eq same_outcome
stored_differs p there = let same : p ≡ review_with waiting = ground (arith, there) in rw same refl

save_mcp_review-IsRecorded_example :
    IsRecorded platform 2 dispatched
      (some (resolved "accept"))
      pending
      (save_mcp_review written options platform dispatched (some (resolved "accept")) pending).0
save_mcp_review-IsRecorded_example =
    save_mcp_review-IsRecorded written options platform dispatched (some (resolved "accept"))
      pending refl stored_differs dispatched_saved

abbrev calls : List ReviewOp
calls =
    save platform dispatched (some (resolved "accept"))
    ∷ save platform dispatched (some (resolved "accept"))
    ∷ save platform finished none
    ∷ []

two_changes : changes written options "s" calls pending ≡ 2
unfolding save_mcp_review changes lookup string_eq nat_eq option_eq empty_runner_state ℕ_discrete
    is_some apply_call insert
two_changes = refl

run_calls-IsFurther_example :
    IsFurther "s"
      (changes written options "s" calls pending)
      (review_with waiting)
      (run_calls written options calls pending)
unfolding lookup string_eq outcome_ok
run_calls-IsFurther_example =
    run_calls-IsFurther written options platform "s" calls (review_with waiting) pending
      (tt, (tt, (tt, tt))) refl refl

length-pending_mcp_reviews_example :
    length (pending_mcp_reviews (run_calls written options calls pending)) ≤ 16
unfolding pending_mcp_reviews
length-pending_mcp_reviews_example =
    length-pending_mcp_reviews written options calls pending (omega arith)
