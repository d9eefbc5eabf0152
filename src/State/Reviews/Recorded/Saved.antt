-- ===== src/State/Reviews/Recorded/Saved.antt =====
-- A decision that a save takes over stands in the log.
use harness_control_protocol.Base.{
  ℕ, String, ◌≡◌, ◌≢◌, refl, ap, true, false, Bool, Option, none, some, [], ◌∷◌, ◌++◌, arith,
  string_eq, nat_eq, option_eq, ok, >>-eq-ok, >>=-eq-ok, inl, inr, ◌∙◌,
}
use harness_control_protocol.Base.Dict.{lookup, lookup-insert_self}
use harness_control_protocol.Protocol.Event.{Event}
use harness_control_protocol.State.{StateData, Options, append_unsaved, events_of, shift_to}
use harness_control_protocol.State.Review.{
  ReviewOutcome, waiting, dispatching, declined, input_waiting, input_resuming, review_waiting,
  review_resuming, expiry_resuming, expiry_completed, completed, InputRound, PendingInput,
  HashedAction, McpReview, Platform,
}
use harness_control_protocol.State.Review.Checks.{check_attribution, check_delegated}
use harness_control_protocol.State.Review.Transition.{
  validate_mcp_transition, check_change, advances, from_waiting, from_dispatching, from_resuming,
  from_expiry, from_input, from_review,
}
use harness_control_protocol.State.Review.Same.{same_outcome}
use harness_control_protocol.State.Work.{is_some}
use harness_control_protocol.State.Review.Transition.Order.{check_change-advances}
use harness_control_protocol.State.Review.Transition.Events.{
  validate_mcp_transition-event, check_event-session,
}
use harness_control_protocol.State.Reviews.{
  append_or_fail, save_change, store_review, save_mcp_review,
}
use harness_control_protocol.State.Reviews.Runs.{save_mcp_review-none, save_change-reviews}
use harness_control_protocol.State.Reviews.Recorded.{RecordsDecision, check_event-RecordsDecision}

-- An outcome that a person decides.
abbrev pub is_decided : ReviewOutcome → Bool
is_decided (dispatching actor) = true
is_decided (declined actor) = true
is_decided (input_resuming r reply actor) = true
is_decided (review_resuming r a reply actor decision) = true
is_decided _ = false

from_input_silent :
    (platform : Platform) (x : String) (r : InputRound) (pending : PendingInput) (o : ReviewOutcome)
    → is_decided o ≡ true
    → from_input platform x r pending o false ≢ ok true
unfolding from_input
from_input_silent platform x r pending o decided h = ground arith

from_review_silent :
    (platform : Platform) (x : String) (r : InputRound) (a : HashedAction) (pending : PendingInput)
    (o : ReviewOutcome)
    → is_decided o ≡ true
    → from_review platform x r a pending o false ≢ ok true
unfolding from_review
from_review_silent platform x r a pending o decided h = ground arith

-- No decision is taken over without an event.
advances_silent :
    (platform : Platform) (x : String) (old o : ReviewOutcome)
    → is_decided o ≡ true
    → advances platform x old o false ≢ ok true
unfolding advances from_waiting from_dispatching from_resuming from_expiry
advances_silent platform x waiting o decided h = ground arith
advances_silent platform x (dispatching actor) o decided h = ground arith
advances_silent platform x (declined actor) o decided h = ground arith
advances_silent platform x (input_waiting r pending) o decided h =
    from_input_silent platform x r pending o decided h
advances_silent platform x (input_resuming r reply actor) o decided h = ground arith
advances_silent platform x (review_waiting r a pending) o decided h =
    from_review_silent platform x r a pending o decided h
advances_silent platform x (review_resuming r a reply actor decision) o decided h = ground arith
advances_silent platform x (expiry_resuming r reply) o decided h = ground arith
advances_silent platform x (expiry_completed result) o decided h = ground arith
advances_silent platform x (completed actor result) o decided h = ground arith

check_change_silent :
    (platform : Platform) (previous : Option McpReview) (w : McpReview) (b : Bool)
    → is_decided w.outcome ≡ true
    → ((p : McpReview) → previous ≡ some p → same_outcome p.outcome w.outcome ≡ false)
    → check_change platform previous w none ≢ ok b
unfolding is_some
check_change_silent platform none w b decided differs h = unfold check_change in ground arith
check_change_silent platform (some p) w b decided differs h =
    elim (check_change-advances platform p w none b h) [
      | inl (same, quiet) ↦ ground (arith, same, differs p refl)
      | inr forward ↦ advances_silent platform p.expires_at p.outcome w.outcome decided forward
    ]

-- The change of a save with an event, where it does not fail.
save_change-events :
    (limit : ℕ) (w : McpReview) (e : Event) (d : StateData)
    → e.session_id ≡ w.start.session_id
    → (save_change limit w (some e) d).1 ≡ none
    → lookup w.start.session_id (save_change limit w (some e) d).0.events
      ≡ some (shift_to limit (events_of w.start.session_id d ++ e ∷ []))
unfolding save_change append_or_fail append_unsaved store_review
save_change-events limit w e d own h =
    let kept = shift_to limit (events_of w.start.session_id d ++ e ∷ []) in
    ground (arith, own, lookup-insert_self w.start.session_id kept d.events)

validate_silent :
    (platform : Platform) (previous : Option McpReview) (w : McpReview)
    → is_decided w.outcome ≡ true
    → ((p : McpReview) → previous ≡ some p → same_outcome p.outcome w.outcome ≡ false)
    → validate_mcp_transition platform previous w none ≢ ok tt
unfolding validate_mcp_transition
validate_silent platform previous w decided differs h =
    let (b, changed, last) =
      >>=-eq-ok (check_change platform previous w none) (λ settled. ok tt)
        (>>-eq-ok (check_delegated platform w) _ (>>-eq-ok (check_attribution w none) _ h).1).1 in
    check_change_silent platform previous w b decided differs changed

-- The decision that a save has taken over is in the session's log, by an event that the call gave.
pub record IsRecorded (platform : Platform) (limit : ℕ) (w : McpReview) (event : Option Event)
    (d d' : StateData) : Type 0 where
  pub decision : Event
  pub given : event ≡ some decision
  pub names : RecordsDecision w w.outcome decision
  pub hashed : platform.sha256 w.action.action_json ≡ w.action.action_hash
  pub logged :
      lookup w.start.session_id d'.events
      ≡ some (shift_to limit (events_of w.start.session_id d ++ decision ∷ []))
  pub stored : lookup w.start.session_id d'.mcp_reviews ≡ some w

module _ (persist : StateData → Option String) (options : Options) where
  -- If a save of an MCP review does not throw, its outcome is one that a person decides (a call let
  -- through or declined, an input answered, a delegated review decided), and the stored review, if
  -- there is one, has another outcome, then the call came with an event of the review's session and
  -- turn that names the request, the actor and, for a decision on an action, the decision and the
  -- hash of the action; the review's action has the hash that the review says; and the session's
  -- log ends in that event, within its retention, with the review stored.
  pub save_mcp_review-IsRecorded :
      (platform : Platform) (w : McpReview) (event : Option Event) (d : StateData)
      → is_decided w.outcome ≡ true
      → ((p : McpReview)
          → lookup w.start.session_id d.mcp_reviews ≡ some p
          → same_outcome p.outcome w.outcome ≡ false)
      → (save_mcp_review persist options platform w event d).1 ≡ none
      → IsRecorded platform options.event_retention_per_session w event d
          (save_mcp_review persist options platform w event d).0
  save_mcp_review-IsRecorded platform w none d decided differs fine =
      let checked = (save_mcp_review-none persist options platform w none d fine).0 in
      absurd (
        validate_silent platform (lookup w.start.session_id d.mcp_reviews) w decided differs
          checked.valid)
  save_mcp_review-IsRecorded platform w (some e) d decided differs fine =
      let limit = options.event_retention_per_session in
      let id = w.start.session_id in
      let (checked, saved, appended) =
        save_mcp_review-none persist options platform w (some e) d fine in
      let passed_event =
        validate_mcp_transition-event platform (lookup id d.mcp_reviews) w e checked.valid in
      let own = check_event-session w e passed_event in
      record {
        decision = e;
        given = refl;
        names = check_event-RecordsDecision w w.outcome e refl passed_event;
        hashed = checked.hash;
        logged = ap (λ x. lookup id x.events) saved ∙ save_change-events limit w e d own appended;
        stored =
            ap (λ x. lookup id x.mcp_reviews) saved
            ∙ ap (lookup id) (save_change-reviews limit w (some e) d)
            ∙ lookup-insert_self id w d.mcp_reviews;
      }
