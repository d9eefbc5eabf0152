-- ===== src/State/Review/Transition/Events.antt =====
-- The event of an accepted transition passes the checks of its phase.
use harness_control_protocol.Base.{
  ◌≡◌, String, Bool, true, false, ◌&&◌, Option, none, some, arith, Result, ok, err, ◌>>=◌, >>-eq-ok,
  >>=-eq-ok, if◌then◌else◌, string_eq,
}
use harness_control_protocol.Protocol.Event.{Event}
use harness_control_protocol.State.Work.{is_some}
use harness_control_protocol.State.Review.{McpReview, Platform}
use harness_control_protocol.State.Review.Same.{same_outcome}
use harness_control_protocol.State.Review.Checks.{check_attribution, check_delegated}
use harness_control_protocol.State.Review.Transition.{
  check_change, check_event, check_decision, event_names, must_advance, advances,
  validate_mcp_transition,
}

-- With an event, the change does not return early.
not_settled :
    (same : Bool) (tests : Result String Bool) (b : Bool)
    → (if same && false then ok true else (tests >>= must_advance)) ≡ ok b
    → b ≡ false
unfolding must_advance
not_settled true (ok true) b h = ground arith
not_settled true (ok false) b h = absurd (ground arith)
not_settled true (err m) b h = absurd (ground arith)
not_settled false (ok true) b h = ground arith
not_settled false (ok false) b h = absurd (ground arith)
not_settled false (err m) b h = absurd (ground arith)

check_change_goes_on :
    (platform : Platform) (previous : Option McpReview) (w : McpReview) (e : Event) (b : Bool)
    → check_change platform previous w (some e) ≡ ok b
    → b ≡ false
unfolding check_change is_some
check_change_goes_on platform none w e b h = ground arith
check_change_goes_on platform (some p) w e b h =
    not_settled (same_outcome p.outcome w.outcome)
      (advances platform p.expires_at p.outcome w.outcome true) b (>>-eq-ok _ _ h).1

pub validate_mcp_transition-event :
    (platform : Platform) (previous : Option McpReview) (w : McpReview) (e : Event)
    → validate_mcp_transition platform previous w (some e) ≡ ok tt
    → check_event w e ≡ ok tt
unfolding validate_mcp_transition
validate_mcp_transition-event platform previous w e h =
    let (b, changed, last) =
      >>=-eq-ok (check_change platform previous w (some e))
        (λ settled. if settled then ok tt else check_event w e)
        (>>-eq-ok (check_delegated platform w) _
          (>>-eq-ok (check_attribution w (some e)) _ h).1).1 in
    let goes_on = check_change_goes_on platform previous w e b changed in
    ground (arith, goes_on, last)

-- The event is the session's own.
pub check_event-session :
    (w : McpReview) (e : Event) → check_event w e ≡ ok tt → e.session_id ≡ w.start.session_id
unfolding check_event check_decision event_names
check_event-session w e h = ground arith
