-- ===== src/State/Reviews/Checked.antt =====
-- What saveMcpReview has checked when it starts to change the store.
use harness_control_protocol.Base.{
  ℕ, ◌<◌, String, ◌≡◌, ◌⊎◌, Bool, true, false, not, ◌&&◌, Option, none, some, leb, ◌==◌, arith,
  string_eq, ok, >>-eq-ok, throw_if, passed, inl, inr,
}
use harness_control_protocol.Protocol.Event.{Event}
use harness_control_protocol.State.Work.{is_some}
use harness_control_protocol.State.Review.{McpReview, Platform}
use harness_control_protocol.State.Review.Schema.{review_ok}
use harness_control_protocol.State.Review.Transition.{validate_mcp_transition}
use harness_control_protocol.State.Reviews.{check_review, replaces_request}

pub record Checked (platform : Platform) (previous : Option McpReview) (count : ℕ) (w : McpReview)
    (event : Option Event) : Type 0 where
  pub fits : review_ok platform w ≡ true
  pub room : (is_some previous ≡ true) ⊎ (count < 16)
  pub hash : platform.sha256 w.action.action_json ≡ w.action.action_hash
  pub valid : validate_mcp_transition platform previous w event ≡ ok tt

not_thrown : (b : Bool) (m : String) → throw_if b m ≡ ok tt → b ≡ false
not_thrown b m h = ground arith

are_equal : (a b : String) → (a == b) ≡ true → a ≡ b
are_equal a b h = ground arith

has_room :
    (previous : Option McpReview) (count : ℕ)
    → (not (is_some previous) && leb 16 count) ≡ false
    → (is_some previous ≡ true) ⊎ (count < 16)
unfolding is_some
has_room none count h = inr (ground arith)
has_room (some p) count h = inl (ground arith)

pub check_review-Checked :
    (platform : Platform) (previous : Option McpReview) (count : ℕ) (w : McpReview)
    (event : Option Event)
    → check_review platform previous count w event ≡ ok tt
    → Checked platform previous count w event
unfolding check_review
check_review-Checked platform previous count w event h =
    let full = not (is_some previous) && leb 16 count in
    let hashed = platform.sha256 w.action.action_json == w.action.action_hash in
    let (fits, more) = >>-eq-ok (throw_if (not (review_ok platform w)) "Invalid value.") _ h in
    let (room, rest) =
      >>-eq-ok (throw_if full "Pending MCP continuation capacity exceeded.") _ more in
    let (same, last) =
      >>-eq-ok
        (throw_if (replaces_request previous w) "A pending MCP continuation cannot be replaced.") _
        rest in
    let (hash, valid) = >>-eq-ok (throw_if (not hashed) "MCP review action hash changed.") _ last in
    record {
      fits = passed (review_ok platform w) "Invalid value." fits;
      room = has_room previous count (not_thrown full _ room);
      hash =
          are_equal (platform.sha256 w.action.action_json) w.action.action_hash
            (passed hashed _ hash);
      valid = valid;
    }
