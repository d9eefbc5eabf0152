-- ===== src/State/Review/Transition/Order.antt =====
-- The order of a review's phases, which no accepted transition goes back in.
use harness_control_protocol.Base.{
  ℕ, ◌+◌, ◌*◌, ◌≤◌, ◌<◌, String, ◌≡◌, Bool, true, false, not, ◌&&◌, Option, none, some, string_eq,
  nat_eq, option_eq, arith, Result, ok, err, ◌>>=◌, if◌then◌else◌, ◌⊎◌, inl, inr, refl, >>-eq-ok,
  and_left, Result-cases,
}
use harness_control_protocol.Protocol.Event.{Event}
use harness_control_protocol.State.Work.{is_some}
use harness_control_protocol.State.Review.{
  PendingInput, InputReply, InputRound, HashedAction, ReviewOutcome, waiting, dispatching, declined,
  input_waiting, input_resuming, review_waiting, review_resuming, expiry_resuming, expiry_completed,
  completed, McpReview, Platform,
}
use harness_control_protocol.State.Review.Schema.{outcome_ok, round_ok, hashed_ok}
use harness_control_protocol.State.Review.Checks.{ends_wait, same_turn_of_input}
use harness_control_protocol.State.Review.Same.{same_binding, same_outcome, same_round}
use harness_control_protocol.State.Review.Transition.{
  from_waiting, from_dispatching, from_resuming, from_expiry, from_input, from_review, advances,
  asks_first, asks_next, must_advance, check_change, validate_mcp_transition,
}

unfoldable pub rank : ReviewOutcome → ℕ
rank waiting = 0
rank (dispatching actor) = 1
rank (declined actor) = 20
rank (input_waiting r pending) = 2 * r.protocol_round
rank (review_waiting r a pending) = 2 * r.protocol_round
rank (input_resuming r reply actor) = 2 * r.protocol_round + 1
rank (review_resuming r a reply actor decision) = 2 * r.protocol_round + 1
rank (expiry_resuming r reply) = 2 * r.protocol_round + 1
rank (expiry_completed result) = 20
rank (completed actor result) = 20

from_waiting-rank : (o : ReviewOutcome) → from_waiting o ≡ true → 0 < rank o
unfolding from_waiting rank
from_waiting-rank o h = ground arith

from_dispatching-rank :
    (actor : String) (o : ReviewOutcome) (e : Bool) → from_dispatching actor o e ≡ true → 1 < rank o
unfolding from_dispatching rank asks_first
from_dispatching-rank actor o e h = ground arith

from_resuming-rank :
    (r : InputRound) (actor : String) (o : ReviewOutcome) (e : Bool)
    → 2 * r.protocol_round + 1 ≤ 20
    → from_resuming r actor o e ≡ true
    → 2 * r.protocol_round + 1 < rank o
unfolding from_resuming rank asks_next
from_resuming-rank r actor o e small h = ground arith

from_expiry-rank :
    (r : InputRound) (o : ReviewOutcome) (e : Bool)
    → 2 * r.protocol_round + 1 ≤ 20
    → from_expiry o e ≡ true
    → 2 * r.protocol_round + 1 < rank o
unfolding from_expiry rank
from_expiry-rank r o e small h = ground arith

round_ok-le :
    (platform : Platform) (r : InputRound) → round_ok platform r ≡ true → r.protocol_round ≤ 9
unfolding round_ok
round_ok-le platform r h = ground arith

module _ (platform : Platform) (expires_at : String) where
  ends_wait-round :
      (old now : InputRound) (pending : PendingInput) (reply : InputReply) (e : Bool)
      → ends_wait platform expires_at old pending now reply e ≡ ok true
      → now.protocol_round ≡ old.protocol_round
  unfolding ends_wait same_turn_of_input
  ends_wait-round old now pending reply e h = ground arith

  from_input-rank :
      (r : InputRound) (pending : PendingInput) (o : ReviewOutcome) (e : Bool)
      → from_input platform expires_at r pending o e ≡ ok true
      → 2 * r.protocol_round < rank o
  unfolding from_input rank same_turn_of_input
  from_input-rank r pending (expiry_resuming s reply) e h =
      ground (arith, ends_wait-round r s pending reply e h)
  from_input-rank r pending o e h = ground arith

  from_review-rank :
      (r : InputRound) (a : HashedAction) (pending : PendingInput) (o : ReviewOutcome) (e : Bool)
      → from_review platform expires_at r a pending o e ≡ ok true
      → 2 * r.protocol_round < rank o
  unfolding from_review rank same_turn_of_input
  from_review-rank r a pending (expiry_resuming s reply) e h =
      ground (arith, ends_wait-round r s pending reply e h)
  from_review-rank r a pending o e h = ground arith

  -- An accepted transition to another outcome goes forward.
  pub advances-rank :
      (old next : ReviewOutcome) (e : Bool)
      → rank old ≤ 20
      → advances platform expires_at old next e ≡ ok true
      → rank old < rank next
  unfolding advances rank
  advances-rank waiting next e fine h = from_waiting-rank next (ground arith)
  advances-rank (dispatching actor) next e fine h =
      from_dispatching-rank actor next e (ground arith)
  advances-rank (declined actor) next e fine h = absurd (ground arith)
  advances-rank (input_waiting r pending) next e fine h = from_input-rank r pending next e h
  advances-rank (review_waiting r a pending) next e fine h = from_review-rank r a pending next e h
  advances-rank (input_resuming r reply actor) next e fine h =
      from_resuming-rank r actor next e fine (ground arith)
  advances-rank (review_resuming r a reply actor decision) next e fine h =
      from_resuming-rank r actor next e fine (ground arith)
  advances-rank (expiry_resuming r reply) next e fine h =
      from_expiry-rank r next e fine (ground arith)
  advances-rank (expiry_completed result) next e fine h = absurd (ground arith)
  advances-rank (completed actor result) next e fine h = absurd (ground arith)

module _ (platform : Platform) where
  round_of-le :
      (r : InputRound) (b : Bool) → (round_ok platform r && b) ≡ true → r.protocol_round ≤ 9
  round_of-le r b h = round_ok-le platform r (ground arith)

  pub outcome_ok-rank : (o : ReviewOutcome) → outcome_ok platform o ≡ true → rank o ≤ 20
  unfolding rank outcome_ok
  outcome_ok-rank waiting fine = omega arith
  outcome_ok-rank (dispatching actor) fine = omega arith
  outcome_ok-rank (declined actor) fine = omega arith
  outcome_ok-rank (input_waiting r pending) fine =
      let h = round_ok-le platform r fine in omega arith
  outcome_ok-rank (review_waiting r a pending) fine = let h = round_of-le r _ fine in omega arith
  outcome_ok-rank (input_resuming r reply actor) fine = let h = round_of-le r _ fine in omega arith
  outcome_ok-rank (review_resuming r a reply actor decision) fine =
      let h = round_of-le r (hashed_ok platform a) (and_left _ _ fine) in omega arith
  outcome_ok-rank (expiry_resuming r reply) fine =
      let h = round_ok-le platform r fine in omega arith
  outcome_ok-rank (expiry_completed result) fine = omega arith
  outcome_ok-rank (completed actor result) fine = omega arith

pub same_outcome-rank : (a b : ReviewOutcome) → same_outcome a b ≡ true → rank a ≡ rank b
unfolding same_outcome rank same_round
same_outcome-rank a b h = ground arith

-- What an accepted transition keeps of the review that is stored, and where it leads.
pub record Follows (p w : McpReview) (event : Option Event) : Type 0 where
  pub binding : same_binding p w ≡ true
  pub change :
      ((same_outcome p.outcome w.outcome ≡ true) × (event ≡ none))
      ⊎ (rank p.outcome < rank w.outcome)

check_change-binding :
    (platform : Platform) (p w : McpReview) (event : Option Event) (b : Bool)
    → check_change platform (some p) w event ≡ ok b
    → same_binding p w ≡ true
unfolding check_change
check_change-binding platform p w event b h = ground arith

-- The review is the same, or the tests of its phases pass.
same_or_advanced :
    (same : Bool) (event : Option Event) (tests : Result String Bool) (b : Bool)
    → (if same && not (is_some event) then ok true else (tests >>= must_advance)) ≡ ok b
    → ((same ≡ true) × (event ≡ none)) ⊎ (tests ≡ ok true)
unfolding must_advance is_some
same_or_advanced true none tests b h = inl (refl, refl)
same_or_advanced true (some e) (ok true) b h = inr refl
same_or_advanced true (some e) (ok false) b h = absurd (ground arith)
same_or_advanced true (some e) (err m) b h = absurd (ground arith)
same_or_advanced false event (ok true) b h = inr refl
same_or_advanced false event (ok false) b h = absurd (ground arith)
same_or_advanced false event (err m) b h = absurd (ground arith)

pub check_change-advances :
    (platform : Platform) (p w : McpReview) (event : Option Event) (b : Bool)
    → check_change platform (some p) w event ≡ ok b
    → ((same_outcome p.outcome w.outcome ≡ true) × (event ≡ none))
      ⊎ (advances platform p.expires_at p.outcome w.outcome (is_some event) ≡ ok true)
unfolding check_change
check_change-advances platform p w event b h =
    same_or_advanced (same_outcome p.outcome w.outcome) event
      (advances platform p.expires_at p.outcome w.outcome (is_some event)) b (>>-eq-ok _ _ h).1

check_change-Follows :
    (platform : Platform) (p w : McpReview) (event : Option Event) (b : Bool)
    → rank p.outcome ≤ 20
    → check_change platform (some p) w event ≡ ok b
    → Follows p w event
check_change-Follows platform p w event b fine h = record {
  binding = check_change-binding platform p w event b h;
  change = elim (check_change-advances platform p w event b h) [
    | inl same ↦ inl same
    | inr good ↦
        inr (advances-rank platform p.expires_at p.outcome w.outcome (is_some event) fine good)
  ];
}

pub validate_mcp_transition-Follows :
    (platform : Platform) (p w : McpReview) (event : Option Event)
    → rank p.outcome ≤ 20
    → validate_mcp_transition platform (some p) w event ≡ ok tt
    → Follows p w event
unfolding validate_mcp_transition
validate_mcp_transition-Follows platform p w event fine h =
    elim (Result-cases (check_change platform (some p) w event)) [
      | inl (m, bad) ↦ absurd (ground (arith, bad))
      | inr (b, good) ↦ check_change-Follows platform p w event b fine good
    ]
