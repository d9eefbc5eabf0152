-- ===== src/State/Reviews.antt =====
-- packages/hcp-runner/src/state/index.ts: getMcpReview, pendingMcpReviews, saveMcpReview and
-- clearMcpReview. The schema of an event is not modelled: the events of the model pass it.
pub mod Checked
pub mod SameBut
pub mod Rollback
pub mod Runs
pub mod Recorded
mod Tests
use harness_control_protocol.Base.{
  ℕ, String, Bool, true, false, not, ◌&&◌, Option, none, some, List, [], ◌∷◌, leb, ◌==◌,
  if◌then◌else◌, string_eq, nat_eq, length, Result, ok, err, ◌>>◌, throw_if,
}
use harness_control_protocol.Base.Dict.{lookup, insert, erase, values}
use harness_control_protocol.Protocol.Event.{Event}
use harness_control_protocol.State.{
  StateData, Options, Failure, sequence_mismatch, not_persisted, append_unsaved,
  next_event_sequence, restore, restore_exited,
}
use harness_control_protocol.State.Work.{is_some}
use harness_control_protocol.State.Review.{McpReview, Platform}
use harness_control_protocol.State.Review.Schema.{review_ok}
use harness_control_protocol.State.Review.Transition.{validate_mcp_transition}

unfoldable pub get_mcp_review : String → StateData → Option McpReview
get_mcp_review id d = lookup id d.mcp_reviews

unfoldable pub pending_mcp_reviews : StateData → List McpReview
pending_mcp_reviews d = values d.mcp_reviews

pub data ReviewFailure : Type 0 where
  refused : String → ReviewFailure
  not_stored : Failure → ReviewFailure

unfoldable pub replaces_request : Option McpReview → McpReview → Bool
replaces_request none w = false
replaces_request (some p) w = not (p.request_id == w.request_id)

-- What saveMcpReview checks before it changes anything, with the number of reviews there are.
unfoldable pub check_review :
    Platform → Option McpReview → ℕ → McpReview → Option Event → Result String (Unit {0})
unfolding review_ok replaces_request validate_mcp_transition
check_review platform previous count w event = do
  throw_if (not (review_ok platform w)) "Invalid value."
  throw_if (not (is_some previous) && leb 16 count) "Pending MCP continuation capacity exceeded."
  throw_if (replaces_request previous w) "A pending MCP continuation cannot be replaced."
  throw_if (not (platform.sha256 w.action.action_json == w.action.action_hash))
      "MCP review action hash changed."
  validate_mcp_transition platform previous w event

-- #appendEvent of a change: the data, and the failure, which leaves the data.
unfoldable pub append_or_fail : ℕ → Event → StateData → StateData × Option ReviewFailure
unfolding append_unsaved next_event_sequence
append_or_fail limit e d = elim (append_unsaved limit e d) [
  | none ↦
      (d, some (not_stored (sequence_mismatch e.sequence (next_event_sequence e.session_id d))))
  | some d' ↦ (d', none)
]

unfoldable pub store_review : McpReview → StateData → StateData
store_review w d = record d { mcp_reviews = insert w.start.session_id w d.mcp_reviews }

-- The change of saveMcpReview: the review is written before its event.
unfoldable pub save_change :
    ℕ → McpReview → Option Event → StateData → StateData × Option ReviewFailure
unfolding store_review append_or_fail
save_change limit w none d = (store_review w d, none)
save_change limit w (some e) d = append_or_fail limit e (store_review w d)

unfoldable pub drop_review : String → StateData → StateData
drop_review id d = record d { mcp_reviews = erase id d.mcp_reviews }

-- The change of clearMcpReview: its loop over the events, then the deletion.
unfoldable pub clear_change : ℕ → String → List Event → StateData → StateData × Option ReviewFailure
unfolding drop_review append_or_fail
clear_change limit id [] d = (drop_review id d, none)
clear_change limit id (e ∷ es) d =
    let appended = append_or_fail limit e d in
    let rest = clear_change limit id es appended.0 in
    if not (e.session_id == id)
    then (d, some (refused "MCP cleanup event has another session binding."))
    else elim appended.1 [ none ↦ rest | some failure ↦ appended ]

-- The assignments of the catch block.
unfoldable pub undo_change : String → StateData → StateData → StateData
unfolding restore restore_exited
undo_change id d d' = record d' {
  mcp_reviews = restore id (lookup id d.mcp_reviews) d'.mcp_reviews;
  events = restore id (lookup id d.events) d'.events;
  exited_sessions = restore_exited id (lookup id d.exited_sessions) d'.exited_sessions;
}

unfoldable pub identity_changed : ReviewFailure
identity_changed = refused "MCP continuation identity changed."

module _ (persist : StateData → Option String) (options : Options) where
  -- #persistMcpChange, with what the change leaves and throws.
  unfoldable pub persist_mcp_change :
      String → StateData × Option ReviewFailure → StateData → StateData × Option ReviewFailure
  unfolding undo_change
  persist_mcp_change id (d', some failure) d = (undo_change id d d', some failure)
  persist_mcp_change id (d', none) d = elim (persist d') [
    | none ↦ (d', none)
    | some message ↦ (undo_change id d d', some (not_stored (not_persisted message)))
  ]

  -- The data after the call, and what it throws.
  unfoldable pub save_mcp_review :
      Platform → McpReview → Option Event → StateData → StateData × Option ReviewFailure
  unfolding check_review persist_mcp_change save_change
  save_mcp_review platform w event d =
      let id = w.start.session_id in
      elim (check_review platform (lookup id d.mcp_reviews) (length d.mcp_reviews) w event) [
        | err message ↦ (d, some (refused message))
        | ok _ ↦ persist_mcp_change id (save_change options.event_retention_per_session w event d) d
      ]

  unfoldable pub clear_mcp_review :
      String → String → List Event → StateData → StateData × Option ReviewFailure
  unfolding persist_mcp_change clear_change identity_changed
  clear_mcp_review id request_id events d =
      let changed =
        persist_mcp_change id (clear_change options.event_retention_per_session id events d) d in
      elim (lookup id d.mcp_reviews) [
        | none ↦ (d, some identity_changed)
        | some w ↦ if w.request_id == request_id then changed else (d, some identity_changed)
      ]

-- A call of one of the two, each at its own time.
pub data ReviewOp : Type 0 where
  save : Platform → McpReview → Option Event → ReviewOp
  clear : String → String → List Event → ReviewOp

module _ (persist : StateData → Option String) (options : Options) where
  unfoldable pub apply_call : ReviewOp → StateData → StateData × Option ReviewFailure
  unfolding save_mcp_review clear_mcp_review
  apply_call (save platform w event) d = save_mcp_review persist options platform w event d
  apply_call (clear id request_id events) d =
      clear_mcp_review persist options id request_id events d
