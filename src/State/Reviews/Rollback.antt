-- ===== src/State/Reviews/Rollback.antt =====
-- What a call of saveMcpReview or clearMcpReview leaves when it throws.
use harness_control_protocol.Base.{
  String, ◌≡◌, ◌≢◌, refl, true, false, Bool, Option, none, some, List, ◌==◌, arith, string_eq,
  length, Option-cases, Result-cases, Bool-cases, inl, inr, option_eq,
}
use harness_control_protocol.Base.Dict.{Dict, lookup, lookup-insert, lookup-erase}
use harness_control_protocol.Protocol.Event.{Event}
use harness_control_protocol.State.{StateData, Options, restore, restore_exited}
use harness_control_protocol.State.Queries.{has_session_exit, is_true}
use harness_control_protocol.State.Review.{McpReview, Platform}
use harness_control_protocol.State.Reviews.{
  ReviewFailure, check_review, save_change, clear_change, undo_change, persist_mcp_change,
  save_mcp_review, clear_mcp_review, ReviewOp, save, clear, apply_call,
}
use harness_control_protocol.State.Reviews.SameBut.{
  SameBut, clear_change-SameBut, save_change-SameBut,
}

-- What the store shows of the store is as it was.
pub record Unchanged (d d' : StateData) : Type 0 where
  pub reviews : (j : String) → lookup j d'.mcp_reviews ≡ lookup j d.mcp_reviews
  pub events : (j : String) → lookup j d'.events ≡ lookup j d.events
  pub exits : (j : String) → has_session_exit j d' ≡ has_session_exit j d
  pub commands : d'.command_receipts ≡ d.command_receipts
  pub actions : d'.local_action_receipts ≡ d.local_action_receipts
  pub work : d'.native_work ≡ d.native_work

Unchanged-refl : (d : StateData) → Unchanged d d
Unchanged-refl d = record {
  reviews = λ j. refl;
  events = λ j. refl;
  exits = λ j. refl;
  commands = refl;
  actions = refl;
  work = refl;
}

-- The assignments of the catch block put one key back.
lookup-restore {ℓ} :
    {V : Type ℓ} (id j : String) (old new : Dict String V)
    → (j ≢ id → lookup j new ≡ lookup j old)
    → lookup j (restore id (lookup id old) new) ≡ lookup j old
unfolding restore
lookup-restore id j old new others = elim (string_eq.dec j id) [
  | yes same ↦ elim (Option-cases (lookup id old)) [
    | inl fresh ↦ ground (arith, same, fresh, lookup-erase j id new)
    | inr (v, there) ↦ ground (arith, same, there, lookup-insert j id v new)
  ]
  | no other ↦ elim (Option-cases (lookup id old)) [
    | inl fresh ↦ ground (arith, other, fresh, others other, lookup-erase j id new)
    | inr (v, there) ↦ ground (arith, other, there, others other, lookup-insert j id v new)
  ]
]

is_true-restore_exited :
    (id j : String) (old new : Dict String Bool)
    → (j ≢ id → lookup j new ≡ lookup j old)
    → is_true (lookup j (restore_exited id (lookup id old) new)) ≡ is_true (lookup j old)
unfolding restore_exited is_true
is_true-restore_exited id j old new others = elim (string_eq.dec j id) [
  | yes same ↦ elim (Option-cases (lookup id old)) [
    | inl fresh ↦ ground (arith, same, fresh, lookup-erase j id new)
    | inr (true, there) ↦ ground (arith, same, there, lookup-insert j id true new)
    | inr (false, there) ↦ ground (arith, same, there, lookup-erase j id new)
  ]
  | no other ↦ elim (Option-cases (lookup id old)) [
    | inl fresh ↦ ground (arith, other, fresh, others other, lookup-erase j id new)
    | inr (true, there) ↦ ground (arith, other, there, others other, lookup-insert j id true new)
    | inr (false, there) ↦ ground (arith, other, there, others other, lookup-erase j id new)
  ]
]

undo_change-Unchanged :
    (id : String) (d d' : StateData) → SameBut id d d' → Unchanged d (undo_change id d d')
unfolding undo_change has_session_exit
undo_change-Unchanged id d d' h = record {
  reviews = λ j. lookup-restore id j d.mcp_reviews d'.mcp_reviews (h.reviews j);
  events = λ j. lookup-restore id j d.events d'.events (h.events j);
  exits = λ j. is_true-restore_exited id j d.exited_sessions d'.exited_sessions (h.exits j);
  commands = h.commands;
  actions = h.actions;
  work = h.work;
}

module _ (persist : StateData → Option String) (options : Options) where
  persist_mcp_change-Unchanged :
      (id : String) (changed : StateData × Option ReviewFailure) (d : StateData)
      → SameBut id d changed.0
      → (persist_mcp_change persist options id changed d).1 ≢ none
      → Unchanged d (persist_mcp_change persist options id changed d).0
  unfolding persist_mcp_change
  persist_mcp_change-Unchanged id (d', some failure) d h thrown = undo_change-Unchanged id d d' h
  persist_mcp_change-Unchanged id (d', none) d h thrown = elim (Option-cases (persist d')) [
    | inl saved ↦ absurd (ground (arith, saved))
    | inr (m, lost) ↦ rw (lost, persist_mcp_change) (undo_change-Unchanged id d d' h)
  ]

  save_mcp_review-Unchanged :
      (platform : Platform) (w : McpReview) (event : Option Event) (d : StateData)
      → (save_mcp_review persist options platform w event d).1 ≢ none
      → Unchanged d (save_mcp_review persist options platform w event d).0
  unfolding save_mcp_review
  save_mcp_review-Unchanged platform w event d thrown =
      let previous = lookup w.start.session_id d.mcp_reviews in
      let count = length d.mcp_reviews in
      elim (Result-cases (check_review platform previous count w event)) [
        | inl (m, bad) ↦ rw (bad, save_mcp_review) (Unchanged-refl d)
        | inr (u, good) ↦
            rw (good, save_mcp_review)
              (persist_mcp_change-Unchanged w.start.session_id
                (save_change options.event_retention_per_session w event d) d
                (save_change-SameBut options.event_retention_per_session platform previous count w
                  event d good)
                (rw (good, save_mcp_review) at thrown))
      ]

  clear_mcp_review-Unchanged :
      (id request_id : String) (events : List Event) (d : StateData)
      → (clear_mcp_review persist options id request_id events d).1 ≢ none
      → Unchanged d (clear_mcp_review persist options id request_id events d).0
  unfolding clear_mcp_review
  clear_mcp_review-Unchanged id request_id events d thrown =
      let limit = options.event_retention_per_session in
      elim (Option-cases (lookup id d.mcp_reviews)) [
        | inl absent ↦ rw (absent, clear_mcp_review) (Unchanged-refl d)
        | inr (w, there) ↦ elim (Bool-cases (w.request_id == request_id)) [
          | inl same ↦
              rw (there, same, clear_mcp_review)
                (persist_mcp_change-Unchanged id (clear_change limit id events d) d
                  (clear_change-SameBut limit id events d)
                  (rw (there, same, clear_mcp_review) at thrown))
          | inr other ↦ rw (there, other, clear_mcp_review) (Unchanged-refl d)
        ]
      ]

  -- A call of saveMcpReview or clearMcpReview that throws, for whatever reason, leaves the reviews,
  -- the events and the exit marks of every session, the receipts and the native work as they were.
  pub apply_call-Unchanged :
      (op : ReviewOp) (d : StateData)
      → (apply_call persist options op d).1 ≢ none
      → Unchanged d (apply_call persist options op d).0
  unfolding apply_call
  apply_call-Unchanged (save platform w event) d thrown =
      save_mcp_review-Unchanged platform w event d thrown
  apply_call-Unchanged (clear id request_id events) d thrown =
      clear_mcp_review-Unchanged id request_id events d thrown
