-- ===== src/State/Reviews/SameBut.antt =====
-- What the changes of saveMcpReview and clearMcpReview leave alone, also where they fail.
use harness_control_protocol.Base.{
  ℕ, String, ◌≡◌, ◌≢◌, refl, ◌∙◌, true, Option, none, some, List, [], ◌∷◌, ◌++◌, arith, string_eq,
  Option-cases, inl, inr, ok, option_eq,
}
use harness_control_protocol.Base.Dict.{lookup, lookup-insert, lookup-erase}
use harness_control_protocol.Protocol.Event.{Event}
use harness_control_protocol.State.{StateData, append_unsaved, mark_exited, events_of, shift_to}
use harness_control_protocol.State.Review.{McpReview, Platform}
use harness_control_protocol.State.Review.Transition.Events.{
  validate_mcp_transition-event, check_event-session,
}
use harness_control_protocol.State.Reviews.Checked.{check_review-Checked}
use harness_control_protocol.State.Reviews.{
  check_review, append_or_fail, store_review, save_change, drop_review, clear_change,
}

-- The two data differ at most at one session.
pub record SameBut (id : String) (d d' : StateData) : Type 0 where
  pub events : (j : String) → j ≢ id → lookup j d'.events ≡ lookup j d.events
  pub exits : (j : String) → j ≢ id → lookup j d'.exited_sessions ≡ lookup j d.exited_sessions
  pub reviews : (j : String) → j ≢ id → lookup j d'.mcp_reviews ≡ lookup j d.mcp_reviews
  pub commands : d'.command_receipts ≡ d.command_receipts
  pub actions : d'.local_action_receipts ≡ d.local_action_receipts
  pub work : d'.native_work ≡ d.native_work

SameBut-refl : (id : String) (d : StateData) → SameBut id d d
SameBut-refl id d = record {
  events = λ j other. refl;
  exits = λ j other. refl;
  reviews = λ j other. refl;
  commands = refl;
  actions = refl;
  work = refl;
}

SameBut-trans : (id : String) (a b c : StateData) → SameBut id a b → SameBut id b c → SameBut id a c
SameBut-trans id a b c h k = record {
  events = λ j other. k.events j other ∙ h.events j other;
  exits = λ j other. k.exits j other ∙ h.exits j other;
  reviews = λ j other. k.reviews j other ∙ h.reviews j other;
  commands = k.commands ∙ h.commands;
  actions = k.actions ∙ h.actions;
  work = k.work ∙ h.work;
}

append_or_fail-SameBut :
    (limit : ℕ) (id : String) (e : Event) (d : StateData)
    → e.session_id ≡ id
    → SameBut id d (append_or_fail limit e d).0
unfolding append_or_fail append_unsaved mark_exited
append_or_fail-SameBut limit id e d own =
    let kept = shift_to limit (events_of e.session_id d ++ e ∷ []) in
    record {
      events = λ j other. ground (arith, own, lookup-insert j e.session_id kept d.events);
      exits = λ j other. ground (arith, own, lookup-insert j e.session_id true d.exited_sessions);
      reviews = λ j other. ground arith;
      commands = ground arith;
      actions = ground arith;
      work = ground arith;
    }

drop_review-SameBut : (id : String) (d : StateData) → SameBut id d (drop_review id d)
unfolding drop_review
drop_review-SameBut id d = record {
  events = λ j other. refl;
  exits = λ j other. refl;
  reviews = λ j other. ground (arith, lookup-erase j id d.mcp_reviews);
  commands = refl;
  actions = refl;
  work = refl;
}

store_review-SameBut :
    (w : McpReview) (d : StateData) → SameBut w.start.session_id d (store_review w d)
unfolding store_review
store_review-SameBut w d = record {
  events = λ j other. refl;
  exits = λ j other. refl;
  reviews = λ j other. ground (arith, lookup-insert j w.start.session_id w d.mcp_reviews);
  commands = refl;
  actions = refl;
  work = refl;
}

pub clear_change-SameBut :
    (limit : ℕ) (id : String) (es : List Event) (d : StateData)
    → SameBut id d (clear_change limit id es d).0
unfolding clear_change
clear_change-SameBut limit id [] d = drop_review-SameBut id d
clear_change-SameBut limit id (e ∷ es) d = elim (string_eq.dec e.session_id id) [
  | no foreign ↦
      let same : (clear_change limit id (e ∷ es) d).0 ≡ d = ground (arith, foreign) in
      rw same (SameBut-refl id d)
  | yes own ↦
      let first = append_or_fail-SameBut limit id e d own in
      elim (Option-cases (append_or_fail limit e d).1) [
        | inr (f, bad) ↦
            let same : (clear_change limit id (e ∷ es) d).0 ≡ (append_or_fail limit e d).0 =
              ground (arith, own, bad) in
            rw same first
        | inl good ↦
            let same : (clear_change limit id (e ∷ es) d).0
                ≡ (clear_change limit id es (append_or_fail limit e d).0).0 =
              ground (arith, own, good) in
            rw same (
              SameBut-trans id d (append_or_fail limit e d).0 _ first
                (clear_change-SameBut limit id es (append_or_fail limit e d).0))
      ]
]

pub save_change-SameBut :
    (limit : ℕ) (platform : Platform) (previous : Option McpReview) (count : ℕ) (w : McpReview)
    (event : Option Event) (d : StateData)
    → check_review platform previous count w event ≡ ok tt
    → SameBut w.start.session_id d (save_change limit w event d).0
unfolding save_change
save_change-SameBut limit platform previous count w none d h = store_review-SameBut w d
save_change-SameBut limit platform previous count w (some e) d h =
    let checked = (check_review-Checked platform previous count w (some e) h).valid in
    let own =
      check_event-session w e (validate_mcp_transition-event platform previous w e checked) in
    SameBut-trans w.start.session_id d (store_review w d) _ (store_review-SameBut w d)
      (append_or_fail-SameBut limit w.start.session_id e (store_review w d) own)
