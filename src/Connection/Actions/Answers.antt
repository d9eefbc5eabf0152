-- ===== src/Connection/Actions/Answers.antt =====
-- What a finished local action leaves behind, and the answer of a restarted runner.
use harness_control_protocol.Base.{
  ◌+◌, ◌≤◌, String, ◌≡◌, refl, ap, ◌∙◌, Option, none, some, List, [], ◌∷◌, arith, ◌==◌,
  if◌then◌else◌, string_eq, select, not,
}
use harness_control_protocol.Base.Dict.{lookup, insert, NodupKeys}
use harness_control_protocol.Protocol.Json.{Json}
use harness_control_protocol.Protocol.Event.{Event}
use harness_control_protocol.State.{StateData, Options, ActionOutcome}
use harness_control_protocol.State.Receipts.{
  get_local_action_receipt, set_local_action_receipt, get-set_local_action_receipt,
  get_local_action_receipt_saved,
}
use harness_control_protocol.Connection.{
  local_action_message, Clock, Connection, send, send_events, send_event_if_connected,
}
use harness_control_protocol.Connection.Receipts.{restarted}
use harness_control_protocol.Connection.Actions.{
  Actions, settled_action, Dispatched, send_record, answer_action, action_receipt, resume_actions,
  receive_action, answer_finished, finish_action,
}

send_record-store :
    (o : ActionOutcome) (a : Actions) → (send_record o a).0.connection.store ≡ a.connection.store
unfolding send_record send
send_record-store o a = ground arith

send_events-store : (es : List Event) (c : Connection) → (send_events es c).store ≡ c.store
unfolding send_events send_event_if_connected
send_events-store [] c = refl
send_events-store (e ∷ es) c = ground (arith, send_events-store es (send_event_if_connected e c))

resume_actions-store :
    (id : String) (o : ActionOutcome) (ws : List String) (a : Actions)
    → (resume_actions id o ws a).connection.store ≡ a.connection.store
unfolding resume_actions
resume_actions-store id o [] a = refl
resume_actions-store id o (w ∷ ws) a =
    let same : (if w == id then (send_record o a).0 else a).connection.store ≡ a.connection.store =
      ground (arith, send_record-store o a) in
    resume_actions-store id o ws (if w == id then (send_record o a).0 else a) ∙ same

answer_finished-store :
    (id : String) (d : Dispatched) (a : Actions)
    → (answer_finished id d a).connection.store ≡ a.connection.store
unfolding answer_finished
answer_finished-store id d a =
    let sent : Actions = record a {
      connection = send_events d.events a.connection;
      waiting = select (λ w. not (w == id)) a.waiting;
    } in
    resume_actions-store id d.outcome a.waiting (send_record d.outcome sent).0
    ∙ send_record-store d.outcome sent
    ∙ send_events-store d.events a.connection

-- A new process that opens the same store and has a new socket.
pub restarted_actions : Actions → Actions
unfolding restarted
restarted_actions a = record {
  connection = restarted a.connection;
  records = [];
  mismatch_records = [];
  waiting = [];
}

module _ (persist : StateData → Option String) (options : Options) where
  finish_action-store :
      (id hash : String) (request : Json) (clock : Clock) (d : Dispatched) (a : Actions)
      → (finish_action persist options id hash request clock d a).connection.store
        ≡ (set_local_action_receipt persist options id
            (action_receipt hash request clock d)
            clock.ms
            a.connection.store).0
  unfolding finish_action
  finish_action-store id hash request clock d a =
      let store =
        (set_local_action_receipt persist options id (action_receipt hash request clock d) clock.ms
          a.connection.store).0 in
      ground (
        arith,
        answer_finished-store id d (record a {
          records = insert id (settled_action hash d.outcome) a.records;
          connection = record (a.connection) { store = store };
        }),
      )

  -- If the data can be written and the receipts have distinct keys, a local action that finishes,
  -- with the socket open or closed, is answered from its receipt by a runner that was restarted
  -- since: the same request, received before the retention has run out, gets the outcome of the
  -- action and nothing else.
  pub finish_action-restarted :
      (id hash : String) (request : Json) (clock later : Clock) (d mismatch : Dispatched)
      (a : Actions)
      → ((d : StateData) → persist d ≡ none)
      → NodupKeys a.connection.store.local_action_receipts
      → clock.ms ≤ later.ms
      → later.ms ≤ clock.ms + options.receipt_retention_ms
      → (receive_action persist options id hash later mismatch (
          restarted_actions
            (finish_action persist options id hash request clock d a))).0.connection.sent
        ≡ local_action_message d.outcome ∷ []
  unfolding restarted_actions receive_action answer_action action_receipt lookup send_record send
  finish_action-restarted id hash request clock later d mismatch a written u le alive =
      let a' = restarted_actions (finish_action persist options id hash request clock d a) in
      let stored = finish_action-store id hash request clock d a in
      let found : (get_local_action_receipt persist options id later.ms a'.connection.store).2
          ≡ some (action_receipt hash request clock d) =
        ap (λ d. (get_local_action_receipt persist options id later.ms d).2) stored
        ∙ get-set_local_action_receipt persist options id (action_receipt hash request clock d)
            clock.ms later.ms a.connection.store u le
        ∙ ground arith in
      let saved =
        get_local_action_receipt_saved persist options id later.ms a'.connection.store written in
      ground (arith, found, saved)
