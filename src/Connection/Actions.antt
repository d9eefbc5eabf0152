-- ===== src/Connection/Actions.antt =====
-- packages/hcp-runner/src/connection/runner-connection.ts: #handleLocalAction. The code before the
-- dispatcher's await is receive_action, the code after it is finish_action; what the dispatcher gives is
-- an argument.
pub mod Once
pub mod Answers
mod Tests
use harness_control_protocol.Base.{
  ℕ, String, ◌<>◌, Bool, true, false, not, Option, none, some, List, [], ◌∷◌, ◌++◌, ◌==◌,
  if◌then◌else◌, string_eq, select,
}
use harness_control_protocol.Base.Dict.{Dict, lookup, insert}
use harness_control_protocol.Protocol.Json.{Json}
use harness_control_protocol.Protocol.Event.{Event}
use harness_control_protocol.State.{StateData, Options, ActionOutcome, LocalActionReceipt}
use harness_control_protocol.State.Receipts.{get_local_action_receipt, set_local_action_receipt}
use harness_control_protocol.Connection.{
  local_action_message, Clock, Connection, send, send_events, Reception, thrown, answered, waits,
  must_run,
}
use harness_control_protocol.Connection.Runs.{Step, apply_step}

-- LocalActionRecord, without the request's payload.
pub data ActionRecord : Type 0 where
  pending_action : String → ActionRecord
  settled_action : String → ActionOutcome → ActionRecord

-- The connection with its records of local actions. `waiting` has the request of each repeated message
-- that awaits a completion.
pub record Actions : Type 0 where
  pub connection : Connection
  pub records : Dict String ActionRecord
  pub mismatch_records : Dict String ActionOutcome
  pub waiting : List String

-- LocalActionDispatchOutcome
pub record Dispatched : Type 0 where
  pub outcome : ActionOutcome
  pub events : List Event

-- #sendLocalActionRecord
unfoldable pub send_record : ActionOutcome → Actions → Actions × Option String
send_record o a =
    let (c, failed) = send (local_action_message o) a.connection in
    (record a { connection = c }, failed)

abbrev pub action_hash : ActionRecord → String
action_hash (pending_action hash) = hash
action_hash (settled_action hash o) = hash

-- localActionRecordFromReceipt, where there is no record in memory.
abbrev pub existing_action : Option ActionRecord → Option LocalActionReceipt → Option ActionRecord
existing_action (some r) receipt = some r
existing_action none none = none
existing_action none (some r) = some (settled_action r.payload_hash r.outcome)

unfoldable pub answer_mismatch :
    String → Dispatched → Option ActionOutcome → Actions → Actions × Option String
unfolding send_record
answer_mismatch key mismatch (some o) a = send_record o a
answer_mismatch key mismatch none a = send_record mismatch.outcome (record a {
  mismatch_records = insert key mismatch.outcome a.mismatch_records;
  connection = send_events mismatch.events a.connection;
})

-- A repeated request is answered with what it settled with; one of another payload gets the mismatch
-- that was kept for the payload, or else a new one of the dispatcher.
unfoldable pub answer_action :
    String → String → Dispatched → ActionRecord → Actions → Actions × Reception
unfolding send_record answer_mismatch
answer_action id hash mismatch r a =
    if action_hash r == hash
    then elim r [
      | pending_action _ ↦ (record a { waiting = a.waiting ++ id ∷ [] }, waits)
      | settled_action _ o ↦ let (a', failed) = send_record o a in (a', answered failed)
    ]
    else let key = id <> ":" <> hash in
      let (a', failed) = answer_mismatch key mismatch (lookup key a.mismatch_records) a in
      (a', answered failed)

-- The continuations of the repeated requests.
unfoldable pub resume_actions : String → ActionOutcome → List String → Actions → Actions
unfolding send_record
resume_actions id o [] a = a
resume_actions id o (w ∷ ws) a = resume_actions id o ws (if w == id then (send_record o a).0 else a)

-- The answers after the receipt was written.
unfoldable pub answer_finished : String → Dispatched → Actions → Actions
unfolding send_record resume_actions
answer_finished id d a =
    let sent = record a {
      connection = send_events d.events a.connection;
      waiting = select (λ w. not (w == id)) a.waiting;
    } in
    resume_actions id d.outcome a.waiting (send_record d.outcome sent).0

pub data ActionStep : Type 0 where
  receive_request : String → String → Clock → Dispatched → ActionStep
  finish_request : String → String → Json → Clock → Dispatched → ActionStep
  connection_step : Step → ActionStep

unfoldable pub action_receipt : String → Json → Clock → Dispatched → LocalActionReceipt
action_receipt hash request clock d = record {
  payload_hash = hash;
  request_payload = request;
  outcome = d.outcome;
  settled_at = clock.ms;
}

module _ (persist : StateData → Option String) (options : Options) where
  unfoldable pub receive_action :
      String → String → Clock → Dispatched → Actions → Actions × Reception
  unfolding answer_action
  receive_action id hash clock mismatch a =
      let (store, failed, receipt) =
        get_local_action_receipt persist options id clock.ms a.connection.store in
      let a' = record a { connection = record (a.connection) { store = store } } in
      elim failed [
        | some message ↦ (a', thrown message)
        | none ↦ elim (existing_action (lookup id a.records) receipt) [
          | none ↦ (record a' { records = insert id (pending_action hash) a.records }, must_run)
          | some r ↦ answer_action id hash mismatch r a'
        ]
      ]

  -- What the dispatcher gave; where the receipt is not written, nothing is answered.
  unfoldable pub finish_action : String → String → Json → Clock → Dispatched → Actions → Actions
  unfolding answer_finished action_receipt
  finish_action id hash request clock d a =
      let receipt = action_receipt hash request clock d in
      let (store, failed) =
        set_local_action_receipt persist options id receipt clock.ms a.connection.store in
      let a' = record a {
        records = insert id (settled_action hash d.outcome) a.records;
        connection = record (a.connection) { store = store };
      } in
      elim failed [ some message ↦ a' | none ↦ answer_finished id d a' ]

  unfoldable pub apply_action_step : ActionStep → Actions → Actions
  apply_action_step (receive_request id hash clock mismatch) a =
      (receive_action id hash clock mismatch a).0
  apply_action_step (finish_request id hash request clock d) a =
      finish_action id hash request clock d a
  apply_action_step (connection_step s) a = record a {
    connection = apply_step persist options s a.connection;
  }
