-- ===== src/Connection/Commands.antt =====
-- packages/hcp-runner/src/connection/runner-connection.ts: #handleCommand and #sendParseNack. The code
-- before a handler's await is receive_command, the code after it is finish_command.
use harness_control_protocol.Base.{
  String, true, false, not, Option, none, some, List, [], ◌∷◌, ◌++◌, ◌==◌, if◌then◌else◌, string_eq,
  select, Result, ok, err,
}
use harness_control_protocol.Base.Dict.{lookup, insert}
use harness_control_protocol.Protocol.Command.{HcpError}
use harness_control_protocol.State.{StateData, Options, CommandOutcome, ack, nack, CommandReceipt}
use harness_control_protocol.State.Receipts.{get_command_receipt, set_command_receipt}
use harness_control_protocol.Connection.{
  nack_message, Clock, SettledCommand, CommandRecord, pending, settled, Connection, send, send_each,
  send_events, answer_messages, HandlerError, plain_error, to_hcp_error, create_nack_payload,
  mismatch_error, Execution, Reception, thrown, answered, waits, must_run, existing_record, hash_of,
}

-- A repeated command is answered with what it settled with; one of another payload is refused.
unfoldable pub answer_record :
    String → String → String → CommandRecord → Connection → Connection × Reception
answer_record id hash at r c =
    if hash_of r == hash
    then elim r [
      | pending _ ↦ (record c { waiting = c.waiting ++ id ∷ [] }, waits)
      | settled s ↦
          let (c', failed) = send_each (answer_messages id at true s.outcome) c in
          (c', answered failed)
    ]
    else let (c', failed) = send (nack_message (create_nack_payload id at (mismatch_error id))) c in
      (c', answered failed)

-- The continuations of the repeated messages, once the command's completion has resolved.
unfoldable pub resume_each :
    String → String → CommandOutcome → List String → Connection → Connection
resume_each id at outcome [] c = c
resume_each id at outcome (w ∷ ws) c =
    let (c', failed) = send_each (answer_messages id at true outcome) c in
    resume_each id at outcome ws (if w == id then c' else c)

unfoldable pub resume_waiting : String → String → CommandOutcome → Connection → Connection
unfolding resume_each
resume_waiting id at outcome c =
    resume_each id at outcome c.waiting
      (record c { waiting = select (λ w. not (w == id)) c.waiting })

module _ (persist : StateData → Option String) (options : Options) where
  unfoldable pub receive_command : String → String → Clock → Connection → Connection × Reception
  unfolding answer_record
  receive_command id hash clock c =
      let (store, failed, receipt) = get_command_receipt persist options id clock.ms c.store in
      let c' = record c { store = store } in
      elim failed [
        | some message ↦ (c', thrown message)
        | none ↦ elim (existing_record (lookup id c.command_records) receipt) [
          | none ↦
              (record c' { command_records = insert id (pending hash) c.command_records }, must_run)
          | some r ↦ answer_record id hash clock.iso r c'
        ]
      ]

  -- The record and the receipt of a settled command; the receipt may throw.
  unfoldable pub settle : String → SettledCommand → Clock → Connection → Connection × Option String
  settle id s clock c =
      let receipt : CommandReceipt = record {
        payload_hash = s.payload_hash;
        outcome = s.outcome;
        settled_at = clock.ms;
      } in
      let (store, failed) = set_command_receipt persist options id receipt clock.ms c.store in
      (
        record c { command_records = insert id (settled s) c.command_records; store = store },
        failed,
      )

  -- The catch block; `resolved` is what the completion has resolved with before, if it has.
  unfoldable pub fail_command :
      String → String → Clock → HcpError → Option CommandOutcome → Connection → Connection
  unfolding settle resume_waiting
  fail_command id hash clock error resolved c =
      let payload = create_nack_payload id clock.iso error in
      let (c', failed) =
        settle id (record { payload_hash = hash; outcome = nack payload }) clock c in
      elim failed [
        | some message ↦ elim resolved [
          | none ↦ c'
          | some outcome ↦ resume_waiting id clock.iso outcome c'
        ]
        | none ↦
            let (c'', _) = send (nack_message payload) c' in
            elim resolved [
              | none ↦ resume_waiting id clock.iso (nack payload) c''
              | some outcome ↦ resume_waiting id clock.iso outcome c''
            ]
      ]

  unfoldable pub succeed_command : String → String → Clock → Execution → Connection → Connection
  unfolding settle resume_waiting fail_command
  succeed_command id hash clock x c =
      let outcome = ack x.snapshot x.conversation in
      let (c', failed) = settle id (record { payload_hash = hash; outcome = outcome }) clock c in
      elim failed [
        | some message ↦ fail_command id hash clock (to_hcp_error (plain_error message)) none c'
        | none ↦
            let (c'', failed') = send_each (answer_messages id clock.iso false outcome) c' in
            elim failed' [
              | some message ↦
                  fail_command id hash clock (to_hcp_error (plain_error message)) (some outcome) c''
              | none ↦ resume_waiting id clock.iso outcome (send_events x.events c'')
            ]
      ]

  unfoldable pub finish_command :
      String → String → Clock → Result HandlerError Execution → Connection → Connection
  unfolding succeed_command fail_command
  finish_command id hash clock (ok x) c = succeed_command id hash clock x c
  finish_command id hash clock (err e) c = fail_command id hash clock (to_hcp_error e) none c

  -- #sendParseNack, for a message that is not valid: its id is "unknown" and it has no hash where
  -- it is no envelope. A message that throws here is only logged.
  unfoldable pub send_parse_nack : String → Option String → String → Clock → Connection → Connection
  unfolding settle
  send_parse_nack id hash message clock c =
      let payload =
        create_nack_payload id clock.iso
          (record { code = "invalid_message"; message = message; retryable = false }) in
      elim hash [
        | none ↦ (send (nack_message payload) c).0
        | some h ↦
            let (c', failed) =
              settle id (record { payload_hash = h; outcome = nack payload }) clock c in
            elim failed [ some _ ↦ c' | none ↦ (send (nack_message payload) c').0 ]
      ]
