-- ===== src/Connection/Order/Steps.antt =====
-- The order of the events on a socket, through every step of a connection.
use harness_control_protocol.Base.{
  String, refl, Bool, true, false, Option, none, some, List, [], ◌∷◌, ◌++◌, ◌==◌, arith,
  if◌then◌else◌, string_eq, nat_eq, ok, err, Option-cases, inl, inr,
}
use harness_control_protocol.Base.Dict.{lookup, insert}
use harness_control_protocol.Protocol.Command.{HcpError}
use harness_control_protocol.State.{StateData, Options, CommandOutcome, ack, nack}
use harness_control_protocol.State.Receipts.{get_command_receipt}
use harness_control_protocol.Connection.{
  nack_message, Clock, SettledCommand, CommandRecord, pending, settled, Connection, send, send_each,
  send_events, answer_messages, plain_error, to_hcp_error, create_nack_payload, Execution,
  existing_record, mismatch_error,
}
use harness_control_protocol.Connection.Commands.{
  answer_record, receive_command, settle, resume_each, resume_waiting, fail_command,
  succeed_command, finish_command, send_parse_nack,
}
use harness_control_protocol.Connection.Runs.{
  Step, receive, finish, invalid, publish, opened, closed, apply_step, apply_steps,
}
use harness_control_protocol.Connection.Order.{
  event_sequences, last_or, is_event, InOrder, InOrder-same, send-InOrder, send_each-InOrder,
  answer_messages_quiet, send_event_if_connected-InOrder, send_events-InOrder,
}

resume_each-InOrder :
    (id j at : String) (o : CommandOutcome) (ws : List String) (c : Connection)
    → InOrder id c
    → InOrder id (resume_each j at o ws c)
unfolding resume_each
resume_each-InOrder id j at o [] c order = order
resume_each-InOrder id j at o (w ∷ ws) c order = resume_each-InOrder id j at o ws _ (
    if-InOrder (w == j)
      (send_each-InOrder id (answer_messages j at true o) c (answer_messages_quiet j at true o)
        order)
      order)
  where
    if-InOrder :
        (b : Bool) {x y : Connection}
        → InOrder id x
        → InOrder id y
        → InOrder id (if b then x else y)
    if-InOrder true p q = p
    if-InOrder false p q = q

resume_waiting-InOrder :
    (id j at : String) (o : CommandOutcome) (c : Connection)
    → InOrder id c
    → InOrder id (resume_waiting j at o c)
unfolding resume_waiting
resume_waiting-InOrder id j at o c order =
    resume_each-InOrder id j at o c.waiting _ (InOrder-same id c _ order refl refl)

answer_record-InOrder :
    (id j hash at : String) (r : CommandRecord) (c : Connection)
    → InOrder id c
    → InOrder id (answer_record j hash at r c).0
unfolding answer_record is_event
answer_record-InOrder id j hash at (pending h) c order = ground (
  arith,
  send-InOrder id (nack_message (create_nack_payload j at (mismatch_error j))) c refl order,
  InOrder-same id c (record c { waiting = c.waiting ++ j ∷ [] }) order refl refl,
)
answer_record-InOrder id j hash at (settled s) c order = ground (
  arith,
  send-InOrder id (nack_message (create_nack_payload j at (mismatch_error j))) c refl order,
  send_each-InOrder id (answer_messages j at true s.outcome) c
      (answer_messages_quiet j at true s.outcome) order,
)

module _ (persist : StateData → Option String) (options : Options) where
  settle-InOrder :
      (id j : String) (s : SettledCommand) (clock : Clock) (c : Connection)
      → InOrder id c
      → InOrder id (settle persist options j s clock c).0
  unfolding settle
  settle-InOrder id j s clock c order = InOrder-same id c _ order refl refl

  fail_command-InOrder :
      (id j hash : String) (clock : Clock) (e : HcpError) (resolved : Option CommandOutcome)
      (c : Connection)
      → InOrder id c
      → InOrder id (fail_command persist options j hash clock e resolved c)
  unfolding fail_command
  fail_command-InOrder id j hash clock e none c order =
      let payload = create_nack_payload j clock.iso e in
      let s : SettledCommand = record { payload_hash = hash; outcome = nack payload } in
      let c' : Connection = (settle persist options j s clock c).0 in
      let kept = settle-InOrder id j s clock c order in
      let c'' : Connection = (send (nack_message payload) c').0 in
      let sent = send-InOrder id (nack_message payload) c' (unfold is_event in refl) kept in
      ground (arith, kept, resume_waiting-InOrder id j clock.iso (nack payload) c'' sent)
  fail_command-InOrder id j hash clock e (some o) c order =
      let payload = create_nack_payload j clock.iso e in
      let s : SettledCommand = record { payload_hash = hash; outcome = nack payload } in
      let c' : Connection = (settle persist options j s clock c).0 in
      let kept = settle-InOrder id j s clock c order in
      let c'' : Connection = (send (nack_message payload) c').0 in
      let sent = send-InOrder id (nack_message payload) c' (unfold is_event in refl) kept in
      ground (
        arith,
        resume_waiting-InOrder id j clock.iso o c' kept,
        resume_waiting-InOrder id j clock.iso o c'' sent,
      )

  succeed_command-InOrder :
      (id j hash : String) (clock : Clock) (x : Execution) (c : Connection)
      → InOrder id c
      → InOrder id (succeed_command persist options j hash clock x c)
  unfolding succeed_command
  succeed_command-InOrder id j hash clock x c order =
      let o = ack x.snapshot x.conversation in
      let s : SettledCommand = record { payload_hash = hash; outcome = o } in
      let (c', failed) = settle persist options j s clock c in
      let kept = settle-InOrder id j s clock c order in
      let messages = answer_messages j clock.iso false o in
      let (c'', failed') = send_each messages c' in
      let sent =
        send_each-InOrder id messages c' (answer_messages_quiet j clock.iso false o) kept in
      elim (Option-cases failed) [
        | inr (message, e) ↦ ground (
          arith,
          e,
          fail_command-InOrder id j hash clock (to_hcp_error (plain_error message)) none c' kept,
        )
        | inl e ↦ elim (Option-cases failed') [
          | inr (message, e') ↦ ground (
            arith,
            e,
            e',
            fail_command-InOrder id j hash clock (to_hcp_error (plain_error message)) (some o) c''
                sent,
          )
          | inl e' ↦ ground (
            arith,
            e,
            e',
            resume_waiting-InOrder id j clock.iso o (send_events x.events c'')
                (send_events-InOrder id x.events c'' sent),
          )
        ]
      ]

  receive_command-InOrder :
      (id j hash : String) (clock : Clock) (c : Connection)
      → InOrder id c
      → InOrder id (receive_command persist options j hash clock c).0
  unfolding receive_command
  receive_command-InOrder id j hash clock c order =
      let (store, failed, receipt) = get_command_receipt persist options j clock.ms c.store in
      let c' : Connection = record c { store = store } in
      let kept = InOrder-same id c c' order refl refl in
      let fresh =
        InOrder-same id c
          (record c' { command_records = insert j (pending hash) c.command_records }) order refl
          refl in
      elim (Option-cases (existing_record (lookup j c.command_records) receipt)) [
        | inl new ↦ ground (arith, new, kept, fresh)
        | inr (r, old) ↦
            ground (arith, old, kept, answer_record-InOrder id j hash clock.iso r c' kept)
      ]

  send_parse_nack-InOrder :
      (id j : String) (hash : Option String) (message : String) (clock : Clock) (c : Connection)
      → InOrder id c
      → InOrder id (send_parse_nack persist options j hash message clock c)
  unfolding send_parse_nack
  send_parse_nack-InOrder id j none message clock c order =
      send-InOrder id _ c (unfold is_event in refl) order
  send_parse_nack-InOrder id j (some h) message clock c order =
      let payload =
        create_nack_payload j clock.iso
          (record { code = "invalid_message"; message = message; retryable = false }) in
      let s : SettledCommand = record { payload_hash = h; outcome = nack payload } in
      let c' : Connection = (settle persist options j s clock c).0 in
      let kept = settle-InOrder id j s clock c order in
      ground (arith, kept, send-InOrder id (nack_message payload) c' (unfold is_event in refl) kept)

  pub apply_step-InOrder :
      (id : String) (s : Step) (c : Connection)
      → InOrder id c
      → InOrder id (apply_step persist options s c)
  unfolding apply_step finish_command
  apply_step-InOrder id (receive j hash clock) c order =
      receive_command-InOrder id j hash clock c order
  apply_step-InOrder id (finish j hash clock (ok x)) c order =
      succeed_command-InOrder id j hash clock x c order
  apply_step-InOrder id (finish j hash clock (err e)) c order =
      fail_command-InOrder id j hash clock (to_hcp_error e) none c order
  apply_step-InOrder id (invalid j hash message clock) c order =
      send_parse_nack-InOrder id j hash message clock c order
  apply_step-InOrder id (publish e) c order = send_event_if_connected-InOrder id e c order
  apply_step-InOrder id opened c order =
      unfold event_sequences last_or lookup in record { ascending = tt; noted = refl }
  apply_step-InOrder id closed c order = InOrder-same id c _ order refl refl

  -- If the events of a session that were written to the current socket ascend in sequence up to the
  -- one that is noted for it, this is so after any list of messages, completions, events and
  -- reconnections.
  pub apply_steps-InOrder :
      (id : String) (ss : List Step) (c : Connection)
      → InOrder id c
      → InOrder id (apply_steps persist options ss c)
  unfolding apply_steps
  apply_steps-InOrder id [] c order = order
  apply_steps-InOrder id (s ∷ ss) c order =
      apply_steps-InOrder id ss _ (apply_step-InOrder id s c order)
