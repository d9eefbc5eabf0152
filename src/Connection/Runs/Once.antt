-- ===== src/Connection/Runs/Once.antt =====
-- Every command that has run has a record, so that it runs once.
use harness_control_protocol.Base.{
  ◌≤◌, String, ◌≡◌, ◌⊎◌, refl, true, false, Option, none, some, List, [], ◌∷◌, arith, string_eq, ok,
  err, Option-cases, inl, inr,
}
use harness_control_protocol.Base.Dict.{lookup, lookup-insert}
use harness_control_protocol.Protocol.Command.{HcpError}
use harness_control_protocol.State.{StateData, Options, CommandOutcome, ack, nack}
use harness_control_protocol.State.Receipts.{get_command_receipt}
use harness_control_protocol.Connection.{
  nack_message, answer_messages, create_nack_payload, to_hcp_error, plain_error, Clock,
  SettledCommand, pending, settled, Connection, send, send_each, send_events, Execution, must_run,
  existing_record,
}
use harness_control_protocol.Connection.Commands.{
  answer_record, receive_command, settle, fail_command, succeed_command, finish_command,
  send_parse_nack,
}
use harness_control_protocol.Connection.Runs.{
  Step, receive, finish, invalid, publish, opened, closed, is_known, apply_step, runs_in, runs_of,
}
use harness_control_protocol.Connection.Sends.{
  send_each-command_records, send_events-command_records, resume_waiting-command_records,
  answer_record-command_records,
}

module _ (persist : StateData → Option String) (options : Options) where
  settle-is_known :
      (j id : String) (s : SettledCommand) (clock : Clock) (c : Connection)
      → is_known (lookup j c.command_records) ≡ true
      → is_known (lookup j (settle persist options id s clock c).0.command_records) ≡ true
  unfolding settle is_known
  settle-is_known j id s clock c known =
      ground (arith, lookup-insert j id (settled s) c.command_records)

  fail_command-is_known :
      (j id hash : String) (clock : Clock) (e : HcpError) (resolved : Option CommandOutcome)
      (c : Connection)
      → is_known (lookup j c.command_records) ≡ true
      → is_known
          (lookup j (fail_command persist options id hash clock e resolved c).command_records)
        ≡ true
  unfolding fail_command send
  fail_command-is_known j id hash clock e none c known =
      let o = nack (create_nack_payload id clock.iso e) in
      let s : SettledCommand = record { payload_hash = hash; outcome = o } in
      let c' : Connection = (settle persist options id s clock c).0 in
      let c'' : Connection = (send (nack_message (create_nack_payload id clock.iso e)) c').0 in
      ground (
        arith,
        settle-is_known j id s clock c known,
        resume_waiting-command_records id clock.iso o c'',
      )
  fail_command-is_known j id hash clock e (some o) c known =
      let payload = create_nack_payload id clock.iso e in
      let s : SettledCommand = record { payload_hash = hash; outcome = nack payload } in
      let c' : Connection = (settle persist options id s clock c).0 in
      let c'' : Connection = (send (nack_message payload) c').0 in
      ground (
        arith,
        settle-is_known j id s clock c known,
        resume_waiting-command_records id clock.iso o c',
        resume_waiting-command_records id clock.iso o c'',
      )

  succeed_command-is_known :
      (j id hash : String) (clock : Clock) (x : Execution) (c : Connection)
      → is_known (lookup j c.command_records) ≡ true
      → is_known (lookup j (succeed_command persist options id hash clock x c).command_records)
        ≡ true
  unfolding succeed_command
  succeed_command-is_known j id hash clock x c known =
      let o = ack x.snapshot x.conversation in
      let s : SettledCommand = record { payload_hash = hash; outcome = o } in
      let (c', failed) = settle persist options id s clock c in
      let messages = answer_messages id clock.iso false o in
      let (c'', failed') = send_each messages c' in
      let one = settle-is_known j id s clock c known in
      let two = send_each-command_records messages c' in
      elim (Option-cases failed) [
        | inr (message, e) ↦ ground (
          arith,
          e,
          fail_command-is_known j id hash clock (to_hcp_error (plain_error message)) none c' one,
        )
        | inl e ↦ elim (Option-cases failed') [
          | inr (message, e') ↦ ground (
            arith,
            e,
            e',
            fail_command-is_known j id hash clock (to_hcp_error (plain_error message)) (some o) c''
                (ground (arith, one, two)),
          )
          | inl e' ↦ ground (
            arith,
            e,
            e',
            one,
            two,
            send_events-command_records x.events c'',
            resume_waiting-command_records id clock.iso o (send_events x.events c''),
          )
        ]
      ]

  receive_command-is_known :
      (j id hash : String) (clock : Clock) (c : Connection)
      → is_known (lookup j c.command_records) ≡ true
      → is_known (lookup j (receive_command persist options id hash clock c).0.command_records)
        ≡ true
  unfolding receive_command is_known
  receive_command-is_known j id hash clock c known =
      let (store, failed, receipt) = get_command_receipt persist options id clock.ms c.store in
      let c' : Connection = record c { store = store } in
      elim (Option-cases (existing_record (lookup id c.command_records) receipt)) [
        | inl fresh ↦ ground (arith, fresh, lookup-insert j id (pending hash) c.command_records)
        | inr (r, old) ↦ ground (arith, old, answer_record-command_records id hash clock.iso r c')
      ]

  -- A handler runs only for a command without a record, and the command has one then.
  receive_command-must_run :
      (id hash : String) (clock : Clock) (c : Connection)
      → (receive_command persist options id hash clock c).1 ≡ must_run
      → (is_known (lookup id c.command_records) ≡ false)
        × (is_known (lookup id (receive_command persist options id hash clock c).0.command_records)
            ≡ true)
  unfolding receive_command answer_record is_known
  receive_command-must_run id hash clock c run =
      ground (arith, lookup-insert id id (pending hash) c.command_records)

  send_parse_nack-is_known :
      (j id : String) (hash : Option String) (message : String) (clock : Clock) (c : Connection)
      → is_known (lookup j c.command_records) ≡ true
      → is_known
          (lookup j (send_parse_nack persist options id hash message clock c).command_records)
        ≡ true
  unfolding send_parse_nack send
  send_parse_nack-is_known j id none message clock c known = ground arith
  send_parse_nack-is_known j id (some h) message clock c known =
      let payload =
        create_nack_payload id clock.iso
          (record { code = "invalid_message"; message = message; retryable = false }) in
      ground (
        arith,
        settle-is_known j id (record { payload_hash = h; outcome = nack payload }) clock c known,
      )

  apply_step-is_known :
      (j : String) (s : Step) (c : Connection)
      → is_known (lookup j c.command_records) ≡ true
      → is_known (lookup j (apply_step persist options s c).command_records) ≡ true
  unfolding apply_step finish_command send_events
  apply_step-is_known j (receive id hash clock) c known =
      receive_command-is_known j id hash clock c known
  apply_step-is_known j (finish id hash clock (ok x)) c known =
      succeed_command-is_known j id hash clock x c known
  apply_step-is_known j (finish id hash clock (err e)) c known =
      fail_command-is_known j id hash clock (to_hcp_error e) none c known
  apply_step-is_known j (invalid id hash message clock) c known =
      send_parse_nack-is_known j id hash message clock c known
  apply_step-is_known j (publish e) c known = rw (send_events-command_records (e ∷ []) c) known
  apply_step-is_known j opened c known = known
  apply_step-is_known j closed c known = known

  runs_in_cases :
      (id : String) (s : Step) (c : Connection)
      → (runs_in persist options id s c ≡ 0)
        ⊎ ((runs_in persist options id s c ≡ 1)
            × (is_known (lookup id c.command_records) ≡ false)
            × (is_known (lookup id (apply_step persist options s c).command_records) ≡ true))
  unfolding runs_in apply_step
  runs_in_cases id (receive j hash clock) c =
      ground (arith, receive_command-must_run j hash clock c)
  runs_in_cases id (finish j hash clock result) c = inl refl
  runs_in_cases id (invalid j hash message clock) c = inl refl
  runs_in_cases id (publish e) c = inl refl
  runs_in_cases id opened c = inl refl
  runs_in_cases id closed c = inl refl

  -- A command with a record never runs again.
  runs_of-is_known :
      (id : String) (ss : List Step) (c : Connection)
      → is_known (lookup id c.command_records) ≡ true
      → runs_of persist options id ss c ≡ 0
  unfolding runs_of
  runs_of-is_known id [] c known = refl
  runs_of-is_known id (s ∷ ss) c known = ground (
    arith,
    runs_in_cases id s c,
    runs_of-is_known id ss (apply_step persist options s c) (apply_step-is_known id s c known),
  )

  -- Whatever messages, completions, events and reconnections a connection goes through, the handler
  -- of a command with a given id runs at most once.
  pub runs_of_at_most_once :
      (id : String) (ss : List Step) (c : Connection) → runs_of persist options id ss c ≤ 1
  unfolding runs_of
  runs_of_at_most_once id [] c = omega arith
  runs_of_at_most_once id (s ∷ ss) c =
      let rest = runs_of_at_most_once id ss (apply_step persist options s c) in
      elim (runs_in_cases id s c) [
        | inl none_here ↦ omega (arith, none_here, rest)
        | inr (one, _, known) ↦
            omega (arith, one, runs_of-is_known id ss (apply_step persist options s c) known)
      ]
