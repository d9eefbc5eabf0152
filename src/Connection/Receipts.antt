-- ===== src/Connection/Receipts.antt =====
-- What a settled command leaves behind: its record, its receipt in the store, and the answer that a
-- repeated command gets, also from a runner that was restarted.
use harness_control_protocol.Base.{
  ◌+◌, ◌≤◌, String, ◌≡◌, refl, ap, ◌∙◌, true, false, not, Option, none, some, [], ◌∷◌, ◌++◌, ◌==◌,
  arith, string_eq, Result, ok, err, select,
}
use harness_control_protocol.Base.Dict.{lookup, lookup-insert, NodupKeys}
use harness_control_protocol.State.{StateData, Options, CommandOutcome, ack, nack, CommandReceipt}
use harness_control_protocol.State.Receipts.{
  get_command_receipt, set_command_receipt, get-set_command_receipt, set_command_receipt-NodupKeys,
  set_command_receipt_saved, get_command_receipt_saved,
}
use harness_control_protocol.Connection.{
  nack_message, Clock, SettledCommand, settled, Connection, send, send_events, answer_messages,
  HandlerError, plain_error, to_hcp_error, create_nack_payload, Execution, existing_record,
  not_connected,
}
use harness_control_protocol.Connection.Commands.{
  answer_record, receive_command, settle, fail_command, succeed_command, finish_command,
}
use harness_control_protocol.Connection.Sends.{
  send_events-store, send_each_open, resume_waiting-store, answer_messages_closed,
  resume_waiting_closed,
}

-- What a command settles with when nothing fails on the way.
unfoldable pub settled_outcome : String → Clock → Result HandlerError Execution → CommandOutcome
settled_outcome id clock (ok x) = ack x.snapshot x.conversation
settled_outcome id clock (err e) = nack (create_nack_payload id clock.iso (to_hcp_error e))

unfoldable pub receipt_of : String → CommandOutcome → Clock → CommandReceipt
receipt_of hash outcome clock = record {
  payload_hash = hash;
  outcome = outcome;
  settled_at = clock.ms;
}

-- A new process that opens the same store and has a new socket.
unfoldable pub restarted : Connection → Connection
restarted c = record c {
  is_open = true;
  sent = [];
  last_sent_event = [];
  command_records = [];
  waiting = [];
}

module _ (persist : StateData → Option String) (options : Options) where
  -- If the socket is open, reading the receipt does not throw and the command's record, in memory
  -- or else in the store, is settled with the same payload hash, the repeated message is answered
  -- with what the command settled with, after what was sent before.
  receive_command-settled :
      (id hash : String) (clock : Clock) (s : SettledCommand) (c : Connection)
      → c.is_open ≡ true
      → (get_command_receipt persist options id clock.ms c.store).1 ≡ none
      → existing_record
          (lookup id c.command_records)
          (get_command_receipt persist options id clock.ms c.store).2
        ≡ some (settled s)
      → s.payload_hash ≡ hash
      → (receive_command persist options id hash clock c).0.sent
        ≡ c.sent ++ answer_messages id clock.iso true s.outcome
  unfolding receive_command answer_record
  receive_command-settled id hash clock s c connected saved existing same =
      let (store, failed, receipt) = get_command_receipt persist options id clock.ms c.store in
      ground (
        arith,
        send_each_open (answer_messages id clock.iso true s.outcome) (record c { store = store })
            connected,
      )

  finish_command-store :
      (id hash : String) (clock : Clock) (result : Result HandlerError Execution) (c : Connection)
      → ((d : StateData) → persist d ≡ none)
      → c.is_open ≡ true
      → (finish_command persist options id hash clock result c).store
        ≡ (set_command_receipt persist options id
            (receipt_of hash (settled_outcome id clock result) clock)
            clock.ms
            c.store).0
  unfolding finish_command succeed_command fail_command settle receipt_of settled_outcome send
  finish_command-store id hash clock (ok x) c written connected =
      let o = ack x.snapshot x.conversation in
      let s : SettledCommand = record { payload_hash = hash; outcome = o } in
      let c' : Connection = (settle persist options id s clock c).0 in
      let saved =
        set_command_receipt_saved persist options id (receipt_of hash o clock) clock.ms c.store
          written in
      let messages = answer_messages id clock.iso false o in
      ground (
        arith,
        saved,
        send_each_open messages c' connected,
        send_events-store x.events (record c' { sent = c'.sent ++ messages }),
        resume_waiting-store id clock.iso o
            (send_events x.events (record c' { sent = c'.sent ++ messages })),
      )
  finish_command-store id hash clock (err e) c written connected =
      let payload = create_nack_payload id clock.iso (to_hcp_error e) in
      let s : SettledCommand = record { payload_hash = hash; outcome = nack payload } in
      let c' : Connection = (settle persist options id s clock c).0 in
      let saved =
        set_command_receipt_saved persist options id (receipt_of hash (nack payload) clock) clock.ms
          c.store written in
      ground (
        arith,
        saved,
        resume_waiting-store id clock.iso (nack payload)
            (record c' { sent = c'.sent ++ nack_message payload ∷ [] }),
      )

  -- If the data can be written, the receipts have distinct keys and the socket is open, a command
  -- that finishes, well or with an error, is answered from its receipt by a runner that was
  -- restarted since: the same message, received before the retention has run out, gets the outcome
  -- that the command settled with, marked as a duplicate.
  pub finish-restarted-receive :
      (id hash : String) (clock later : Clock) (result : Result HandlerError Execution)
      (c : Connection)
      → ((d : StateData) → persist d ≡ none)
      → NodupKeys c.store.command_receipts
      → c.is_open ≡ true
      → clock.ms ≤ later.ms
      → later.ms ≤ clock.ms + options.receipt_retention_ms
      → (receive_command persist options id hash later
          (restarted (finish_command persist options id hash clock result c))).0.sent
        ≡ answer_messages id later.iso true (settled_outcome id clock result)
  unfolding restarted receipt_of lookup
  finish-restarted-receive id hash clock later result c written u connected le alive =
      let o = settled_outcome id clock result in
      let c' = restarted (finish_command persist options id hash clock result c) in
      let stored = finish_command-store id hash clock result c written connected in
      let found : (get_command_receipt persist options id later.ms c'.store).2
          ≡ some (receipt_of hash o clock) =
        ap (λ d. (get_command_receipt persist options id later.ms d).2) stored
        ∙ get-set_command_receipt persist options id (receipt_of hash o clock) clock.ms later.ms
            c.store u le
        ∙ ground arith in
      receive_command-settled id hash later (record { payload_hash = hash; outcome = o }) c' refl
        (get_command_receipt_saved persist options id later.ms c'.store written)
        (ground (arith, found)) refl

  -- If the data can be written and the receipts have distinct keys, a command whose handler
  -- succeeds while the socket is closed is recorded, in memory and in the store, as rejected
  -- because the runner is not connected, and nothing is sent.
  pub finish_command_disconnected :
      (id hash : String) (clock : Clock) (x : Execution) (c : Connection)
      → ((d : StateData) → persist d ≡ none)
      → NodupKeys c.store.command_receipts
      → c.is_open ≡ false
      → let o =
          nack (create_nack_payload id clock.iso (to_hcp_error (plain_error not_connected))) in
        let c' = finish_command persist options id hash clock (ok x) c in
        (lookup id c'.command_records
          ≡ some (settled (record { payload_hash = hash; outcome = o })))
        × ((get_command_receipt persist options id clock.ms c'.store).2
            ≡ some (receipt_of hash o clock))
        × (c'.sent ≡ c.sent)
  unfolding finish_command succeed_command fail_command settle receipt_of send
  finish_command_disconnected id hash clock x c written u closed =
      let o = ack x.snapshot x.conversation in
      let payload = create_nack_payload id clock.iso (to_hcp_error (plain_error not_connected)) in
      let first : SettledCommand = record { payload_hash = hash; outcome = o } in
      let then_ : SettledCommand = record { payload_hash = hash; outcome = nack payload } in
      let c' : Connection = (settle persist options id first clock c).0 in
      let c'' : Connection = (settle persist options id then_ clock c').0 in
      let saved =
        set_command_receipt_saved persist options id (receipt_of hash o clock) clock.ms c.store
          written in
      let saved' =
        set_command_receipt_saved persist options id (receipt_of hash (nack payload) clock) clock.ms
          c'.store written in
      let last = resume_waiting_closed id clock.iso o c'' closed in
      let unanswered = answer_messages_closed id clock.iso false o c' closed in
      let u' =
        set_command_receipt-NodupKeys persist options id (receipt_of hash o clock) clock.ms c.store
          u in
      let stored =
        get-set_command_receipt persist options id (receipt_of hash (nack payload) clock) clock.ms
          clock.ms c'.store u' (omega arith) in
      let result : finish_command persist options id hash clock (ok x) c
          ≡ record c'' { waiting = select (λ w. not (w == id)) c''.waiting } =
        ground (arith, saved, saved', last, unanswered) in
      rw result (
        ground (arith, lookup-insert id id (settled then_) c'.command_records),
        stored ∙ ground arith,
        refl,
      )
