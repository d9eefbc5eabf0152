-- ===== src/Connection/Tests.antt =====
-- A connection that gets commands twice, loses its socket and reconnects, and the theorems applied to it.
use harness_control_protocol.Base.{
  ℕ, ◌≤◌, String, ◌≡◌, refl, true, false, Option, none, some, List, [], ◌∷◌, arith, string_eq,
  nat_eq, ℕ_discrete, ok,
}
use harness_control_protocol.Base.Dict.{lookup, insert, retain}
use harness_control_protocol.Protocol.Json.{text, obj, end, field}
use harness_control_protocol.Protocol.Event.Samples.{started, delta, exited, session}
use harness_control_protocol.State.{StateData, Options, ack, nack}
use harness_control_protocol.State.Receipts.{get_command_receipt, set_command_receipt}
use harness_control_protocol.Connection.{
  Clock, settled, Connection, plain_error, to_hcp_error, create_nack_payload, Execution,
  answer_messages, not_connected, command_id_for, send_each, send_event_if_connected, send_events,
}
use harness_control_protocol.Connection.Commands.{receive_command, finish_command}
use harness_control_protocol.Connection.Runs.{
  Step, receive, finish, publish, opened, closed, apply_steps, runs_of,
}
use harness_control_protocol.Connection.Runs.Once.{runs_of_at_most_once}
use harness_control_protocol.Connection.Receipts.{
  settled_outcome, receipt_of, restarted, finish-restarted-receive, finish_command_disconnected,
}
use harness_control_protocol.Connection.Order.{InOrder, event_sequences, last_or}
use harness_control_protocol.Connection.Order.Steps.{apply_steps-InOrder}
use harness_control_protocol.Connection.Reconnect.{Backoff}

abbrev written : StateData → Option String
written d = none

abbrev options : Options
options = record { event_retention_per_session = 2; receipt_retention_ms = 1000 }

abbrev connected : Connection
connected = record {
  is_open = true;
  sent = [];
  last_sent_event = [];
  command_records = [];
  waiting = [];
  store = record {
    events = [];
    command_receipts = [];
    local_action_receipts = [];
    exited_sessions = [];
    native_work = [];
    mcp_reviews = [];
  };
}

abbrev disconnected : Connection
disconnected = record connected { is_open = false }

abbrev at : ℕ → Clock
at ms = record { iso = "now"; ms = ms }

abbrev one_event : Execution
one_event = record { events = started ∷ []; snapshot = none; conversation = none }

abbrev history : List Step
history =
    receive "c" "h" (at 1)
    ∷ receive "c" "h" (at 2)
    ∷ finish "c" "h" (at 3) (ok one_event)
    ∷ publish delta
    ∷ publish started
    ∷ closed
    ∷ publish exited
    ∷ opened
    ∷ publish exited
    ∷ receive "c" "h" (at 4)
    ∷ receive "c" "other" (at 5)
    ∷ []

one_run : runs_of written options "c" history connected ≡ 1
unfolding runs_of string_eq nat_eq ℕ_discrete lookup insert get_command_receipt retain
    receive_command send_event_if_connected finish_command set_command_receipt send_each
    answer_messages send_events
one_run = refl

runs_of_at_most_once_example : runs_of written options "c" history connected ≤ 1
runs_of_at_most_once_example = runs_of_at_most_once written options "c" history connected

nothing_sent : InOrder session connected
unfolding event_sequences last_or lookup
nothing_sent = record { ascending = tt; noted = refl }

apply_steps-InOrder_example : InOrder session (apply_steps written options history connected)
apply_steps-InOrder_example =
    apply_steps-InOrder written options session history connected nothing_sent

finish-restarted-receive_example :
    (receive_command written options "c" "h"
      (at 900)
      (restarted (finish_command written options "c" "h" (at 3) (ok one_event) connected))).0.sent
    ≡ answer_messages "c" "now" true (ack none none)
unfolding settled_outcome
finish-restarted-receive_example =
    finish-restarted-receive written options "c" "h" (at 3) (at 900) (ok one_event) connected
      (λ d. refl) tt refl (omega arith) (omega arith)

finish_command_disconnected_example :
    let o = nack (create_nack_payload "c" "now" (to_hcp_error (plain_error not_connected))) in
    let c' : Connection =
      finish_command written options "c" "h" (at 3) (ok one_event) disconnected in
    (lookup "c" c'.command_records ≡ some (settled (record { payload_hash = "h"; outcome = o })))
    × ((get_command_receipt written options "c" 3 c'.store).2 ≡ some (receipt_of "h" o (at 3)))
    × (c'.sent ≡ [])
finish_command_disconnected_example =
    finish_command_disconnected written options "c" "h" (at 3) one_event disconnected (λ d. refl) tt
      refl

given_command_id : command_id_for "e" (obj (field "command_id" (text "c") end)) ≡ "c"
unfolding command_id_for string_eq
given_command_id = refl

abbrev backoff : Backoff
backoff = record { initial_delay_ms = 1000; max_delay_ms = 30000 }
