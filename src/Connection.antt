-- ===== src/Connection.antt =====
-- packages/hcp-runner/src/connection/runner-connection.ts: RunnerConnection's messages to the control
-- plane and its handling of commands. What a command does is its handler's, and comes from outside:
-- `receive_command` says whether the handler runs, and `finish_command` takes what it gave or threw.
-- Timers, the demand source and the handshake are not modelled.
pub mod Commands
pub mod Runs
pub mod Sends
pub mod Receipts
pub mod Order
pub mod Reconnect
pub mod Actions
mod Tests
use harness_control_protocol.Base.{
  ℕ, String, ◌<>◌, Bool, true, false, not, Option, none, some, List, [], ◌∷◌, ◌++◌, leb, ◌==◌,
  if◌then◌else◌, nat_eq, string_eq, Collation.Collation, select, Result, ok, err,
}
use harness_control_protocol.Base.Dict.{Dict, lookup, insert}
use harness_control_protocol.Protocol.Json.{Json, text, obj, Fields, end, field, canonical}
use harness_control_protocol.Protocol.Event.{Event, Snapshot}
use harness_control_protocol.Protocol.Command.{HcpError, NackPayload, AckPayload}
use harness_control_protocol.State.{
  StateData, Options, CommandOutcome, ActionOutcome, ack, nack, CommandReceipt,
}
use harness_control_protocol.State.Receipts.{get_command_receipt, set_command_receipt}

pub data Message : Type 0 where
  ack_message : AckPayload → Message
  nack_message : NackPayload → Message
  snapshot_message : Snapshot → Message
  conversation_message : Json → Message
  event_message : Event → Message
  local_action_message : ActionOutcome → Message

-- The time as the text of a payload and as the milliseconds of a receipt.
pub record Clock : Type 0 where
  pub iso : String
  pub ms : ℕ

-- SettledCommandRecord
pub record SettledCommand : Type 0 where
  pub payload_hash : String
  pub outcome : CommandOutcome

pub data CommandRecord : Type 0 where
  pending : String → CommandRecord
  settled : SettledCommand → CommandRecord

-- `sent` is what was written to the current socket, and `waiting` has the command of each repeated
-- message that awaits a completion.
pub record Connection : Type 0 where
  pub is_open : Bool
  pub sent : List Message
  pub last_sent_event : Dict String ℕ
  pub command_records : Dict String CommandRecord
  pub waiting : List String
  pub store : StateData

abbrev pub not_connected : String
not_connected = "Runner is not connected to the control plane."

-- The connection, and the message of the error that is thrown.
unfoldable pub send : Message → Connection → Connection × Option String
send m c =
    if c.is_open then (record c { sent = c.sent ++ m ∷ [] }, none) else (c, some not_connected)

-- The messages in order, up to the first that throws.
unfoldable pub send_each : List Message → Connection → Connection × Option String
unfolding send
send_each [] c = (c, none)
send_each (m ∷ ms) c =
    let (c', thrown) = send m c in
    elim thrown [ none ↦ send_each ms c' | some message ↦ (c', some message) ]

abbrev pub or_zero : Option ℕ → ℕ
or_zero none = 0
or_zero (some n) = n

unfoldable pub send_event_if_connected : Event → Connection → Connection
send_event_if_connected e c =
    if not c.is_open
    then c
    else if leb e.sequence (or_zero (lookup e.session_id c.last_sent_event))
    then c
    else record c {
      sent = c.sent ++ event_message e ∷ [];
      last_sent_event = insert e.session_id e.sequence c.last_sent_event;
    }

unfoldable pub send_events : List Event → Connection → Connection
send_events [] c = c
send_events (e ∷ es) c = send_events es (send_event_if_connected e c)

snapshot_part : Option Snapshot → List Message
snapshot_part none = []
snapshot_part (some s) = snapshot_message s ∷ []

conversation_part : Option Json → List Message
conversation_part none = []
conversation_part (some j) = conversation_message j ∷ []

-- What a settled command is answered with, again if it is a duplicate.
unfoldable pub answer_messages : String → String → Bool → CommandOutcome → List Message
unfolding snapshot_part conversation_part
answer_messages id at duplicate (ack snapshot conversation) =
    ack_message (record { command_id = id; accepted_at = at; duplicate = duplicate })
    ∷ (snapshot_part snapshot ++ conversation_part conversation)
answer_messages id at duplicate (nack payload) = nack_message payload ∷ []

-- What a handler throws.
pub data HandlerError : Type 0 where
  session_error adapter_error : String → String → HandlerError
  plain_error : String → HandlerError
  not_an_error : HandlerError

unfoldable pub to_hcp_error : HandlerError → HcpError
to_hcp_error (session_error code message) = record {
  code = code;
  message = message;
  retryable = false;
}
to_hcp_error (adapter_error code message) = record {
  code = code;
  message = message;
  retryable = false;
}
to_hcp_error (plain_error message) = record {
  code = "runner_error";
  message = message;
  retryable = false;
}
to_hcp_error not_an_error = record {
  code = "runner_error";
  message = "Runner command failed.";
  retryable = false;
}

unfoldable pub create_nack_payload : String → String → HcpError → NackPayload
create_nack_payload id at error = record { command_id = id; rejected_at = at; error = error }

abbrev pub mismatch_error : String → HcpError
mismatch_error id = record {
  code = "duplicate_command_payload_mismatch";
  message = "Command '" <> id <> "' was already seen with a different payload.";
  retryable = false;
}

-- CommandExecutionResult
pub record Execution : Type 0 where
  pub events : List Event
  pub snapshot : Option Snapshot
  pub conversation : Option Json

-- What becomes of a received command: it throws at once, it was answered (or the answer threw), it
-- waits for the first message of the command, or its handler runs.
pub data Reception : Type 0 where
  thrown : String → Reception
  answered : Option String → Reception
  waits must_run : Reception

abbrev pub record_of_receipt : CommandReceipt → SettledCommand
record_of_receipt r = record { payload_hash = r.payload_hash; outcome = r.outcome }

-- The record in memory, or else the receipt in the store.
abbrev pub existing_record : Option CommandRecord → Option CommandReceipt → Option CommandRecord
existing_record (some r) receipt = some r
existing_record none none = none
existing_record none (some receipt) = some (settled (record_of_receipt receipt))

abbrev pub hash_of : CommandRecord → String
hash_of (pending hash) = hash
hash_of (settled s) = s.payload_hash

-- The value of a field of an object; the last of several is the one that counts.
field_value : String → Fields → Option Json
field_value key end = none
field_value key (field k v fs) =
    let rest = field_value key fs in
    elim rest [ some w ↦ some w | none ↦ if k == key then some v else none ]

given_id : String → Option Json → String
given_id id (some (text s)) = if s == "" then id else s
given_id id _ = id

-- commandIdFor: the payload's command_id if that is a text that is not empty, or the envelope's id.
unfoldable pub command_id_for : String → Json → String
unfolding field_value given_id
command_id_for id (obj fs) = given_id id (field_value "command_id" fs)
command_id_for id _ = id

-- hashCommandPayload; `digest` is the hexadecimal SHA-256 of a text.
unfoldable pub hash_command_payload : (List ℕ → String) → Collation → Json → String
hash_command_payload digest locale payload = digest (canonical locale payload)
