-- ===== src/Connection/Runs.antt =====
-- Histories of a connection, and how often they run a command.
pub mod Once
use harness_control_protocol.Base.{
  ℕ, ◌+◌, ◌≤◌, String, ◌≡◌, ◌⊎◌, refl, sym, ap, ◌∙◌, Bool, true, false, Option, none, some, List,
  [], ◌∷◌, ◌==◌, arith, if◌then◌else◌, string_eq, Result, ok, err, Option-cases, inl, inr,
}
use harness_control_protocol.Base.Dict.{Dict, lookup, insert, lookup-insert}
use harness_control_protocol.Protocol.Event.{Event}
use harness_control_protocol.Protocol.Command.{HcpError}
use harness_control_protocol.State.{StateData, Options, CommandOutcome, ack, nack}
use harness_control_protocol.State.Receipts.{get_command_receipt}
use harness_control_protocol.Connection.{
  Message, nack_message, answer_messages, create_nack_payload, to_hcp_error, plain_error, Clock,
  SettledCommand, CommandRecord, pending, settled, Connection, send, send_each,
  send_event_if_connected, send_events, HandlerError, Execution, Reception, thrown, answered, waits,
  must_run, existing_record,
}
use harness_control_protocol.Connection.Commands.{
  answer_record, receive_command, settle, resume_each, resume_waiting, fail_command,
  succeed_command, finish_command, send_parse_nack,
}

pub data Step : Type 0 where
  receive : String → String → Clock → Step
  finish : String → String → Clock → Result HandlerError Execution → Step
  invalid : String → Option String → String → Clock → Step
  publish : Event → Step
  opened closed : Step

unfoldable pub is_known : Option CommandRecord → Bool
is_known none = false
is_known (some r) = true

unfoldable pub one_if_run : Reception → ℕ
one_if_run must_run = 1
one_if_run _ = 0

module _ (persist : StateData → Option String) (options : Options) where
  unfoldable pub apply_step : Step → Connection → Connection
  apply_step (receive id hash clock) c = (receive_command persist options id hash clock c).0
  apply_step (finish id hash clock result) c = finish_command persist options id hash clock result c
  apply_step (invalid id hash message clock) c =
      send_parse_nack persist options id hash message clock c
  apply_step (publish e) c = send_event_if_connected e c
  apply_step opened c = record c { is_open = true; sent = []; last_sent_event = [] }
  apply_step closed c = record c { is_open = false }

  unfoldable pub apply_steps : List Step → Connection → Connection
  unfolding apply_step
  apply_steps [] c = c
  apply_steps (s ∷ ss) c = apply_steps ss (apply_step s c)

  -- 1 if the step runs the command's handler.
  unfoldable pub runs_in : String → Step → Connection → ℕ
  unfolding one_if_run
  runs_in id (receive j hash clock) c =
      if j == id then one_if_run (receive_command persist options j hash clock c).1 else 0
  runs_in id (finish j hash clock result) c = 0
  runs_in id (invalid j hash message clock) c = 0
  runs_in id (publish e) c = 0
  runs_in id opened c = 0
  runs_in id closed c = 0

  -- How often the handler of the command runs.
  unfoldable pub runs_of : String → List Step → Connection → ℕ
  unfolding apply_step runs_in
  runs_of id [] c = 0
  runs_of id (s ∷ ss) c = runs_in id s c + runs_of id ss (apply_step s c)
