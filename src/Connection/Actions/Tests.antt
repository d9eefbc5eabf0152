-- ===== src/Connection/Actions/Tests.antt =====
-- A local action that is requested twice, finishes and is requested again, and the theorems applied to it.
use harness_control_protocol.Base.{
  ℕ, ◌≤◌, String, ◌≡◌, refl, true, Option, none, List, [], ◌∷◌, arith, string_eq, nat_eq,
}
use harness_control_protocol.Protocol.Json.{null, text}
use harness_control_protocol.State.{StateData, Options, response, error}
use harness_control_protocol.Connection.{local_action_message, Clock}
use harness_control_protocol.Connection.Runs.{opened, closed}
use harness_control_protocol.Connection.Actions.{
  Actions, Dispatched, receive_action, finish_action, ActionStep, receive_request, finish_request,
  connection_step,
}
use harness_control_protocol.Connection.Actions.Once.{dispatches_of, dispatches_of_at_most_once}
use harness_control_protocol.Connection.Actions.Answers.{restarted_actions, finish_action-restarted}

abbrev written : StateData → Option String
written d = none

abbrev options : Options
options = record { event_retention_per_session = 2; receipt_retention_ms = 1000 }

abbrev at : ℕ → Clock
at ms = record { iso = "now"; ms = ms }

abbrev idle : Actions
idle = record {
  connection = record {
    is_open = true;
    sent = [];
    last_sent_event = [];
    command_records = [];
    waiting = [];
    store = record {
      events = [];
      command_receipts = [];
      local_action_receipts = [];
      exited_sessions = [];
      native_work = [];
      mcp_reviews = [];
    };
  };
  records = [];
  mismatch_records = [];
  waiting = [];
}

abbrev done : Dispatched
done = record { outcome = response (text "done"); events = [] }

abbrev mismatch : Dispatched
mismatch = record { outcome = error (text "mismatch"); events = [] }

abbrev history : List ActionStep
history =
    receive_request "r" "h" (at 1) mismatch
    ∷ receive_request "r" "h" (at 2) mismatch
    ∷ finish_request "r" "h" null (at 3) done
    ∷ connection_step closed
    ∷ connection_step opened
    ∷ receive_request "r" "h" (at 4) mismatch
    ∷ receive_request "r" "other" (at 5) mismatch
    ∷ []

dispatches_of_at_most_once_example : dispatches_of written options "r" history idle ≤ 1
dispatches_of_at_most_once_example = dispatches_of_at_most_once written options "r" history idle

finish_action-restarted_example :
    (receive_action written options "r" "h" (at 900) mismatch (
      restarted_actions
        (finish_action written options "r" "h" null (at 3) done idle))).0.connection.sent
    ≡ local_action_message (response (text "done")) ∷ []
finish_action-restarted_example =
    finish_action-restarted written options "r" "h" null (at 3) (at 900) done mismatch idle
      (λ d. refl) tt (omega arith) (omega arith)
