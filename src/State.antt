-- ===== src/State.antt =====
-- packages/hcp-runner/src/state/index.ts: the data of BaseRunnerStateStore and its event log, with one child
-- each for the receipts, the MCP reviews and the native work. The native conversations of the same
-- store are not modelled. `persist` is what the subclass writes to disk: it gets the data and gives
-- the error it throws, if any.
pub mod Review
pub mod Work
pub mod WorkChecks
pub mod NativeWork
pub mod Reviews
pub mod Queries
pub mod Window
pub mod Events
pub mod Replay
pub mod Fit
pub mod Receipts
mod Tests
use harness_control_protocol.Base.{
  ℕ, zero, suc, ◌+◌, ◌-◌, ◌≤◌, ◌<◌, String, Bool, true, false, not, ◌&&◌, ◌||◌, Option, none, some,
  List, [], ◌∷◌, ◌++◌, map, ltb, leb, ◌==◌, if◌then◌else◌, nat_eq, string_eq, length, get_last?,
  select, any, Collation.Collation,
}
use harness_control_protocol.Base.Dict.{Dict, lookup, insert, erase, keys, values}
use harness_control_protocol.Base.Sort.{sort}
use harness_control_protocol.Protocol.Json.{Json}
use harness_control_protocol.State.Review.{McpReview}
use harness_control_protocol.State.Work.{NativeWorkState}
use harness_control_protocol.Protocol.Event.{
  Event, Snapshot, Completeness, complete, partial, Reason, no_reason, retention_gap, size_limit,
  snapshot_bytes,
}
use harness_control_protocol.Protocol.Command.{NackPayload}

pub data CommandOutcome : Type 0 where
  ack : Option Snapshot → Option Json → CommandOutcome
  nack : NackPayload → CommandOutcome

-- Times are milliseconds: `settled_at` is new Date(settledAt).getTime().
pub record CommandReceipt : Type 0 where
  pub payload_hash : String
  pub outcome : CommandOutcome
  pub settled_at : ℕ

pub data ActionOutcome : Type 0 where
  response error : Json → ActionOutcome

pub record LocalActionReceipt : Type 0 where
  pub payload_hash : String
  pub request_payload : Json
  pub outcome : ActionOutcome
  pub settled_at : ℕ

pub record StateData : Type 0 where
  pub events : Dict String (List Event)
  pub command_receipts : Dict String CommandReceipt
  pub local_action_receipts : Dict String LocalActionReceipt
  pub exited_sessions : Dict String Bool
  pub native_work : Dict String NativeWorkState
  pub mcp_reviews : Dict String McpReview

pub empty_runner_state : StateData
empty_runner_state = record {
  events = [];
  command_receipts = [];
  local_action_receipts = [];
  exited_sessions = [];
  native_work = [];
  mcp_reviews = [];
}

pub record Options : Type 0 where
  pub event_retention_per_session : ℕ
  pub receipt_retention_ms : ℕ

abbrev pub or_nil : Option (List Event) → List Event
or_nil none = []
or_nil (some es) = es

-- `this.data.events[id] ?? []`
abbrev pub events_of : String → StateData → List Event
events_of id d = or_nil (lookup id d.events)

unfoldable pub next_after : Option Event → ℕ
next_after none = 1
next_after (some e) = e.sequence + 1

-- (events.at(-1)?.sequence ?? 0) + 1
unfoldable pub next_event_sequence : String → StateData → ℕ
unfolding next_after
next_event_sequence id d = next_after (get_last? (events_of id d))

-- while (events.length > limit) events.shift()
unfoldable pub shift_to : ℕ → List Event → List Event
shift_to limit [] = []
shift_to limit (e ∷ es) = if ltb limit (suc (length es)) then shift_to limit es else e ∷ es

mark_exited : Event → Dict String Bool → Dict String Bool
mark_exited e exited =
    if e.event_type == "session.exited" then insert e.session_id true exited else exited

pub data Failure : Type 0 where
  sequence_mismatch : ℕ → ℕ → Failure
  not_persisted : String → Failure

-- #appendEvent, with the retention limit: the data with the event, or the sequences that differ.
append_unsaved : ℕ → Event → StateData → Option StateData
unfolding next_event_sequence shift_to mark_exited
append_unsaved limit e d =
    if e.sequence == next_event_sequence e.session_id d
    then some (record d {
      events = insert e.session_id (shift_to limit (events_of e.session_id d ++ e ∷ [])) d.events;
      exited_sessions = mark_exited e d.exited_sessions;
    })
    else none

-- The assignments of a catch block: what the key held before, or nothing.
pub restore {ℓ} : {V : Type ℓ} → String → Option V → Dict String V → Dict String V
restore id none d = erase id d
restore id (some v) d = insert id v d

-- `if (exited) this.data.exitedSessions[id] = true; else delete ...`
restore_exited : String → Option Bool → Dict String Bool → Dict String Bool
restore_exited id (some true) d = insert id true d
restore_exited id _ d = erase id d

module _ (persist : StateData → Option String) (options : Options) where
  -- The data after the call, and what it throws.
  pub append_event : Event → StateData → StateData × Option Failure
  unfolding append_unsaved restore restore_exited
  append_event e d = elim (append_unsaved options.event_retention_per_session e d) [
    | none ↦ (d, some (sequence_mismatch e.sequence (next_event_sequence e.session_id d)))
    | some d' ↦ elim (persist d') [
      | none ↦ (d', none)
      | some message ↦ (
        record d' {
          events = restore e.session_id (lookup e.session_id d.events) d'.events;
          exited_sessions =
              restore_exited e.session_id (lookup e.session_id d.exited_sessions)
                d'.exited_sessions;
        },
        some (not_persisted message),
      )
    ]
  ]
