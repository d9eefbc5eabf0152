-- ===== src/State/Queries.antt =====
-- packages/hcp-runner/src/state/index.ts: what the store answers about its event log: the retained
-- ranges, the replay after a cursor, and the snapshot that fits the payload limit.
use harness_control_protocol.Base.{
  ℕ, ◌+◌, ◌*◌, String, Bool, true, false, ◌&&◌, ◌||◌, Option, none, some, List, [], ◌∷◌, ◌++◌, ltb,
  leb, ◌==◌, if◌then◌else◌, nat_eq, string_eq, length, get_last?, select, Collation.Collation,
}
use harness_control_protocol.Base.Dict.{Dict, lookup}
use harness_control_protocol.Base.Sort.{sort}
use harness_control_protocol.Protocol.Event.{
  Event, Snapshot, complete, partial, no_reason, retention_gap, size_limit, snapshot_bytes,
}
use harness_control_protocol.State.{StateData, events_of}

unfoldable pub is_true : Option Bool → Bool
is_true (some true) = true
is_true _ = false

unfoldable pub has_session_exit : String → StateData → Bool
unfolding is_true
has_session_exit id d = is_true (lookup id d.exited_sessions)

unfoldable pub has_session_events : String → StateData → Bool
has_session_events id d = ltb 0 (length (events_of id d))

pub record Range : Type 0 where
  pub session_id : String
  pub first_event_sequence : ℕ
  pub last_event_sequence : ℕ

range_of : String → List Event → List Range
range_of id [] = []
range_of id (e ∷ es) = elim (get_last? (e ∷ es)) [
  | none ↦ []
  | some last ↦
      record {
        session_id = id;
        first_event_sequence = e.sequence;
        last_event_sequence = last.sequence;
      }
      ∷ []
]

ranges : Dict String (List Event) → List Range
unfolding range_of
ranges [] = []
ranges ((id, es) ∷ d) = range_of id es ++ ranges d

module _ (locale : Collation) where
  range_before : Range → Range → Bool
  range_before left right = locale.before left.session_id right.session_id

  -- The retained ranges of the sessions that have events, or undefined.
  unfoldable pub retained_event_ranges : StateData → Option (List Range)
  unfolding ranges sort range_before
  retained_event_ranges d = elim (sort range_before (ranges d.events)) [
    | [] ↦ none
    | r ∷ rs ↦ some (r ∷ rs)
  ]

unfoldable pub after_sequence : ℕ → Event → Bool
after_sequence last e = ltb last e.sequence

unfoldable pub replay_window : ℕ → List Event → Option Event → Option (List Event)
unfolding after_sequence
replay_window last [] final = none
replay_window last (e ∷ es) none = none
replay_window last (e ∷ es) (some final) =
    if ltb (last + 1) e.sequence || ltb final.sequence last
    then none
    else some (select (after_sequence last) (e ∷ es))

-- `undefined` if the cursor lies outside what is retained.
unfoldable pub replay_events_after : String → ℕ → StateData → Option (List Event)
unfolding replay_window
replay_events_after id last d = replay_window last (events_of id d) (get_last? (events_of id d))

abbrev pub payload_max_encoded_bytes : ℕ
payload_max_encoded_bytes = 1024 * 1024

unfoldable pub first_sequence : List Event → ℕ
first_sequence [] = 0
first_sequence (e ∷ es) = e.sequence

unfoldable pub final_sequence : Option Event → ℕ
final_sequence none = 0
final_sequence (some e) = e.sequence

-- The snapshot of the selected events. `starts_at_one` is retainedStartsAtOne, `whole` says that
-- nothing has been shifted off.
unfoldable pub snapshot_of : String → String → String → Bool → Bool → List Event → Snapshot
unfolding first_sequence final_sequence
snapshot_of command_id id generated_at starts_at_one all_there es =
    let full = starts_at_one && all_there in
    record {
      command_id = command_id;
      session_id = id;
      generated_at = generated_at;
      completeness = if full then complete else partial;
      reason = if full then no_reason else if starts_at_one then size_limit else retention_gap;
      from_sequence = if full then 1 else first_sequence es;
      through_sequence = final_sequence (get_last? es);
      events = es;
      tombstones = [];
    }

-- The while loop: events are shifted off until the snapshot fits.
unfoldable pub fit_snapshot : String → String → String → Bool → Bool → List Event → Option Snapshot
unfolding snapshot_of
fit_snapshot command_id id generated_at starts_at_one all_there [] = none
fit_snapshot command_id id generated_at starts_at_one all_there (e ∷ es) =
    let s = snapshot_of command_id id generated_at starts_at_one all_there (e ∷ es) in
    let rest = fit_snapshot command_id id generated_at starts_at_one false es in
    if leb (snapshot_bytes s) payload_max_encoded_bytes then some s else rest

unfoldable pub session_snapshot : String → String → String → StateData → Option Snapshot
unfolding fit_snapshot first_sequence
session_snapshot command_id id generated_at d =
    let es = events_of id d in
    fit_snapshot command_id id generated_at (first_sequence es == 1) true es
