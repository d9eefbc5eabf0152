-- ===== src/Protocol/Reducer.antt =====
-- packages/hcp-protocol/src/session-reducer.ts: HcpSessionEventReducer. Its state is the map of the
-- sessions, each a map from sequence to event; a method returns the new state with its result.
pub mod Log
pub mod Apply
pub mod Delivery
pub mod Snapshots
pub mod Samples
mod Tests
use harness_control_protocol.Base.{
  ℕ, suc, ◌+◌, max, String, Bool, true, false, Option, none, some, List, [], ◌∷◌, ◌++◌, map, leb,
  ◌==◌, if◌then◌else◌, nat_eq, string_eq, length, Collation.Collation,
}
use harness_control_protocol.Base.Dict.{Dict, lookup, insert, keys, values}
use harness_control_protocol.Base.Sort.{sort}
use harness_control_protocol.Protocol.Event.{
  Event, Snapshot, Tombstone, Completeness, complete, partial, same_event,
}

abbrev pub SessionEvents : Type 0
SessionEvents = Dict ℕ Event

abbrev pub Reducer : Type 0
Reducer = Dict String SessionEvents

pub data EventResult : Type 0 where
  applied duplicate : Event → EventResult
  gap : String → ℕ → ℕ → EventResult
  conflict : String → ℕ → Event → Event → EventResult

pub data SnapshotResult : Type 0 where
  applied : Completeness → ℕ → ℕ → List Tombstone → SnapshotResult
  failed : EventResult → SnapshotResult

abbrev pub or_empty : Option SessionEvents → SessionEvents
or_empty none = []
or_empty (some m) = m

-- `this.#eventsBySession.get(id) ?? new Map()`
abbrev pub session_events : String → Reducer → SessionEvents
session_events id r = or_empty (lookup id r)

-- Math.max over the keys; the empty maximum, -Infinity in the source, is `none`.
pub max_key : List ℕ → Option ℕ
max_key [] = none
max_key (k ∷ ks) = elim (max_key ks) [ none ↦ some k | some m ↦ some (max k m) ]

-- sessionEvents.size === 0 ? 1 : Math.max(...sessionEvents.keys()) + 1
pub expected_sequence : SessionEvents → ℕ
unfolding max_key
expected_sequence m = elim (max_key (keys m)) [ none ↦ 1 | some k ↦ k + 1 ]

-- The loop that builds the replacement of a complete snapshot.
pub replacement : List Event → SessionEvents → SessionEvents
replacement [] m = m
replacement (e ∷ es) m = replacement es (insert e.sequence e m)

last_of : String × SessionEvents → String × Option ℕ
last_of (id, m) = (id, max_key (keys m))

flatten : Reducer → List Event
flatten [] = []
flatten ((_, m) ∷ r) = values m ++ flatten r

module _ (locale : Collation) where
  pub apply_event : Event → Reducer → Reducer × EventResult
  apply_event event r =
      let m = session_events event.session_id r in
      let expected = expected_sequence m in
      elim (lookup event.sequence m) [
        | some existing ↦ (
          r,
          if same_event locale existing event
              then duplicate existing
              else conflict event.session_id event.sequence existing event,
        )
        | none ↦
            if event.sequence == expected
            then (
              insert event.session_id (insert event.sequence event m) r,
              EventResult.applied event,
            )
            else (r, gap event.session_id expected event.sequence)
      ]

  -- The loop of applySnapshot over the events of a partial snapshot.
  pub apply_events : List Event → ℕ → ℕ → List Tombstone → Reducer → Reducer × SnapshotResult
  apply_events [] new old tombstones r = (r, SnapshotResult.applied partial new old tombstones)
  apply_events (e ∷ es) new old tombstones r =
      let (r', result) = apply_event e r in
      elim result [
        | EventResult.applied _ ↦ apply_events es (new + 1) old tombstones r'
        | duplicate _ ↦ apply_events es new (old + 1) tombstones r'
        | gap id expected received ↦ (r', failed (gap id expected received))
        | conflict id sequence existing received ↦
            (r', failed (conflict id sequence existing received))
      ]

  pub apply_snapshot : Snapshot → Reducer → Reducer × SnapshotResult
  unfolding replacement apply_events
  apply_snapshot s r = elim s.completeness [
    | complete ↦ (
      insert s.session_id (replacement s.events []) r,
      SnapshotResult.applied complete (length s.events) 0 s.tombstones,
    )
    | partial ↦ apply_events s.events 0 0 s.tombstones r
  ]

  session_before : String × Option ℕ → String × Option ℕ → Bool
  session_before (left, _) (right, _) = locale.before left right

  -- The sessions with the last sequence of each, or undefined.
  pub resume_cursor : Reducer → Option (List (String × Option ℕ))
  unfolding sort session_before last_of
  resume_cursor r = elim (sort session_before (map last_of r)) [
    | [] ↦ none
    | c ∷ cs ↦ some (c ∷ cs)
  ]

  event_before : Event → Event → Bool
  event_before left right =
      if left.session_id == right.session_id
      then leb left.sequence right.sequence
      else locale.before left.session_id right.session_id

  pub events : Reducer → List Event
  unfolding sort event_before flatten
  events r = sort event_before (flatten r)
