-- ===== src/Protocol/Event/Samples.antt =====
-- Concrete events and snapshots.
use harness_control_protocol.Base.{
  ℕ, String, ◌≡◌, refl, true, none, List, [], ◌∷◌, nat_eq, string_eq, ℕ_discrete, drop,
}
use harness_control_protocol.Protocol.Json.{null}
use harness_control_protocol.Protocol.Event.{
  Event, Snapshot, snapshot_bytes, complete, partial, no_reason, retention_gap, range_ok, events_ok,
  last_is, starts_ok,
}

abbrev pub event_at : String → ℕ → String → Event
event_at id n kind = record {
  session_id = id;
  turn_id = none;
  sequence = n;
  event_type = kind;
  created_at = "2026-01-01T00:00:00.000Z";
  payload = null;
  raw = none;
}

abbrev pub session : String
session = "s"

abbrev pub other_session : String
other_session = "t"

abbrev pub started : Event
started = event_at "s" 1 "session.started"

abbrev pub delta : Event
delta = event_at "s" 2 "assistant.delta"

abbrev pub exited : Event
exited = event_at "s" 3 "session.exited"

abbrev pub elsewhere : Event
elsewhere = event_at "t" 1 "session.started"

abbrev pub source : List Event
source = started ∷ delta ∷ exited ∷ []

abbrev pub whole_session : Snapshot
whole_session = record {
  command_id = "c";
  session_id = "s";
  generated_at = "2026-01-01T00:00:00.000Z";
  completeness = complete;
  reason = no_reason;
  from_sequence = 1;
  through_sequence = 3;
  events = source;
  tombstones = [];
}

abbrev pub end_of_session : Snapshot
end_of_session = record whole_session {
  completeness = partial;
  reason = retention_gap;
  from_sequence = 2;
  events = drop 1 source;
}

pub whole_ok : range_ok whole_session ≡ true
unfolding range_ok events_ok last_is starts_ok string_eq nat_eq ℕ_discrete
whole_ok = refl

pub end_ok : range_ok end_of_session ≡ true
unfolding range_ok events_ok last_is starts_ok string_eq nat_eq ℕ_discrete
end_ok = refl

pub whole_session_bytes : snapshot_bytes whole_session ≡ 544
unfolding snapshot_bytes nat_eq ℕ_discrete
whole_session_bytes = refl
