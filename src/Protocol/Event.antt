-- ===== src/Protocol/Event.antt =====
-- Harness events and session snapshots (packages/hcp-protocol/src/index.ts), with
-- hcpSessionSnapshotPayloadSchema. The per-type schemas of `data` are not modelled: an event's data
-- and raw diagnostics are arbitrary JSON.
-- The field `data` is `payload` here, since `data` is a reserved word.
pub mod Samples
use harness_control_protocol.Base.{
  ℕ, suc, String, ◌≡◌, Bool, true, false, not, ◌&&◌, ◌||◌, all, Option, none, some, List, [], ◌∷◌,
  leb, ◌==◌, nat_eq, string_eq, get_last?, arith, refl, Collation.Collation,
}
use harness_control_protocol.Protocol.Json.{
  Json, whole, text, arr, obj, Items, nil, cons, Fields, end, field, canonical, stringify,
  utf8_bytes,
}

pub record Event : Type 0 where
  pub session_id : String
  pub turn_id : Option String
  pub sequence : ℕ
  pub event_type : String
  pub created_at : String
  pub payload : Json
  pub raw : Option Json

pub data Completeness : Type 0 where
  complete partial : Completeness

-- The `reason` of a partial snapshot; a complete one has none.
pub data Reason : Type 0 where
  no_reason retention_gap size_limit : Reason

pub record Tombstone : Type 0 where
  pub entity_type : String
  pub entity_id : String
  pub deleted_at : String

pub record Snapshot : Type 0 where
  pub command_id : String
  pub session_id : String
  pub generated_at : String
  pub completeness : Completeness
  pub reason : Reason
  pub from_sequence : ℕ
  pub through_sequence : ℕ
  pub events : List Event
  pub tombstones : List Tombstone

optional : String → Option Json → Fields → Fields
optional key none fs = fs
optional key (some v) fs = field key v fs

text_of : Option String → Option Json
text_of none = none
text_of (some s) = some (text s)

-- The event as the object that is printed.
pub event_json : Event → Json
unfolding optional text_of
event_json e = obj (
    field "session_id" (text e.session_id) (
      optional "turn_id" (text_of e.turn_id) (
        field "sequence" (whole e.sequence) (
          field "event_type" (text e.event_type) (
            field "created_at" (text e.created_at)
              (field "data" e.payload (optional "raw" e.raw end)))))))

unfoldable pub texts_equal : List ℕ → List ℕ → Bool
texts_equal [] [] = true
texts_equal (x ∷ xs) (y ∷ ys) = x == y && texts_equal xs ys
texts_equal _ _ = false

-- canonicalStringify(a) === canonicalStringify(b)
unfoldable pub same_event : Collation → Event → Event → Bool
unfolding texts_equal event_json canonical
same_event locale a b =
    texts_equal (canonical locale (event_json a)) (canonical locale (event_json b))

pub texts_equal_refl : (xs : List ℕ) → texts_equal xs xs ≡ true
unfolding texts_equal
texts_equal_refl [] = refl
texts_equal_refl (x ∷ xs) = ground (arith, texts_equal_refl xs)

pub same_event_refl : (locale : Collation) (e : Event) → same_event locale e e ≡ true
same_event_refl locale e = unfold same_event in texts_equal_refl (canonical locale (event_json e))

-- The loop over `snapshot.events` of the schema: each event has the snapshot's session and the
-- sequence that its place asks for.
unfoldable pub events_ok : String → ℕ → List Event → Bool
events_ok session_id expected [] = true
events_ok session_id expected (e ∷ es) =
    e.session_id == session_id && e.sequence == expected && events_ok session_id (suc expected) es

unfoldable pub last_is : Option Event → ℕ → Bool
last_is none n = false
last_is (some e) n = e.sequence == n

unfoldable pub starts_ok : Completeness → ℕ → Bool
starts_ok complete n = n == 1
starts_ok partial n = leb 1 n

-- The bounds of the range, with the refinement of the schema.
unfoldable pub range_ok : Snapshot → Bool
unfolding events_ok last_is starts_ok
range_ok s =
    starts_ok s.completeness s.from_sequence
    && leb s.from_sequence s.through_sequence
    && events_ok s.session_id s.from_sequence s.events
    && last_is (get_last? s.events) s.through_sequence

-- What the schema asks of single texts and events: `timestampSchema`, and the schema of an event by
-- its type, which is not modelled.
pub record Formats : Type 0 where
  pub is_timestamp : String → Bool
  pub is_event : Event → Bool

-- The two objects of the discriminated union are strict: only a partial snapshot has a reason.
unfoldable pub reason_ok : Completeness → Reason → Bool
reason_ok complete no_reason = true
reason_ok partial retention_gap = true
reason_ok partial size_limit = true
reason_ok _ _ = false

unfoldable pub tombstone_ok : Formats → Tombstone → Bool
tombstone_ok formats t =
    (t.entity_type == "session" || t.entity_type == "turn" || t.entity_type == "item")
    && not (t.entity_id == "")
    && formats.is_timestamp t.deleted_at

-- hcpSessionSnapshotPayloadSchema; a snapshot's omission_semantics is printed from its completeness.
unfoldable pub snapshot_ok : Formats → Snapshot → Bool
unfolding reason_ok tombstone_ok range_ok
snapshot_ok formats s =
    not (s.command_id == "")
    && not (s.session_id == "")
    && formats.is_timestamp s.generated_at
    && all formats.is_event s.events
    && all (tombstone_ok formats) s.tombstones
    && reason_ok s.completeness s.reason
    && range_ok s

-- The names that the printed snapshot uses.
completeness_text : Completeness → String
completeness_text complete = "complete"
completeness_text partial = "partial"

omission_text : Completeness → String
omission_text complete = "replace"
omission_text partial = "preserve"

reason_text : Reason → Option String
reason_text no_reason = none
reason_text retention_gap = some "retention_gap"
reason_text size_limit = some "size_limit"

event_items : List Event → Items
event_items [] = nil
event_items (e ∷ es) = cons (event_json e) (event_items es)

tombstone_items : List Tombstone → Items
tombstone_items [] = nil
tombstone_items (t ∷ ts) =
    cons
      (obj (
        field "entity_type" (text t.entity_type)
          (field "entity_id" (text t.entity_id) (field "deleted_at" (text t.deleted_at) end))))
      (tombstone_items ts)

pub snapshot_json : Snapshot → Json
unfolding event_items tombstone_items completeness_text omission_text reason_text optional text_of
snapshot_json s = obj (
    field "command_id" (text s.command_id) (
      field "session_id" (text s.session_id) (
        field "generated_at" (text s.generated_at) (
          field "from_sequence" (whole s.from_sequence) (
            field "through_sequence" (whole s.through_sequence) (
              field "events" (arr (event_items s.events)) (
                field "tombstones" (arr (tombstone_items s.tombstones)) (
                  field "completeness" (text (completeness_text s.completeness)) (
                    field "omission_semantics" (text (omission_text s.completeness))
                      (optional "reason" (text_of (reason_text s.reason)) end))))))))))

-- Buffer.byteLength(JSON.stringify(snapshot), "utf8")
unfoldable pub snapshot_bytes : Snapshot → ℕ
unfolding snapshot_json event_json stringify utf8_bytes
snapshot_bytes s = utf8_bytes (stringify (snapshot_json s))
