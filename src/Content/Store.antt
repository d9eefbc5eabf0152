-- ===== src/Content/Store.antt =====
-- packages/hcp-runner/src/harnesses/content-store.ts: BoundedHarnessContentStore without a directory,
-- which keeps its objects in memory. `now` is this.now(); a method that changes the store returns it.
use harness_control_protocol.Base.{
  ℕ, ◌+◌, ◌-◌, ◌*◌, String, Bool, true, false, not, ◌&&◌, ◌||◌, Option, none, some, List, [], ◌∷◌,
  ◌++◌, leb, ltb, ◌==◌, if◌then◌else◌, nat_eq, string_eq, length, take, drop, Result, ok, err,
  throw_if, ◌>>=◌, ◌>>◌, min,
}
use harness_control_protocol.Base.Collation.{codes}
use harness_control_protocol.Base.Dict.{Dict, lookup, insert, erase, values}
use harness_control_protocol.Base.Weights.{sum_of}
use harness_control_protocol.Base.Sort.{sort}
use harness_control_protocol.Base.Utf8.{encode}
use harness_control_protocol.Protocol.Json.{Json, text, stringify}
use harness_control_protocol.Content.{
  Format, text_format, json_format, Reference, Chunk, max_object, max_store, max_chunk, is_digest,
  reference_ok,
}

-- HarnessContentScope
pub record Scope : Type 0 where
  pub session_id : String
  pub provider_instance_id : String
  pub provider_binding_hash : String
  pub workspace_id : String
  pub cwd : String

pub record Entry : Type 0 where
  pub scope : Scope
  pub reference : Reference
  pub bytes : List ℕ

pub record Store : Type 0 where
  pub max_object_bytes : ℕ
  pub max_total_bytes : ℕ
  pub entries : Dict String Entry

-- HarnessAdapterError, its text left out.
pub data StoreError : Type 0 where
  content_limit content_invalid content_unavailable content_range_invalid metadata_rejected :
      StoreError

-- What a harness publishes: a JSON value, a text among them, or what JSON.stringify refuses.
pub data Published : Type 0 where
  serializable : Json → Published
  unserializable : Published

-- The platform: createHash("sha256"), and toISOString of an instant.
pub record Platform : Type 0 where
  pub sha256 : List ℕ → String
  pub iso : ℕ → String

abbrev or_default : Option ℕ → ℕ → ℕ
or_default none d = d
or_default (some n) d = n

unfoldable pub open_content_store : Option ℕ → Option ℕ → Result StoreError Store
unfolding max_object max_store
open_content_store object_limit total_limit =
    let object = or_default object_limit max_object in
    let total = or_default total_limit max_store in
    if leb 1 object && leb object max_object && leb object total && leb total max_store
    then ok (record { max_object_bytes = object; max_total_bytes = total; entries = [] })
    else err content_limit

abbrev pub expiry : Entry → ℕ
expiry e = e.reference.expires_at.ms

abbrev pub byte_length : Entry → ℕ
byte_length e = e.reference.byte_length

abbrev pub total_bytes : List Entry → ℕ
total_bytes = sum_of byte_length

abbrev pub expires_before : String × Entry → String × Entry → Bool
expires_before (_, a) (_, b) = leb (expiry a) (expiry b)

-- The test of #prune that keeps an entry.
unfoldable pub can_stay : ℕ → ℕ → ℕ → Entry → Store → Bool
can_stay now incoming size e st =
    ltb now (expiry e) && leb (size + incoming) st.max_total_bytes && ltb (length st.entries) 1024

abbrev pub evict : String → Store → Store
evict id st = record st { entries = erase id st.entries }

-- The loop of #prune over the entries, those that expire first before the others.
unfoldable pub prune_each : ℕ → ℕ → Dict String Entry → ℕ → Store → Store
unfolding can_stay
prune_each now incoming [] size st = st
prune_each now incoming ((id, e) ∷ rest) size st = elim (can_stay now incoming size e st) [
  | true ↦ prune_each now incoming rest size st
  | false ↦ prune_each now incoming rest (size - byte_length e) (evict id st)
]

unfoldable pub prune : ℕ → ℕ → Store → Store
unfolding prune_each
prune now incoming st =
    prune_each now incoming (sort expires_before st.entries) (total_bytes (values st.entries)) st

-- typeof value === "string" ? value : JSON.stringify(value)
unfoldable pub text_of : Json → List ℕ
text_of (text s) = codes s
text_of value = stringify value

unfoldable pub format_of : Json → Format
format_of (text s) = text_format
format_of _ = json_format

-- `id` is randomUUID().
unfoldable pub new_reference : Platform → Scope → String → ℕ → Format → List ℕ → Reference
new_reference platform scope id now format bytes = record {
  content_id = platform.sha256 (encode (codes scope.session_id) ++ encode (codes id));
  sha256 = platform.sha256 bytes;
  byte_length = length bytes;
  format = format;
  expires_at = record { iso = platform.iso (now + 24 * 60 * 60000); ms = now + 24 * 60 * 60000 };
}

-- The end of publish. The schema of the metadata rejects a digest that is none.
unfoldable pub keep_entry : Scope → Reference → List ℕ → Store → Store × Result StoreError Reference
keep_entry scope reference bytes st =
    let entry : Entry = record { scope = scope; reference = reference; bytes = bytes } in
    if reference_ok reference
    then (record st { entries = insert reference.content_id entry st.entries }, ok reference)
    else (st, err metadata_rejected)

-- What publish does with the encoded value.
unfoldable pub publish_text :
    Platform → Scope → Format → List ℕ → String → ℕ → Store → Store × Result StoreError Reference
unfolding prune new_reference keep_entry
publish_text platform scope format cs id now st =
    let bytes = encode cs in
    if ltb st.max_object_bytes (length bytes)
    then (st, err content_limit)
    else keep_entry scope (new_reference platform scope id now format bytes) bytes
        (prune now (length bytes) st)

unfoldable pub publish :
    Platform → Scope → Published → String → ℕ → Store → Store × Result StoreError Reference
unfolding text_of format_of publish_text
publish platform scope (serializable value) id now st =
    publish_text platform scope (format_of value) (text_of value) id now st
publish platform scope unserializable id now st = (st, err content_invalid)

usable : String → ℕ → Option Entry → Result StoreError Entry
usable session_id now none = err content_unavailable
usable session_id now (some e) =
    if not (e.scope.session_id == session_id) || leb (expiry e) now
    then err content_unavailable
    else ok e

-- #require
unfoldable pub require_entry : String → String → ℕ → Store → Result StoreError Entry
unfolding usable is_digest
require_entry session_id content_id now st = do
  throw_if (not (is_digest content_id)) content_unavailable
  usable session_id now (lookup content_id st.entries)

unfoldable pub scope_of : String → String → ℕ → Store → Result StoreError Scope
unfolding require_entry
scope_of session_id content_id now st =
    require_entry session_id content_id now st >>= λ e. ok e.scope

unfoldable pub chunk_of : Entry → ℕ → ℕ → Chunk
chunk_of e offset limit =
    let end = min (byte_length e) (offset + limit) in
    record {
      reference = e.reference;
      offset = offset;
      bytes = take (end - offset) (drop offset e.bytes);
      next_offset = if ltb end (byte_length e) then some end else none;
    }

unfoldable pub read : String → String → ℕ → ℕ → ℕ → Store → Result StoreError Chunk
unfolding require_entry chunk_of max_chunk
read session_id content_id offset limit now st = do
  throw_if (not (leb 1 limit && leb limit max_chunk)) content_range_invalid
  e ← require_entry session_id content_id now st
  throw_if (ltb (byte_length e) offset) content_range_invalid
  ok (chunk_of e offset limit)
