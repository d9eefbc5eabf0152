-- ===== src/Content/Served.antt =====
-- What the runner's store has published, the SDK's reader gets back: the store's read answers the
-- reader's calls, over a transport that delivers.
use harness_control_protocol.Base.{
  ℕ, ◌≤◌, ◌<◌, String, ◌≡◌, refl, ap, sym, subst, ◌∙◌, Bool-cases, inl, inr, ltb, true, false,
  Option, some, List, nat_eq, string_eq, length, All, Result, ok, err, arith,
}
use harness_control_protocol.Base.Dict.{lookup, insert, lookup-insert_self}
use harness_control_protocol.Base.Utf8.{encode, decode-encode, IsScalar}
use harness_control_protocol.Protocol.Json.{Json}
use harness_control_protocol.Content.{
  Format, text_format, json_format, Reference, Chunk, max_object, max_chunk, is_digest,
  reference_ok,
}
use harness_control_protocol.Content.Store.{
  Scope, Entry, Store, StoreError, serializable, text_of, format_of, keep_entry, Platform,
  byte_length, expiry, prune, new_reference, publish_text, publish, require_entry, chunk_of, read,
}
use harness_control_protocol.Content.Reader.{
  Options, Calls, Complete, complete_text, complete_json, or_default, limits_ok, read_hcp_content,
  decoded,
}
use harness_control_protocol.Content.Reader.Serving.{Serves, IsMeasured, read_hcp_content-serves}

to_read : Result StoreError Chunk → Result String Chunk
to_read (err _) = err "read failed"
to_read (ok chunk) = ok chunk

-- What the reader calls: the store answers the k-th call at clock k.
unfoldable pub served :
    Platform → (List ℕ → Option Json) → Scope → Reference → Store → (ℕ → ℕ) → Calls
unfolding to_read
served platform parse_json scope reference st clock = record {
  aborted = λ _. false;
  read = λ k offset limit.
      to_read (read scope.session_id reference.content_id offset limit (clock k) st);
  digest = some (λ bytes. some (platform.sha256 bytes));
  parse_json = parse_json;
}

read-chunk_of :
    (session_id content_id : String) (offset limit now : ℕ) (st : Store) (e : Entry)
    → is_digest content_id ≡ true
    → lookup content_id st.entries ≡ some e
    → e.scope.session_id ≡ session_id
    → now < expiry e
    → 1 ≤ limit
    → limit ≤ 65536
    → offset ≤ byte_length e
    → read session_id content_id offset limit now st ≡ ok (chunk_of e offset limit)
unfolding read require_entry max_chunk
read-chunk_of session_id content_id offset limit now st e digest found owner live low high within =
    ground (arith, digest, found)

-- The entry that a publication leaves.
abbrev entry_of : Scope → Reference → List ℕ → Entry
entry_of scope reference text = record { scope = scope; reference = reference; bytes = encode text }

record IsPublished (platform : Platform) (scope : Scope) (reference : Reference) (text : List ℕ)
    (format : Format) (st : Store) : Type 0 where
  parsed : reference_ok reference ≡ true
  measured : reference.byte_length ≡ length (encode text)
  hashed : reference.sha256 ≡ platform.sha256 (encode text)
  formatted : reference.format ≡ format
  stored : lookup reference.content_id st.entries ≡ some (entry_of scope reference text)

keep_entry-IsPublished :
    (platform : Platform) (scope : Scope) (format : Format) (text : List ℕ) (id : String) (now : ℕ)
    (st after : Store) (made reference : Reference)
    → made ≡ new_reference platform scope id now format (encode text)
    → keep_entry scope made (encode text) st ≡ (after, ok reference)
    → IsPublished platform scope reference text format after
unfolding keep_entry
keep_entry-IsPublished platform scope format text id now st after made reference same h =
    let parsed : reference_ok made ≡ true = ground (arith, h) in
    let kept : reference ≡ made = ground (arith, h) in
    let stored : after
        ≡ record st { entries = insert made.content_id (entry_of scope made text) st.entries } =
      ground (arith, h) in
    subst (λ r. IsPublished platform scope r text format after) (sym kept)
      (record {
        parsed = parsed;
        measured = ap (λ r. r.byte_length) same ∙ unfold new_reference in refl;
        hashed = ap (λ r. r.sha256) same ∙ unfold new_reference in refl;
        formatted = ap (λ r. r.format) same ∙ unfold new_reference in refl;
        stored =
            ap (λ a. lookup made.content_id a.entries) stored
            ∙ lookup-insert_self made.content_id (entry_of scope made text) st.entries;
      })

publish_text-IsPublished :
    (platform : Platform) (scope : Scope) (format : Format) (text : List ℕ) (id : String) (now : ℕ)
    (st after : Store) (reference : Reference)
    → publish_text platform scope format text id now st ≡ (after, ok reference)
    → IsPublished platform scope reference text format after
unfolding publish_text
publish_text-IsPublished platform scope format text id now st after reference h =
    elim (Bool-cases (ltb st.max_object_bytes (length (encode text)))) [
      | inl large ↦ absurd (ground (arith, h, large))
      | inr small ↦
          let kept : keep_entry scope (new_reference platform scope id now format (encode text))
                (encode text) (prune now (length (encode text)) st)
              ≡ (after, ok reference) =
            ground (arith, h, small) in
          keep_entry-IsPublished platform scope format text id now
            (prune now (length (encode text)) st) after
            (new_reference platform scope id now format (encode text)) reference refl kept
    ]

-- The reader's result for a published value.
unfoldable pub received_as : Format → Reference → List ℕ → Json → Complete
received_as text_format reference cs value = complete_text reference cs
received_as json_format reference cs value = complete_json reference value

unfoldable pub received : Reference → Json → Complete
unfolding received_as text_of format_of
received reference value = received_as (format_of value) reference (text_of value) value

-- JSON.parse reads back what JSON.stringify has printed of this value, if it is no text.
abbrev pub ReadsBack : (List ℕ → Option Json) → Format → List ℕ → Json → Type 0
ReadsBack parse_json text_format cs value = Unit
ReadsBack parse_json json_format cs value = parse_json cs ≡ some value

decoded-received_as :
    (format : Format) (calls : Calls) (reference : Reference) (cs : List ℕ) (value : Json)
    → reference.format ≡ format
    → ReadsBack calls.parse_json format cs value
    → decoded calls reference cs ≡ ok (received_as format reference cs value)
unfolding received_as decoded
decoded-received_as text_format calls reference cs value h back = ground (arith, h)
decoded-received_as json_format calls reference cs value h back = ground (arith, h, back)

module _ (platform : Platform) (parse_json : List ℕ → Option Json) (scope : Scope)
    (reference : Reference) (text : List ℕ) (format : Format) (st : Store)
    (published : IsPublished platform scope reference text format st) (clock : ℕ → ℕ)
    (live : (k : ℕ) → clock k < reference.expires_at.ms) where
  calls : Calls
  calls = served platform parse_json scope reference st clock

  served-Serves :
      (size : ℕ) → 1 ≤ size → size ≤ 65536 → Serves calls (entry_of scope reference text) size
  unfolding calls served to_read
  served-Serves size low high = record {
    running = λ m. refl;
    answers = λ k offset within. ap to_read (
        read-chunk_of scope.session_id reference.content_id offset size (clock k) st
          (entry_of scope reference text) (unfold reference_ok in ground (arith, published.parsed))
          published.stored refl (live k) low high within);
  }

  published-IsMeasured : IsMeasured (entry_of scope reference text)
  published-IsMeasured = record { measured = sym published.measured; parsed = published.parsed }

  served-decoded :
      (options : Options)
      → All IsScalar text
      → limits_ok reference
          (or_default options.max_bytes max_object)
          (or_default options.max_chunks 2048)
          (or_default options.chunk_size max_chunk)
        ≡ true
      → read_hcp_content calls reference options ≡ decoded calls reference text
  served-decoded options scalars allowed =
      let size : ℕ = or_default options.chunk_size max_chunk in
      let low : 1 ≤ size = unfold limits_ok in ground arith in
      let high : size ≤ 65536 = unfold limits_ok in ground arith in
      read_hcp_content-serves (entry_of scope reference text) size published-IsMeasured low high
        calls (served-Serves size low high) (λ bytes. some (platform.sha256 bytes)) text options
        (unfold calls served in refl) (ap (λ hash. some hash) (sym published.hashed))
        (decode-encode text scalars) refl allowed

-- If publish keeps a JSON value, its text has no lone surrogate, JSON.parse reads back the text of
-- a value that is no string, the reference has not expired at any of the store's answers, and the
-- reader's limits admit the reference, then the loop of readHcpContent on read's answers ends
-- before its bound on the number of chunks, and the whole call returns the published string or
-- value.
pub publish-read_hcp_content :
    (platform : Platform) (parse_json : List ℕ → Option Json) (scope : Scope) (value : Json)
    (id : String) (now : ℕ) (st after : Store) (reference : Reference) (clock : ℕ → ℕ)
    (options : Options)
    → publish platform scope (serializable value) id now st ≡ (after, ok reference)
    → All IsScalar (text_of value)
    → ReadsBack parse_json (format_of value) (text_of value) value
    → ((k : ℕ) → clock k < reference.expires_at.ms)
    → limits_ok reference
        (or_default options.max_bytes max_object)
        (or_default options.max_chunks 2048)
        (or_default options.chunk_size max_chunk)
      ≡ true
    → read_hcp_content (served platform parse_json scope reference after clock) reference options
      ≡ ok (received reference value)
unfolding publish received served
publish-read_hcp_content platform parse_json scope value id now st after reference clock options h
      scalars back live allowed =
    let published =
      publish_text-IsPublished platform scope (format_of value) (text_of value) id now st after
        reference h in
    unfold calls in
    served-decoded platform parse_json scope reference (text_of value) (format_of value) after
      published clock live options scalars allowed
    ∙ decoded-received_as (format_of value) (served platform parse_json scope reference after clock)
        reference (text_of value) value published.formatted back
