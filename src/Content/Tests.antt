-- ===== src/Content/Tests.antt =====
-- A published note, read back one byte at a time, and the theorems applied to it.
use harness_control_protocol.Base.{
  ℕ, String, ◌≡◌, refl, Option, none, some, List, [], ◌∷◌, ltb, if◌then◌else◌, length, ok, nat_eq,
  string_eq, option_eq, ℕ_discrete, inl, inr, arith,
}
use harness_control_protocol.Base.Utf8.{encode, encode_point, scalar, decode}
use harness_control_protocol.Base.Sort.{sort}
use harness_control_protocol.Base.Dict.{insert, lookup}
use harness_control_protocol.Protocol.Json.{Json, text}
use harness_control_protocol.Content.{
  text_format, Reference, reference_ok, chunk_ok, same_reference,
}
use harness_control_protocol.Content.Store.{
  Scope, Store, text_of, format_of, serializable, Platform, open_content_store, publish, read,
}
use harness_control_protocol.Content.Reader.{
  Options, Calls, complete_text, take_chunk, parse_chunk, set_bytes, limits_ok, read_hcp_content,
}
use harness_control_protocol.Content.Reader.Verified.{IsVerified, read_hcp_content-IsVerified}
use harness_control_protocol.Content.Quota.{IsWithin, open_content_store-IsWithin, publish-IsWithin}
use harness_control_protocol.Content.Served.{served, publish-read_hcp_content, received}

hash_a : String
hash_a = "aaaaaaaaaaaaaaaaaaaaaaaaaaaaaaaaaaaaaaaaaaaaaaaaaaaaaaaaaaaaaaaa"

hash_b : String
hash_b = "bbbbbbbbbbbbbbbbbbbbbbbbbbbbbbbbbbbbbbbbbbbbbbbbbbbbbbbbbbbbbbbb"

-- A stand-in for the digest.
abbrev platform : Platform
platform = record {
  sha256 = λ bytes. if ltb (length bytes) 5 then hash_a else hash_b;
  iso = λ ms. "2026-10-08T00:00:00.000Z";
}

abbrev no_json : List ℕ → Option Json
no_json cs = none

abbrev scope : Scope
scope = record {
  session_id = "s";
  provider_instance_id = "p";
  provider_binding_hash = "b";
  workspace_id = "w";
  cwd = "/w";
}

abbrev note_text : String
note_text = "Hé世🙂"

abbrev note : List ℕ
note = 0x48 ∷ 0xE9 ∷ 0x4E16 ∷ 0x1F642 ∷ []

abbrev empty_store : Store
empty_store = record { max_object_bytes = 1000; max_total_bytes = 2000; entries = [] }

abbrev note_reference : Reference
note_reference = record {
  content_id = hash_a;
  sha256 = hash_b;
  byte_length = 10;
  format = text_format;
  expires_at = record { iso = "2026-10-08T00:00:00.000Z"; ms = 86400005 };
}

abbrev with_note : Store
with_note = record empty_store {
  entries =
      (hash_a, record { scope = scope; reference = note_reference; bytes = encode note }) ∷ [];
}

opened : open_content_store (some 1000) (some 2000) ≡ ok empty_store
unfolding open_content_store
opened = refl

note_published :
    publish platform scope (serializable (text note_text)) "i" 5 empty_store
    ≡ (with_note, ok note_reference)
unfolding publish hash_a hash_b encode encode_point scalar reference_ok nat_eq ℕ_discrete sort
    insert
note_published = refl

abbrev one_by_one : Options
one_by_one = record { max_bytes = none; max_chunks = some 10; chunk_size = some 1 }

publish-read_hcp_content_example :
    read_hcp_content
      (served platform no_json scope note_reference with_note (λ k. 6))
      note_reference
      one_by_one
    ≡ ok (complete_text note_reference note)
unfolding limits_ok received text_of format_of
publish-read_hcp_content_example =
    publish-read_hcp_content platform no_json scope (text note_text) "i" 5 empty_store with_note
      note_reference (λ k. 6) one_by_one note_published
      (
        inl (omega arith),
        (inl (omega arith), (inl (omega arith), (inr (omega arith, omega arith), tt))),
      )
      tt (λ k. omega arith) refl

abbrev note_calls : Calls
note_calls = served platform no_json scope note_reference with_note (λ k. 6)

note_read :
    read_hcp_content note_calls note_reference one_by_one ≡ ok (complete_text note_reference note)
unfolding read_hcp_content served hash_a hash_b reference_ok nat_eq ℕ_discrete take_chunk
    parse_chunk read lookup string_eq chunk_ok encode encode_point scalar same_reference set_bytes
    decode
note_read = refl

read_hcp_content-IsVerified_example :
    IsVerified note_calls note_reference (complete_text note_reference note)
read_hcp_content-IsVerified_example =
    read_hcp_content-IsVerified note_calls note_reference one_by_one note_read

publish-IsWithin_example :
    IsWithin (publish platform scope (serializable (text note_text)) "i" 5 empty_store).0
publish-IsWithin_example =
    publish-IsWithin platform scope (serializable (text note_text)) "i" 5 empty_store
      (open_content_store-IsWithin (some 1000) (some 2000) empty_store opened)
