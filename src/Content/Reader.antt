-- ===== src/Content/Reader.antt =====
-- packages/hcp-sdk/src/content.ts: readHcpContent. Numbers of the options are natural. `Calls` is what
-- it calls: the abort signal, asked at each place where the code asks it, the callback, which may
-- answer its calls as it likes, the digest of the platform, and JSON.parse.
pub mod Verified
pub mod Serving
use harness_control_protocol.Base.{
  ℕ, zero, suc, ◌+◌, ◌-◌, ◌/◌, ◌*◌, String, ◌≡◌, ◌≢◌, refl, ap, Bool, true, false, not, ◌&&◌, ◌||◌,
  Option, none, some, List, [], ◌∷◌, ◌++◌, leb, ltb, ◌==◌, if◌then◌else◌, nat_eq, string_eq, length,
  take, drop, Result, ok, err, throw_if, ◌>>=◌, ◌>>◌, max, arith,
}
use harness_control_protocol.Base.Utf8.{decode}
use harness_control_protocol.Protocol.Json.{Json}
use harness_control_protocol.Content.{
  Format, text_format, json_format, Reference, Chunk, max_object, max_chunk, reference_ok, chunk_ok,
  same_reference,
}

pub data ReadReason : Type 0 where
  limit reference_changed offset_changed integrity invalid_utf8 invalid_json
        verification_unavailable :
      ReadReason

-- What readHcpContent rejects with: its own error, the signal's, that of a schema, the callback's,
-- and the range error of `bytes.set`.
pub data Failure : Type 0 where
  content_read : ReadReason → Failure
  was_aborted schema_rejected out_of_range : Failure
  read_rejected : String → Failure

pub record Options : Type 0 where
  pub max_bytes : Option ℕ
  pub max_chunks : Option ℕ
  pub chunk_size : Option ℕ

pub data Moment : Type 0 where
  at_start after_digest : Moment
  before_read after_read : ℕ → Moment

pub record Calls : Type 0 where
  pub aborted : Moment → Bool
  pub read : ℕ → ℕ → ℕ → Result String Chunk
  pub digest : Option (List ℕ → Option String)
  pub parse_json : List ℕ → Option Json

-- HcpCompleteContent, its text by code points.
pub data Complete : Type 0 where
  complete_text : Reference → List ℕ → Complete
  complete_json : Reference → Json → Complete

abbrev pub or_default : Option ℕ → ℕ → ℕ
or_default none d = d
or_default (some n) d = n

-- Math.ceil(n / size)
unfoldable pub ceil_div : ℕ → ℕ → ℕ
ceil_div n size = (n + (size - 1)) / size

abbrev in_range : ℕ → ℕ → Bool
in_range value maximum = leb 1 value && leb value maximum

check_abort : Calls → Moment → Result Failure (Unit {0})
check_abort calls moment = throw_if (calls.aborted moment) was_aborted

unfoldable pub parse_reference : Reference → Result Failure Reference
parse_reference r = if reference_ok r then ok r else err schema_rejected

unfoldable pub parse_chunk : Result String Chunk → Result Failure Chunk
parse_chunk (err thrown) = err (read_rejected thrown)
parse_chunk (ok chunk) = if chunk_ok chunk then ok chunk else err schema_rejected

-- bytes.set(decoded, offset)
unfoldable pub set_bytes : List ℕ → ℕ → List ℕ → Result Failure (List ℕ)
set_bytes bytes offset decoded =
    if ltb (length bytes) (offset + length decoded)
    then err out_of_range
    else ok (take offset bytes ++ (decoded ++ drop (offset + length decoded) bytes))

-- The loop's variables.
pub record Progress : Type 0 where
  pub bytes : List ℕ
  pub offset : ℕ
  pub is_complete : Bool

pub zeros : ℕ → List ℕ
zeros zero = []
zeros (suc n) = 0 ∷ zeros n

-- What a round does with its chunk, up to the test whether the chunk is the last.
unfoldable pub place_chunk : Reference → ℕ → Progress → Chunk → Result Failure (Progress × Option ℕ)
place_chunk expected chunk_size p chunk = do
  throw_if (not (same_reference chunk.reference expected)) (content_read reference_changed)
  throw_if (not (chunk.offset == p.offset)) (content_read offset_changed)
  throw_if (ltb chunk_size (length chunk.bytes)) (content_read limit)
  bytes ← set_bytes p.bytes p.offset chunk.bytes
  ok (record p { bytes = bytes; offset = p.offset + length chunk.bytes }, chunk.next_offset)

unfoldable pub take_chunk :
    Calls → Reference → ℕ → ℕ → Progress → Result Failure (Progress × Option ℕ)
unfolding check_abort place_chunk
take_chunk calls expected chunk_size count p = do
  check_abort calls (before_read count)
  chunk ← parse_chunk (calls.read count p.offset chunk_size)
  check_abort calls (after_read count)
  place_chunk expected chunk_size p chunk

-- The loop, with the number of rounds that are left and the number of the round.
unfoldable pub read_chunks : Calls → Reference → ℕ → ℕ → ℕ → Progress → Result Failure Progress
read_chunks calls expected chunk_size zero count p = ok p
read_chunks calls expected chunk_size (suc left) count p =
    elim (take_chunk calls expected chunk_size count p) [
      | err thrown ↦ err thrown
      | ok (next, none) ↦ ok (record next { is_complete = true })
      | ok (next, some _) ↦ read_chunks calls expected chunk_size left (suc count) next
    ]

abbrev available {ℓ} : {A : Type ℓ} → Option A → Result Failure A
available none = err (content_read verification_unavailable)
available (some a) = ok a

-- What follows the loop.
unfoldable pub verify :
    Calls → (List ℕ → Option String) → Reference → Progress → Result Failure (List ℕ)
unfolding check_abort
verify calls digest expected p = do
  throw_if (not p.is_complete || not (p.offset == expected.byte_length)) (content_read limit)
  hash ← available (digest p.bytes)
  check_abort calls after_digest
  throw_if (not (hash == expected.sha256)) (content_read integrity)
  ok p.bytes

decode_text : List ℕ → Result Failure (List ℕ)
decode_text bytes = elim (decode bytes) [ none ↦ err (content_read invalid_utf8) | some cs ↦ ok cs ]

unfoldable pub decoded : Calls → Reference → List ℕ → Result Failure Complete
decoded calls expected cs = elim expected.format [
  | text_format ↦ ok (complete_text expected cs)
  | json_format ↦ elim (calls.parse_json cs) [
    | none ↦ err (content_read invalid_json)
    | some value ↦ ok (complete_json expected value)
  ]
]

unfoldable pub limits_ok : Reference → ℕ → ℕ → ℕ → Bool
unfolding ceil_div max_object max_chunk
limits_ok expected max_bytes max_chunks chunk_size =
    in_range max_bytes max_object
    && in_range max_chunks 8192
    && in_range chunk_size max_chunk
    && leb expected.byte_length max_bytes
    && leb (max 1 (ceil_div expected.byte_length chunk_size)) max_chunks

unfoldable pub fresh : Reference → Progress
unfolding zeros
fresh expected = record { bytes = zeros expected.byte_length; offset = 0; is_complete = false }

unfoldable pub finish_read :
    Calls → (List ℕ → Option String) → Reference → Progress → Result Failure Complete
unfolding verify decode_text decoded
finish_read calls digest expected p = do
  bytes ← verify calls digest expected p
  cs ← decode_text bytes
  decoded calls expected cs

unfoldable pub read_object : Calls → Reference → ℕ → ℕ → Result Failure Complete
unfolding read_chunks fresh finish_read
read_object calls expected chunk_size max_chunks = do
  digest ← available calls.digest
  p ← read_chunks calls expected chunk_size max_chunks 0 (fresh expected)
  finish_read calls digest expected p

unfoldable pub read_hcp_content : Calls → Reference → Options → Result Failure Complete
unfolding check_abort parse_reference limits_ok read_object
read_hcp_content calls reference options = do
  check_abort calls at_start
  expected ← parse_reference reference
  let chunk_size = or_default options.chunk_size max_chunk
  let max_chunks = or_default options.max_chunks 2048
  throw_if
      (not (limits_ok expected (or_default options.max_bytes max_object) max_chunks chunk_size))
      (content_read limit)
  read_object calls expected chunk_size max_chunks
