-- ===== src/Content.antt =====
-- Complete content: references and chunks (packages/hcp-protocol/src/content.ts), the runner's store
-- of retained content (packages/hcp-runner/src/harnesses/content-store.ts) and the SDK's verified
-- reader of it (packages/hcp-sdk/src/content.ts).
-- A chunk's data_base64 stands for the bytes that it encodes. SHA-256 is a parameter.
pub mod Store
pub mod Reader
pub mod Served
pub mod Quota
mod Tests
use harness_control_protocol.Base.{
  ℕ, ◌+◌, ◌*◌, String, Bool, true, false, not, ◌&&◌, ◌||◌, Option, none, some, List, leb, ltb, ◌==◌,
  if◌then◌else◌, nat_eq, string_eq, option_eq, length, all,
}
use harness_control_protocol.Base.Collation.{codes}
use harness_control_protocol.Accounts.{Timestamp}

pub data Format : Type 0 where
  text_format json_format : Format

-- HarnessContentReference; expires_at is a text with the instant that it names.
pub record Reference : Type 0 where
  pub content_id : String
  pub sha256 : String
  pub byte_length : ℕ
  pub format : Format
  pub expires_at : Timestamp

-- HarnessContentChunk
pub record Chunk : Type 0 where
  pub reference : Reference
  pub offset : ℕ
  pub bytes : List ℕ
  pub next_offset : Option ℕ

-- HARNESS_CONTENT_MAX_BYTES and HARNESS_CONTENT_STORE_MAX_BYTES
unfoldable pub max_object : ℕ
max_object = 128 * 1024 * 1024

unfoldable pub max_store : ℕ
max_store = 512 * 1024 * 1024

unfoldable pub max_chunk : ℕ
max_chunk = 64 * 1024

is_hex : ℕ → Bool
is_hex c = leb b'a' c && leb c b'f' || leb b'0' c && leb c b'9'

-- /^[a-f0-9]{64}$/
unfoldable pub is_digest : String → Bool
unfolding is_hex
is_digest s = length (codes s) == 64 && all is_hex (codes s)

-- harnessContentReferenceSchema
unfoldable pub reference_ok : Reference → Bool
unfolding is_digest max_object
reference_ok r = is_digest r.content_id && is_digest r.sha256 && leb r.byte_length max_object

-- The chunk's refinement: a chunk before the end is not empty and says where the next one starts.
unfoldable pub continues_ok : ℕ → ℕ → ℕ → Option ℕ → Bool
unfolding option_eq
continues_ok size end whole next =
    if ltb end whole then not (size == 0) && next == some end else next == none

-- harnessContentChunkSchema. The bounds on the base64 text and on next_offset follow from those on
-- the bytes.
unfoldable pub chunk_ok : Chunk → Bool
unfolding reference_ok continues_ok max_chunk max_object
chunk_ok c =
    let size = length c.bytes in
    let end = c.offset + size in
    reference_ok c.reference
    && leb c.offset max_object
    && leb size max_chunk
    && leb end c.reference.byte_length
    && continues_ok size end c.reference.byte_length c.next_offset

unfoldable pub same_format : Format → Format → Bool
same_format text_format text_format = true
same_format json_format json_format = true
same_format _ _ = false

-- JSON.stringify(a) === JSON.stringify(b), of two parsed references.
unfoldable pub same_reference : Reference → Reference → Bool
unfolding same_format
same_reference a b =
    a.content_id == b.content_id
    && a.sha256 == b.sha256
    && a.byte_length == b.byte_length
    && same_format a.format b.format
    && a.expires_at.iso == b.expires_at.iso
