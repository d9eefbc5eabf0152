-- ===== src/Content/Reader/Verified.antt =====
-- What readHcpContent has verified when it returns, for every callback.
use harness_control_protocol.Base.{
  ℕ, zero, suc, ◌+◌, String, ◌≡◌, refl, ap, subst, ◌∙◌, not, Option, none, some, List, ◌++◌, nat_eq,
  string_eq, length, length-append, length-take_le, length-drop, take, drop, Result, ok, ◌>>=◌,
  ◌>>◌, throw_if, >>=-eq-ok, >>-eq-ok, Result-cases, inl, inr, arith,
}
use harness_control_protocol.Base.Utf8.{decode}
use harness_control_protocol.Content.{Reference, Chunk, max_chunk, max_object}
use harness_control_protocol.Content.Reader.{
  Failure, Options, Calls, Complete, Progress, or_default, set_bytes, take_chunk, check_abort,
  before_read, after_read, place_chunk, read_chunks, finish_read, read_object, content_read, limit,
  parse_reference, decode_text, available, verify, decoded, limits_ok, fresh, zeros, parse_chunk,
  read_hcp_content,
}

length-set_bytes :
    (bytes : List ℕ) (offset : ℕ) (part : List ℕ) {out : List ℕ}
    → set_bytes bytes offset part ≡ ok out
    → length out ≡ length bytes
unfolding set_bytes
length-set_bytes bytes offset part h = ground (
  arith,
  length-append (take offset bytes) (part ++ drop (offset + length part) bytes),
  length-append part (drop (offset + length part) bytes),
  length-take_le offset bytes,
  length-drop (offset + length part) bytes,
)

length-place_chunk :
    (expected : Reference) (chunk_size : ℕ) (p : Progress) (chunk : Chunk)
    (out : Progress × Option ℕ)
    → place_chunk expected chunk_size p chunk ≡ ok out
    → length out.0.bytes ≡ length p.bytes
unfolding place_chunk
length-place_chunk expected chunk_size p chunk out h =
    elim (Result-cases (set_bytes p.bytes p.offset chunk.bytes)) [
      | inl (thrown, failed) ↦ absurd (ground (arith, failed))
      | inr (bytes, written) ↦
          ground (arith, length-set_bytes p.bytes p.offset chunk.bytes {out = bytes} written)
    ]

length-take_chunk :
    (calls : Calls) (expected : Reference) (chunk_size count : ℕ) (p : Progress)
    (out : Progress × Option ℕ)
    → take_chunk calls expected chunk_size count p ≡ ok out
    → length out.0.bytes ≡ length p.bytes
unfolding take_chunk
length-take_chunk calls expected chunk_size count p out h =
    let (_, reading) = >>-eq-ok (check_abort calls (before_read count)) _ h in
    let (chunk, _, running) =
      >>=-eq-ok (parse_chunk (calls.read count p.offset chunk_size))
        (λ chunk. check_abort calls (after_read count) >> place_chunk expected chunk_size p chunk)
        reading in
    let (_, placed) = >>-eq-ok (check_abort calls (after_read count)) _ running in
    length-place_chunk expected chunk_size p chunk out placed

length-read_chunks :
    (calls : Calls) (expected : Reference) (chunk_size left count : ℕ) (p : Progress)
    {out : Progress}
    → read_chunks calls expected chunk_size left count p ≡ ok out
    → length out.bytes ≡ length p.bytes
unfolding read_chunks
length-read_chunks calls expected chunk_size zero count p h = ground arith
length-read_chunks calls expected chunk_size (suc left) count p {out} h =
    elim (Result-cases (take_chunk calls expected chunk_size count p)) [
      | inl (thrown, failed) ↦ absurd (ground arith)
      | inr ((next, none), took) ↦
          ground (arith, length-take_chunk calls expected chunk_size count p (next, none) took)
      | inr ((next, some at), took) ↦ ground (
        arith,
        length-take_chunk calls expected chunk_size count p (next, some at) took,
        length-read_chunks calls expected chunk_size left (suc count) next {out = out},
      )
    ]

pub length-zeros : (n : ℕ) → length (zeros n) ≡ n
unfolding zeros
length-zeros zero = refl
length-zeros (suc n) = omega (arith, length-zeros n)

length-fresh : (r : Reference) → length (fresh r).bytes ≡ r.byte_length
unfolding fresh
length-fresh r = length-zeros r.byte_length

-- What a result has been checked for.
pub record IsVerified (calls : Calls) (reference : Reference) (out : Complete) : Type 0 where
  pub digest : List ℕ → Option String
  pub bytes : List ℕ
  pub text : List ℕ
  pub platform_digest : calls.digest ≡ some digest
  pub whole : length bytes ≡ reference.byte_length
  pub hashed : digest bytes ≡ some reference.sha256
  pub is_utf8 : decode bytes ≡ some text
  pub returned : decoded calls reference text ≡ ok out

verify-ok :
    (calls : Calls) (digest : List ℕ → Option String) (expected : Reference) (p : Progress)
    {bytes : List ℕ}
    → verify calls digest expected p ≡ ok bytes
    → (bytes ≡ p.bytes) × (digest p.bytes ≡ some expected.sha256)
unfolding verify
verify-ok calls digest expected p h = ground arith

parsed_reference : (r : Reference) {out : Reference} → parse_reference r ≡ ok out → out ≡ r
unfolding parse_reference
parsed_reference r h = ground arith

decoded_text : (bytes : List ℕ) {cs : List ℕ} → decode_text bytes ≡ ok cs → decode bytes ≡ some cs
unfolding decode_text
decoded_text bytes h = ground arith

platform_digest :
    {o : Option (List ℕ → Option String)} {digest : List ℕ → Option String}
    → available o ≡ ok digest
    → o ≡ some digest
platform_digest {o = none} h = absurd (ground arith)
platform_digest {o = some d} h = ground arith

decoded_bytes :
    (calls : Calls) (expected : Reference) (bytes : List ℕ) {out : Complete}
    → (decode_text bytes >>= decoded calls expected) ≡ ok out
    → (text : List ℕ) × (decode bytes ≡ some text) × (decoded calls expected text ≡ ok out)
decoded_bytes calls expected bytes h =
    let (text, found, returned) = >>=-eq-ok (decode_text bytes) (decoded calls expected) h in
    (text, decoded_text bytes found, returned)

finish_read-IsVerified :
    (calls : Calls) (digest : List ℕ → Option String) (expected : Reference) (p : Progress)
    {out : Complete}
    → calls.digest ≡ some digest
    → length p.bytes ≡ expected.byte_length
    → finish_read calls digest expected p ≡ ok out
    → IsVerified calls expected out
unfolding finish_read
finish_read-IsVerified calls digest expected p {out} found measured h =
    let (bytes, verified, decoding) =
      >>=-eq-ok (verify calls digest expected p)
        (λ bytes. decode_text bytes >>= decoded calls expected) h in
    let (same, hashed) = verify-ok calls digest expected p {bytes = bytes} verified in
    let (text, is_utf8, returned) = decoded_bytes calls expected bytes {out = out} decoding in
    record {
      digest = digest;
      bytes = bytes;
      text = text;
      platform_digest = found;
      whole = ap length same ∙ measured;
      hashed = ap digest same ∙ hashed;
      is_utf8 = is_utf8;
      returned = returned;
    }

read_object-IsVerified :
    (calls : Calls) (expected : Reference) (chunk_size max_chunks : ℕ) {out : Complete}
    → read_object calls expected chunk_size max_chunks ≡ ok out
    → IsVerified calls expected out
unfolding read_object
read_object-IsVerified calls expected chunk_size max_chunks {out} h =
    let chunks : Result Failure Progress =
      read_chunks calls expected chunk_size max_chunks 0 (fresh expected) in
    let (digest, found, reading) =
      >>=-eq-ok (available calls.digest)
        (λ digest. chunks >>= λ p. finish_read calls digest expected p) h in
    let (p, read, finishing) = >>=-eq-ok chunks (finish_read calls digest expected) reading in
    finish_read-IsVerified calls digest expected p {out = out} (platform_digest found)
      (length-read_chunks calls expected chunk_size max_chunks 0 (fresh expected) {out = p} read
        ∙ length-fresh expected)
      finishing

-- Whatever the callback answers, and whatever the signal does: a result of readHcpContent comes
-- from as many bytes as the reference says, whose digest is the reference's, and it is the UTF-8
-- text of these bytes or the JSON value of that text, by the reference's format.
pub read_hcp_content-IsVerified :
    (calls : Calls) (reference : Reference) (options : Options) {out : Complete}
    → read_hcp_content calls reference options ≡ ok out
    → IsVerified calls reference out
unfolding read_hcp_content
read_hcp_content-IsVerified calls reference options {out} h =
    let size : ℕ = or_default options.chunk_size max_chunk in
    let chunks : ℕ = or_default options.max_chunks 2048 in
    let (_, started) = >>-eq-ok _ _ h in
    let (expected, parsed, limited) =
      >>=-eq-ok (parse_reference reference)
        (λ expected.
          throw_if (not (limits_ok expected (or_default options.max_bytes max_object) chunks size))
            (content_read limit)
          >> read_object calls expected size chunks)
        started in
    let (_, reading) = >>-eq-ok _ _ limited in
    subst (λ r. IsVerified calls r out) (parsed_reference reference {out = expected} parsed)
      (read_object-IsVerified calls expected size chunks {out = out} reading)
