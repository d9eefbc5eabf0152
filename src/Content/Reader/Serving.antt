-- ===== src/Content/Reader/Serving.antt =====
-- readHcpContent on a callback that answers with the chunks of one retained object.
use harness_control_protocol.Base.{
  ℕ, zero, String, suc, ◌+◌, ◌-◌, ◌*◌, ◌/◌, ◌≤◌, ◌≡◌, refl, ap, sym, ◌∙◌, true, false, Option, none,
  some, List, ◌++◌, ltb, ◌==◌, nat_eq, string_eq, length, length-append, length-take_le,
  length-drop, take, drop, take_prefix, take_all, take-add, Bool-cases, inl, inr, ok, min, arith,
}
use mathlib.Core.List.{append_assoc}
use harness_control_protocol.Content.{
  Reference, Chunk, max_chunk, max_object, reference_ok, chunk_ok, same_format, same_reference,
  text_format, json_format, Format, continues_ok,
}
use harness_control_protocol.Content.Store.{Entry, byte_length, chunk_of}
use harness_control_protocol.Base.Utf8.{decode}
use harness_control_protocol.Content.Reader.Verified.{length-zeros}
use harness_control_protocol.Content.Reader.{
  at_start, after_digest, available, ceil_div, read_object, finish_read, decode_text,
  parse_reference, Moment, before_read, after_read, Options, Calls, Progress, or_default, set_bytes,
  take_chunk, read_chunks, verify, decoded, limits_ok, fresh, parse_chunk, read_hcp_content,
}

-- The callback answers from this object, and the signal is never aborted.
pub record Serves (calls : Calls) (e : Entry) (size : ℕ) : Type 0 where
  pub running : (m : Moment) → calls.aborted m ≡ false
  pub answers :
      (k offset : ℕ)
      → offset ≤ byte_length e
      → calls.read k offset size ≡ ok (chunk_of e offset size)

-- An object whose reference measures it.
pub record IsMeasured (e : Entry) : Type 0 where
  pub measured : length e.bytes ≡ byte_length e
  pub parsed : reference_ok e.reference ≡ true

mul_le : (q m c : ℕ) → q ≤ m → q * c ≤ m * c
mul_le zero m c h = omega arith
mul_le (suc q) zero c h = absurd (omega arith)
mul_le (suc q) (suc m) c h = omega (arith, mul_le q m c (omega arith))

le_ceil_div : (n size most : ℕ) → 1 ≤ size → ceil_div n size ≤ most → n ≤ most * size
unfolding ceil_div
le_ceil_div n size most h k = omega (arith, mul_le ((n + (size - 1)) / size) most size k)

decode_text-ok : (bytes : List ℕ) {cs : List ℕ} → decode bytes ≡ some cs → decode_text bytes ≡ ok cs
unfolding decode_text
decode_text-ok bytes h = rw (h, decode_text) refl

same_format_refl : (f : Format) → same_format f f ≡ true
unfolding same_format
same_format_refl text_format = refl
same_format_refl json_format = refl

same_reference_refl : (r : Reference) → same_reference r r ≡ true
same_reference_refl r = unfold same_reference in ground (arith, same_format_refl r.format)

read_chunks-next :
    (calls : Calls) (r : Reference) (size left count : ℕ) (p : Progress) {next : Progress} {at : ℕ}
    → take_chunk calls r size count p ≡ ok (next, some at)
    → read_chunks calls r size (suc left) count p ≡ read_chunks calls r size left (suc count) next
unfolding read_chunks
read_chunks-next calls r size left count p h = rw (h, read_chunks) refl

read_chunks-last :
    (calls : Calls) (r : Reference) (size left count : ℕ) (p : Progress) {next : Progress}
    → take_chunk calls r size count p ≡ ok (next, none)
    → read_chunks calls r size (suc left) count p ≡ ok (record next { is_complete = true })
unfolding read_chunks
read_chunks-last calls r size left count p h = rw (h, read_chunks) refl

module _ (e : Entry) (size : ℕ) (whole : IsMeasured e) (positive : 1 ≤ size)
    (small : size ≤ 65536) where
  part : ℕ → List ℕ
  part offset = (chunk_of e offset size).bytes

  length-part :
      (offset : ℕ)
      → offset ≤ byte_length e
      → length (part offset) ≡ min (byte_length e) (offset + size) - offset
  unfolding part chunk_of
  length-part offset h = ground (
    arith,
    whole.measured,
    length-drop offset e.bytes,
    length-take_le (min (byte_length e) (offset + size) - offset) (drop offset e.bytes),
  )

  part-take :
      (offset : ℕ)
      → offset ≤ byte_length e
      → part offset ≡ take (length (part offset)) (drop offset e.bytes)
  part-take offset h = rw (length-part offset h) (unfold part chunk_of in refl)

  chunk_ok-chunk_of :
      (offset : ℕ) → offset ≤ byte_length e → chunk_ok (chunk_of e offset size) ≡ true
  unfolding chunk_ok chunk_of max_chunk max_object continues_ok reference_ok part
  chunk_ok-chunk_of offset h = ground (arith, whole.parsed, length-part offset h)

  module _ (calls : Calls) (server : Serves calls e size) where
    -- The progress after the round at an offset.
    abbrev after : Progress → Progress
    after p = record p {
      bytes =
          take p.offset p.bytes
          ++ (part p.offset ++ drop (p.offset + length (part p.offset)) p.bytes);
      offset = p.offset + length (part p.offset);
    }

    set_bytes-part :
        (p : Progress)
        → p.offset ≤ byte_length e
        → length p.bytes ≡ byte_length e
        → set_bytes p.bytes p.offset (part p.offset) ≡ ok (after p).bytes
    unfolding set_bytes
    set_bytes-part p h k = ground (arith, length-part p.offset h)

    parse_chunk-ok : (c : Chunk) → chunk_ok c ≡ true → parse_chunk (ok c) ≡ ok c
    unfolding parse_chunk
    parse_chunk-ok c h = rw h refl

    take_chunk-part :
        (count : ℕ) (p : Progress)
        → p.offset ≤ byte_length e
        → length p.bytes ≡ byte_length e
        → take_chunk calls e.reference size count p
          ≡ ok (after p, (chunk_of e p.offset size).next_offset)
    unfolding chunk_of part
    take_chunk-part count p h k =
        let small_part : ltb size (length (part p.offset)) ≡ false =
          ground (arith, length-part p.offset h) in
        let same : same_reference (chunk_of e p.offset size).reference e.reference ≡ true =
          unfold chunk_of in same_reference_refl e.reference in
        let here : ((chunk_of e p.offset size).offset == p.offset) ≡ true =
          unfold chunk_of in ground arith in
        unfold take_chunk in
        rw
          (
            server.running (before_read count),
            server.running (after_read count),
            server.answers count p.offset h,
            parse_chunk-ok _ (chunk_ok-chunk_of p.offset h),
            same,
            here,
            small_part,
            set_bytes-part p h k,
          )
          refl

    -- What the loop has read is what the object has.
    HasRead : Progress → Type 0
    HasRead p =
        (p.offset ≤ byte_length e)
        × (length p.bytes ≡ byte_length e)
        × (take p.offset p.bytes ≡ take p.offset e.bytes)

    HasRead-after : (p : Progress) → HasRead p → HasRead (after p)
    unfolding HasRead
    HasRead-after p (within, measured, same) =
        let size_eq = length-part p.offset within in
        let kept : length (take p.offset p.bytes) ≡ p.offset =
          length-take_le _ _ (omega (arith, measured)) in
        let rest : List ℕ = drop (p.offset + length (part p.offset)) p.bytes in
        let front : length (take p.offset p.bytes ++ part p.offset)
            ≡ p.offset + length (part p.offset) =
          omega (arith, length-append (take p.offset p.bytes) (part p.offset)) in
        (
          omega (arith, size_eq),
          omega (
            arith,
            size_eq,
            whole.measured,
            length-append (take p.offset p.bytes) (part p.offset ++ rest),
            length-append (part p.offset) rest,
            length-drop (p.offset + length (part p.offset)) p.bytes,
          ),
          ap (take (p.offset + length (part p.offset)))
                (sym (append_assoc (take p.offset p.bytes) (part p.offset) rest))
              ∙ take_prefix _ (take p.offset p.bytes ++ part p.offset) rest front
              ∙ ap (λ xs. xs ++ part p.offset) same
              ∙ ap (λ xs. take p.offset e.bytes ++ xs) (part-take p.offset within)
              ∙ sym (take-add p.offset (length (part p.offset)) _ e.bytes refl),
        )

    read_object_bytes : (p : Progress) → HasRead p → p.offset ≡ byte_length e → p.bytes ≡ e.bytes
    unfolding HasRead
    read_object_bytes p (within, measured, same) done =
        sym (take_all p.offset p.bytes (omega arith))
        ∙ same
        ∙ take_all p.offset e.bytes (omega (arith, whole.measured))

    abbrev read_all : Progress
    read_all = record { bytes = e.bytes; offset = byte_length e; is_complete = true }

    is_all :
        (p : Progress)
        → p.bytes ≡ e.bytes
        → p.offset ≡ byte_length e
        → record p { is_complete = true } ≡ read_all
    is_all p h k = cc (h, k)

    read_chunks-all :
        (left count : ℕ) (p : Progress)
        → HasRead p
        → 1 ≤ left
        → byte_length e ≤ p.offset + left * size
        → read_chunks calls e.reference size left count p ≡ ok read_all
    read_chunks-all zero count p h some_left enough = absurd (omega arith)
    read_chunks-all (suc left) count p h some_left enough =
        let within : p.offset ≤ byte_length e = unfold HasRead in h.0 in
        let measured : length p.bytes ≡ byte_length e = unfold HasRead in h.1 in
        let took = take_chunk-part count p within measured in
        let size_eq = length-part p.offset within in
        elim (Bool-cases (ltb (min (byte_length e) (p.offset + size)) (byte_length e))) [
          | inl more ↦
              let goes_on : (chunk_of e p.offset size).next_offset
                  ≡ some (min (byte_length e) (p.offset + size)) =
                unfold chunk_of in rw more refl in
              read_chunks-next calls e.reference size left count p
                (took ∙ ap (λ at. ok (after p, at)) goes_on)
              ∙ read_chunks-all left (suc count) (after p) (HasRead-after p h)
                  (ground (arith, size_eq)) (ground (arith, size_eq))
          | inr last ↦
              let ends : (chunk_of e p.offset size).next_offset ≡ none =
                unfold chunk_of in rw last refl in
              let at_end : (after p).offset ≡ byte_length e = ground (arith, size_eq) in
              read_chunks-last calls e.reference size left count p
                (took ∙ ap (λ at. ok (after p, at)) ends)
              ∙ ap (λ q. ok q)
                  (is_all (after p) (read_object_bytes (after p) (HasRead-after p h) at_end) at_end)
        ]

    HasRead-fresh : HasRead (fresh e.reference)
    HasRead-fresh =
        unfold HasRead in unfold fresh in (omega arith, length-zeros (byte_length e), refl)

    -- The bound on the number of chunks is enough.
    read_chunks-fresh :
        (max_bytes max_chunks : ℕ)
        → limits_ok e.reference max_bytes max_chunks size ≡ true
        → read_chunks calls e.reference size max_chunks 0 (fresh e.reference) ≡ ok read_all
    read_chunks-fresh max_bytes max_chunks h =
        let chunks : ceil_div (byte_length e) size ≤ max_chunks =
          unfold limits_ok in ground arith in
        let some_chunk : 1 ≤ max_chunks = unfold limits_ok in ground arith in
        read_chunks-all max_chunks 0 (fresh e.reference) HasRead-fresh some_chunk (
          unfold fresh in
          omega (arith, le_ceil_div (byte_length e) size max_chunks positive chunks))

    verify-read_all :
        (digest : List ℕ → Option String)
        → digest e.bytes ≡ some e.reference.sha256
        → verify calls digest e.reference read_all ≡ ok e.bytes
    unfolding verify
    verify-read_all digest h = ground (arith, h, server.running after_digest)

    -- readHcpContent on the object's reference.
    pub read_hcp_content-serves :
        (digest : List ℕ → Option String) (text : List ℕ) (options : Options)
        → calls.digest ≡ some digest
        → digest e.bytes ≡ some e.reference.sha256
        → decode e.bytes ≡ some text
        → or_default options.chunk_size max_chunk ≡ size
        → limits_ok e.reference
            (or_default options.max_bytes max_object)
            (or_default options.max_chunks 2048)
            size
          ≡ true
        → read_hcp_content calls e.reference options ≡ decoded calls e.reference text
    unfolding read_hcp_content read_object finish_read parse_reference
    read_hcp_content-serves digest text options found hashed is_utf8 size_eq allowed =
        let text_eq : decode_text e.bytes ≡ ok text = decode_text-ok e.bytes is_utf8 in
        let available_digest : available calls.digest ≡ ok digest = ap available found in
        rw
          (
            server.running at_start,
            whole.parsed,
            size_eq,
            allowed,
            available_digest,
            read_chunks-fresh _ _ allowed,
            verify-read_all digest hashed,
            text_eq,
          )
          refl
