-- ===== src/Wire/Steps.antt =====
-- How the parser and the validators run on a frame taken apart into its fields.
use iot_zinx.Shared.{
  ℕ, ◌+◌, ◌-◌, ◌≡◌, ◌≤◌, refl, arith, Bytes, [], ◌∷◌, ◌++◌, true, false, not, length, length-append,
  Option, none, some, Result, ok, reject, slice, slice_mid, read16, ltb, nat_beq, if◌then◌else◌,
}
use iot_zinx.Shared.Words.{le16}
use iot_zinx.Wire.Frame.{
  WireError, checksum_mismatch, packet_checksum_mismatch, protocol_header, raw_message,
}
use iot_zinx.Wire.Checksum.{sum_loop, packet_checksum}
use iot_zinx.Wire.Builder.{validate_packet, validate_dny_frame}
use iot_zinx.Wire.Parser.{parse_frame, parse_content}

-- The error that a wrong checksum leaves.
abbrev pub checksum_note : ℕ → ℕ → Option WireError
checksum_note actual expected =
    if nat_beq actual expected then none else some (checksum_mismatch expected actual)

-- What the checksum covers, and the whole frame.
abbrev pub covered : ℕ → ℕ → Bytes → Bytes
covered a b content = 0x44 ∷ 0x4e ∷ 0x59 ∷ a ∷ b ∷ content

abbrev pub frame_of : ℕ → ℕ → Bytes → ℕ → ℕ → Bytes
frame_of a b content c d = covered a b content ++ (c ∷ d ∷ [])

pub length-frame_of :
    (a b : ℕ) (content : Bytes) (c d : ℕ) → length (frame_of a b content c d) ≡ length content + 7
length-frame_of a b content c d = omega (arith, length-append content (c ∷ d ∷ []))

module _ {E : Type 0} (a b : ℕ) (content : Bytes) (c d : ℕ) where
  pub slice_header : slice {E = E} (frame_of a b content c d) 0 3 ≡ ok protocol_header
  slice_header = slice_mid [] protocol_header (a ∷ b ∷ (content ++ (c ∷ d ∷ []))) 0 3 refl refl

  pub slice_length : slice {E = E} (frame_of a b content c d) 3 5 ≡ ok (a ∷ b ∷ [])
  slice_length = slice_mid protocol_header (a ∷ b ∷ []) (content ++ (c ∷ d ∷ [])) 3 5 refl refl

  pub slice_tail :
      (lo hi : ℕ)
      → lo ≡ length content + 5
      → hi ≡ length content + 7
      → slice {E = E} (frame_of a b content c d) lo hi ≡ ok (c ∷ d ∷ [])
  slice_tail lo hi p q =
      slice_mid (covered a b content) (c ∷ d ∷ []) [] lo hi (omega arith) (omega arith)

  pub slice-covered :
      (hi : ℕ)
      → hi ≡ length content + 5
      → slice {E = E} (frame_of a b content c d) 0 hi ≡ ok (covered a b content)
  slice-covered hi p = slice_mid [] (covered a b content) (c ∷ d ∷ []) 0 hi refl (omega arith)

  pub slice_content :
      (hi : ℕ)
      → hi ≡ length content + 5
      → slice {E = E} (frame_of a b content c d) 5 hi ≡ ok content
  slice_content hi p =
      slice_mid (0x44 ∷ 0x4e ∷ 0x59 ∷ a ∷ b ∷ []) content (c ∷ d ∷ []) 5 hi refl (omega arith)

module _ (a b : ℕ) (content : Bytes) (c d : ℕ) (fits : le16 a b ≡ length content + 2) where
  same_length : nat_beq (length (frame_of a b content c d)) (3 + 2 + le16 a b) ≡ true
  same_length = ground (arith, length-frame_of a b content c d)

  long_enough : 7 ≤ length content → ltb (length (frame_of a b content c d)) 14 ≡ false
  long_enough h = ground (arith, length-frame_of a b content c d)

  -- The parser comes down to `parse_content`.
  pub parse_frame-frame_of :
      parse_frame (frame_of a b content c d)
      ≡ parse_content
          (record (raw_message (frame_of a b content c d)) {
            packet_header = protocol_header;
            checksum = sum_loop 0 (covered a b content);
          })
          (checksum_note (sum_loop 0 (covered a b content)) (le16 c d))
          content
  unfolding parse_frame read16 packet_checksum raw_message
  parse_frame-frame_of =
      let start : ℕ = 3 + 2 + le16 a b - 2 in
      rw (slice_header a b content c d) (
        rw (slice_length a b content c d) (
          rw same_length (
            rw (slice_tail a b content c d start (3 + 2 + le16 a b) (omega arith) (omega arith)) (
              rw (slice-covered a b content c d start (omega arith))
                (rw (slice_content a b content c d start (omega arith)))))))

  -- What the two validators decide of such a frame.
  abbrev pub packet_verdict : Result WireError (Unit {0})
  packet_verdict =
      reject (not (nat_beq (sum_loop 0 (covered a b content)) (le16 c d)))
        (packet_checksum_mismatch (le16 c d) (sum_loop 0 (covered a b content)))

  abbrev pub verdict : Result WireError (Unit {0})
  verdict =
      reject (not (nat_beq (sum_loop 0 (covered a b content)) (le16 c d)))
        (checksum_mismatch (le16 c d) (sum_loop 0 (covered a b content)))

  pub validate_packet-frame_of :
      7 ≤ length content → validate_packet (frame_of a b content c d) ≡ packet_verdict
  unfolding validate_packet read16 packet_checksum
  validate_packet-frame_of long =
      let size : ℕ = length (frame_of a b content c d) in
      let e : size ≡ length content + 7 = length-frame_of a b content c d in
      rw (long_enough long) (
        rw (slice_header a b content c d) (
          rw (slice_length a b content c d) (
            rw same_length (
              rw (slice_tail a b content c d (size - 2) size (omega arith) (omega arith))
                (rw (slice-covered a b content c d (size - 2) (omega arith)))))))

  pub validate_dny_frame-frame_of :
      7 ≤ length content → validate_dny_frame (frame_of a b content c d) ≡ verdict
  unfolding validate_dny_frame read16 packet_checksum
  validate_dny_frame-frame_of long =
      let size : ℕ = length (frame_of a b content c d) in
      let e : size ≡ length content + 7 = length-frame_of a b content c d in
      rw (long_enough long) (
        rw (slice_header a b content c d) (
          rw (slice_length a b content c d) (
            rw same_length (
              rw (slice_tail a b content c d (size - 2) size (omega arith) (omega arith))
                (rw (slice-covered a b content c d (size - 2) (omega arith)))))))
