-- ===== src/Wire/Shape.antt =====
-- Every byte string of at least 14 bytes is a frame of fields, or is refused by all three readers.
use iot_zinx.Shared.{
  ℕ, ◌+◌, ◌≡◌, ◌≤◌, ◌⊎◌, inl, inr, refl, ap, ◌∙◌, arith, Bytes, [], ◌∷◌, ◌++◌, true, false, length,
  length-append, IsErr, Result, ok, err, panic, slice, slice_in, read16, ltb, nat_beq, bytes_beq,
  bytes_beq_sound, Bool-cases,
}
use iot_zinx.Shared.Words.{le16}
use iot_zinx.Wire.Frame.{
  WireError, too_short, bad_header, length_mismatch, checksum_mismatch, packet_too_short,
  packet_bad_header, packet_length_mismatch, packet_checksum_mismatch, protocol_header,
}
use iot_zinx.Wire.Builder.{validate_packet, validate_dny_frame}
use iot_zinx.Wire.Parser.{parse_frame}
use iot_zinx.Wire.Steps.{frame_of}

pub split_last_two :
    (ys : Bytes)
    → 2 ≤ length ys
    → (content : Bytes) × (c : ℕ) × (d : ℕ) × (ys ≡ content ++ (c ∷ d ∷ []))
split_last_two [] h = absurd (omega arith)
split_last_two (x ∷ []) h = absurd (omega arith)
split_last_two (x ∷ y ∷ []) h = ([], x, y, refl)
split_last_two (x ∷ y ∷ z ∷ zs) h =
    let (content, c, d, e) = split_last_two (y ∷ z ∷ zs) (omega arith) in
    (x ∷ content, c, d, ap (◌∷◌ x) e)

-- The error of `ValidatePacket` at the check at which `ValidateDNYFrame` has an error of its own.
abbrev pub reworded : WireError → WireError
reworded (too_short n) = packet_too_short n
reworded (bad_header header) = packet_bad_header header
reworded (length_mismatch declared actual expected) =
    packet_length_mismatch declared actual expected
reworded (checksum_mismatch expected actual) = packet_checksum_mismatch expected actual
reworded e = e

abbrev pub reworded_verdict : Result WireError (Unit {0}) → Result WireError (Unit {0})
reworded_verdict (ok x) = ok x
reworded_verdict (err e) = err (reworded e)
reworded_verdict panic = panic

-- The three readers stop with an error.
pub record IsRefused (xs : Bytes) : Type 0 where
  pub parse_refuses : IsErr (parse_frame xs)
  pub packet_refuses : IsErr (validate_packet xs)
  pub validators_agree : validate_packet xs ≡ reworded_verdict (validate_dny_frame xs)

pub record IsFramed (xs : Bytes) : Type 0 where
  pub a : ℕ
  pub b : ℕ
  pub content : Bytes
  pub c : ℕ
  pub d : ℕ
  pub whole : xs ≡ frame_of a b content c d
  pub fits : le16 a b ≡ length content + 2
  pub long : 7 ≤ length content

module _ (x y z a b : ℕ) (rest : Bytes) (long : 9 ≤ length rest) where
  abbrev bytes : Bytes
  bytes = x ∷ y ∷ z ∷ a ∷ b ∷ rest

  not_short : ltb (length bytes) 14 ≡ false
  not_short = ground arith

  header_bytes : {E : Type 0} → slice {E = E} bytes 0 3 ≡ ok (x ∷ y ∷ z ∷ [])
  header_bytes = slice_in bytes 0 3 (omega arith) (omega arith)

  length_bytes : {E : Type 0} → slice {E = E} bytes 3 5 ≡ ok (a ∷ b ∷ [])
  length_bytes = slice_in bytes 3 5 (omega arith) (omega arith)

  IsRefused-header : bytes_beq (x ∷ y ∷ z ∷ []) protocol_header ≡ false → IsRefused bytes
  unfolding parse_frame validate_packet validate_dny_frame
  IsRefused-header h = record {
    parse_refuses = rw (header_bytes, h) tt;
    packet_refuses = rw (not_short, header_bytes, h) tt;
    validators_agree = rw (not_short, header_bytes, h);
  }

  IsRefused-length :
      bytes_beq (x ∷ y ∷ z ∷ []) protocol_header ≡ true
      → nat_beq (length bytes) (3 + 2 + le16 a b) ≡ false
      → IsRefused bytes
  unfolding parse_frame validate_packet validate_dny_frame read16
  IsRefused-length h l = record {
    parse_refuses = rw (header_bytes, h, length_bytes, l) tt;
    packet_refuses = rw (not_short, header_bytes, h, length_bytes, l) tt;
    validators_agree = rw (not_short, header_bytes, h, length_bytes, l);
  }

  framed : x ∷ y ∷ z ∷ [] ≡ protocol_header → length bytes ≡ 3 + 2 + le16 a b → IsFramed bytes
  framed h l =
      let (content, c, d, e) = split_last_two rest (omega arith) in
      let size : length rest ≡ length content + 2 =
        ap length e ∙ length-append content (c ∷ d ∷ []) in
      record {
        a = a;
        b = b;
        content = content;
        c = c;
        d = d;
        whole = rw (← e) (ap (λ (t : Bytes). t ++ (a ∷ b ∷ rest)) h);
        fits = omega arith;
        long = omega arith;
      }

  shape_of : IsFramed bytes ⊎ IsRefused bytes
  shape_of = elim (Bool-cases (bytes_beq (x ∷ y ∷ z ∷ []) protocol_header)) [
    | inl h ↦ elim (Bool-cases (nat_beq (length bytes) (3 + 2 + le16 a b))) [
      | inl l ↦ inl (framed (bytes_beq_sound _ _ h) (ground arith))
      | inr l ↦ inr (IsRefused-length h l)
    ]
    | inr h ↦ inr (IsRefused-header h)
  ]

pub shape : (xs : Bytes) → 14 ≤ length xs → IsFramed xs ⊎ IsRefused xs
shape [] h = absurd (omega arith)
shape (x ∷ []) h = absurd (omega arith)
shape (x ∷ y ∷ []) h = absurd (omega arith)
shape (x ∷ y ∷ z ∷ []) h = absurd (omega arith)
shape (x ∷ y ∷ z ∷ a ∷ []) h = absurd (omega arith)
shape (x ∷ y ∷ z ∷ a ∷ b ∷ rest) h = shape_of x y z a b rest (omega arith)
