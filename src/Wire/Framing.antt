-- ===== src/Wire/Framing.antt =====
-- How `Unpack` cuts frames out of a byte stream, and the builders compared.
use iot_zinx.Shared.{
  ℕ, zero, suc, ◌+◌, ◌/◌, ◌≡◌, ◌≤◌, ◌<◌, refl, ◌∙◌, arith, Bytes, [], ◌∷◌, ◌++◌, true, false,
  length, length-append, take, ok, err, slice, slice_in, slice_mid, length-take, Bool-cases, ltb→lt,
  inl, inr, read16, ltb, nat_beq, if◌then◌else◌,
}
use iot_zinx.Shared.Words.{u8, u16, u32, put16, put32, le16, IsByte}
use iot_zinx.Wire.Frame.{not_enough_data, new_message}
use iot_zinx.Wire.Checksum.{packet_checksum, sum_loop}
use iot_zinx.Wire.Parser.{is_hex_char}
use iot_zinx.Wire.Builder.{frame_body, build_packet, build_dny_packet, build_response_packet}
use iot_zinx.Wire.Packet.{
  pack_dny_message, is_hex_string, has_header, carrier, handle_basic, unpack_binary, unpack,
}

-- The payload is written unless its 32-bit length is 0.
kept_payload :
    (payload : Bytes)
    → length payload < 4294967296
    → (if ltb 0 (u32 (length payload)) then payload else []) ≡ payload
kept_payload [] h = refl
kept_payload (x ∷ xs) h = ground arith

-- The four ways to build a frame give the same bytes for a command in one byte and a payload
-- below 4 GB, even where the length no longer fits its field.
pub builders_agree :
    (physical_id message_id command : ℕ) (payload : Bytes)
    → IsByte command
    → length payload < 4294967296
    → let msg = new_message command physical_id payload message_id in
      let frame = build_dny_packet physical_id message_id command payload in
      (build_packet physical_id message_id command payload ≡ ok frame)
      × (build_response_packet msg ≡ ok frame)
      × (pack_dny_message msg ≡ ok frame)
unfolding build_packet build_dny_packet build_response_packet pack_dny_message new_message
    packet_checksum
builders_agree physical_id message_id command payload hc hl =
    (refl, rw (low, high, one_byte), rw (kept_payload payload hl, low', high', one_byte))
  where
    size : ℕ
    size = 4 + 2 + 1 + length payload + 2

    low : u8 (u16 size) ≡ u8 size
    low = omega arith

    high : u8 (u16 size / 256) ≡ u8 (size / 256)
    high = omega arith

    one_byte : u8 command ≡ command
    one_byte = omega arith

    low' : u8 (u16 (u32 (4 + 2 + 1 + u32 (length payload) + 2))) ≡ u8 size
    low' = omega arith

    high' : u8 (u16 (u32 (4 + 2 + 1 + u32 (length payload) + 2)) / 256) ≡ u8 (size / 256)
    high' = omega arith

-- A frame as `Unpack` sees it: the header, a length field for the rest, and the rest.
abbrev pub sized_frame : ℕ → ℕ → Bytes → Bytes
sized_frame a b rest = 0x44 ∷ 0x4e ∷ 0x59 ∷ a ∷ b ∷ rest

-- `N` is no hexadecimal digit.
not_hex : (xs : Bytes) → is_hex_string (0x44 ∷ 0x4e ∷ xs) ≡ false
unfolding is_hex_string is_hex_char
not_hex xs = ground arith

headed : (xs : Bytes) → has_header (0x44 ∷ 0x4e ∷ 0x59 ∷ xs) ≡ true
unfolding has_header
headed xs = ground arith

-- What begins with the header goes to `handleDNYProtocolBasic` as it stands.
unpack_headed :
    (xs : Bytes) → unpack (0x44 ∷ 0x4e ∷ 0x59 ∷ xs) ≡ handle_basic (0x44 ∷ 0x4e ∷ 0x59 ∷ xs)
unfolding unpack unpack_binary
unpack_headed xs =
    let some_data : nat_beq (length (0x44 ∷ 0x4e ∷ 0x59 ∷ xs)) 0 ≡ false = ground arith in
    rw (some_data, not_hex (0x59 ∷ xs), headed xs)

short_waits : (xs : Bytes) → length xs < 14 → handle_basic xs ≡ err not_enough_data
unfolding handle_basic
short_waits xs h = ground arith

module _ (a b : ℕ) (xs : Bytes) (long : 9 ≤ length xs) where
  long_enough : ltb (length (sized_frame a b xs)) 14 ≡ false
  long_enough = ground arith

  length_bytes : {E : Type 0} → slice {E = E} (sized_frame a b xs) 3 5 ≡ ok (a ∷ b ∷ [])
  length_bytes = slice_in (sized_frame a b xs) 3 5 (omega arith) (omega arith)

  basic_waits : length xs < le16 a b → handle_basic (sized_frame a b xs) ≡ err not_enough_data
  unfolding handle_basic read16
  basic_waits h =
      let waits : ltb (length (sized_frame a b xs)) (5 + le16 a b) ≡ true = ground arith in
      rw (long_enough, headed (a ∷ b ∷ xs), length_bytes, waits)

module _ (a b : ℕ) (rest : Bytes) (long : 9 ≤ length rest) (fits : le16 a b ≡ length rest) where
  -- A whole frame at the front of the stream is cut off, whatever follows it.
  pub unpack_whole :
      (more : Bytes)
      → unpack (sized_frame a b (rest ++ more))
        ≡ ok (carrier (sized_frame a b rest) (sized_frame a b rest))
  unfolding handle_basic read16
  unpack_whole more =
      let size : length (rest ++ more) ≡ length rest + length more = length-append rest more in
      let enough : ltb (length (sized_frame a b (rest ++ more))) (5 + le16 a b) ≡ false =
        ground arith in
      unpack_headed (a ∷ b ∷ (rest ++ more))
      ∙ rw (
        long_enough a b (rest ++ more) (omega arith),
        headed (a ∷ b ∷ (rest ++ more)),
        length_bytes a b (rest ++ more) (omega arith),
        enough,
        slice_mid [] (sized_frame a b rest) more 0 (5 + le16 a b) refl (omega arith),
      )

  -- With three bytes or more, but not all, of a frame, `Unpack` waits.
  pub unpack_part :
      (n : ℕ)
      → 3 ≤ n
      → n < length rest + 5
      → unpack (take n (sized_frame a b rest)) ≡ err not_enough_data
  unpack_part zero h k = absurd (omega arith)
  unpack_part (suc zero) h k = absurd (omega arith)
  unpack_part (suc (suc zero)) h k = absurd (omega arith)
  unpack_part (suc (suc (suc zero))) h k = unpack_headed [] ∙ short_waits _ (omega arith)
  unpack_part (suc (suc (suc (suc zero)))) h k = unpack_headed _ ∙ short_waits _ (omega arith)
  unpack_part (suc (suc (suc (suc (suc n))))) h k =
      unpack_headed (a ∷ b ∷ take n rest) ∙ elim (Bool-cases (ltb n 9)) [
        | inl s ↦ short_waits _ (omega (arith, length-take n rest, ltb→lt _ _ s))
        | inr s ↦
            basic_waits a b (take n rest) (ground (arith, length-take n rest))
              (omega (arith, length-take n rest))
      ]

-- `Unpack` cuts a built frame off the front of whatever follows it, and waits for more data on
-- every proper prefix of the frame of at least three bytes.
pub unpack-build :
    (physical_id message_id command : ℕ) (payload more : Bytes) (n : ℕ)
    → length payload ≤ 65526
    → 3 ≤ n
    → n < length payload + 14
    → (frame : Bytes) × (build_packet physical_id message_id command payload ≡ ok frame)
      × (unpack (frame ++ more) ≡ ok (carrier frame frame))
      × (unpack (take n frame) ≡ err not_enough_data)
unfolding build_packet packet_checksum
unpack-build physical_id message_id command payload more n fits h k =
    let size : ℕ = 4 + 2 + 1 + length payload + 2 in
    let body : Bytes = frame_body size physical_id message_id command payload in
    let rest : Bytes =
      put32 physical_id ++ (put16 message_id ++ (command ∷ (payload ++ put16 (sum_loop 0 body)))) in
    let e : length (payload ++ put16 (sum_loop 0 body)) ≡ length payload + 2 =
      length-append payload (put16 (sum_loop 0 body)) in
    (
      sized_frame (u8 size) (u8 (size / 256)) rest,
      refl,
      unpack_whole (u8 size) (u8 (size / 256)) rest (omega arith) (omega arith) more,
      unpack_part (u8 size) (u8 (size / 256)) rest (omega arith) (omega arith) n h (omega arith),
    )
