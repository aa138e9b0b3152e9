-- ===== src/Wire/RoundTrip.antt =====
-- Building a frame and parsing it are inverse to one another.
use iot_zinx.Shared.{
  ℕ, ◌+◌, ◌/◌, ◌≡◌, ◌≤◌, refl, ◌∙◌, arith, Bytes, [], ◌∷◌, ◌++◌, true, false, length, length-append,
  Option, none, ok, slice_in, index, read16, read32, ltb,
}
use iot_zinx.Shared.Words.{le16, le32, u8, u32, put16, put32, IsU16, IsU32}
use iot_zinx.Wire.Frame.{Message, WireError, standard, protocol_header, raw_message}
use iot_zinx.Wire.Checksum.{packet_checksum, sum_loop, sum_loop-IsU16}
use iot_zinx.Wire.Builder.{frame_body, build_packet}
use iot_zinx.Wire.Parser.{
  parse_frame, parse_content, parse_dny_protocol_data, is_valid_iccid_strict, finish,
}
use iot_zinx.Wire.Steps.{frame_of, checksum_note, parse_frame-frame_of}

-- The message that a sound frame stands for.
abbrev pub standard_message : ℕ → ℕ → ℕ → Bytes → ℕ → Bytes → Message
standard_message physical_id message_id command payload checksum raw = record {
  id = command;
  data_len = u32 (length payload);
  payload = payload;
  raw_data = raw;
  packet_header = protocol_header;
  physical_id = physical_id;
  command_id = command;
  message_id = message_id;
  checksum = checksum;
  message_type = standard;
  iccid_value = [];
  error_message = none;
}

-- Seven bytes of fields, and the payload.
pub parse_content-fields :
    (msg : Message) (noted : Option WireError) (p q r s m n command : ℕ) (payload : Bytes)
    → parse_content msg noted (p ∷ q ∷ r ∷ s ∷ m ∷ n ∷ command ∷ payload)
      ≡ finish
          (record msg {
            physical_id = le32 p q r s;
            message_id = le16 m n;
            command_id = command;
            id = command;
            payload = payload;
            data_len = u32 (length payload);
          })
          noted
unfolding parse_content read16 read32 index
parse_content-fields msg noted p q r s m n command [] =
    let xs : Bytes = p ∷ q ∷ r ∷ s ∷ m ∷ n ∷ command ∷ [] in
    rw (slice_in xs 0 4 (omega arith) (omega arith), slice_in xs 4 6 (omega arith) (omega arith))
parse_content-fields msg noted p q r s m n command (x ∷ payload) =
    let xs : Bytes = p ∷ q ∷ r ∷ s ∷ m ∷ n ∷ command ∷ x ∷ payload in
    let long : ltb (length xs) 7 ≡ false = ground arith in
    let more : ltb 7 (length xs) ≡ true = ground arith in
    rw (
      long,
      slice_in xs 0 4 (omega arith) (omega arith),
      slice_in xs 4 6 (omega arith) (omega arith),
      more,
    )

-- A frame is neither an ICCID nor a link heartbeat, for it begins with `D`.
pub parse-is-parse_frame :
    (a b : ℕ) (content : Bytes) (c d : ℕ)
    → 7 ≤ length content
    → parse_dny_protocol_data (frame_of a b content c d) ≡ parse_frame (frame_of a b content c d)
unfolding parse_dny_protocol_data is_valid_iccid_strict
parse-is-parse_frame a b content c d h = ground (arith, length-append content (c ∷ d ∷ []))

module _ (physical_id message_id command : ℕ) (payload : Bytes) where
  abbrev pub body : Bytes
  body = frame_body (4 + 2 + 1 + length payload + 2) physical_id message_id command payload

  abbrev content_bytes : Bytes
  content_bytes = put32 physical_id ++ (put16 message_id ++ (command ∷ payload))

  built : Bytes
  built = body ++ put16 (sum_loop 0 body)

  build-built : build_packet physical_id message_id command payload ≡ ok built
  unfolding build_packet built packet_checksum
  build-built = refl

  built-length : length built ≡ length payload + 14
  unfolding built
  built-length = omega (arith, length-append payload (put16 (sum_loop 0 body)))

  sum_of_body : le16 (u8 (sum_loop 0 body)) (u8 (sum_loop 0 body / 256)) ≡ sum_loop 0 body
  sum_of_body = omega (arith, sum_loop-IsU16 0 body (omega arith))

  no_note :
      checksum_note (sum_loop 0 body) (le16 (u8 (sum_loop 0 body)) (u8 (sum_loop 0 body / 256)))
      ≡ none
  no_note = ground (arith, sum_of_body)

  module _ (fits_id : IsU32 physical_id) (fits_message : IsU16 message_id)
      (fits : length payload ≤ 65526) where
    parse-built :
        parse_dny_protocol_data built
        ≡ ok (standard_message physical_id message_id command payload (sum_loop 0 body) built)
    unfolding built raw_message
    parse-built =
        let s : ℕ = sum_loop 0 body in
        let size : ℕ = 4 + 2 + 1 + length payload + 2 in
        parse-is-parse_frame (u8 size) (u8 (size / 256)) content_bytes (u8 s) (u8 (s / 256))
          (omega arith)
        ∙ parse_frame-frame_of (u8 size) (u8 (size / 256)) content_bytes (u8 s) (u8 (s / 256))
            (omega arith)
        ∙ rw (parse_content-fields, no_note, id_back, message_back)
      where
        id_back :
            le32
              (u8 physical_id)
              (u8 (physical_id / 256))
              (u8 (physical_id / 65536))
              (u8 (physical_id / 16777216))
            ≡ physical_id
        id_back = omega arith

        message_back : le16 (u8 message_id) (u8 (message_id / 256)) ≡ message_id
        message_back = omega arith

    -- A frame built from fields in range, with at most 65526 bytes of payload, is 14 bytes longer
    -- than its payload and parses, with no error, to a standard message with those fields.
    pub parse-build :
        (frame : Bytes) × (build_packet physical_id message_id command payload ≡ ok frame)
        × (length frame ≡ length payload + 14)
        × (parse_dny_protocol_data frame
            ≡ ok (standard_message physical_id message_id command payload (sum_loop 0 body) frame))
    parse-build = (built, build-built, built-length, parse-built)
