-- ===== src/Wire/Builder.antt =====
-- The three functions that build a DNY frame: `BuildDNYPacket` of unified_dny_builder.go,
-- `buildDNYPacket` of message_types' frame.go, and `BuildDNYResponsePacketUnified` of
-- dny_protocol_parser.go; with `ValidatePacket` and `ValidateDNYFrame`.
use iot_zinx.Shared.{
  ℕ, ◌+◌, ◌-◌, Bytes, ◌∷◌, ◌++◌, not, length, Result, ok, ◌>>=◌, ◌>>◌, reject, or_value, slice,
  read16, ltb, nat_beq, bytes_beq,
}
use iot_zinx.Shared.Words.{u8, u16, put16, put32}
use iot_zinx.Wire.Frame.{
  packet_too_short, packet_bad_header, packet_length_mismatch, packet_checksum_mismatch, Message,
  WireError, too_short, bad_header, length_mismatch, checksum_mismatch, protocol_header,
  min_packet_size,
}
use iot_zinx.Wire.Checksum.{sum_loop, packet_checksum}

-- What precedes the checksum; `content_len` is the value of the length field before it is cut to
-- two bytes.
abbrev pub frame_body : ℕ → ℕ → ℕ → ℕ → Bytes → Bytes
frame_body content_len physical_id message_id command payload =
    0x44
    ∷ 0x4e
    ∷ 0x59
    ∷ (put16 content_len ++ (put32 physical_id ++ (put16 message_id ++ (command ∷ payload))))

-- `UnifiedDNYBuilder.BuildDNYPacket`; `sum, _ :=` drops the checksum's error.
unfoldable pub build_packet : ℕ → ℕ → ℕ → Bytes → Result WireError Bytes
build_packet physical_id message_id command payload = do
  let content_len = 4 + 2 + 1 + length payload + 2
  let packet = frame_body content_len physical_id message_id command payload
  checksum ← or_value 0 (packet_checksum packet)
  ok (packet ++ put16 checksum)

-- `buildDNYPacket` sums the bytes itself.
unfoldable pub build_dny_packet : ℕ → ℕ → ℕ → Bytes → Bytes
build_dny_packet physical_id message_id command payload =
    let packet =
      frame_body (4 + 2 + 1 + length payload + 2) physical_id message_id command payload in
    packet ++ put16 (sum_loop 0 packet)

-- `BuildDNYResponsePacketUnified`: the length is cut to 16 bits first, the command to 8.
unfoldable pub build_response_packet : Message → Result WireError Bytes
build_response_packet msg = do
  let content_len = u16 (4 + 2 + 1 + length msg.payload + 2)
  let packet = frame_body content_len msg.physical_id msg.message_id (u8 msg.command_id) msg.payload
  checksum ← packet_checksum packet
  ok (packet ++ put16 checksum)

-- `UnifiedDNYBuilder.ValidatePacket`; the minimum is the sum of the builder's field lengths.
unfoldable pub validate_packet : Bytes → Result WireError (Unit {0})
validate_packet packet = do
  reject (ltb (length packet) (3 + 2 + 4 + 2 + 1 + 2)) (packet_too_short (length packet))
  header ← slice packet 0 3
  reject (not (bytes_beq header protocol_header)) (packet_bad_header header)
  length_field ← slice packet 3 5
  declared ← read16 length_field
  let expected = 3 + 2 + declared
  reject (not (nat_beq (length packet) expected))
      (packet_length_mismatch declared (length packet) expected)
  let checksum_pos = length packet - 2
  tail ← slice packet checksum_pos (length packet)
  expected_checksum ← read16 tail
  covered ← slice packet 0 checksum_pos
  actual ← or_value 0 (packet_checksum covered)
  reject (not (nat_beq actual expected_checksum))
      (packet_checksum_mismatch expected_checksum actual)

-- `ValidateDNYFrame`; `ok` stands for `true, nil`, an error for `false, err`.
unfoldable pub validate_dny_frame : Bytes → Result WireError (Unit {0})
validate_dny_frame frame = do
  reject (ltb (length frame) min_packet_size) (too_short (length frame))
  header ← slice frame 0 3
  reject (not (bytes_beq header protocol_header)) (bad_header header)
  length_field ← slice frame 3 5
  declared ← read16 length_field
  let expected = 3 + 2 + declared
  reject (not (nat_beq (length frame) expected)) (length_mismatch declared (length frame) expected)
  let content_end = length frame - 2
  tail ← slice frame content_end (length frame)
  expected_checksum ← read16 tail
  covered ← slice frame 0 content_end
  actual ← packet_checksum covered
  reject (not (nat_beq actual expected_checksum)) (checksum_mismatch expected_checksum actual)
