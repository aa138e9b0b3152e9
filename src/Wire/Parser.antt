-- ===== src/Wire/Parser.antt =====
-- `ParseDNYProtocolData` and `isValidICCIDStrict` of pkg/protocol/dny_protocol_parser.go.
-- Go returns a message and an error together: `ok m` is `m, nil` and `err (m, e)` is `m, e`.
use iot_zinx.Shared.{
  ℕ, ◌+◌, ◌-◌, Bytes, [], Bool, not, ◌&&◌, ◌||◌, length, take, drop, all, Option, none, some,
  Result, ok, err, panic, ◌>>=◌, slice, index, read16, read32, ltb, leb, nat_beq, bytes_beq,
  if◌then◌else◌,
}
use iot_zinx.Shared.Words.{u32}
use iot_zinx.Wire.Frame.{
  Message, standard, iccid, heartbeat_link, error, WireError, empty_packet, too_short, bad_header,
  length_mismatch, checksum_mismatch, content_too_short, joined, protocol_header, header_link,
  iccid_prefix, min_packet_size, iot_sim_card_length, raw_message,
}
use iot_zinx.Wire.Checksum.{packet_checksum}

abbrev pub Parsed : Type 0
Parsed = Result (Message × WireError) Message

-- '0'-'9', 'A'-'F', 'a'-'f'.
unfoldable pub is_hex_char : ℕ → Bool
is_hex_char b =
    (leb 0x30 b && leb b 0x39) || ((leb 0x41 b && leb b 0x46) || (leb 0x61 b && leb b 0x66))

unfoldable pub is_valid_iccid_strict : Bytes → Bool
is_valid_iccid_strict xs =
    nat_beq (length xs) iot_sim_card_length
    && (not (ltb (length xs) 2) && (bytes_beq (take 2 xs) iccid_prefix && all is_hex_char xs))

-- `msg.MessageType = "error"; msg.ErrorMessage = ...; return msg, err`.
abbrev pub failed : Message → WireError → Parsed
failed msg e = err (record msg { message_type = error; error_message = some e }, e)

-- A call whose error is put into the message and returned with it.
abbrev pub with_message {ℓ} :
    {A : Type ℓ} → Message → Result WireError A → Result (Message × WireError) A
with_message msg (ok a) = ok a
with_message msg (err e) = err (record msg { message_type = error; error_message = some e }, e)
with_message msg panic = panic

-- A second error is joined to the text of the first, and is itself what is returned.
abbrev pub failed_again : Message → Option WireError → WireError → Parsed
failed_again msg none e = failed msg e
failed_again msg (some e') e =
    err (record msg { message_type = error; error_message = some (joined e' e) }, e)

-- The last lines: a checksum error noted before is returned with the parsed fields.
abbrev pub finish : Message → Option WireError → Parsed
finish msg none = ok (record msg { message_type = standard })
finish msg (some e) = err (record msg { message_type = error; error_message = some e }, e)

-- From `contentBytes` on. `noted` is the checksum error that has been put into the message.
unfoldable pub parse_content : Message → Option WireError → Bytes → Parsed
parse_content msg noted content =
    if ltb (length content) (4 + 2 + 1)
    then failed_again msg noted (content_too_short (length content))
    else do
      id_bytes ← slice content 0 4
      physical_id ← read32 id_bytes
      message_bytes ← slice content 4 6
      message_id ← read16 message_bytes
      command ← index content 6
      let payload = if ltb 7 (length content) then drop 7 content else []
      finish
          (record msg {
            physical_id = physical_id;
            message_id = message_id;
            command_id = command;
            id = command;
            payload = payload;
            data_len = u32 (length payload);
          })
          noted

-- From the header on, for at least `min_packet_size` bytes.
unfoldable pub parse_frame : Bytes → Parsed
parse_frame xs = do
  header ← slice xs 0 3
  let msg = record (raw_message xs) { packet_header = header }
  (if not (bytes_beq header protocol_header) then failed msg (bad_header header) else do
    length_field ← slice xs 3 5
    declared ← read16 length_field
    let expected = 3 + 2 + declared
    (if not (nat_beq (length xs) expected)
        then failed msg (length_mismatch declared expected (length xs))
        else do
          let checksum_start = expected - 2
          tail ← slice xs checksum_start expected
          expected_checksum ← read16 tail
          covered ← slice xs 0 checksum_start
          actual ← with_message msg (packet_checksum covered)
          content ← slice xs 5 checksum_start
          parse_content (record msg { checksum = actual })
              (if nat_beq actual expected_checksum
                then none
                else some (checksum_mismatch expected_checksum actual))
              content))

unfoldable pub parse_dny_protocol_data : Bytes → Parsed
parse_dny_protocol_data xs =
    if nat_beq (length xs) 0
    then failed (raw_message xs) empty_packet
    else if nat_beq (length xs) iot_sim_card_length && is_valid_iccid_strict xs
    then ok (record (raw_message xs) { message_type = iccid; iccid_value = xs })
    else if nat_beq (length xs) 4 && bytes_beq xs header_link
    then ok (record (raw_message xs) { message_type = heartbeat_link })
    else if ltb (length xs) min_packet_size
    then failed (raw_message xs) (too_short (length xs))
    else parse_frame xs
