-- ===== src/Wire/Packet.antt =====
-- pkg/protocol/dny_packet.go: `Pack` and `Unpack` of the Zinx data packer, with `IsHexString` and
-- `IsAllDigits` of pkg/utils/utils.go.
use iot_zinx.Shared.{
  ℕ, ◌+◌, ◌-◌, ◌*◌, Bytes, [], ◌∷◌, ◌++◌, Bool, not, ◌&&◌, length, take, all, Option, none, some,
  Result, ok, err, ◌>>=◌, ◌>>◌, reject, or_value, slice, read16, ltb, leb, nat_beq, bytes_beq,
  if◌then◌else◌,
}
use iot_zinx.Shared.Words.{u8, u16, u32, put16}
use iot_zinx.Wire.Frame.{
  Message, WireError, not_enough_data, bad_header, protocol_header, min_packet_size,
  min_header_size, new_message, set_raw_data,
}
use iot_zinx.Wire.Checksum.{packet_checksum}
use iot_zinx.Wire.Parser.{is_hex_char}
use iot_zinx.Wire.Builder.{frame_body}

-- `packDNYMessage`, for a message of the DNY type. The length comes from the `DataLen` field, in
-- 32 bits and then 16, and the payload is written only if that field is not 0.
unfoldable pub pack_dny_message : Message → Result WireError Bytes
pack_dny_message msg = do
  let data_part_len = u16 (u32 (4 + 2 + 1 + msg.data_len + 2))
  let payload = if ltb 0 msg.data_len then msg.payload else []
  let packet = frame_body data_part_len msg.physical_id msg.message_id (u8 msg.id) payload
  checksum ← or_value 0 (packet_checksum packet)
  ok (packet ++ put16 checksum)

unfoldable pub is_digit : ℕ → Bool
is_digit b = leb 0x30 b && leb b 0x39

unfoldable pub is_all_digits : Bytes → Bool
is_all_digits xs = not (nat_beq (length xs) 0) && all is_digit xs

-- `^[0-9a-fA-F]+$`.
unfoldable pub is_hex_string : Bytes → Bool
is_hex_string xs = not (nat_beq (length xs) 0) && all is_hex_char xs

-- `hex.DecodeString` of Go's standard library: two digits to a byte, an error on any other input.
unfoldable pub from_hex_char : ℕ → ℕ
from_hex_char c =
    if leb c 0x39 then c - 0x30 else if leb c 0x46 then c - 0x41 + 10 else c - 0x61 + 10

unfoldable pub hex_decode : Bytes → Option Bytes
hex_decode [] = some []
hex_decode (x ∷ []) = none
hex_decode (x ∷ y ∷ rest) =
    let more = hex_decode rest in
    if is_hex_char x && is_hex_char y
    then elim more [
      | none ↦ none
      | some bytes ↦ some ((from_hex_char x * 16 + from_hex_char y) ∷ bytes)
    ]
    else none

-- `len(data) >= 3 && bytes.HasPrefix(data, "DNY")`.
unfoldable pub has_header : Bytes → Bool
has_header xs = leb 3 (length xs) && bytes_beq (take 3 xs) protocol_header

-- A message that only carries bytes on to the interceptor.
abbrev pub carrier : Bytes → Bytes → Message
carrier payload raw = set_raw_data (new_message 0 0 payload 0) raw

-- `handleDNYProtocolBasic`.
unfoldable pub handle_basic : Bytes → Result WireError Message
handle_basic xs = do
  reject (ltb (length xs) min_packet_size) not_enough_data
  reject (not (has_header xs)) (bad_header (take 3 xs))
  length_field ← slice xs 3 5
  declared ← read16 length_field
  let total = min_header_size + declared
  reject (ltb (length xs) total) not_enough_data
  frame ← slice xs 0 total
  ok (carrier frame frame)

-- `Unpack` after the hexadecimal text has been dealt with.
unfoldable pub unpack_binary : Bytes → Result WireError Message
unpack_binary xs = if has_header xs then handle_basic xs else ok (carrier xs xs)

unfoldable pub unpack_decoded : Bytes → Bytes → Result WireError Message
unpack_decoded xs decoded =
    if has_header decoded
    then handle_basic decoded
    else if is_all_digits decoded
    then ok (carrier decoded xs)
    else unpack_binary decoded

unfoldable pub unpack : Bytes → Result WireError Message
unpack xs =
    if nat_beq (length xs) 0
    then err not_enough_data
    else if is_hex_string xs
    then elim (hex_decode xs) [ none ↦ unpack_binary xs | some decoded ↦ unpack_decoded xs decoded ]
    else unpack_binary xs
