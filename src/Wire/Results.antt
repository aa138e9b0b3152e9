-- ===== src/Wire/Results.antt =====
-- pkg/protocol/parser.go: parse results, of one frame and of a run of frames. The field
-- `PacketHeader` is always "DNY" and `CommandName` only names the command; both are left out.
use iot_zinx.Shared.{
  ℕ, zero, suc, ◌+◌, ◌-◌, Bytes, List, [], ◌∷◌, ◌++◌, Bool, false, ◌&&◌, length, Option, none, some,
  Result, ok, err, panic, or_value, ◌>>=◌, slice, read16, ltb, leb, nat_beq, bytes_beq,
  if◌then◌else◌,
}
use iot_zinx.Shared.Words.{u8}
use iot_zinx.Wire.Frame.{Message, WireError, protocol_header, min_packet_size}
use iot_zinx.Wire.Checksum.{packet_checksum}
use iot_zinx.Wire.Parser.{Parsed, parse_dny_protocol_data}

pub record ParseResult : Type 0 where
  pub declared_length : ℕ
  pub physical_id : ℕ
  pub message_id : ℕ
  pub command : ℕ
  pub contents : Bytes
  pub checksum : ℕ
  pub raw_data : Bytes
  pub checksum_valid : Bool

-- A field of two bytes, where the raw data has `need` bytes at least; else Go's zero value.
unfoldable pub field_at : Bytes → ℕ → ℕ → ℕ → Result WireError ℕ
field_at raw need lo hi = if leb need (length raw) then (do s ← slice raw lo hi; read16 s) else ok 0

-- The checksum at a place in the raw data, and whether it is that of the bytes in front of it.
unfoldable pub sum_at : Bytes → ℕ → Result WireError (ℕ × Bool)
sum_at raw checksum_pos = do
  tail ← slice raw checksum_pos (checksum_pos + 2)
  checksum ← read16 tail
  covered ← slice raw 0 checksum_pos
  calculated ← or_value 0 (packet_checksum covered)
  ok (checksum, nat_beq calculated checksum)

-- `dataLength` is the declared length less nine; if that is negative, both fields stay unset.
unfoldable pub checked_sum : Bytes → ℕ → Result WireError (ℕ × Bool)
checked_sum raw declared =
    if leb 9 declared && leb (12 + (declared - 9) + 2) (length raw)
    then sum_at raw (12 + (declared - 9))
    else ok (0, false)

unfoldable pub parse_result : Message → Result WireError ParseResult
parse_result msg = do
  declared ← field_at msg.raw_data 5 3 5
  message_id ← field_at msg.raw_data 11 9 11
  (checksum, valid) ← checked_sum msg.raw_data declared
  ok (record {
    declared_length = declared;
    physical_id = msg.physical_id;
    message_id = message_id;
    command = u8 msg.id;
    contents = msg.payload;
    checksum = checksum;
    raw_data = msg.raw_data;
    checksum_valid = valid;
  })

abbrev pub unless_refused : Parsed → Result WireError ParseResult
unless_refused (ok msg) = parse_result msg
unless_refused (err (msg, e)) = err e
unless_refused panic = panic

unfoldable pub parse_dny_data : Bytes → Result WireError ParseResult
parse_dny_data xs = unless_refused (parse_dny_protocol_data xs)

unfoldable pub parse_dny_data_with_consumed : Bytes → Result WireError (ParseResult × ℕ)
parse_dny_data_with_consumed xs = do r ← parse_dny_data xs; ok (r, 5 + r.declared_length)

-- The error of `ParseMultipleDNYFrames`; `out_of_fuel` is the model's own.
pub data ResultsFault : Type 0 where
  no_valid_frame out_of_fuel : ResultsFault

-- `offset+3 <= len(data) && string(data[offset:offset+3]) == "DNY"`.
unfoldable pub is_dny_at : Bytes → ℕ → Result ResultsFault Bool
is_dny_at xs offset =
    if leb (offset + 3) (length xs)
    then (do s ← slice xs offset (offset + 3); ok (bytes_beq s protocol_header))
    else ok false

-- An error of the frame leaves the loop.
abbrev pub unless_failed :
    Result WireError (ParseResult × ℕ) → Result ResultsFault (Option (ParseResult × ℕ))
unless_failed (ok r) = ok (some r)
unless_failed (err e) = ok none
unless_failed panic = panic

-- One round of the loop: the frame at the offset and its size, or `break`.
unfoldable pub frame_at : Bytes → ℕ → Result ResultsFault (Option (ParseResult × ℕ))
frame_at xs offset = do
  rest ← slice xs offset (length xs)
  (if ltb (length rest) min_packet_size then ok none else do
    dny ← is_dny_at xs offset
    (if dny then unless_failed (parse_dny_data_with_consumed rest) else ok none))

unfoldable pub frames_loop :
    ℕ → Bytes → ℕ → List ParseResult → Result ResultsFault (List ParseResult)
frames_loop zero xs offset results = if ltb offset (length xs) then err out_of_fuel else ok results
frames_loop (suc fuel) xs offset results =
    if ltb offset (length xs)
    then elim (frame_at xs offset) [
      | ok none ↦ ok results
      | ok (some (r, consumed)) ↦ frames_loop fuel xs (offset + consumed) (results ++ (r ∷ []))
      | err e ↦ err e
      | panic ↦ panic
    ]
    else ok results

abbrev pub some_or_fault : List ParseResult → Result ResultsFault (List ParseResult)
some_or_fault [] = err no_valid_frame
some_or_fault (r ∷ rs) = ok (r ∷ rs)

-- Each round goes on by five bytes at least, so the length and one are fuel enough.
unfoldable pub parse_multiple_dny_frames : Bytes → Result ResultsFault (List ParseResult)
parse_multiple_dny_frames xs = do
  results ← frames_loop (suc (length xs)) xs 0 []
  some_or_fault results
