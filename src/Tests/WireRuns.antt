-- ===== src/Tests/WireRuns.antt =====
-- The wire format on concrete frames.
use iot_zinx.Shared.{
  ◌+◌, ◌≡◌, ◌≢◌, ◌↔◌, refl, arith, Bytes, [], ◌∷◌, ◌++◌, length, take, drop, List, panic, ok, err,
  slice, index, true, if◌then◌else◌, read16, read32,
}
use iot_zinx.Wire.Frame.{header_link, Message, standard, not_enough_data, new_message, raw_message}
use iot_zinx.Wire.Checksum.{sum_loop, packet_checksum}
use iot_zinx.Wire.Builder.{
  build_packet, build_dny_packet, build_response_packet, validate_packet, validate_dny_frame,
}
use iot_zinx.Wire.Parser.{
  parse_dny_protocol_data, parse_frame, parse_content, is_valid_iccid_strict,
}
use iot_zinx.Wire.Packet.{pack_dny_message, carrier, unpack}
use iot_zinx.Wire.RoundTrip.{standard_message, body, parse-build}
use iot_zinx.Wire.Shape.{reworded_verdict}
use iot_zinx.Wire.Accept.{build-parse, standard_iff_valid, validators_agree}
use iot_zinx.Wire.Corrupt.{corrupt_refused}
use iot_zinx.Wire.Splitter.{find_gzip_end, split_packets}
use iot_zinx.Wire.Splitting.{concat, frame, link, cut, split_concat}
use iot_zinx.Wire.Progress.{HasEnded, split_ends}
use iot_zinx.Wire.Gzip.{split_gzip_panics}
use iot_zinx.Wire.Results.{
  ParseResult, parse_dny_data, parse_dny_data_with_consumed, parse_multiple_dny_frames,
  no_valid_frame, frames_loop, frame_at, is_dny_at, parse_result, field_at, checked_sum, sum_at,
}
use iot_zinx.Wire.Single.{may_be_frame, alone, ReadsWhole, parse_multiple_dny_frames_lem}
use iot_zinx.Wire.Framing.{builders_agree, unpack-build}

-- The device message quoted in the source, 444E590D00CD28A20479082263EE5C68 with checksum 054B.
abbrev sample_payload : Bytes
sample_payload = 0x63 ∷ 0xee ∷ 0x5c ∷ 0x68 ∷ []

abbrev sample_frame : Bytes
sample_frame =
    0x44 ∷ 0x4e ∷ 0x59 ∷ 0x0d ∷ 0x00 ∷ 0xcd ∷ 0x28 ∷ 0xa2 ∷ 0x04 ∷ 0x79 ∷ 0x08 ∷ 0x22 ∷ 0x63 ∷ 0xee
    ∷ 0x5c ∷ 0x68 ∷ 0x4b ∷ 0x05 ∷ []

sample_built : build_packet 0x04a228cd 0x0879 0x22 sample_payload ≡ ok sample_frame
unfolding build_packet packet_checksum sum_loop
sample_built = refl

parse-build_example :
    (built : Bytes) × (build_packet 0x04a228cd 0x0879 0x22 sample_payload ≡ ok built)
    × (length built ≡ 4 + 14)
    × (parse_dny_protocol_data built
        ≡ ok (
            standard_message 0x04a228cd 0x0879 0x22 sample_payload
              (sum_loop 0 (body 0x04a228cd 0x0879 0x22 sample_payload))
              built))
parse-build_example =
    parse-build 0x04a228cd 0x0879 0x22 sample_payload (omega arith) (omega arith) (omega arith)

abbrev sample_message : Message
sample_message = standard_message 0x04a228cd 0x0879 0x22 sample_payload 0x054b sample_frame

sample_parsed : parse_dny_protocol_data sample_frame ≡ ok sample_message
unfolding parse_dny_protocol_data is_valid_iccid_strict parse_frame parse_content packet_checksum
    sum_loop slice read16 read32 index raw_message
sample_parsed = refl

build-parse_example : build_packet 0x04a228cd 0x0879 0x22 sample_payload ≡ ok sample_frame
build-parse_example = build-parse sample_frame sample_message (omega arith) sample_parsed refl

sample_valid : validate_packet sample_frame ≡ ok tt
unfolding validate_packet packet_checksum sum_loop slice read16
sample_valid = refl

standard_iff_valid_example :
    ((msg : Message) × (parse_dny_protocol_data sample_frame ≡ ok msg)
      × (msg.message_type ≡ standard))
    ↔ (validate_packet sample_frame ≡ ok tt)
standard_iff_valid_example = standard_iff_valid sample_frame

validators_agree_example :
    validate_packet sample_frame ≡ reworded_verdict (validate_dny_frame sample_frame)
validators_agree_example = validators_agree sample_frame

-- The payload byte 0x5c arrives as 0x5d.
corrupt_refused_example :
    let wrong = take 14 sample_frame ++ (0x5d ∷ 0x68 ∷ 0x4b ∷ 0x05 ∷ []) in
    (validate_packet wrong ≢ ok tt)
    × ¬ ((m : Message) × (parse_dny_protocol_data wrong ≡ ok m) × (m.message_type ≡ standard))
corrupt_refused_example =
    corrupt_refused (take 14 sample_frame) (0x68 ∷ 0x4b ∷ 0x05 ∷ []) 0x5c 0x5d (omega arith)
      (omega arith) (omega arith) (omega arith) sample_valid

builders_agree_example :
    let msg = new_message 0x22 0x04a228cd sample_payload 0x0879 in
    let framed = build_dny_packet 0x04a228cd 0x0879 0x22 sample_payload in
    (build_packet 0x04a228cd 0x0879 0x22 sample_payload ≡ ok framed)
    × (build_response_packet msg ≡ ok framed)
    × (pack_dny_message msg ≡ ok framed)
builders_agree_example =
    builders_agree 0x04a228cd 0x0879 0x22 sample_payload (omega arith) (omega arith)

-- Two frames in one read, and the first 17 of 18 bytes.
unpack-build_example :
    (built : Bytes) × (build_packet 0x04a228cd 0x0879 0x22 sample_payload ≡ ok built)
    × (unpack (built ++ sample_frame) ≡ ok (carrier built built))
    × (unpack (take 17 built) ≡ err not_enough_data)
unpack-build_example =
    unpack-build 0x04a228cd 0x0879 0x22 sample_payload sample_frame 17 (omega arith) (omega arith)
      (omega arith)

-- A frame, a link heartbeat, and the header of a frame whose rest has not come.
abbrev sample_rest : Bytes
sample_rest =
    0xcd ∷ 0x28 ∷ 0xa2 ∷ 0x04 ∷ 0x79 ∷ 0x08 ∷ 0x22 ∷ 0x63 ∷ 0xee ∷ 0x5c ∷ 0x68 ∷ 0x4b ∷ 0x05 ∷ []

abbrev sample_stream : List Bytes
sample_stream = sample_frame ∷ (0x6c ∷ 0x69 ∷ 0x6e ∷ 0x6b ∷ []) ∷ []

abbrev sample_cut : Bytes
sample_cut = 0x44 ∷ 0x4e ∷ 0x59 ∷ 0x0d ∷ 0x00 ∷ 0xcd ∷ []

split_concat_example :
    split_packets length 5 (concat sample_stream ++ sample_cut) ≡ ok (sample_stream, sample_cut)
split_concat_example =
    split_concat length 5 sample_stream sample_cut
      (frame 0x0d 0x00 sample_rest (omega arith) refl, (link, tt))
      (cut 0x0d 0x00 (0xcd ∷ []) (omega arith))

split_ends_example : HasEnded (split_packets length 5 (sample_frame ++ sample_cut))
split_ends_example = split_ends length 5 (sample_frame ++ sample_cut)

abbrev ten_zeros : Bytes
ten_zeros = 0 ∷ 0 ∷ 0 ∷ 0 ∷ 0 ∷ 0 ∷ 0 ∷ 0 ∷ 0 ∷ 0 ∷ []

no_packet_behind : find_gzip_end 10 (drop 7 ten_zeros) ≡ 100
unfolding find_gzip_end
no_packet_behind = refl

split_gzip_panics_example :
    split_packets length 5 (concat (header_link ∷ []) ++ (0x1f ∷ 0x8b ∷ 0x08 ∷ ten_zeros)) ≡ panic
split_gzip_panics_example =
    split_gzip_panics length 5 (header_link ∷ []) ten_zeros (link, tt) (omega arith) (omega arith)
      (omega arith)

abbrev two_frames : Bytes
two_frames = sample_frame ++ sample_frame

-- One frame is found, two are not.
one_frame_found :
    (r : ParseResult) × (parse_multiple_dny_frames sample_frame ≡ ok (r ∷ []))
    × (r.checksum_valid ≡ true)
    × (r.declared_length ≡ 13)
unfolding parse_multiple_dny_frames frames_loop frame_at is_dny_at parse_dny_data_with_consumed
    parse_dny_data parse_result field_at checked_sum sum_at parse_dny_protocol_data
    is_valid_iccid_strict parse_frame parse_content packet_checksum sum_loop slice read16 read32
    index raw_message
one_frame_found = (_, refl, refl, refl)

two_frames_refused : parse_multiple_dny_frames two_frames ≡ err no_valid_frame
unfolding parse_multiple_dny_frames frames_loop frame_at is_dny_at parse_dny_data_with_consumed
    parse_dny_data parse_result field_at checked_sum sum_at parse_dny_protocol_data
    is_valid_iccid_strict parse_frame parse_content packet_checksum sum_loop slice read16 read32
    index raw_message
two_frames_refused = refl

parse_multiple_dny_frames_lem_example :
    (parse_multiple_dny_frames two_frames
      ≡ (if may_be_frame two_frames then alone (parse_dny_data two_frames) else err no_valid_frame))
    × (may_be_frame two_frames ≡ true → ReadsWhole two_frames (parse_dny_data two_frames))
parse_multiple_dny_frames_lem_example = parse_multiple_dny_frames_lem two_frames
