-- ===== src/Wire/Splitter.antt =====
-- `SplitPacketsFromBuffer`, `detectAndHandleSpecialData` and `ParseMultiplePackets` of
-- pkg/protocol/dny_protocol_parser.go. The scan position is the list of bytes still ahead.
use Prim.Native.Nat.{min}
use iot_zinx.Shared.{
  ℕ, zero, suc, ◌+◌, ◌*◌, ◌/◌, ◌%◌, Bytes, List, [], ◌∷◌, ◌++◌, Bool, not, ◌&&◌, length, take, drop,
  Option, none, some, Result, ok, err, panic, ◌>>=◌, ltb, leb, nat_beq, bytes_beq, if◌then◌else◌,
}
use iot_zinx.Shared.Words.{le16}
use iot_zinx.Wire.Frame.{Message, protocol_header, header_link, iot_sim_card_length}
use iot_zinx.Wire.Parser.{is_hex_char, is_valid_iccid_strict, parse_dny_protocol_data}
use iot_zinx.Wire.Packet.{hex_decode}

-- `len(xs) >= len(p) && string(xs[:len(p)]) == p`.
unfoldable pub starts_with : Bytes → Bytes → Bool
starts_with p xs = leb (length p) (length xs) && bytes_beq (take (length p) xs) p

unfoldable pub starts_with_iccid : Bytes → Bool
starts_with_iccid xs = leb 20 (length xs) && is_valid_iccid_strict (take 20 xs)

-- `findGzipEnd`, counted from the signature: the first known start at least 10 bytes in, with
-- more than 8 bytes behind it, and 100 if there is none. `i` is the distance of `xs`.
unfoldable pub find_gzip_end : ℕ → Bytes → ℕ
find_gzip_end i [] = 100
find_gzip_end i (x ∷ xs) =
    let later = find_gzip_end (i + 1) xs in
    let rest = x ∷ xs in
    if not (ltb 8 (length rest))
    then 100
    else if ltb 3 (length rest) && starts_with protocol_header rest
    then i
    else if ltb 20 (length rest) && starts_with_iccid rest
    then i
    else if ltb 4 (length rest) && starts_with header_link rest
    then i
    else later

unfoldable pub is_gzip : Bytes → Bool
is_gzip xs = leb 10 (length xs) && starts_with (0x1f ∷ 0x8b ∷ 0x08 ∷ []) xs

-- The hexadecimal digits in front: `findHexDataEnd`.
unfoldable pub find_hex_data_end : Bytes → ℕ
find_hex_data_end [] = 0
find_hex_data_end (x ∷ xs) =
    let more = find_hex_data_end xs in if is_hex_char x then suc more else 0

-- `isHexEncodedData`: the digits in front, of the first `check_len` bytes.
unfoldable pub is_hex_encoded_data : Bytes → ℕ → Bool
is_hex_encoded_data xs check_len =
    let hex_count = find_hex_data_end (take check_len xs) in
    not (ltb check_len 6) && (leb (check_len * 8 / 10) hex_count && nat_beq (hex_count % 2) 0)

-- The header behind a zero byte: its distance, from `i` on, while `limit` bytes may be tried and
-- more than three are ahead.
unfoldable pub find_header : ℕ → ℕ → Bytes → Option ℕ
find_header limit i [] = none
find_header zero i (x ∷ xs) = none
find_header (suc limit) i (x ∷ xs) =
    let later = find_header limit (i + 1) xs in
    if not (ltb 3 (length (x ∷ xs)))
    then none
    else if starts_with protocol_header (x ∷ xs)
    then some i
    else later

-- What the scan does next.
pub data Step : Type 0 where
  packet : ℕ → Step
  stop : Step
  fault : Step
  decode : ℕ → Bytes → ℕ → Step
  skip : ℕ → Step

-- The last resorts: past the zero bytes in front of a header, or one byte.
unfoldable pub skip_length : Bytes → ℕ
skip_length [] = 1
skip_length (x ∷ xs) =
    if leb 20 (length (x ∷ xs)) && nat_beq x 0
    then elim (find_header 49 1 xs) [ none ↦ 1 | some i ↦ i ]
    else 1

-- `detectAndHandleSpecialData`. `decompressGzipData` always fails, so of the gzip branch only the
-- slice up to the assumed end is left: it panics past the buffer's capacity, which lies `spare`
-- bytes behind its end.
unfoldable pub detect_special : ℕ → Bytes → Step
detect_special spare xs =
    if ltb (length xs) 4
    then skip 1
    else if is_gzip xs && ltb (length xs + spare) (find_gzip_end 10 (drop 10 xs))
    then fault
    else if leb 6 (length xs) && is_hex_encoded_data xs (min (length xs) 100)
    then elim (hex_decode (take (find_hex_data_end xs) xs)) [
      | none ↦ skip (skip_length xs)
      | some decoded ↦ decode (find_hex_data_end xs) decoded (skip_length xs)
    ]
    else skip (skip_length xs)

-- A DNY header: the log line reads the packet's bytes 5 to 8, which must lie in the capacity.
unfoldable pub split_frame : ℕ → Bytes → Step
split_frame spare (x ∷ y ∷ z ∷ a ∷ b ∷ xs) =
    if ltb (length (x ∷ y ∷ z ∷ a ∷ b ∷ xs)) (3 + 2 + le16 a b)
    then stop
    else if ltb (length (x ∷ y ∷ z ∷ a ∷ b ∷ xs) + spare) 9
    then fault
    else packet (3 + 2 + le16 a b)
split_frame spare xs = stop

unfoldable pub next_step : ℕ → Bytes → Step
next_step spare xs =
    if starts_with_iccid xs
    then packet iot_sim_card_length
    else if starts_with header_link xs
    then packet 4
    else if starts_with protocol_header xs
    then split_frame spare xs
    else detect_special spare xs

-- The loop cannot run out of fuel that exceeds the length: see `Splitting`.
pub data SplitFault : Type 0 where
  out_of_fuel : SplitFault

abbrev pub Split : Type 0
Split = Result SplitFault (List Bytes × Bytes)

abbrev pub prepend : List Bytes → Split → Split
prepend found (ok (packets, rest)) = ok (found ++ packets, rest)
prepend found (err e) = err e
prepend found panic = panic

-- `spare_of` is the spare capacity that Go gives a decoded buffer, which is not specified.
unfoldable pub split_loop : ℕ → (Bytes → ℕ) → ℕ → Bytes → Split
split_loop fuel spare_of spare [] = ok ([], [])
split_loop zero spare_of spare (x ∷ xs) = err out_of_fuel
split_loop (suc fuel) spare_of spare (x ∷ xs) = elim (next_step spare (x ∷ xs)) [
  | packet n ↦ prepend (take n (x ∷ xs) ∷ []) (split_loop fuel spare_of spare (drop n (x ∷ xs)))
  | stop ↦ ok ([], x ∷ xs)
  | fault ↦ panic
  | decode n decoded otherwise ↦ elim (split_loop fuel spare_of (spare_of decoded) decoded) [
    | ok ([], rest) ↦ split_loop fuel spare_of spare (drop otherwise (x ∷ xs))
    | ok (found ∷ more, rest) ↦
        prepend (found ∷ more) (split_loop fuel spare_of spare (drop n (x ∷ xs)))
    | err e ↦ err e
    | panic ↦ panic
  ]
  | skip n ↦ split_loop fuel spare_of spare (drop n (x ∷ xs))
]

unfoldable pub split_packets : (Bytes → ℕ) → ℕ → Bytes → Split
split_packets spare_of spare buffer = split_loop (suc (length buffer)) spare_of spare buffer

-- The packets that parse, in order; the others are logged and left out.
unfoldable pub parse_each : List Bytes → Result SplitFault (List Message)
parse_each [] = ok []
parse_each (p ∷ ps) = elim (parse_dny_protocol_data p) [
  | ok msg ↦ do msgs ← parse_each ps; ok (msg ∷ msgs)
  | err e ↦ parse_each ps
  | panic ↦ panic
]

unfoldable pub parse_multiple_packets :
    (Bytes → ℕ) → ℕ → Bytes → Result SplitFault (List Message × Bytes)
parse_multiple_packets spare_of spare buffer = do
  (packets, rest) ← split_packets spare_of spare buffer
  msgs ← parse_each packets
  ok (msgs, rest)
