-- ===== src/Sessions/PhysicalId.antt =====
-- Physical IDs as text: `ParseDeviceIDToPhysicalID`, `ValidateDeviceID` and the two formats of
-- pkg/utils/physical_id_helper.go. A string is its bytes.
use iot_zinx.Shared.{
  ℕ, zero, suc, ◌+◌, ◌-◌, ◌*◌, Bytes, List, [], ◌∷◌, Bool, true, false, not, ◌&&◌, ◌||◌, length,
  take, drop, all, Result, ok, reject, ◌>>=◌, ◌>>◌, ltb, leb, nat_beq, bytes_beq, if◌then◌else◌,
}
use iot_zinx.Orders.Key.{decimal}
use iot_zinx.Payload.Defs.{format_physical_id}

pub data IdError : Type 0 where
  empty_id bad_length bad_character not_reversible : IdError

-- The white space of `unicode.IsSpace`, each character in UTF-8.
abbrev pub white_space : List Bytes
white_space =
    (0x09 ∷ [])
    ∷ (0x0a ∷ [])
    ∷ (0x0b ∷ [])
    ∷ (0x0c ∷ [])
    ∷ (0x0d ∷ [])
    ∷ (0x20 ∷ [])
    ∷ (0xc2 ∷ 0x85 ∷ [])
    ∷ (0xc2 ∷ 0xa0 ∷ [])
    ∷ (0xe1 ∷ 0x9a ∷ 0x80 ∷ [])
    ∷ (0xe2 ∷ 0x80 ∷ 0x80 ∷ [])
    ∷ (0xe2 ∷ 0x80 ∷ 0x81 ∷ [])
    ∷ (0xe2 ∷ 0x80 ∷ 0x82 ∷ [])
    ∷ (0xe2 ∷ 0x80 ∷ 0x83 ∷ [])
    ∷ (0xe2 ∷ 0x80 ∷ 0x84 ∷ [])
    ∷ (0xe2 ∷ 0x80 ∷ 0x85 ∷ [])
    ∷ (0xe2 ∷ 0x80 ∷ 0x86 ∷ [])
    ∷ (0xe2 ∷ 0x80 ∷ 0x87 ∷ [])
    ∷ (0xe2 ∷ 0x80 ∷ 0x88 ∷ [])
    ∷ (0xe2 ∷ 0x80 ∷ 0x89 ∷ [])
    ∷ (0xe2 ∷ 0x80 ∷ 0x8a ∷ [])
    ∷ (0xe2 ∷ 0x80 ∷ 0xa8 ∷ [])
    ∷ (0xe2 ∷ 0x80 ∷ 0xa9 ∷ [])
    ∷ (0xe2 ∷ 0x80 ∷ 0xaf ∷ [])
    ∷ (0xe2 ∷ 0x81 ∷ 0x9f ∷ [])
    ∷ (0xe3 ∷ 0x80 ∷ 0x80 ∷ [])
    ∷ []

abbrev pub reversed : Bytes → Bytes → Bytes
reversed [] done = done
reversed (c ∷ s) done = reversed s (c ∷ done)

abbrev pub map_reversed : List Bytes → List Bytes
map_reversed [] = []
map_reversed (w ∷ ws) = reversed w [] ∷ map_reversed ws

-- How many bytes of white space the text begins with, for one character.
abbrev pub space_at : List Bytes → Bytes → ℕ
space_at [] s = 0
space_at (w ∷ ws) s =
    let rest = space_at ws s in if bytes_beq (take (length w) s) w then length w else rest

abbrev pub trim_left : ℕ → List Bytes → Bytes → Bytes
trim_left zero spaces s = s
trim_left (suc fuel) spaces s =
    let n = space_at spaces s in
    let rest = trim_left fuel spaces (drop n s) in if nat_beq n 0 then s else rest

-- `strings.TrimSpace`; each step drops a byte at least, so the length is fuel enough.
unfoldable pub trim_space : Bytes → Bytes
trim_space s =
    let left = trim_left (length s) white_space s in
    reversed (trim_left (length left) (map_reversed white_space) (reversed left [])) []

abbrev pub is_upper_hex : ℕ → Bool
is_upper_hex c = leb 0x30 c && leb c 0x39 || leb 0x41 c && leb c 0x46

unfoldable pub hex_value : ℕ → ℕ
hex_value c = if ltb c 0x3a then c - 0x30 else c - 0x37

-- `fmt.Sscanf(s, "%08X", &n)` on eight upper-case digits, and `"%X"` on six, which do not fail.
unfoldable pub scan_hex : ℕ → Bytes → ℕ
scan_hex n [] = n
scan_hex n (c ∷ s) = scan_hex (n * 16 + hex_value c) s

abbrev pub is_empty : Bytes → Bool
is_empty [] = true
is_empty (c ∷ s) = false

unfoldable pub parse_trimmed : Bytes → Result IdError ℕ
parse_trimmed s = do
  reject (not (nat_beq (length s) 8)) bad_length
  reject (not (all is_upper_hex s)) bad_character
  let physical_id = scan_hex 0 s
  reject (not (bytes_beq (format_physical_id physical_id) s)) not_reversible
  ok physical_id

unfoldable pub parse_device_id_to_physical_id : Bytes → Result IdError ℕ
parse_device_id_to_physical_id device_id = do
  reject (is_empty device_id) empty_id
  parse_trimmed (trim_space device_id)

unfoldable pub validate_device_id : Bytes → Result IdError (Unit {0})
validate_device_id device_id = do physical_id ← parse_device_id_to_physical_id device_id; ok tt

-- Without a leading "04" the whole number is shown.
unfoldable pub format_physical_id_for_display : ℕ → Bytes
format_physical_id_for_display physical_id =
    let hex_str = format_physical_id physical_id in
    if bytes_beq (take 2 hex_str) (0x30 ∷ 0x34 ∷ [])
    then decimal (scan_hex 0 (drop 2 hex_str))
    else decimal physical_id

unfoldable pub format_card_number : ℕ → Bytes
format_card_number card_id = format_physical_id card_id
