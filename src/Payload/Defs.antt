-- ===== src/Payload/Defs.antt =====
-- What the payload readers share.
use iot_zinx.Shared.{
  ℕ, ◌+◌, ◌/◌, ◌%◌, Bytes, [], ◌∷◌, ◌++◌, take, replicate, Result, ◌>>=◌, slice, read16, read32,
  ltb, nat_beq, if◌then◌else◌,
}

-- Why a payload is refused, with the offending value.
pub data PayloadError : Type 0 where
  insufficient bad_firmware bad_port_count bad_virtual_id bad_device_type bad_work_mode bad_command
        bad_gun bad_card_number bad_order_id bad_max_power bad_max_energy bad_max_time bad_voltage
        bad_port_status bad_signal bad_temperature :
      ℕ → PayloadError

-- `binary.LittleEndian.Uint16(data[at:at+2])` and the 32-bit read.
unfoldable pub u16_at : {E : Type 0} → Bytes → ℕ → Result E ℕ
u16_at xs at = do part ← slice xs at (at + 2); read16 part

unfoldable pub u32_at : {E : Type 0} → Bytes → ℕ → Result E ℕ
u32_at xs at = do part ← slice xs at (at + 4); read32 part

-- `make([]byte, n)` filled by `copy`.
abbrev pub pad_to : ℕ → Bytes → Bytes
pad_to n xs = take n (xs ++ replicate n 0)

-- A byte in front of what has been trimmed.
abbrev pub keep_front : ℕ → Bytes → Bytes
keep_front x [] = if nat_beq x 0 then [] else x ∷ []
keep_front x (y ∷ ys) = x ∷ y ∷ ys

-- `bytes.TrimRight(xs, "\x00")`.
abbrev pub trim_zeros : Bytes → Bytes
trim_zeros [] = []
trim_zeros (x ∷ xs) = keep_front x (trim_zeros xs)

-- `%08X` of a 32-bit number: `FormatPhysicalID` and `FormatCardNumber`.
unfoldable pub hex_digit : ℕ → ℕ
hex_digit d = if ltb d 10 then 0x30 + d else 0x37 + d

unfoldable pub format_physical_id : ℕ → Bytes
format_physical_id n =
    hex_digit (n / 268435456 % 16)
    ∷ hex_digit (n / 16777216 % 16)
    ∷ hex_digit (n / 1048576 % 16)
    ∷ hex_digit (n / 65536 % 16)
    ∷ hex_digit (n / 4096 % 16)
    ∷ hex_digit (n / 256 % 16)
    ∷ hex_digit (n / 16 % 16)
    ∷ hex_digit (n % 16)
    ∷ []
