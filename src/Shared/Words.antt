-- ===== src/Shared/Words.antt =====
-- Machine words as native numbers: bytes, little-endian fields, and what Go's conversions keep.
use Prim.Native.Nat.{ℕ, ◌+◌, ◌*◌, ◌/◌, ◌%◌, ◌<◌}
use mathlib.Core.List.{[], ◌∷◌}
use iot_zinx.Shared.Tests.{Bytes}

abbrev pub IsByte : ℕ → Type 0
IsByte n = n < 256

abbrev pub IsU16 : ℕ → Type 0
IsU16 n = n < 65536

abbrev pub IsU32 : ℕ → Type 0
IsU32 n = n < 4294967296

abbrev pub u8 : ℕ → ℕ
u8 n = n % 256

abbrev pub u16 : ℕ → ℕ
u16 n = n % 65536

abbrev pub u32 : ℕ → ℕ
u32 n = n % 4294967296

-- `binary.LittleEndian.Uint16` and `Uint32` on bytes already read.
abbrev pub le16 : ℕ → ℕ → ℕ
le16 a b = a + b * 256

abbrev pub le32 : ℕ → ℕ → ℕ → ℕ → ℕ
le32 a b c d = a + b * 256 + c * 65536 + d * 16777216

-- `byte(n), byte(n >> 8)`, and the same for four bytes.
abbrev pub put16 : ℕ → Bytes
put16 n = u8 n ∷ u8 (n / 256) ∷ []

abbrev pub put32 : ℕ → Bytes
put32 n = u8 n ∷ u8 (n / 256) ∷ u8 (n / 65536) ∷ u8 (n / 16777216) ∷ []
