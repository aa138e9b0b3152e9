-- ===== src/Wire/Checksum.antt =====
-- `CalculatePacketChecksumInternal` of pkg/protocol/dny_protocol_parser.go.
use iot_zinx.Shared.{ℕ, ◌+◌, ◌%◌, ◌≡◌, refl, ◌≢◌, arith, Bytes, [], ◌∷◌, ◌++◌, Result, ok, err}
use iot_zinx.Shared.Words.{u16, IsByte, IsU16}
use iot_zinx.Wire.Frame.{WireError, empty_frame}

-- `for _, b := range dataFrame { sum += uint16(b) }`, wrapping at each step.
unfoldable pub sum_loop : ℕ → Bytes → ℕ
sum_loop sum [] = sum
sum_loop sum (b ∷ bs) = sum_loop (u16 (sum + b)) bs

unfoldable pub packet_checksum : Bytes → Result WireError ℕ
packet_checksum [] = err empty_frame
packet_checksum (b ∷ bs) = ok (sum_loop 0 (b ∷ bs))

-- The sum of the bytes, with no wrap.
unfoldable pub total : Bytes → ℕ
total [] = 0
total (b ∷ bs) = b + total bs

pub total-append : (xs ys : Bytes) → total (xs ++ ys) ≡ total xs + total ys
unfolding total
total-append [] ys = omega arith
total-append (x ∷ xs) ys = omega (arith, total-append xs ys)

-- Wrapping at each step and wrapping once at the end agree.
pub sum_loop-total : (sum : ℕ) (bs : Bytes) → IsU16 sum → sum_loop sum bs ≡ (sum + total bs) % 65536
unfolding sum_loop total
sum_loop-total sum [] h = omega arith
sum_loop-total sum (b ∷ bs) h = omega (arith, sum_loop-total (u16 (sum + b)) bs)

pub sum_loop-append :
    (sum : ℕ) (xs ys : Bytes) → sum_loop sum (xs ++ ys) ≡ sum_loop (sum_loop sum xs) ys
unfolding sum_loop
sum_loop-append sum [] ys = refl
sum_loop-append sum (x ∷ xs) ys = sum_loop-append (u16 (sum + x)) xs ys

pub sum_loop-IsU16 : (sum : ℕ) (bs : Bytes) → IsU16 sum → IsU16 (sum_loop sum bs)
sum_loop-IsU16 sum bs h = omega (arith, sum_loop-total sum bs h)

pub packet_checksum-ok : (bs : Bytes) → bs ≢ [] → packet_checksum bs ≡ ok (sum_loop 0 bs)
unfolding packet_checksum
packet_checksum-ok [] h = absurd (h refl)
packet_checksum-ok (b ∷ bs) h = refl

-- Changing one byte into another changes the checksum.
pub sum_loop-flip :
    (xs ys : Bytes) (a b : ℕ)
    → IsByte a
    → IsByte b
    → a ≢ b
    → sum_loop 0 (xs ++ (a ∷ ys)) ≢ sum_loop 0 (xs ++ (b ∷ ys))
unfolding total
sum_loop-flip xs ys a b ha hb ne e = ne (
    omega (
      arith,
      e,
      sum_loop-total 0 (xs ++ (a ∷ ys)) (omega arith),
      sum_loop-total 0 (xs ++ (b ∷ ys)) (omega arith),
      total-append xs (a ∷ ys),
      total-append xs (b ∷ ys),
    ))
