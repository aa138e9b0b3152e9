-- ===== src/Shared/Slices.antt =====
-- Go slices of bytes: `data[lo:hi]`, `data[i]`, and little-endian reads.
use Prim.Native.Nat.{ℕ, ◌+◌, ◌-◌, ◌≤◌, ◌<◌}
use mathlib.Core.Path.{◌≡◌, refl, ap, ◌∙◌}
use mathlib.Core.Bool.{◌&&◌}
use mathlib.Core.List.{[], ◌∷◌, ◌++◌}
use native.Mathlib.Omega.{arith}
use iot_zinx.Shared.Tests.{Bytes, leb, if◌then◌else◌}
use iot_zinx.Shared.Lists.{
  length, get_elem?, take, drop, length-append, length-take, length-drop, take-append, drop-append,
  get_elem?-lt,
}
use iot_zinx.Shared.Outcome.{Result, ok, panic, or_panic}
use iot_zinx.Shared.Words.{le16, le32}

-- Go lets the upper bound pass the length up to the capacity; here that is a panic too, so what
-- is proved free of panics is so whatever the capacity.
unfoldable pub slice : {E : Type 0} → Bytes → ℕ → ℕ → Result E Bytes
slice xs lo hi = if leb lo hi && leb hi (length xs) then ok (take (hi - lo) (drop lo xs)) else panic

unfoldable pub index : {E : Type 0} → Bytes → ℕ → Result E ℕ
index xs i = or_panic (get_elem? xs i)

-- `binary.LittleEndian.Uint16(b)` and `Uint32(b)` read the front of `b`.
unfoldable pub read16 : {E : Type 0} → Bytes → Result E ℕ
read16 (a ∷ b ∷ xs) = ok (le16 a b)
read16 _ = panic

unfoldable pub read32 : {E : Type 0} → Bytes → Result E ℕ
read32 (a ∷ b ∷ c ∷ d ∷ xs) = ok (le32 a b c d)
read32 _ = panic

-- A slice inside the bounds is there.
pub slice_in :
    {E : Type 0} (xs : Bytes) (lo hi : ℕ)
    → lo ≤ hi
    → hi ≤ length xs
    → slice {E = E} xs lo hi ≡ ok (take (hi - lo) (drop lo xs))
unfolding slice
slice_in xs lo hi p q = ground arith

-- The middle of three parts.
pub slice_mid :
    {E : Type 0} (xs ys zs : Bytes) (lo hi : ℕ)
    → lo ≡ length xs
    → hi ≡ length xs + length ys
    → slice {E = E} (xs ++ (ys ++ zs)) lo hi ≡ ok ys
slice_mid xs ys zs lo hi p q =
    slice_in (xs ++ (ys ++ zs)) lo hi (omega arith)
      (omega (arith, length-append xs (ys ++ zs), length-append ys zs))
    ∙ ap ok (rw (drop-append xs (ys ++ zs) lo p) (take-append ys zs (hi - lo) (omega arith)))

pub length_of_slice :
    (xs : Bytes) (lo hi : ℕ)
    → lo ≤ hi
    → hi ≤ length xs
    → length (take (hi - lo) (drop lo xs)) ≡ hi - lo
length_of_slice xs lo hi p q = omega (arith, length-take (hi - lo) (drop lo xs), length-drop lo xs)

pub read16_total : {E : Type 0} (xs : Bytes) → 2 ≤ length xs → (n : ℕ) × (read16 {E = E} xs ≡ ok n)
unfolding read16
read16_total [] h = absurd (omega arith)
read16_total (a ∷ []) h = absurd (omega arith)
read16_total (a ∷ b ∷ xs) h = (le16 a b, refl)

pub read32_total : {E : Type 0} (xs : Bytes) → 4 ≤ length xs → (n : ℕ) × (read32 {E = E} xs ≡ ok n)
unfolding read32
read32_total [] h = absurd (omega arith)
read32_total (a ∷ []) h = absurd (omega arith)
read32_total (a ∷ b ∷ []) h = absurd (omega arith)
read32_total (a ∷ b ∷ c ∷ []) h = absurd (omega arith)
read32_total (a ∷ b ∷ c ∷ d ∷ xs) h = (le32 a b c d, refl)

pub index_total :
    {E : Type 0} (xs : Bytes) (i : ℕ) → i < length xs → (v : ℕ) × (index {E = E} xs i ≡ ok v)
unfolding index
index_total xs i h = let (v, e) = get_elem?-lt xs i h in (v, rw e)
