-- ===== src/Payload/Reads.antt =====
-- The reads of a payload, by what stands at their offset; and reads that cannot panic.
use native.Mathlib.Nat.{add-zero}
use native.Mathlib.Numerals.{add-one}
use iot_zinx.Shared.{
  ℕ, zero, suc, ◌+◌, ◌-◌, ◌≡◌, ◌≤◌, ap, ◌∙◌, arith, Bytes, [], ◌∷◌, ◌++◌, length, take, drop,
  length-drop, ok, slice_in, length_of_slice, index, read16, read32, read16_total, read32_total,
}
use iot_zinx.Shared.Words.{le16, le32}
use iot_zinx.Payload.Defs.{u16_at, u32_at}

sum_minus : (at n : ℕ) → at + n - at ≡ n
sum_minus at n = omega arith

pub index-drop :
    {E : Type 0} (xs : Bytes) (at a : ℕ) (rest : Bytes)
    → drop at xs ≡ a ∷ rest
    → index {E = E} xs at ≡ ok a
unfolding index
index-drop [] zero a rest h = cc
index-drop [] (suc at) a rest h = cc
index-drop (x ∷ xs) zero a rest h = cc
index-drop (x ∷ xs) (suc at) a rest h = index-drop xs at a rest h

pub u16_at-drop :
    {E : Type 0} (xs : Bytes) (at a b : ℕ) (rest : Bytes)
    → drop at xs ≡ a ∷ b ∷ rest
    → u16_at {E = E} xs at ≡ ok (le16 a b)
unfolding u16_at read16
u16_at-drop xs at a b rest h =
    let size : length (drop at xs) ≡ length rest + 2 = ap length h ∙ omega arith in
    rw (slice_in xs at (at + 2) (omega arith) (omega (arith, length-drop at xs)), sum_minus at 2, h)

pub u32_at-drop :
    {E : Type 0} (xs : Bytes) (at a b c d : ℕ) (rest : Bytes)
    → drop at xs ≡ a ∷ b ∷ c ∷ d ∷ rest
    → u32_at {E = E} xs at ≡ ok (le32 a b c d)
unfolding u32_at read32
u32_at-drop xs at a b c d rest h =
    let size : length (drop at xs) ≡ length rest + 4 = ap length h ∙ omega arith in
    rw (slice_in xs at (at + 4) (omega arith) (omega (arith, length-drop at xs)), sum_minus at 4, h)

pub u16_at-total :
    {E : Type 0} (xs : Bytes) (at : ℕ)
    → at + 2 ≤ length xs
    → (n : ℕ) × (u16_at {E = E} xs at ≡ ok n)
unfolding u16_at
u16_at-total {E} xs at h =
    let long : length (take (at + 2 - at) (drop at xs)) ≡ at + 2 - at =
      length_of_slice xs at (at + 2) (omega arith) h in
    let (n, e) = read16_total {E = E} (take (at + 2 - at) (drop at xs)) (omega arith) in
    (n, rw (slice_in xs at (at + 2) (omega arith) h) e)

pub u32_at-total :
    {E : Type 0} (xs : Bytes) (at : ℕ)
    → at + 4 ≤ length xs
    → (n : ℕ) × (u32_at {E = E} xs at ≡ ok n)
unfolding u32_at
u32_at-total {E} xs at h =
    let long : length (take (at + 4 - at) (drop at xs)) ≡ at + 4 - at =
      length_of_slice xs at (at + 4) (omega arith) h in
    let (n, e) = read32_total {E = E} (take (at + 4 - at) (drop at xs)) (omega arith) in
    (n, rw (slice_in xs at (at + 4) (omega arith) h) e)

drop_next : (xs : Bytes) (at a : ℕ) (rest : Bytes) → drop at xs ≡ a ∷ rest → drop (suc at) xs ≡ rest
drop_next [] zero a rest h = cc
drop_next [] (suc at) a rest h = cc
drop_next (x ∷ xs) zero a rest h = cc
drop_next (x ∷ xs) (suc at) a rest h = drop_next xs at a rest h

pub drop-suc :
    (xs : Bytes) (at a : ℕ) (rest : Bytes) → drop at xs ≡ a ∷ rest → drop (at + 1) xs ≡ rest
drop-suc xs at a rest h = rw add-one (drop_next xs at a rest h)

pub drop-add :
    (xs : Bytes) (at n : ℕ) (front rest : Bytes)
    → drop at xs ≡ front ++ rest
    → n ≡ length front
    → drop (at + n) xs ≡ rest
drop-add xs at zero [] rest h e = rw add-zero h
drop-add xs at (suc n) [] rest h e = absurd (omega arith)
drop-add xs at zero (x ∷ front) rest h e = absurd (omega arith)
drop-add xs at (suc n) (x ∷ front) rest h e =
    let step : at + 1 + n ≡ at + suc n = omega arith in
    rw (← step)
      (drop-add xs (at + 1) n front rest (drop-suc xs at x (front ++ rest) h) (omega arith))
