-- ===== src/Payload/CardLaws.antt =====
-- The swipe card reader on long second card numbers.
use iot_zinx.Shared.{
  ℕ, ◌+◌, ◌-◌, ◌≡◌, ◌≤◌, ◌<◌, refl, ap, arith, Bytes, ◌∷◌, true, false, length, length-drop, drop,
  panic, slice, index_total, ltb,
}
use iot_zinx.Shared.Words.{u8, IsByte}
use iot_zinx.Payload.Defs.{PayloadError}
use iot_zinx.Payload.Reads.{index-drop, u32_at-total}
use iot_zinx.Payload.Card.{SwipeCard, unmarshal_swipe}

-- A slice whose upper bound is below its lower bound panics.
slice_crossed : {E : Type 0} (xs : Bytes) (lo hi : ℕ) → hi < lo → slice {E = E} xs lo hi ≡ panic
unfolding slice
slice_crossed xs lo hi h = ground arith

-- A payload with a second card number of 243 to 255 bytes, all of them there, makes the swipe
-- card's reader panic: the end of the number is a sum of bytes that wraps.
pub unmarshal_swipe_panics :
    (old : SwipeCard) (xs : Bytes) (n : ℕ) (rest : Bytes)
    → drop 12 xs ≡ n ∷ rest
    → n ≤ length rest
    → 243 ≤ n
    → IsByte n
    → unmarshal_swipe old xs ≡ panic
unfolding unmarshal_swipe
unmarshal_swipe_panics old xs n rest e fits long byte =
    let size : length xs - 12 ≡ length rest + 1 = omega (arith, length-drop 12 xs, ap length e) in
    let (card_id, r0) = u32_at-total {E = SwipeCard × PayloadError} xs 0 (omega arith) in
    let (card_type, r4) = index_total {E = SwipeCard × PayloadError} xs 4 (omega arith) in
    let (gun_number, r5) = index_total {E = SwipeCard × PayloadError} xs 5 (omega arith) in
    let (timestamp, r8) = u32_at-total {E = SwipeCard × PayloadError} xs 8 (omega arith) in
    let not_short : ltb (length xs) 13 ≡ false = ground arith in
    let not_cut : ltb (length xs) (13 + n) ≡ false = ground arith in
    let some_bytes : ltb 0 n ≡ true = ground arith in
    rw
      (
        not_short,
        r0,
        r4,
        r5,
        r8,
        index-drop xs 12 n rest e,
        not_cut,
        some_bytes,
        slice_crossed xs 13 (u8 (13 + n)) (omega arith),
      )
      refl
