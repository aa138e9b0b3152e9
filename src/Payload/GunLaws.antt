-- ===== src/Payload/GunLaws.antt =====
-- The main heartbeat: read back for up to 250 guns, and a panic above.
use iot_zinx.Shared.{
  ℕ, zero, suc, ◌+◌, ◌-◌, ◌/◌, ◌≡◌, ◌≤◌, ◌<◌, refl, sym, inl, inr, arith, Bytes, [], ◌∷◌, ◌++◌,
  false, length, length-append, drop, ok, panic, index, index_total, ltb, Bool-cases,
}
use iot_zinx.Shared.Words.{u8, IsByte, IsU16}
use iot_zinx.Payload.Reads.{index-drop, u16_at-drop, drop-suc, drop-add}
use iot_zinx.Payload.HeartbeatLaws.{le16-put}
use iot_zinx.Payload.Heartbeats.{MainHeartbeat, marshal_main, read_guns, unmarshal_main}

read_guns-all :
    {E : Type 0} (xs : Bytes) (i n : ℕ) (statuses rest : Bytes)
    → drop (2 + i) xs ≡ statuses ++ rest
    → n ≡ length statuses
    → i + n ≤ 250
    → read_guns {E = E} xs i n ≡ ok statuses
unfolding read_guns
read_guns-all xs i zero [] rest h e k = refl
read_guns-all xs i zero (s ∷ statuses) rest h e k = absurd (omega arith)
read_guns-all xs i (suc n) [] rest h e k = absurd (omega arith)
read_guns-all {E} xs i (suc n) (s ∷ statuses) rest h e k =
    let no_wrap : u8 (2 + i) ≡ 2 + i = omega arith in
    let next : 2 + i + 1 ≡ 2 + (i + 1) = omega arith in
    rw (
      no_wrap,
      index-drop xs (2 + i) s (statuses ++ rest) h,
      read_guns-all {E = E} xs (i + 1) n statuses rest
          (rw (← next) (drop-suc xs (2 + i) s (statuses ++ rest) h)) (omega arith) (omega arith),
    )

-- An index past the end panics.
index_beyond : {E : Type 0} (xs : Bytes) (i : ℕ) → length xs ≤ i → index {E = E} xs i ≡ panic
unfolding index
index_beyond [] i h = refl
index_beyond (x ∷ xs) zero h = absurd (omega arith)
index_beyond (x ∷ xs) (suc i) h = index_beyond xs i (omega arith)

-- With too few bytes for the count, and few enough for the index not to wrap, the loop panics.
read_guns-panics :
    {E : Type 0} (xs : Bytes) (i n : ℕ)
    → 2 + i ≤ length xs
    → length xs ≤ 252
    → length xs < 2 + i + n
    → read_guns {E = E} xs i n ≡ panic
unfolding read_guns
read_guns-panics xs i zero h k l = absurd (omega arith)
read_guns-panics {E} xs i (suc n) h k l =
    let no_wrap : u8 (2 + i) ≡ 2 + i = omega arith in
    elim (Bool-cases (ltb (2 + i) (length xs))) [
      | inl s ↦
          let (status, e) = index_total {E = E} xs (2 + i) (ground arith) in
          rw (no_wrap, e, read_guns-panics {E = E} xs (i + 1) n (ground arith) k (omega arith))
      | inr s ↦ rw (no_wrap, index_beyond {E = E} xs (2 + i) (ground arith))
    ]

-- A main heartbeat with one status for each of at most 250 guns is read back from its bytes,
-- whatever the receiver held.
pub unmarshal_main-marshal :
    (m old : MainHeartbeat) (now : ℕ)
    → length m.gun_statuses ≡ m.gun_count
    → m.gun_count ≤ 250
    → IsU16 m.temperature
    → unmarshal_main old now (marshal_main m) ≡ ok (record m { timestamp = now })
unfolding unmarshal_main marshal_main index
unmarshal_main-marshal m old now h k t = rw (
  not_short,
  not_cut,
  read_guns-all main_bytes 0 m.gun_count m.gun_statuses tail refl (sym h) (omega arith),
  no_wrap,
  no_wrap_signal,
  in_order,
  u16_at-drop main_bytes (2 + m.gun_count) _ _ _ behind,
  le16-put m.temperature t,
  index-drop main_bytes (2 + m.gun_count + 2) m.signal_strength [] at_signal,
)
  where
    tail : Bytes
    tail = u8 m.temperature ∷ u8 (m.temperature / 256) ∷ m.signal_strength ∷ []

    main_bytes : Bytes
    main_bytes = m.device_status ∷ m.gun_count ∷ (m.gun_statuses ++ tail)

    size : length main_bytes ≡ m.gun_count + 5
    size = omega (arith, length-append m.gun_statuses tail)

    not_short : ltb (length main_bytes) 5 ≡ false
    not_short = ground (arith, size)

    sum_small : u8 (2 + m.gun_count + 3) ≡ m.gun_count + 5
    sum_small = omega arith

    not_cut : ltb (length main_bytes) (u8 (2 + m.gun_count + 3)) ≡ false
    not_cut = rw sum_small (ground (arith, size))

    no_wrap : u8 (2 + m.gun_count) ≡ 2 + m.gun_count
    no_wrap = omega arith

    no_wrap_signal : u8 (2 + m.gun_count + 2) ≡ 2 + m.gun_count + 2
    no_wrap_signal = omega arith

    in_order : ltb (2 + m.gun_count + 2) (2 + m.gun_count) ≡ false
    in_order = ground arith

    behind : drop (2 + m.gun_count) main_bytes ≡ tail
    behind = drop-add main_bytes 2 m.gun_count m.gun_statuses tail refl (sym h)

    at_signal : drop (2 + m.gun_count + 2) main_bytes ≡ m.signal_strength ∷ []
    at_signal =
        drop-add main_bytes (2 + m.gun_count) 2 (u8 m.temperature ∷ u8 (m.temperature / 256) ∷ [])
          (m.signal_strength ∷ []) behind refl

-- A payload of 5 to 252 bytes whose gun count is 251 to 255 makes the main heartbeat's reader
-- panic: the length test compares with a sum of bytes that wraps.
pub unmarshal_main_panics :
    (old : MainHeartbeat) (now status guns : ℕ) (rest : Bytes)
    → 251 ≤ guns
    → IsByte guns
    → 3 ≤ length rest
    → length rest ≤ 250
    → unmarshal_main old now (status ∷ guns ∷ rest) ≡ panic
unfolding unmarshal_main index
unmarshal_main_panics old now status guns rest h b l k = rw (
  not_short,
  not_cut,
  read_guns-panics (status ∷ guns ∷ rest) 0 guns (omega arith) (omega arith) (omega arith),
)
  where
    not_short : ltb (length (status ∷ guns ∷ rest)) 5 ≡ false
    not_short = ground arith

    sum_small : u8 (2 + guns + 3) ≡ guns - 251
    sum_small = omega arith

    not_cut : ltb (length (status ∷ guns ∷ rest)) (u8 (2 + guns + 3)) ≡ false
    not_cut = rw sum_small (ground arith)
