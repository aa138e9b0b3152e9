-- ===== src/Payload/ControlLaws.antt =====
-- The charge control payload: 54 bytes, with two texts padded by zeros.
use iot_zinx.Shared.{
  ℕ, zero, suc, ◌+◌, ◌-◌, ◌≡◌, ◌≤◌, ◌⊎◌, refl, sym, ap, ◌∙◌, arith, Bytes, [], ◌∷◌, ◌++◌, Bool,
  true, false, not, ◌&&◌, ◌||◌, length, length-append, take, drop, replicate, length-take,
  length-replicate, index, ok, slice_mid, ltb, nat_beq,
}
use iot_zinx.Shared.Words.{put32}
use iot_zinx.Payload.Defs.{pad_to, keep_front, trim_zeros}
use iot_zinx.Payload.Reads.{u32_at-drop, drop-add}
use iot_zinx.Payload.HeartbeatLaws.{le32-put}
use iot_zinx.Payload.Control.{ChargeControl, marshal_control, unmarshal_control}

-- The text's last byte is not zero.
abbrev pub ends_well : Bytes → Bool
ends_well [] = true
ends_well (x ∷ []) = not (nat_beq x 0)
ends_well (x ∷ y ∷ xs) = ends_well (y ∷ xs)

trim_zeros-replicate : (n : ℕ) → trim_zeros (replicate n 0) ≡ []
trim_zeros-replicate zero = refl
trim_zeros-replicate (suc n) = rw (trim_zeros-replicate n) refl

nonzero : (x : ℕ) → not (nat_beq x 0) ≡ true → nat_beq x 0 ≡ false
nonzero x h = ground arith

trim_zeros-padded :
    (xs : Bytes) (n : ℕ) → ends_well xs ≡ true → trim_zeros (xs ++ replicate n 0) ≡ xs
trim_zeros-padded [] n h = trim_zeros-replicate n
trim_zeros-padded (x ∷ []) n h = rw (trim_zeros-replicate n, nonzero x h) refl
trim_zeros-padded (x ∷ y ∷ xs) n h = ap (keep_front x) (trim_zeros-padded (y ∷ xs) n h)

take-replicate : (n m : ℕ) → n ≤ m → take {A = ℕ} n (replicate m 0) ≡ replicate n 0
take-replicate zero m h = refl
take-replicate (suc n) zero h = absurd (omega arith)
take-replicate (suc n) (suc m) h = ap (λ (t : Bytes). 0 ∷ t) (take-replicate n m (omega arith))

padded :
    (n m : ℕ) (xs : Bytes)
    → length xs ≤ n
    → n ≤ length xs + m
    → take n (xs ++ replicate m 0) ≡ xs ++ replicate (n - length xs) 0
padded n m [] h k = let same : n - 0 ≡ n = omega arith in rw same (take-replicate n m (omega arith))
padded zero m (x ∷ xs) h k = absurd (omega arith)
padded (suc n) m (x ∷ xs) h k =
    let same : suc n - suc (length xs) ≡ n - length xs = omega arith in
    rw same (ap (λ (t : Bytes). x ∷ t) (padded n m xs (omega arith) (omega arith)))

-- A text of at most `n` bytes that does not end in a zero is got back from its padding.
trim-pad :
    (n : ℕ) (xs : Bytes) → length xs ≤ n → ends_well xs ≡ true → trim_zeros (pad_to n xs) ≡ xs
trim-pad n xs h e =
    ap trim_zeros (padded n n xs h (omega arith)) ∙ trim_zeros-padded xs (n - length xs) e

length-pad_to : (n : ℕ) (xs : Bytes) → length (pad_to n xs) ≡ n
length-pad_to n xs = omega (
  arith,
  length-take n (xs ++ replicate n 0),
  length-append xs (replicate n 0),
  length-replicate {A = ℕ} n 0,
)

-- What `UnmarshalBinary` asks of the fields of a charge control, and texts that fit theirs.
pub record ControlInRange (c : ChargeControl) : Type 0 where
  pub command_known : c.command ≤ 3
  pub gun_known : ((1 ≤ c.gun_number) × (c.gun_number ≤ 32)) ⊎ (c.gun_number ≡ 255)
  pub card_fits : length c.card_number ≤ 20
  pub card_ends : ends_well c.card_number ≡ true
  pub card_long : (length c.card_number ≡ 0) ⊎ (4 ≤ length c.card_number)
  pub order_fits : length c.order_id ≤ 20
  pub order_ends : ends_well c.order_id ≡ true
  pub order_long : (length c.order_id ≡ 0) ⊎ (6 ≤ length c.order_id)
  pub power_low : (c.max_power ≡ 0) ⊎ (100 ≤ c.max_power)
  pub power_high : c.max_power ≤ 50000
  pub energy_high : c.max_energy ≤ 1000000
  pub time_high : c.max_time ≤ 86400

module _ (c : ChargeControl) where
  abbrev limits : Bytes
  limits = put32 c.max_power ++ (put32 c.max_energy ++ put32 c.max_time)

  abbrev control_bytes : Bytes
  control_bytes =
      c.command ∷ c.gun_number ∷ (pad_to 20 c.card_number ++ (pad_to 20 c.order_id ++ limits))

  behind_texts : drop 42 control_bytes ≡ limits
  behind_texts =
      drop-add control_bytes 22 20 (pad_to 20 c.order_id) limits
        (drop-add control_bytes 2 20 (pad_to 20 c.card_number) (pad_to 20 c.order_id ++ limits) refl
          (sym (length-pad_to 20 c.card_number)))
        (sym (length-pad_to 20 c.order_id))

  behind_power : drop 46 control_bytes ≡ put32 c.max_energy ++ put32 c.max_time
  behind_power =
      drop-add control_bytes 42 4 (put32 c.max_power) (put32 c.max_energy ++ put32 c.max_time)
        behind_texts refl

  behind_energy : drop 50 control_bytes ≡ put32 c.max_time
  behind_energy =
      drop-add control_bytes 46 4 (put32 c.max_energy) (put32 c.max_time) behind_power refl

  -- A charge control whose fields are in the reader's ranges, with texts of at most 20 bytes that do
  -- not end in a zero byte, is read back from its bytes, whatever the receiver held.
  pub unmarshal_control-marshal :
      (old : ChargeControl) → ControlInRange c → unmarshal_control old (marshal_control c) ≡ ok c
  unfolding unmarshal_control marshal_control index
  unmarshal_control-marshal old h =
      rw
        (
          not_short,
          command_passes,
          gun_passes,
          slice_mid (c.command ∷ c.gun_number ∷ []) (pad_to 20 c.card_number)
              (pad_to 20 c.order_id ++ limits) 2 22 (omega arith)
              (omega (arith, length-pad_to 20 c.card_number)),
          trim-pad 20 c.card_number h.card_fits h.card_ends,
          card_passes,
          slice_mid (c.command ∷ c.gun_number ∷ pad_to 20 c.card_number) (pad_to 20 c.order_id)
              limits 22 42 (omega (arith, length-pad_to 20 c.card_number))
              (omega (arith, length-pad_to 20 c.card_number, length-pad_to 20 c.order_id)),
          trim-pad 20 c.order_id h.order_fits h.order_ends,
          order_passes,
          u32_at-drop control_bytes 42 _ _ _ _ _ behind_texts,
          le32-put c.max_power (omega (arith, h.power_high)),
          power_passes,
          power_small,
          u32_at-drop control_bytes 46 _ _ _ _ _ behind_power,
          le32-put c.max_energy (omega (arith, h.energy_high)),
          energy_passes,
          u32_at-drop control_bytes 50 _ _ _ _ _ behind_energy,
          le32-put c.max_time (omega (arith, h.time_high)),
          time_passes,
        )
        refl
    where
      not_short : ltb (length control_bytes) 54 ≡ false
      not_short = ground (
        arith,
        length-append (pad_to 20 c.card_number) (pad_to 20 c.order_id ++ limits),
        length-append (pad_to 20 c.order_id) limits,
        length-pad_to 20 c.card_number,
        length-pad_to 20 c.order_id,
      )

      command_passes : ltb 3 c.command ≡ false
      command_passes = ground (arith, h.command_known)

      gun_passes :
          nat_beq c.gun_number 0 || (ltb 32 c.gun_number && not (nat_beq c.gun_number 255)) ≡ false
      gun_passes = ground (arith, h.gun_known)

      card_passes : ltb 0 (length c.card_number) && ltb (length c.card_number) 4 ≡ false
      card_passes = ground (arith, h.card_long)

      order_passes : ltb 0 (length c.order_id) && ltb (length c.order_id) 6 ≡ false
      order_passes = ground (arith, h.order_long)

      power_passes : ltb 0 c.max_power && ltb c.max_power 100 ≡ false
      power_passes = ground (arith, h.power_low)

      power_small : ltb 50000 c.max_power ≡ false
      power_small = ground (arith, h.power_high)

      energy_passes : ltb 1000000 c.max_energy ≡ false
      energy_passes = ground (arith, h.energy_high)

      time_passes : ltb 86400 c.max_time ≡ false
      time_passes = ground (arith, h.time_high)
