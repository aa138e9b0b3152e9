-- ===== src/Payload/HeartbeatLaws.antt =====
-- The heartbeat payloads: what is written is read back.
use iot_zinx.Shared.{ℕ, ◌/◌, ◌≡◌, refl, arith, Bytes, ◌∷◌, ◌++◌, false, length, ok, ltb}
use iot_zinx.Shared.Words.{u8, le16, le32, IsU16, IsU32}
use iot_zinx.Payload.Reads.{index-drop, u16_at-drop, u32_at-drop}
use iot_zinx.Payload.Heartbeats.{PowerHeartbeat, marshal_power, unmarshal_power}

pub le16-put : (n : ℕ) → IsU16 n → le16 (u8 n) (u8 (n / 256)) ≡ n
le16-put n h = omega arith

pub le32-put :
    (n : ℕ) → IsU32 n → le32 (u8 n) (u8 (n / 256)) (u8 (n / 65536)) (u8 (n / 16777216)) ≡ n
le32-put n h = omega arith

-- The 16-bit and 32-bit fields are in range.
pub record PowerInRange (p : PowerHeartbeat) : Type 0 where
  pub voltage_fits : IsU16 p.voltage
  pub current_fits : IsU16 p.current
  pub power_fits : IsU32 p.power
  pub energy_fits : IsU32 p.electric_energy
  pub temperature_fits : IsU16 p.temperature

module _ (p : PowerHeartbeat) (more : Bytes) where
  abbrev power_bytes : Bytes
  power_bytes =
      p.gun_number
      ∷ u8 p.voltage
      ∷ u8 (p.voltage / 256)
      ∷ u8 p.current
      ∷ u8 (p.current / 256)
      ∷ u8 p.power
      ∷ u8 (p.power / 256)
      ∷ u8 (p.power / 65536)
      ∷ u8 (p.power / 16777216)
      ∷ u8 p.electric_energy
      ∷ u8 (p.electric_energy / 256)
      ∷ u8 (p.electric_energy / 65536)
      ∷ u8 (p.electric_energy / 16777216)
      ∷ u8 p.temperature
      ∷ u8 (p.temperature / 256)
      ∷ p.status
      ∷ more

  -- A power heartbeat with fields in range, followed by any bytes, is read back from its bytes,
  -- whatever the receiver held; the time is that of the reading.
  pub unmarshal_power-marshal :
      (old : PowerHeartbeat) (now : ℕ)
      → PowerInRange p
      → unmarshal_power old now (marshal_power p ++ more) ≡ ok (record p { timestamp = now })
  unfolding unmarshal_power marshal_power
  unmarshal_power-marshal old now h =
      let long : ltb (length power_bytes) 16 ≡ false = ground arith in
      rw (
        long,
        index-drop power_bytes 0 _ _ refl,
        u16_at-drop power_bytes 1 _ _ _ refl,
        u16_at-drop power_bytes 3 _ _ _ refl,
        u32_at-drop power_bytes 5 _ _ _ _ _ refl,
        u32_at-drop power_bytes 9 _ _ _ _ _ refl,
        u16_at-drop power_bytes 13 _ _ _ refl,
        index-drop power_bytes 15 _ _ refl,
        le16-put p.voltage h.voltage_fits,
        le16-put p.current h.current_fits,
        le32-put p.power h.power_fits,
        le32-put p.electric_energy h.energy_fits,
        le16-put p.temperature h.temperature_fits,
      )
