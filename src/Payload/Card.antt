-- ===== src/Payload/Card.antt =====
-- The readers of `SwipeCardRequestData` (0x02), `SettlementData` (0x03) and `DeviceRegisterData`
-- (0x20). A time is a number of seconds; `now` is the reading of the clock.
use iot_zinx.Shared.{
  ℕ, ◌+◌, ◌/◌, ◌%◌, Bytes, [], ◌∷◌, ◌++◌, not, ◌||◌, length, Result, ok, ◌>>=◌, ◌>>◌, reject, index,
  slice, ltb, leb, nat_beq, if◌then◌else◌,
}
use iot_zinx.Shared.Words.{u8}
use iot_zinx.Payload.Defs.{
  PayloadError, insufficient, bad_firmware, bad_port_count, bad_virtual_id, bad_device_type,
  bad_work_mode, u16_at, u32_at, pad_to, trim_zeros, format_physical_id,
}

pub record SwipeCard : Type 0 where
  pub card_number : Bytes
  pub card_type : ℕ
  pub swipe_time : ℕ
  pub device_status : ℕ
  pub gun_number : ℕ

-- `data[13 : 13+cardNumber2Length]`: the upper bound is a sum of bytes, and wraps.
unfoldable pub unmarshal_swipe : SwipeCard → Bytes → Result (SwipeCard × PayloadError) SwipeCard
unmarshal_swipe s xs = do
  reject (ltb (length xs) 13) (s, insufficient (length xs))
  card_id ← u32_at xs 0
  card_type ← index xs 4
  gun_number ← index xs 5
  timestamp ← u32_at xs 8
  let s1 = record s {
    card_number = format_physical_id card_id;
    card_type = card_type;
    gun_number = gun_number;
    swipe_time = timestamp;
  }
  length2 ← index xs 12
  reject (ltb (length xs) (13 + length2)) (s1, insufficient (length xs))
  (if ltb 0 length2
      then (do card_number2 ← slice xs 13 (u8 (13 + length2)); ok (record s1 { device_status = 0 }))
      else ok (record s1 { device_status = 0 }))

-- Times may lie before 1970: a start time is kept as the end and the seconds to take off.
pub record Settlement : Type 0 where
  pub order_id : Bytes
  pub card_number : Bytes
  pub start_from : ℕ
  pub start_back : ℕ
  pub end_time : ℕ
  pub electric_energy : ℕ
  pub charge_fee : ℕ
  pub service_fee : ℕ
  pub total_fee : ℕ
  pub gun_number : ℕ
  pub stop_reason : ℕ

unfoldable pub unmarshal_settlement :
    Settlement → ℕ → Bytes → Result (Settlement × PayloadError) Settlement
unmarshal_settlement s now xs = do
  reject (ltb (length xs) 35) (s, insufficient (length xs))
  duration ← u16_at xs 0
  energy ← u16_at xs 4
  gun_number ← index xs 6
  card_id ← u32_at xs 8
  stop_reason ← index xs 12
  order_bytes ← slice xs 13 29
  end_time ← (if leb 35 (length xs) then u32_at xs 31 else ok now)
  ok (record {
    order_id = trim_zeros order_bytes;
    card_number = format_physical_id card_id;
    start_from = now;
    start_back = duration;
    end_time = end_time;
    electric_energy = energy;
    charge_fee = 0;
    service_fee = 0;
    total_fee = 0;
    gun_number = gun_number;
    stop_reason = stop_reason;
  })

pub record DeviceRegister : Type 0 where
  pub iccid : Bytes
  pub device_version : Bytes
  pub device_type : ℕ
  pub heartbeat_period : ℕ
  pub timestamp : ℕ

-- `%d` for a number below 100, and `V%d.%02d`.
abbrev small_decimal : ℕ → Bytes
small_decimal n = if ltb n 10 then (0x30 + n) ∷ [] else (0x30 + n / 10) ∷ (0x30 + n % 10) ∷ []

unfoldable pub version_string : ℕ → Bytes
version_string v =
    0x56 ∷ (small_decimal (v / 100) ++ (0x2e ∷ (0x30 + v % 100 / 10) ∷ (0x30 + v % 10) ∷ []))

unfoldable pub unmarshal_register :
    DeviceRegister → ℕ → Bytes → Result (DeviceRegister × PayloadError) DeviceRegister
unmarshal_register d now xs = do
  reject (ltb (length xs) 6) (d, insufficient (length xs))
  firmware ← u16_at xs 0
  reject (nat_beq firmware 0 || ltb 9999 firmware) (d, bad_firmware firmware)
  port_count ← index xs 2
  reject (nat_beq port_count 0 || ltb 32 port_count) (d, bad_port_count port_count)
  virtual_id ← index xs 3
  reject (ltb 254 virtual_id) (d, bad_virtual_id virtual_id)
  device_type ← index xs 4
  reject (not (nat_beq device_type 1 || (nat_beq device_type 2 || nat_beq device_type 4)))
      (d, bad_device_type device_type)
  work_mode ← index xs 5
  reject (ltb 3 work_mode) (record d { device_type = device_type }, bad_work_mode work_mode)
  board_version ← (if leb 8 (length xs) then u16_at xs 6 else ok 0)
  ok (record {
    iccid = [];
    device_version = pad_to 16 (version_string firmware);
    device_type = device_type;
    heartbeat_period = 180;
    timestamp = now;
  })

-- `MarshalBinary` of the register data: 40 bytes.
unfoldable pub marshal_register : DeviceRegister → Bytes
marshal_register d =
    pad_to 20 d.iccid
    ++ (d.device_version
        ++ (u8 d.device_type
            ∷ u8 (d.device_type / 256)
            ∷ u8 d.heartbeat_period
            ∷ u8 (d.heartbeat_period / 256)
            ∷ []))
