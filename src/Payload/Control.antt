-- ===== src/Payload/Control.antt =====
-- `ChargeControlData` and `ParameterSettingData`, and `BuildChargeControlPacket` of frame.go.
use iot_zinx.Shared.{
  ℕ, Bytes, [], ◌∷◌, ◌++◌, not, ◌&&◌, ◌||◌, length, drop, Result, ok, ◌>>=◌, ◌>>◌, reject, index,
  slice, ltb, nat_beq, if◌then◌else◌,
}
use iot_zinx.Shared.Words.{put16, put32}
use iot_zinx.Wire.Builder.{build_dny_packet}
use iot_zinx.Payload.Defs.{
  PayloadError, insufficient, bad_command, bad_gun, bad_card_number, bad_order_id, bad_max_power,
  bad_max_energy, bad_max_time, u16_at, u32_at, pad_to, trim_zeros,
}

pub record ChargeControl : Type 0 where
  pub command : ℕ
  pub gun_number : ℕ
  pub card_number : Bytes
  pub order_id : Bytes
  pub max_power : ℕ
  pub max_energy : ℕ
  pub max_time : ℕ

unfoldable pub marshal_control : ChargeControl → Bytes
marshal_control c =
    c.command
    ∷ c.gun_number
    ∷ (pad_to 20 c.card_number
        ++ (pad_to 20 c.order_id
            ++ (put32 c.max_power ++ (put32 c.max_energy ++ put32 c.max_time))))

unfoldable pub unmarshal_control :
    ChargeControl → Bytes → Result (ChargeControl × PayloadError) ChargeControl
unmarshal_control c xs = do
  reject (ltb (length xs) 54) (c, insufficient (length xs))
  command ← index xs 0
  reject (ltb 3 command) (c, bad_command command)
  let c1 = record c { command = command }
  gun_number ← index xs 1
  reject (nat_beq gun_number 0 || (ltb 32 gun_number && not (nat_beq gun_number 255)))
      (c1, bad_gun gun_number)
  let c2 = record c1 { gun_number = gun_number }
  card_bytes ← slice xs 2 22
  let card_number = trim_zeros card_bytes
  reject (ltb 0 (length card_number) && ltb (length card_number) 4)
      (c2, bad_card_number (length card_number))
  let c3 = record c2 { card_number = card_number }
  order_bytes ← slice xs 22 42
  let order_id = trim_zeros order_bytes
  reject (ltb 0 (length order_id) && ltb (length order_id) 6) (c3, bad_order_id (length order_id))
  let c4 = record c3 { order_id = order_id }
  max_power ← u32_at xs 42
  reject (ltb 0 max_power && ltb max_power 100) (c4, bad_max_power max_power)
  reject (ltb 50000 max_power) (c4, bad_max_power max_power)
  let c5 = record c4 { max_power = max_power }
  max_energy ← u32_at xs 46
  reject (ltb 1000000 max_energy) (c5, bad_max_energy max_energy)
  let c6 = record c5 { max_energy = max_energy }
  max_time ← u32_at xs 50
  reject (ltb 86400 max_time) (c6, bad_max_time max_time)
  ok (record c6 { max_time = max_time })

pub record ParameterSetting : Type 0 where
  pub parameter_type : ℕ
  pub parameter_id : ℕ
  pub value : Bytes

unfoldable pub marshal_parameter : ParameterSetting → Bytes
marshal_parameter p = p.parameter_type ∷ (put16 p.parameter_id ++ p.value)

-- With no value bytes the receiver keeps the value that it had.
unfoldable pub unmarshal_parameter :
    ParameterSetting → Bytes → Result (ParameterSetting × PayloadError) ParameterSetting
unmarshal_parameter p xs = do
  reject (ltb (length xs) 3) (p, insufficient (length xs))
  parameter_type ← index xs 0
  parameter_id ← u16_at xs 1
  ok (record {
    parameter_type = parameter_type;
    parameter_id = parameter_id;
    value = if ltb 3 (length xs) then drop 3 xs else p.value;
  })

-- The 37 bytes of the 0x82 payload: the order number is cut or padded to 16 bytes, and the last
-- seven bytes are the fixed extension fields.
unfoldable pub charge_payload : ℕ → ℕ → ℕ → ℕ → ℕ → Bytes → ℕ → ℕ → ℕ → Bytes
charge_payload rate_mode balance port command duration order_number max_duration max_power light =
    rate_mode
    ∷ (put32 balance
        ++ (port
            ∷ command
            ∷ (put16 duration
                ++ (pad_to 16 order_number
                    ++ (put16 max_duration
                        ++ (put16 max_power ++ (light ∷ 0 ∷ 0 ∷ 0 ∷ 2 ∷ 0 ∷ 0 ∷ 0 ∷ [])))))))

abbrev pub cmd_charge_control : ℕ
cmd_charge_control = 0x82

unfoldable pub build_charge_control_packet : ℕ → ℕ → ℕ → ℕ → ℕ → ℕ → ℕ → Bytes → ℕ → ℕ → ℕ → Bytes
build_charge_control_packet physical_id message_id rate_mode balance port command duration
      order_number max_duration max_power light =
    build_dny_packet physical_id message_id cmd_charge_control (
      charge_payload rate_mode balance port command duration order_number max_duration max_power
        light)
