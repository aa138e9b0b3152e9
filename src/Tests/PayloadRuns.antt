-- ===== src/Tests/PayloadRuns.antt =====
-- The payloads on concrete fields.
use iot_zinx.Shared.{
  ◌≡◌, refl, arith, [], ◌∷◌, ◌++◌, ℕ, Bytes, ok, panic, inl, inr, replicate, length-replicate,
}
use iot_zinx.Payload.Control.{ChargeControl, marshal_control, unmarshal_control}
use iot_zinx.Payload.ControlLaws.{unmarshal_control-marshal}
use iot_zinx.Payload.Card.{SwipeCard, unmarshal_swipe}
use iot_zinx.Payload.CardLaws.{unmarshal_swipe_panics}
use iot_zinx.Payload.Heartbeats.{
  PowerHeartbeat, marshal_power, unmarshal_power, MainHeartbeat, marshal_main, unmarshal_main,
  DeviceHeartbeat, marshal_device, unmarshal_device,
}
use iot_zinx.Payload.HeartbeatLaws.{unmarshal_power-marshal}
use iot_zinx.Payload.PortLaws.{unmarshal_device-marshal}
use iot_zinx.Payload.GunLaws.{unmarshal_main-marshal, unmarshal_main_panics}

abbrev sample_control : ChargeControl
sample_control = record {
  command = 1;
  gun_number = 2;
  card_number = 0x31 ∷ 0x32 ∷ 0x33 ∷ 0x34 ∷ [];
  order_id = [];
  max_power = 2200;
  max_energy = 1000;
  max_time = 3600;
}

unmarshal_control-marshal_example :
    unmarshal_control sample_control (marshal_control sample_control) ≡ ok sample_control
unmarshal_control-marshal_example =
    unmarshal_control-marshal sample_control sample_control (record {
      command_known = omega arith;
      gun_known = inl (omega arith, omega arith);
      card_fits = omega arith;
      card_ends = refl;
      card_long = inr (omega arith);
      order_fits = omega arith;
      order_ends = refl;
      order_long = inl refl;
      power_low = inr (omega arith);
      power_high = omega arith;
      energy_high = omega arith;
      time_high = omega arith;
    })

abbrev sample_swipe : SwipeCard
sample_swipe = record {
  card_number = [];
  card_type = 0;
  swipe_time = 0;
  device_status = 0;
  gun_number = 0;
}

abbrev swipe_front : Bytes
swipe_front = 1 ∷ 2 ∷ 3 ∷ 4 ∷ 0 ∷ 1 ∷ 0 ∷ 0 ∷ 9 ∷ 9 ∷ 9 ∷ 9 ∷ []

unmarshal_swipe_panics_example :
    unmarshal_swipe sample_swipe (swipe_front ++ (250 ∷ replicate 250 0x31)) ≡ panic
unmarshal_swipe_panics_example =
    unmarshal_swipe_panics sample_swipe (swipe_front ++ (250 ∷ replicate 250 0x31)) 250
      (replicate 250 0x31) refl (omega (arith, length-replicate {A = ℕ} 250 0x31)) (omega arith)
      (omega arith)

abbrev sample_power : PowerHeartbeat
sample_power = record {
  gun_number = 1;
  voltage = 2200;
  current = 150;
  power = 33000;
  electric_energy = 120;
  temperature = 25;
  status = 1;
  timestamp = 5;
}

unmarshal_power-marshal_example :
    unmarshal_power sample_power 9 (marshal_power sample_power ++ (0 ∷ []))
    ≡ ok (record sample_power { timestamp = 9 })
unmarshal_power-marshal_example =
    unmarshal_power-marshal sample_power (0 ∷ []) sample_power 9 (record {
      voltage_fits = omega arith;
      current_fits = omega arith;
      power_fits = omega arith;
      energy_fits = omega arith;
      temperature_fits = omega arith;
    })

abbrev sample_main : MainHeartbeat
sample_main = record {
  device_status = 1;
  gun_count = 2;
  gun_statuses = 0 ∷ 1 ∷ [];
  temperature = 25;
  signal_strength = 20;
  timestamp = 5;
}

unmarshal_main-marshal_example :
    unmarshal_main sample_main 9 (marshal_main sample_main)
    ≡ ok (record sample_main { timestamp = 9 })
unmarshal_main-marshal_example =
    unmarshal_main-marshal sample_main sample_main 9 refl (omega arith) (omega arith)

unmarshal_main_panics_example : unmarshal_main sample_main 9 (1 ∷ 255 ∷ 0 ∷ 0 ∷ 0 ∷ []) ≡ panic
unmarshal_main_panics_example =
    unmarshal_main_panics sample_main 9 1 255 (0 ∷ 0 ∷ 0 ∷ []) (omega arith) (omega arith)
      (omega arith) (omega arith)

abbrev sample_heartbeat : DeviceHeartbeat
sample_heartbeat = record {
  voltage = 2200;
  port_count = 2;
  port_statuses = 0 ∷ 1 ∷ [];
  signal_strength = 20;
  temperature = 65;
  timestamp = 5;
}

unmarshal_device-marshal_example :
    unmarshal_device sample_heartbeat 9 (marshal_device sample_heartbeat ++ [])
    ≡ ok (record sample_heartbeat { timestamp = 9 })
unmarshal_device-marshal_example =
    unmarshal_device-marshal sample_heartbeat [] sample_heartbeat 9 (record {
      voltage_low = omega arith;
      voltage_high = omega arith;
      some_port = omega arith;
      ports_fit = omega arith;
      ports_counted = refl;
      statuses_fit = (omega arith, (omega arith, tt));
      signal_fits = omega arith;
      temperature_fits = omega arith;
    })
