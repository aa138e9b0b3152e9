-- ===== src/Payload/Heartbeats.antt =====
-- `PowerHeartbeatData`, `MainHeartbeatData` and `DeviceHeartbeatData`. An `UnmarshalBinary` is given
-- the receiver and the time; `err (p, e)` is the error `e` with the receiver as it was left.
use iot_zinx.Shared.{
  ℕ, zero, suc, ◌+◌, Bytes, [], ◌∷◌, ◌++◌, ◌||◌, length, replicate, Result, ok, panic, ◌>>=◌, ◌>>◌,
  reject, index, ltb, nat_beq, if◌then◌else◌,
}
use iot_zinx.Shared.Words.{u8, put16, put32}
use iot_zinx.Payload.Defs.{
  PayloadError, insufficient, bad_voltage, bad_port_count, bad_port_status, bad_signal,
  bad_temperature, u16_at, u32_at,
}

-- `temperature` is the bit pattern of an int16.
pub record PowerHeartbeat : Type 0 where
  pub gun_number : ℕ
  pub voltage : ℕ
  pub current : ℕ
  pub power : ℕ
  pub electric_energy : ℕ
  pub temperature : ℕ
  pub status : ℕ
  pub timestamp : ℕ

unfoldable pub marshal_power : PowerHeartbeat → Bytes
marshal_power p =
    p.gun_number
    ∷ (put16 p.voltage
        ++ (put16 p.current
            ++ (put32 p.power
                ++ (put32 p.electric_energy ++ (put16 p.temperature ++ (p.status ∷ []))))))

unfoldable pub unmarshal_power :
    PowerHeartbeat → ℕ → Bytes → Result (PowerHeartbeat × PayloadError) PowerHeartbeat
unmarshal_power p now xs = do
  reject (ltb (length xs) 16) (p, insufficient (length xs))
  gun_number ← index xs 0
  voltage ← u16_at xs 1
  current ← u16_at xs 3
  power ← u32_at xs 5
  electric_energy ← u32_at xs 9
  temperature ← u16_at xs 13
  status ← index xs 15
  ok (record {
    gun_number = gun_number;
    voltage = voltage;
    current = current;
    power = power;
    electric_energy = electric_energy;
    temperature = temperature;
    status = status;
    timestamp = now;
  })

pub record MainHeartbeat : Type 0 where
  pub device_status : ℕ
  pub gun_count : ℕ
  pub gun_statuses : Bytes
  pub temperature : ℕ
  pub signal_strength : ℕ
  pub timestamp : ℕ

unfoldable pub marshal_main : MainHeartbeat → Bytes
marshal_main m =
    m.device_status
    ∷ m.gun_count
    ∷ (m.gun_statuses ++ (put16 m.temperature ++ (m.signal_strength ∷ [])))

-- `for i := uint8(0); i < m.GunCount; i++ { ... data[2+i] }`: the index is an 8-bit sum.
unfoldable pub read_guns : {E : Type 0} → Bytes → ℕ → ℕ → Result E Bytes
read_guns xs i zero = ok []
read_guns xs i (suc left) = do
  status ← index xs (u8 (2 + i))
  rest ← read_guns xs (i + 1) left
  ok (status ∷ rest)

-- The sums with `GunCount` are sums of bytes, and wrap.
unfoldable pub unmarshal_main :
    MainHeartbeat → ℕ → Bytes → Result (MainHeartbeat × PayloadError) MainHeartbeat
unmarshal_main m now xs = do
  reject (ltb (length xs) 5) (m, insufficient (length xs))
  device_status ← index xs 0
  gun_count ← index xs 1
  let m1 = record m { device_status = device_status; gun_count = gun_count }
  reject (ltb (length xs) (u8 (2 + gun_count + 3))) (m1, insufficient (length xs))
  gun_statuses ← read_guns xs 0 gun_count
  let offset = u8 (2 + gun_count)
  (if ltb (u8 (offset + 2)) offset then panic else do
    temperature ← u16_at xs offset
    signal_strength ← index xs (u8 (offset + 2))
    ok (record {
      device_status = device_status;
      gun_count = gun_count;
      gun_statuses = gun_statuses;
      temperature = temperature;
      signal_strength = signal_strength;
      timestamp = now;
    }))

pub record DeviceHeartbeat : Type 0 where
  pub voltage : ℕ
  pub port_count : ℕ
  pub port_statuses : Bytes
  pub signal_strength : ℕ
  pub temperature : ℕ
  pub timestamp : ℕ

unfoldable pub marshal_device : DeviceHeartbeat → Bytes
marshal_device d =
    put16 d.voltage
    ++ (d.port_count ∷ (d.port_statuses ++ (d.signal_strength ∷ d.temperature ∷ [])))

-- The loop over `data[3+i]`. On a bad status the receiver holds the statuses read so far, in front
-- of the zeros of `make`.
unfoldable pub read_ports :
    DeviceHeartbeat → Bytes → ℕ → Bytes → ℕ → Result (DeviceHeartbeat × PayloadError) Bytes
read_ports d xs at done zero = ok done
read_ports d xs at done (suc left) = do
  status ← index xs at
  reject (ltb 0x7f status)
      (record d { port_statuses = done ++ replicate (suc left) 0 }, bad_port_status status)
  read_ports d xs (at + 1) (done ++ (status ∷ [])) left

unfoldable pub unmarshal_device :
    DeviceHeartbeat → ℕ → Bytes → Result (DeviceHeartbeat × PayloadError) DeviceHeartbeat
unmarshal_device d now xs = do
  reject (ltb (length xs) 5) (d, insufficient (length xs))
  voltage ← u16_at xs 0
  reject (ltb voltage 1000 || ltb 30000 voltage) (d, bad_voltage voltage)
  let d1 = record d { voltage = voltage }
  port_count ← index xs 2
  reject (nat_beq port_count 0 || ltb 32 port_count) (d1, bad_port_count port_count)
  let d2 = record d1 { port_count = port_count }
  reject (ltb (length xs) (5 + port_count)) (d2, insufficient (length xs))
  port_statuses ← read_ports d2 xs 3 [] port_count
  let d3 = record d2 { port_statuses = port_statuses }
  signal_strength ← index xs (u8 (3 + port_count))
  reject (ltb 31 signal_strength) (d3, bad_signal signal_strength)
  let d4 = record d3 { signal_strength = signal_strength }
  temperature ← index xs (u8 (4 + port_count))
  reject (ltb 150 temperature) (d4, bad_temperature temperature)
  ok (record d4 { temperature = temperature; timestamp = now })
