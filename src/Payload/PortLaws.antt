-- ===== src/Payload/PortLaws.antt =====
-- The device and main heartbeats, whose length depends on a count byte.
use iot_zinx.Shared.{
  ℕ, ◌+◌, ◌/◌, ◌≡◌, ◌≤◌, ◌<◌, refl, sym, ap, ◌∙◌, arith, Bytes, [], ◌∷◌, ◌++◌, append_assoc,
  append-nil, false, ◌||◌, length, length-append, drop, All, ok, index, ltb, nat_beq,
}
use iot_zinx.Shared.Words.{u8}
use iot_zinx.Payload.Reads.{index-drop, u16_at-drop, drop-suc, drop-add}
use iot_zinx.Payload.HeartbeatLaws.{le16-put}
use iot_zinx.Payload.Heartbeats.{DeviceHeartbeat, marshal_device, read_ports, unmarshal_device}

-- What `UnmarshalBinary` asks of the fields of a device heartbeat.
pub record DeviceInRange (d : DeviceHeartbeat) : Type 0 where
  pub voltage_low : 1000 ≤ d.voltage
  pub voltage_high : d.voltage ≤ 30000
  pub some_port : 1 ≤ d.port_count
  pub ports_fit : d.port_count ≤ 32
  pub ports_counted : length d.port_statuses ≡ d.port_count
  pub statuses_fit : All (λ s. s < 128) d.port_statuses
  pub signal_fits : d.signal_strength ≤ 31
  pub temperature_fits : d.temperature ≤ 150

-- The loop reads the statuses that stand at its position.
read_ports-All :
    (d : DeviceHeartbeat) (xs : Bytes) (at : ℕ) (done statuses rest : Bytes)
    → drop at xs ≡ statuses ++ rest
    → All (λ s. s < 128) statuses
    → read_ports d xs at done (length statuses) ≡ ok (done ++ statuses)
unfolding read_ports
read_ports-All d xs at done [] rest h k = ap ok (sym (append-nil done))
read_ports-All d xs at done (s ∷ statuses) rest h k =
    let small : ltb 0x7f s ≡ false = ground (arith, k.0) in
    rw (index-drop xs at s (statuses ++ rest) h, small)
      (read_ports-All d xs (at + 1) (done ++ (s ∷ [])) statuses rest
          (drop-suc xs at s (statuses ++ rest) h) k.1
        ∙ ap ok (append_assoc done (s ∷ []) statuses))

read_ports-count :
    (d : DeviceHeartbeat) (xs : Bytes) (n : ℕ) (statuses rest : Bytes)
    → drop 3 xs ≡ statuses ++ rest
    → length statuses ≡ n
    → All (λ s. s < 128) statuses
    → read_ports d xs 3 [] n ≡ ok statuses
read_ports-count d xs n statuses rest h e k = rw (← e) (read_ports-All d xs 3 [] statuses rest h k)

module _ (d : DeviceHeartbeat) (more : Bytes) where
  abbrev device_bytes : Bytes
  device_bytes =
      u8 d.voltage
      ∷ u8 (d.voltage / 256)
      ∷ d.port_count
      ∷ (d.port_statuses ++ (d.signal_strength ∷ d.temperature ∷ more))

  marshal_device-append : marshal_device d ++ more ≡ device_bytes
  unfolding marshal_device
  marshal_device-append =
      ap (λ (t : Bytes). u8 d.voltage ∷ u8 (d.voltage / 256) ∷ d.port_count ∷ t)
        (append_assoc d.port_statuses (d.signal_strength ∷ d.temperature ∷ []) more)

  -- A device heartbeat that passes the reader's own range checks, followed by any bytes, is read
  -- back from its bytes, whatever the receiver held.
  pub unmarshal_device-marshal :
      (old : DeviceHeartbeat) (now : ℕ)
      → DeviceInRange d
      → unmarshal_device old now (marshal_device d ++ more) ≡ ok (record d { timestamp = now })
  unfolding unmarshal_device
  unmarshal_device-marshal old now h = rw marshal_device-append (
      rw
        (
          not_short,
          u16_at-drop device_bytes 0 _ _ _ refl,
          le16-put d.voltage (omega arith),
          voltage_passes,
          index-drop device_bytes 2 _ _ refl,
          count_passes,
          not_cut,
          statuses_read,
        )
        (rw (signal_read, signal_passes, temperature_read, temperature_passes)))
    where
      behind : drop (3 + d.port_count) device_bytes ≡ d.signal_strength ∷ d.temperature ∷ more
      behind =
          drop-add device_bytes 3 d.port_count d.port_statuses
            (d.signal_strength ∷ d.temperature ∷ more) refl (sym h.ports_counted)

      signal_read :
          {E : Type 0} → index {E = E} device_bytes (u8 (3 + d.port_count)) ≡ ok d.signal_strength
      signal_read =
          let no_wrap : u8 (3 + d.port_count) ≡ 3 + d.port_count = omega (arith, h.ports_fit) in
          rw no_wrap (index-drop device_bytes (3 + d.port_count) _ _ behind)

      temperature_read :
          {E : Type 0} → index {E = E} device_bytes (u8 (4 + d.port_count)) ≡ ok d.temperature
      temperature_read =
          let no_wrap : u8 (4 + d.port_count) ≡ 3 + d.port_count + 1 = omega (arith, h.ports_fit) in
          rw no_wrap (
            index-drop device_bytes (3 + d.port_count + 1) _ _
              (drop-suc device_bytes (3 + d.port_count) _ _ behind))

      signal_passes : ltb 31 d.signal_strength ≡ false
      signal_passes = ground (arith, h.signal_fits)

      temperature_passes : ltb 150 d.temperature ≡ false
      temperature_passes = ground (arith, h.temperature_fits)

      not_short : ltb (length device_bytes) 5 ≡ false
      not_short = ground (
        arith,
        length-append d.port_statuses (d.signal_strength ∷ d.temperature ∷ more),
        h.ports_counted,
        h.some_port,
      )

      voltage_passes : ltb d.voltage 1000 || ltb 30000 d.voltage ≡ false
      voltage_passes = ground (arith, h.voltage_low, h.voltage_high)

      count_passes : nat_beq d.port_count 0 || ltb 32 d.port_count ≡ false
      count_passes = ground (arith, h.some_port, h.ports_fit)

      not_cut : ltb (length device_bytes) (5 + d.port_count) ≡ false
      not_cut = ground (
        arith,
        length-append d.port_statuses (d.signal_strength ∷ d.temperature ∷ more),
        h.ports_counted,
      )

      statuses_read :
          (r : DeviceHeartbeat) → read_ports r device_bytes 3 [] d.port_count ≡ ok d.port_statuses
      statuses_read r =
          read_ports-count r device_bytes d.port_count d.port_statuses
            (d.signal_strength ∷ d.temperature ∷ more) refl h.ports_counted h.statuses_fit
