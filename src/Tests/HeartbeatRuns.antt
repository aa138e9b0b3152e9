-- ===== src/Tests/HeartbeatRuns.antt =====
-- The heartbeat filter on two ports of one device.
use iot_zinx.Shared.{ℕ, ◌+◌, ◌≤◌, ◌≡◌, ◌≢◌, ◌⊎◌, refl, arith, Bytes, bytes_eq, [], ◌∷◌, false, All}
use iot_zinx.Shared.Table.{lookup, insert}
use iot_zinx.Heartbeat.Filter.{
  HeartbeatData, event_power_heartbeat, new_heartbeat_filter, is_critical_event,
  get_dynamic_interval, make_key, heartbeat_key, update_last_heartbeat, should_process, passed,
  filtered,
}
use iot_zinx.Heartbeat.Runs.{FilterRun, event_run, FilterReachable, new_filter, after, by_event}
use iot_zinx.Heartbeat.Spacing.{passed_spaced}

-- 500 watts on a port of a device.
abbrev power_at : ℕ → HeartbeatData
power_at port = record {
  device_id = 0x31 ∷ [];
  port = port;
  event_type = event_power_heartbeat;
  power = 500;
  is_critical = false;
}

abbrev started : FilterRun
started = record { filter = new_heartbeat_filter 100; log = []; clock = 100 }

abbrev once : FilterRun
once = event_run started (power_at 1) 200

once-FilterReachable : FilterReachable 10000000000 once
once-FilterReachable =
    after started once (new_filter 100) (by_event started (power_at 1) 200 (omega arith))

five_seconds : get_dynamic_interval once.filter (power_at 1) ≡ 5000000000
unfolding get_dynamic_interval should_process is_critical_event new_heartbeat_filter lookup insert
    make_key update_last_heartbeat
five_seconds = refl

passes_later : (should_process once.filter (power_at 1) 5000000200).1 ≡ passed
unfolding get_dynamic_interval should_process is_critical_event new_heartbeat_filter lookup insert
    make_key update_last_heartbeat
passes_later = refl

passed_spaced_example :
    All
      (λ (p : Bytes × ℕ).
        (p.0 ≢ heartbeat_key (power_at 1))
        ⊎ (p.1 + get_dynamic_interval once.filter (power_at 1) ≤ 5000000200))
      once.log
passed_spaced_example =
    passed_spaced 10000000000 once (power_at 1) 5000000200 once-FilterReachable (omega arith)
      (omega (arith, five_seconds)) passes_later

-- The heartbeat of the second port, a second later, is taken for one of the first.
other_port_filtered : (should_process once.filter (power_at 2) 1000000200).1 ≡ filtered 5000000000
unfolding get_dynamic_interval should_process is_critical_event new_heartbeat_filter lookup insert
    make_key update_last_heartbeat
other_port_filtered = refl
