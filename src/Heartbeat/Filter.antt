-- ===== src/Heartbeat/Filter.antt =====
-- The heartbeat filter of pkg/gateway/adaptive_heartbeat_filter.go. Times and durations are numbers
-- of nanoseconds; an event type is its text, and a power that is not positive is zero.
use iot_zinx.Shared.{
  ℕ, ◌+◌, ◌-◌, Bytes, bytes_eq, List, [], ◌∷◌, ◌++◌, ◌==◌, Bool, true, false, ◌&&◌, ◌||◌, Option,
  none, some, length, ltb, leb, nat_beq, if◌then◌else◌,
}
use iot_zinx.Shared.Table.{lookup, insert}
use iot_zinx.Shared.Sweep.{keys_where, erase_keys}

abbrev pub event_power_heartbeat : Bytes
event_power_heartbeat =
    0x70 ∷ 0x6f ∷ 0x77 ∷ 0x65 ∷ 0x72 ∷ 0x5f ∷ 0x68 ∷ 0x65 ∷ 0x61 ∷ 0x72 ∷ 0x74 ∷ 0x62 ∷ 0x65 ∷ 0x61
    ∷ 0x74 ∷ []

abbrev pub event_status_heartbeat : Bytes
event_status_heartbeat =
    0x73 ∷ 0x74 ∷ 0x61 ∷ 0x74 ∷ 0x75 ∷ 0x73 ∷ 0x5f ∷ 0x68 ∷ 0x65 ∷ 0x61 ∷ 0x72 ∷ 0x74 ∷ 0x62 ∷ 0x65
    ∷ 0x61 ∷ 0x74 ∷ []

abbrev pub event_power_alarm : Bytes
event_power_alarm = 0x70 ∷ 0x6f ∷ 0x77 ∷ 0x65 ∷ 0x72 ∷ 0x5f ∷ 0x61 ∷ 0x6c ∷ 0x61 ∷ 0x72 ∷ 0x6d ∷ []

abbrev pub event_fault_status : Bytes
event_fault_status =
    0x66 ∷ 0x61 ∷ 0x75 ∷ 0x6c ∷ 0x74 ∷ 0x5f ∷ 0x73 ∷ 0x74 ∷ 0x61 ∷ 0x74 ∷ 0x75 ∷ 0x73 ∷ []

abbrev pub event_emergency_stop : Bytes
event_emergency_stop =
    0x65 ∷ 0x6d ∷ 0x65 ∷ 0x72 ∷ 0x67 ∷ 0x65 ∷ 0x6e ∷ 0x63 ∷ 0x79 ∷ 0x5f ∷ 0x73 ∷ 0x74 ∷ 0x6f ∷ 0x70
    ∷ []

abbrev pub event_device_offline : Bytes
event_device_offline =
    0x64 ∷ 0x65 ∷ 0x76 ∷ 0x69 ∷ 0x63 ∷ 0x65 ∷ 0x5f ∷ 0x6f ∷ 0x66 ∷ 0x66 ∷ 0x6c ∷ 0x69 ∷ 0x6e ∷ 0x65
    ∷ []

pub record HeartbeatData : Type 0 where
  pub device_id : Bytes
  pub port : ℕ
  pub event_type : Bytes
  pub power : ℕ
  pub is_critical : Bool

pub record PowerThresholds : Type 0 where
  pub emergency : ℕ
  pub high_power : ℕ
  pub low_power : ℕ
  pub abnormal_low : ℕ

pub record FilterStats : Type 0 where
  pub total_processed : ℕ
  pub total_filtered : ℕ
  pub critical_passed : ℕ
  pub last_reset_time : ℕ

pub record HeartbeatFilter : Type 0 where
  pub last_heartbeat : List (Bytes × ℕ)
  pub min_interval : List (Bytes × ℕ)
  pub critical_events : List (Bytes × Bool)
  pub power_thresholds : PowerThresholds
  pub stats : FilterStats

-- The text that `ShouldProcess` gives as the reason.
pub data Verdict : Type 0 where
  critical_event no_filter passed : Verdict
  filtered : ℕ → Verdict

abbrev pub second : ℕ
second = 1000000000

unfoldable pub new_stats : ℕ → FilterStats
new_stats now = record {
  total_processed = 0;
  total_filtered = 0;
  critical_passed = 0;
  last_reset_time = now;
}

unfoldable pub new_heartbeat_filter : ℕ → HeartbeatFilter
new_heartbeat_filter now = record {
  last_heartbeat = [];
  min_interval =
      (event_power_heartbeat, 5000000000)
      ∷ (event_status_heartbeat, 10000000000)
      ∷ (event_power_alarm, 1000000000)
      ∷ (event_fault_status, 1000000000)
      ∷ (event_emergency_stop, 0)
      ∷ (event_device_offline, 0)
      ∷ [];
  critical_events =
      (event_power_alarm, true)
      ∷ (event_fault_status, true)
      ∷ (event_emergency_stop, true)
      ∷ (event_device_offline, true)
      ∷ [];
  power_thresholds = record {
    emergency = 20000;
    high_power = 15000;
    low_power = 100;
    abnormal_low = 50;
  };
  stats = new_stats now;
}

abbrev pub flagged : Option Bool → Bool
flagged none = false
flagged (some critical) = critical

-- A power heartbeat that carries a power.
abbrev pub has_power : HeartbeatData → Bool
has_power data_in = (data_in.event_type == event_power_heartbeat) && ltb 0 data_in.power

unfoldable pub is_critical_event : HeartbeatFilter → HeartbeatData → Bool
is_critical_event ahf data_in =
    let limits = ahf.power_thresholds in
    flagged (lookup data_in.event_type ahf.critical_events)
    || has_power data_in
      && (leb limits.emergency data_in.power
          || leb limits.high_power data_in.power
          || leb data_in.power limits.abnormal_low)
    || data_in.is_critical

abbrev pub or_default : Option ℕ → ℕ
or_default none = 5000000000
or_default (some interval) = interval

unfoldable pub get_dynamic_interval : HeartbeatFilter → HeartbeatData → ℕ
get_dynamic_interval ahf data_in =
    let base = or_default (lookup data_in.event_type ahf.min_interval) in
    if has_power data_in
    then (if leb ahf.power_thresholds.high_power data_in.power
        then second
        else if leb ahf.power_thresholds.low_power data_in.power
        then base
        else base + 3000000000)
    else base

-- `"%s:%s"`; the port is not part of it.
unfoldable pub make_key : Bytes → Bytes → Bytes
make_key device_id event_type = device_id ++ (0x3a ∷ event_type)

abbrev pub heartbeat_key : HeartbeatData → Bytes
heartbeat_key data_in = make_key data_in.device_id data_in.event_type

unfoldable pub update_last_heartbeat : HeartbeatData → ℕ → HeartbeatFilter → HeartbeatFilter
update_last_heartbeat data_in now ahf = record ahf {
  last_heartbeat = insert (heartbeat_key data_in) now ahf.last_heartbeat;
}

abbrev pub count_processed : HeartbeatFilter → HeartbeatFilter
count_processed ahf = record ahf {
  stats = record ahf.stats { total_processed = ahf.stats.total_processed + 1 };
}

abbrev pub count_critical : HeartbeatFilter → HeartbeatFilter
count_critical ahf = record ahf {
  stats = record ahf.stats { critical_passed = ahf.stats.critical_passed + 1 };
}

abbrev pub count_filtered : HeartbeatFilter → HeartbeatFilter
count_filtered ahf = record ahf {
  stats = record ahf.stats { total_filtered = ahf.stats.total_filtered + 1 };
}

abbrev pub is_too_soon : Option ℕ → ℕ → ℕ → Bool
is_too_soon none now interval = false
is_too_soon (some last_time) now interval = ltb (now - last_time) interval

unfoldable pub should_process : HeartbeatFilter → HeartbeatData → ℕ → HeartbeatFilter × Verdict
should_process ahf0 data_in now =
    let ahf = count_processed ahf0 in
    let updated = update_last_heartbeat data_in now ahf in
    let interval = get_dynamic_interval ahf data_in in
    if is_critical_event ahf data_in
    then (update_last_heartbeat data_in now (count_critical ahf), critical_event)
    else if nat_beq interval 0
    then (updated, no_filter)
    else if is_too_soon (lookup (heartbeat_key data_in) ahf.last_heartbeat) now interval
    then (count_filtered ahf, filtered interval)
    else (updated, passed)

unfoldable pub reset_stats : ℕ → HeartbeatFilter → HeartbeatFilter
reset_stats now ahf = record ahf { stats = new_stats now }

unfoldable pub set_power_thresholds : PowerThresholds → HeartbeatFilter → HeartbeatFilter
set_power_thresholds thresholds ahf = record ahf { power_thresholds = thresholds }

unfoldable pub set_event_interval : Bytes → ℕ → HeartbeatFilter → HeartbeatFilter
set_event_interval event_type interval ahf = record ahf {
  min_interval = insert event_type interval ahf.min_interval;
}

abbrev pub is_old : ℕ → ℕ → ℕ → Bool
is_old now max_age last_time = ltb max_age (now - last_time)

-- The number of the entries removed is the second component.
unfoldable pub cleanup_old_entries : ℕ → ℕ → HeartbeatFilter → HeartbeatFilter × ℕ
cleanup_old_entries now max_age ahf =
    let keys = keys_where (is_old now max_age) ahf.last_heartbeat in
    (record ahf { last_heartbeat = erase_keys keys ahf.last_heartbeat }, length keys)
