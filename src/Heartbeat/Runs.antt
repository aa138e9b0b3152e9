-- ===== src/Heartbeat/Runs.antt =====
-- The calls of the heartbeat filter in any order, with the heartbeats let through so far.
use iot_zinx.Shared.{ℕ, ◌≤◌, Bytes, bytes_eq, List, [], ◌∷◌}
use iot_zinx.Heartbeat.Filter.{
  HeartbeatData, PowerThresholds, HeartbeatFilter, Verdict, filtered, new_heartbeat_filter,
  heartbeat_key, should_process, reset_stats, set_power_thresholds, set_event_interval,
  cleanup_old_entries,
}

-- The keys and times of the heartbeats let through so far, the latest first, and a time that the
-- clock has reached.
pub record FilterRun : Type 0 where
  pub filter : HeartbeatFilter
  pub log : List (Bytes × ℕ)
  pub clock : ℕ

abbrev pub logged : Verdict → Bytes → ℕ → List (Bytes × ℕ) → List (Bytes × ℕ)
logged (filtered interval) key now log = log
logged _ key now log = (key, now) ∷ log

abbrev pub event_run : FilterRun → HeartbeatData → ℕ → FilterRun
event_run r data_in now =
    let result = should_process r.filter data_in now in
    record {
      filter = result.0;
      log = logged result.1 (heartbeat_key data_in) now r.log;
      clock = now;
    }

-- The calls of the filter, with a clean-up of nothing younger than `age`.
pub data FilterStep (age : ℕ) : FilterRun → FilterRun → Type 0 where
  by_event :
      (r : FilterRun) (data_in : HeartbeatData) (now : ℕ)
      → r.clock ≤ now
      → FilterStep age r (event_run r data_in now)
  by_cleanup :
      (r : FilterRun) (now max_age : ℕ)
      → r.clock ≤ now
      → age ≤ max_age
      → FilterStep age r
          (record r { filter = (cleanup_old_entries now max_age r.filter).0; clock = now })
  by_reset :
      (r : FilterRun) (now : ℕ) → FilterStep age r (record r { filter = reset_stats now r.filter })
  by_thresholds :
      (r : FilterRun) (thresholds : PowerThresholds)
      → FilterStep age r (record r { filter = set_power_thresholds thresholds r.filter })
  by_interval :
      (r : FilterRun) (event_type : Bytes) (interval : ℕ)
      → FilterStep age r (record r { filter = set_event_interval event_type interval r.filter })

pub data FilterReachable (age : ℕ) : FilterRun → Type 0 where
  new_filter :
      (now : ℕ)
      → FilterReachable age (record { filter = new_heartbeat_filter now; log = []; clock = now })
  after : (r r2 : FilterRun) → FilterReachable age r → FilterStep age r r2 → FilterReachable age r2
