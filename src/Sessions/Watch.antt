-- ===== src/Sessions/Watch.antt =====
-- Start and stop, the heartbeat watcher, the counters, the lists for the API and the health check of
-- the index.
use iot_zinx.Shared.{
  ℕ, ◌+◌, ◌-◌, ◌/◌, Bytes, bytes_eq, nat_eq, List, [], ◌∷◌, Bool, true, false, not, ◌&&◌, Option,
  none, some, length, Result, ok, err, panic, ltb, nat_beq, if◌then◌else◌,
}
use iot_zinx.Shared.Table.{lookup, insert}
use iot_zinx.Shared.Adjust.{keys_of}
use iot_zinx.Sessions.State.{
  Session, Device, Devices, DeviceGroup, TcpManager, TcpError, already_running, not_running,
}
use iot_zinx.Sessions.Index.{is_ok, validate_device_index, repair_device_index}
use iot_zinx.Sessions.Registry.{mark_device_offline}

unfoldable pub start_manager : TcpManager → Result TcpError TcpManager
start_manager m =
    if m.running
    then err already_running
    else ok (record m { running = true; heartbeat_watcher_started = true })

-- The stop channel is never made again, so that closing it twice panics.
unfoldable pub stop_manager : TcpManager → Result TcpError TcpManager
stop_manager m =
    if m.running
    then (if m.stop_closed then panic else ok (record m { running = false; stop_closed = true }))
    else err not_running

-- The ticker of the watcher, in nanoseconds: half the timeout, between 5 and 30 seconds.
unfoldable pub watch_interval : ℕ → ℕ
watch_interval timeout =
    let half = timeout / 2 in
    let interval = if ltb half 30000000000 then half else 30000000000 in
    if ltb 0 timeout
    then (if ltb interval 5000000000 then 5000000000 else interval)
    else 30000000000

-- A device that never sent a heartbeat is judged by its last activity.
unfoldable pub last_seen : Device → ℕ
last_seen device =
    if nat_beq device.last_heartbeat 0 then device.last_activity else device.last_heartbeat

unfoldable pub is_silent : ℕ → ℕ → Device → Bool
is_silent timeout now device =
    not (nat_beq (last_seen device) 0) && ltb timeout (now - last_seen device)

-- The loop runs over the devices that the group had when it was reached.
abbrev pub check_devices : ℕ → ℕ → Devices → TcpManager → TcpManager
check_devices timeout now [] m = m
check_devices timeout now ((device_id, device) ∷ devices) m =
    check_devices timeout now devices
      (if is_silent timeout now device then mark_device_offline m device_id now else m)

-- A group that was deleted before the iteration reached it is not visited.
abbrev pub check_groups : ℕ → ℕ → List Bytes → TcpManager → TcpManager
check_groups timeout now [] m = m
check_groups timeout now (iccid ∷ iccids) m =
    check_groups timeout now iccids (elim (lookup iccid m.device_groups) [
      | none ↦ m
      | some group ↦ check_devices timeout now group.devices m
    ])

-- One tick of the watcher.
unfoldable pub check_heartbeats : TcpManager → ℕ → TcpManager
check_heartbeats m now =
    if ltb 0 m.heartbeat_timeout
    then check_groups m.heartbeat_timeout now (keys_of m.device_groups) m
    else m

abbrev pub count_devices : List (Bytes × DeviceGroup) → ℕ
count_devices [] = 0
count_devices ((iccid, group) ∷ groups) = length group.devices + count_devices groups

unfoldable pub recalculate_stats : TcpManager → ℕ → TcpManager
recalculate_stats m now = record m {
  stats = record m.stats {
    active_connections = length m.connections;
    total_connections = length m.connections;
    total_devices = count_devices m.device_groups;
    online_devices = count_devices m.device_groups;
    last_update_at = now;
  };
}

abbrev pub add_sessions : Session → List Bytes → List (Bytes × Session) → List (Bytes × Session)
add_sessions session [] sessions = sessions
add_sessions session (device_id ∷ device_ids) sessions =
    add_sessions session device_ids (insert device_id session sessions)

abbrev pub sessions_of :
    TcpManager → List (Bytes × DeviceGroup) → List (Bytes × Session) → List (Bytes × Session)
sessions_of m [] sessions = sessions
sessions_of m ((iccid, group) ∷ groups) sessions =
    sessions_of m groups (elim (lookup group.conn_id m.connections) [
      | none ↦ sessions
      | some session ↦ add_sessions session (keys_of group.devices) sessions
    ])

unfoldable pub get_all_sessions : TcpManager → List (Bytes × Session)
get_all_sessions m = sessions_of m m.device_groups []

-- What `GetDeviceListForAPI` lists: each device of each group, with the group's session.
abbrev pub list_group : TcpManager → DeviceGroup → Devices → List (Device × Option Session)
list_group m group [] = []
list_group m group ((device_id, device) ∷ devices) =
    (device, lookup group.conn_id m.connections) ∷ list_group m group devices

pub record HealthCount : Type 0 where
  pub healthy : ℕ
  pub repaired : ℕ
  pub unrepaired : ℕ

abbrev pub check_index : Bytes → TcpManager × HealthCount → TcpManager × HealthCount
check_index device_id (m, count) =
    let result = repair_device_index m device_id in
    if is_ok (validate_device_index m device_id)
    then (m, record count { healthy = count.healthy + 1 })
    else if is_ok result.1
    then (result.0, record count { repaired = count.repaired + 1 })
    else (result.0, record count { unrepaired = count.unrepaired + 1 })

abbrev pub check_indexes : List Bytes → TcpManager × HealthCount → TcpManager × HealthCount
check_indexes [] r = r
check_indexes (device_id ∷ device_ids) r = check_indexes device_ids (check_index device_id r)

unfoldable pub periodic_index_health_check : TcpManager → TcpManager × HealthCount
periodic_index_health_check m =
    check_indexes (keys_of m.device_index) (m, record { healthy = 0; repaired = 0; unrepaired = 0 })
