-- ===== src/Sessions/KeptWatch.antt =====
-- The rebuilding of the index, the watcher and the health check keep the tables' invariant.
use iot_zinx.Shared.{
  ℕ, ◌≡◌, refl, inl, inr, arith, Bytes, bytes_eq, nat_eq, List, [], ◌∷◌, true, Bool-cases, Option,
  none, some, Option-cases, Result, ok, err, panic, ltb,
}
use iot_zinx.Shared.Table.{lookup, insert}
use iot_zinx.Shared.Keys.{lookup-All}
use iot_zinx.Shared.Adjust.{is_some, keys_of}
use iot_zinx.Sessions.PhysicalId.{is_empty, IdError, parse_device_id_to_physical_id}
use iot_zinx.Sessions.State.{Session, Devices, TcpManager}
use iot_zinx.Sessions.Index.{
  store_index, get_session_by_device_id, rebuilt_group, rebuilt_tables, rebuilt_parsed,
  rebuild_device_index, touched, with_rebuilt, get_device_connection, get_connection_by_device_id,
  is_ok, validate_device_index, repair_device_index,
}
use iot_zinx.Sessions.Registry.{mark_device_offline}
use iot_zinx.Sessions.Watch.{
  is_silent, check_devices, check_groups, check_heartbeats, HealthCount, check_index, check_indexes,
}
use iot_zinx.Sessions.Invariant.{TcpInvariant, IsLed, holds, store-Index}
use iot_zinx.Sessions.Members.{rebuilt_tables-Keeps}
use iot_zinx.Sessions.Kept.{with_index, get_session-Tcp, repair-Tcp, offline-Tcp}
use iot_zinx.Sessions.KeptActivity.{both_changed-Tcp}
use iot_zinx.Sessions.Watch.{recalculate_stats, periodic_index_health_check}

led_to :
    (m : TcpManager) (device_id iccid : Bytes)
    → TcpInvariant m
    → lookup device_id m.device_index ≡ some iccid
    → holds device_id (lookup iccid m.device_groups) ≡ true
led_to m device_id iccid h e =
    lookup-All (IsLed m.device_groups) device_id iccid m.device_index h.index.1 e

rebuilt-Tcp :
    (m : TcpManager) (device_id : Bytes) (session : Session) (iccid : Bytes) (physical_id now : ℕ)
    → TcpInvariant m
    → lookup device_id m.device_index ≡ some iccid
    → TcpInvariant (rebuilt_tables m device_id session iccid physical_id now)
rebuilt-Tcp m device_id session iccid physical_id now h e =
    let m2 = store_index device_id iccid m in
    let stored = with_index m (insert device_id iccid m.device_index) h (
      store-Index device_id iccid m.device_groups m.device_index (led_to m device_id iccid h e)
        h.index) in
    elim (Bool-cases (is_some (lookup iccid m.device_groups))) [
      | inr t ↦ rw t stored
      | inl t ↦ rw t (
          both_changed-Tcp m2 iccid session.conn_id (rebuilt_group device_id physical_id iccid now)
            (touched now) (rebuilt_tables-Keeps device_id physical_id iccid now) (λ s. refl) stored)
    ]

parsed_rebuilt-Tcp :
    (m : TcpManager) (device_id : Bytes) (session : Session) (iccid : Bytes) (now : ℕ)
    (number : Result IdError ℕ)
    → TcpInvariant m
    → lookup device_id m.device_index ≡ some iccid
    → TcpInvariant (rebuilt_parsed m device_id session iccid now number)
parsed_rebuilt-Tcp m device_id session iccid now (ok number) h e =
    rebuilt-Tcp m device_id session iccid number now h e
parsed_rebuilt-Tcp m device_id session iccid now (err x) h e = h
parsed_rebuilt-Tcp m device_id session iccid now panic h e = h

pub rebuild-Tcp :
    (m : TcpManager) (device_id : Bytes) (session : Option Session) (now : ℕ)
    → TcpInvariant m
    → TcpInvariant (rebuild_device_index m device_id session now)
unfolding rebuild_device_index
rebuild-Tcp m device_id none now h = h
rebuild-Tcp m device_id (some session) now h = elim (Bool-cases (is_empty device_id)) [
  | inl t ↦ rw (rebuild_device_index, t) h
  | inr t ↦ elim (Option-cases (lookup device_id m.device_index)) [
    | inl e ↦ rw (rebuild_device_index, t, e) h
    | inr (iccid, e) ↦
        rw (rebuild_device_index, t, e)
          (parsed_rebuilt-Tcp m device_id session iccid now
            (parse_device_id_to_physical_id device_id) h e)
  ]
]

with_rebuilt-Tcp :
    (device_id : Bytes) (now : ℕ) (found : TcpManager × Option Session)
    → TcpInvariant found.0
    → TcpInvariant (with_rebuilt device_id now found).0
with_rebuilt-Tcp device_id now (m, none) h = h
with_rebuilt-Tcp device_id now (m, some session) h = rebuild-Tcp m device_id (some session) now h

pub get_connection-Tcp :
    (m : TcpManager) (device_id : Bytes) (now : ℕ)
    → TcpInvariant m
    → TcpInvariant (get_connection_by_device_id m device_id now).0
unfolding get_connection_by_device_id
get_connection-Tcp m device_id now h = elim (Option-cases (get_device_connection m device_id)) [
  | inl e ↦
      rw (get_connection_by_device_id, e)
        (with_rebuilt-Tcp device_id now (get_session_by_device_id m device_id)
          (get_session-Tcp m device_id h))
  | inr (conn, e) ↦ rw (get_connection_by_device_id, e) h
]

check_devices-Tcp :
    (timeout now : ℕ) (devices : Devices) (m : TcpManager)
    → TcpInvariant m
    → TcpInvariant (check_devices timeout now devices m)
check_devices-Tcp timeout now [] m h = h
check_devices-Tcp timeout now ((device_id, device) ∷ devices) m h =
    elim (Bool-cases (is_silent timeout now device)) [
      | inl t ↦ rw t (
          check_devices-Tcp timeout now devices (mark_device_offline m device_id now)
            (offline-Tcp m device_id now h))
      | inr t ↦ rw t (check_devices-Tcp timeout now devices m h)
    ]

check_groups-Tcp :
    (timeout now : ℕ) (iccids : List Bytes) (m : TcpManager)
    → TcpInvariant m
    → TcpInvariant (check_groups timeout now iccids m)
check_groups-Tcp timeout now [] m h = h
check_groups-Tcp timeout now (iccid ∷ iccids) m h =
    elim (Option-cases (lookup iccid m.device_groups)) [
      | inl e ↦ rw e (check_groups-Tcp timeout now iccids m h)
      | inr (group, e) ↦ rw e (
          check_groups-Tcp timeout now iccids (check_devices timeout now group.devices m)
            (check_devices-Tcp timeout now group.devices m h))
    ]

pub watch-Tcp : (m : TcpManager) (now : ℕ) → TcpInvariant m → TcpInvariant (check_heartbeats m now)
unfolding check_heartbeats
watch-Tcp m now h = elim (Bool-cases (ltb 0 m.heartbeat_timeout)) [
  | inl t ↦
      rw (check_heartbeats, t)
        (check_groups-Tcp m.heartbeat_timeout now (keys_of m.device_groups) m h)
  | inr t ↦ rw (check_heartbeats, t) h
]

pub recalculate-Tcp :
    (m : TcpManager) (now : ℕ) → TcpInvariant m → TcpInvariant (recalculate_stats m now)
unfolding recalculate_stats
recalculate-Tcp m now h = record {
  connections = h.connections;
  groups = h.groups;
  index = h.index;
  stats = (refl, omega arith);
}

check_index-Tcp :
    (device_id : Bytes) (m : TcpManager) (count : HealthCount)
    → TcpInvariant m
    → TcpInvariant (check_index device_id (m, count)).0
check_index-Tcp device_id m count h =
    elim (Bool-cases (is_ok (validate_device_index m device_id))) [
      | inl t ↦ rw t h
      | inr t ↦ elim (Bool-cases (is_ok (repair_device_index m device_id).1)) [
        | inl u ↦ rw (t, u) (repair-Tcp m device_id h)
        | inr u ↦ rw (t, u) (repair-Tcp m device_id h)
      ]
    ]

check_indexes-Tcp :
    (device_ids : List Bytes) (m : TcpManager) (count : HealthCount)
    → TcpInvariant m
    → TcpInvariant (check_indexes device_ids (m, count)).0
check_indexes-Tcp [] m count h = h
check_indexes-Tcp (device_id ∷ device_ids) m count h =
    let next = check_index device_id (m, count) in
    check_indexes-Tcp device_ids next.0 next.1 (check_index-Tcp device_id m count h)

pub health-Tcp : (m : TcpManager) → TcpInvariant m → TcpInvariant (periodic_index_health_check m).0
unfolding periodic_index_health_check
health-Tcp m h =
    check_indexes-Tcp (keys_of m.device_index) m
      (record { healthy = 0; repaired = 0; unrepaired = 0 }) h
