-- ===== src/Sessions/Activity.antt =====
-- What keeps the manager's records current: heartbeats, status, commands and details of a device,
-- and the state of a connection.
use iot_zinx.Shared.{
  ℕ, ◌+◌, Bytes, bytes_eq, nat_eq, Option, none, some, Result, ok, err, panic, if◌then◌else◌, ◌>>=◌,
}
use iot_zinx.Shared.Table.{lookup}
use iot_zinx.Shared.Adjust.{adjust, find_first}
use iot_zinx.Sessions.PhysicalId.{is_empty}
use iot_zinx.Sessions.State.{
  ConnState, online, Connection, Session, Device, DeviceGroup, TcpManager, TcpError, group_missing,
  device_not_in_group, device_nowhere, connection_missing, repair_failed, empty_iccid,
  no_session_after_registration,
}
use iot_zinx.Sessions.Index.{
  has_device, or_error, store_index, get_session_by_device_id, get_session_by_conn_id, ensure_index,
  touched,
}
use iot_zinx.Sessions.Registration.{register_device}

abbrev pub change_device : Bytes → (Device → Device) → DeviceGroup → DeviceGroup
change_device device_id change group = record group {
  devices = adjust device_id change group.devices;
}

abbrev pub beaten : ℕ → Device → Device
beaten now device = record device {
  last_heartbeat = now;
  last_activity = now;
  heartbeat_count = device.heartbeat_count + 1;
  status = online;
  state = online;
}

abbrev pub beaten_group : Bytes → ℕ → DeviceGroup → DeviceGroup
beaten_group device_id now group = record (change_device device_id (beaten now) group) {
  last_activity = now;
}

abbrev pub active_session : ℕ → Session → Session
active_session now session = record session { last_activity = now; updated_at = now }

abbrev pub beat : TcpManager → Bytes → Bytes → DeviceGroup → ℕ → TcpManager
beat m device_id iccid group now = record m {
  device_groups = adjust iccid (beaten_group device_id now) m.device_groups;
  connections = adjust group.conn_id (active_session now) m.connections;
}

-- The last way out of `UpdateHeartbeat` when the index still has no entry: the group that is found
-- is stored, and then the missing entry is asserted to be a string, which panics.
abbrev pub index_lost : TcpManager → Bytes → TcpManager × Result TcpError (Unit {0})
index_lost m device_id = elim (find_first (has_device device_id) m.device_groups) [
  | none ↦ (m, err (device_nowhere device_id))
  | some (iccid, group) ↦ (store_index device_id iccid m, panic)
]

abbrev pub beat_indexed : TcpManager → Bytes → ℕ → TcpManager × Result TcpError (Unit {0})
beat_indexed m device_id now = elim (lookup device_id m.device_index) [
  | none ↦ index_lost m device_id
  | some iccid ↦ elim (lookup iccid m.device_groups) [
    | none ↦ (m, err (group_missing iccid))
    | some group ↦
        if has_device device_id group
        then (beat m device_id iccid group now, ok tt)
        else (m, err (device_not_in_group device_id))
  ]
]

-- No lock is held between the check with its repair and the next look at the index: `between` is
-- what other goroutines do to the manager there. The look-ups from then on are one step.
abbrev pub beat_ensured :
    (TcpManager → TcpManager)
    → Bytes
    → ℕ
    → TcpManager × Result TcpError (Unit {0})
    → TcpManager × Result TcpError (Unit {0})
beat_ensured between device_id now (m, ok _) = beat_indexed (between m) device_id now
beat_ensured between device_id now (m, err e) = (m, err (repair_failed e))
beat_ensured between device_id now (m, panic) = (m, panic)

unfoldable pub update_heartbeat :
    (TcpManager → TcpManager) → TcpManager → Bytes → ℕ → TcpManager × Result TcpError (Unit {0})
update_heartbeat between m device_id now =
    beat_ensured between device_id now (ensure_index m device_id)

abbrev pub set_updated : ℕ → Session → Session
set_updated now session = record session { updated_at = now }

abbrev pub with_status : ConnState → Device → Device
with_status status device = record device { status = status }

unfoldable pub update_device_status :
    TcpManager → Bytes → ConnState → ℕ → Result TcpError TcpManager
update_device_status m device_id status now = do
  iccid ← or_error (device_nowhere device_id) (lookup device_id m.device_index)
  group ← or_error (group_missing iccid) (lookup iccid m.device_groups)
  device ← or_error (device_not_in_group device_id) (lookup device_id group.devices)
  ok (record m {
    device_groups = adjust iccid (change_device device_id (with_status status)) m.device_groups;
    connections = adjust group.conn_id (set_updated now) m.connections;
  })

abbrev pub commanded : ℕ → ℕ → ℕ → Device → Device
commanded cmd size now device = record device {
  last_command_at = now;
  last_command_code = cmd;
  last_command_size = size;
  last_activity = now;
}

abbrev pub commanded_group : Bytes → ℕ → ℕ → ℕ → DeviceGroup → DeviceGroup
commanded_group device_id cmd size now group =
    record (change_device device_id (commanded cmd size now) group) { last_activity = now }

unfoldable pub record_device_command : TcpManager → Bytes → ℕ → ℕ → ℕ → TcpManager
record_device_command m device_id cmd size now = elim (lookup device_id m.device_index) [
  | none ↦ m
  | some iccid ↦ elim (lookup iccid m.device_groups) [
    | none ↦ m
    | some group ↦ record m {
      device_groups = adjust iccid (commanded_group device_id cmd size now) m.device_groups;
      connections = adjust group.conn_id (touched now) m.connections;
    }
  ]
]

abbrev pub detailed : ℕ → Bytes → Device → Device
detailed device_type device_version device = record device {
  device_type = device_type;
  device_version = device_version;
}

-- `device` of `GetDeviceByID` is the group's own record.
abbrev pub detail_device : TcpManager → Bytes → ℕ → Bytes → TcpManager
detail_device m device_id device_type device_version = elim (lookup device_id m.device_index) [
  | none ↦ m
  | some iccid ↦ record m {
    device_groups =
        adjust iccid (change_device device_id (detailed device_type device_version))
          m.device_groups;
  }
]

abbrev pub detail_found :
    Bytes → ℕ → Bytes → ℕ → TcpManager × Option Session → TcpManager × Result TcpError (Unit {0})
detail_found device_id device_type device_version now (m, none) =
    (m, err (no_session_after_registration device_id))
detail_found device_id device_type device_version now (m, some session) =
    let m2 = record m { connections = adjust session.conn_id (set_updated now) m.connections } in
    (detail_device m2 device_id device_type device_version, ok tt)

abbrev pub detail_registered :
    Bytes
    → ℕ
    → Bytes
    → ℕ
    → TcpManager × Result TcpError (Unit {0})
    → TcpManager × Result TcpError (Unit {0})
detail_registered device_id device_type device_version now (m, ok _) =
    detail_found device_id device_type device_version now (get_session_by_device_id m device_id)
detail_registered device_id device_type device_version now r = r

unfoldable pub register_device_with_details :
    TcpManager
    → Option Connection
    → Bytes
    → Bytes
    → Bytes
    → ℕ
    → Bytes
    → ℕ
    → TcpManager × Result TcpError (Unit {0})
register_device_with_details m conn device_id physical_id iccid device_type device_version now =
    detail_registered device_id device_type device_version now
      (register_device m conn device_id physical_id iccid now)

abbrev pub with_state : ConnState → ℕ → Session → Session
with_state state now session = record session { state = state; updated_at = now }

unfoldable pub update_connection_state_by_conn_id :
    TcpManager → ℕ → ConnState → ℕ → Result TcpError TcpManager
update_connection_state_by_conn_id m conn_id state now = do
  session ← or_error (connection_missing conn_id) (get_session_by_conn_id m conn_id)
  ok (record m { connections = adjust conn_id (with_state state now) m.connections })

-- The card's number itself is not stored.
unfoldable pub update_iccid_by_conn_id : TcpManager → ℕ → Bytes → ℕ → Result TcpError TcpManager
update_iccid_by_conn_id m conn_id iccid now = if is_empty iccid then err empty_iccid else do
  session ← or_error (connection_missing conn_id) (get_session_by_conn_id m conn_id)
  ok (record m { connections = adjust conn_id (set_updated now) m.connections })

unfoldable pub set_heartbeat_timeout : TcpManager → ℕ → TcpManager
set_heartbeat_timeout m timeout = record m { heartbeat_timeout = timeout }
