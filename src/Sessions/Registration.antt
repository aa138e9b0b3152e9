-- ===== src/Sessions/Registration.antt =====
-- A device is registered over a connection: `RegisterDevice` and
-- `AtomicDeviceIndexOperation`. Each call runs as one step.
use iot_zinx.Shared.{
  ℕ, ◌+◌, Bytes, bytes_eq, nat_eq, ◌∷◌, [], Bool, true, false, Option, none, some, Result, ok, err,
  panic, ltb, nat_beq, if◌then◌else◌,
}
use iot_zinx.Shared.Table.{lookup, insert}
use iot_zinx.Shared.Adjust.{adjust}
use iot_zinx.Sessions.PhysicalId.{IdError, is_empty, parse_device_id_to_physical_id}
use iot_zinx.Sessions.State.{
  Connection, Session, Device, DeviceGroup, TcpStats, TcpManager, TcpError, no_connection_given,
  empty_device_id, empty_iccid, bad_device_id, connection_missing, operation_failed, repair_failed,
  online, registered, new_device_group, new_device,
}
use iot_zinx.Sessions.Index.{store_index, get_session_by_device_id, ensure_index}
use iot_zinx.Sessions.Registry.{cleanup_connection}

-- Whether the device counts as registered already; over another connection it does not, and that
-- connection is cleaned up.
abbrev pub left_other : ℕ → ℕ → TcpManager × Option Session → TcpManager × Bool
left_other conn_id now (m, none) = (m, false)
left_other conn_id now (m, some session) =
    if nat_beq session.conn_id conn_id
    then (m, true)
    else (cleanup_connection m session.conn_id now, false)

unfoldable pub leave_other_connection : TcpManager → Bytes → ℕ → ℕ → TcpManager × Bool
leave_other_connection m device_id conn_id now =
    left_other conn_id now (get_session_by_device_id m device_id)

abbrev pub registered_session : ℕ → Session → Session
registered_session now session = record session {
  state = registered;
  last_activity = now;
  updated_at = now;
}

abbrev pub mark_session : ℕ → ℕ → TcpManager → TcpManager
mark_session conn_id now m = record m {
  connections = adjust conn_id (registered_session now) m.connections;
}

-- A device that the group has keeps its history.
unfoldable pub registered_device : Option Device → Bytes → ℕ → Bytes → ℕ → Device
registered_device none device_id physical_id iccid now = new_device device_id physical_id iccid now
registered_device (some device) device_id physical_id iccid now = record device {
  physical_id = physical_id;
  iccid = iccid;
  status = online;
  state = registered;
  last_activity = now;
}

unfoldable pub with_registered : Bytes → ℕ → Bytes → ℕ → DeviceGroup → DeviceGroup
with_registered device_id physical_id iccid now group = record group {
  devices =
      insert device_id
        (registered_device (lookup device_id group.devices) device_id physical_id iccid now)
        group.devices;
  last_activity = now;
}

abbrev pub group_made : Connection → Bytes → ℕ → Bytes → ℕ → DeviceGroup
group_made conn device_id physical_id iccid now = record (new_device_group conn iccid now) {
  devices = (device_id, new_device device_id physical_id iccid now) ∷ [];
}

-- The operation that `RegisterDevice` hands to `AtomicDeviceIndexOperation`: a group that the card
-- has already keeps its connection.
unfoldable pub store_device : TcpManager → Connection → Bytes → ℕ → Bytes → ℕ → TcpManager
store_device m conn device_id physical_id iccid now =
    store_index device_id iccid (elim (lookup iccid m.device_groups) [
      | some group ↦ record m {
        device_groups =
            insert iccid (with_registered device_id physical_id iccid now group) m.device_groups;
      }
      | none ↦ record m {
        device_groups =
            insert iccid (group_made conn device_id physical_id iccid now) m.device_groups;
      }
    ])

-- The operation never fails, so only the check after it and the repair can.
unfoldable pub atomic_device_index_operation :
    TcpManager → Bytes → (TcpManager → TcpManager) → TcpManager × Result TcpError (Unit {0})
atomic_device_index_operation m device_id operation = ensure_index (operation m) device_id

unfoldable pub device_added : Bool → ℕ → TcpStats → TcpStats
device_added false now stats = record stats {
  total_devices = stats.total_devices + 1;
  online_devices = stats.online_devices + 1;
  last_update_at = now;
}
device_added true now stats = record stats {
  online_devices =
      if ltb stats.online_devices stats.total_devices
      then stats.total_devices
      else stats.online_devices;
  last_update_at = now;
}

abbrev pub count_device : Bool → ℕ → TcpManager → TcpManager
count_device already now m = record m { stats = device_added already now m.stats }

abbrev pub failed_as {ℓ} :
    {S : Type ℓ}
    → (TcpError → TcpError)
    → S × Result TcpError (Unit {0})
    → S × Result TcpError (Unit {0})
failed_as wrap (m, err e) = (m, err (wrap e))
failed_as wrap (m, r) = (m, r)

-- After the operation: the counters, and the check once more.
abbrev pub finish_registration :
    Bytes
    → Bool
    → ℕ
    → TcpManager × Result TcpError (Unit {0})
    → TcpManager × Result TcpError (Unit {0})
finish_registration device_id already now (m, ok _) =
    failed_as repair_failed (ensure_index (count_device already now m) device_id)
finish_registration device_id already now (m, err e) = (m, err (operation_failed e))
finish_registration device_id already now (m, panic) = (m, panic)

unfoldable pub enter_device :
    TcpManager → Connection → Bytes → ℕ → Bytes → Bool → ℕ → TcpManager × Result TcpError (Unit {0})
enter_device m conn device_id physical_id iccid already now =
    finish_registration device_id already now (
      atomic_device_index_operation (mark_session conn.conn_id now m) device_id
        (λ m2. store_device m2 conn device_id physical_id iccid now))

abbrev pub enter_parsed :
    Connection
    → Bytes
    → Bytes
    → ℕ
    → TcpManager × Bool
    → Result IdError ℕ
    → TcpManager × Result TcpError (Unit {0})
enter_parsed conn device_id iccid now left (ok number) =
    enter_device left.0 conn device_id number iccid left.1 now
enter_parsed conn device_id iccid now left (err e) = (left.0, err (bad_device_id e))
enter_parsed conn device_id iccid now left panic = (left.0, panic)

-- The physical ID is read only after another connection of the device has been cleaned up.
unfoldable pub register_device :
    TcpManager
    → Option Connection
    → Bytes
    → Bytes
    → Bytes
    → ℕ
    → TcpManager × Result TcpError (Unit {0})
register_device m none device_id physical_id iccid now = (m, err no_connection_given)
register_device m (some conn) device_id physical_id iccid now =
    if is_empty device_id
    then (m, err empty_device_id)
    else if is_empty iccid
    then (m, err empty_iccid)
    else elim (lookup conn.conn_id m.connections) [
      | none ↦ (m, err (connection_missing conn.conn_id))
      | some session ↦
          let left = leave_other_connection m device_id conn.conn_id now in
          enter_parsed conn device_id iccid now left (parse_device_id_to_physical_id physical_id)
    ]
