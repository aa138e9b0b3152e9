-- ===== src/Sessions/Index.antt =====
-- From a device to its group, its connection's session and its record: the look-ups of the
-- connection manager, the check of the index and its repair.
use iot_zinx.Shared.{
  ℕ, Bytes, bytes_eq, nat_eq, Bool, true, false, Option, none, some, Result, ok, err, panic, ltb,
  ◌>>=◌, if◌then◌else◌,
}
use iot_zinx.Shared.Table.{lookup, insert, erase}
use iot_zinx.Shared.Adjust.{is_some, adjust, find_first}
use iot_zinx.Sessions.PhysicalId.{IdError, is_empty, parse_device_id_to_physical_id}
use iot_zinx.Sessions.State.{
  Connection, Session, Device, DeviceGroup, TcpManager, TcpError, index_missing, group_missing,
  device_not_in_group, session_missing, device_nowhere, unverified, online, new_device,
}

-- `value, exists := table.Load(key); if !exists { return err }`.
abbrev pub or_error {ℓ} : {A : Type ℓ} → TcpError → Option A → Result TcpError A
or_error e none = err e
or_error e (some a) = ok a

abbrev pub has_device : Bytes → DeviceGroup → Bool
has_device device_id group = is_some (lookup device_id group.devices)

abbrev pub drop_index : Bytes → TcpManager → TcpManager
drop_index device_id m = record m { device_index = erase device_id m.device_index }

abbrev pub store_index : Bytes → Bytes → TcpManager → TcpManager
store_index device_id iccid m = record m { device_index = insert device_id iccid m.device_index }

-- An entry of the index that leads nowhere is deleted by the look-up.
unfoldable pub get_session_by_device_id : TcpManager → Bytes → TcpManager × Option Session
get_session_by_device_id m device_id = elim (lookup device_id m.device_index) [
  | none ↦ (m, none)
  | some iccid ↦ elim (lookup iccid m.device_groups) [
    | none ↦ (drop_index device_id m, none)
    | some group ↦ elim (lookup group.conn_id m.connections) [
      | none ↦ (drop_index device_id m, none)
      | some session ↦
          if has_device device_id group then (m, some session) else (drop_index device_id m, none)
    ]
  ]
]

-- The group that the index gives for a device.
abbrev pub indexed_group : TcpManager → Bytes → Option DeviceGroup
indexed_group m device_id = elim (lookup device_id m.device_index) [
  | none ↦ none
  | some iccid ↦ lookup iccid m.device_groups
]

unfoldable pub get_device_by_id : TcpManager → Bytes → Option Device
get_device_by_id m device_id = elim (indexed_group m device_id) [
  | none ↦ none
  | some group ↦ lookup device_id group.devices
]

-- A group's connection is never nil: a registration without a connection is refused.
unfoldable pub get_device_connection : TcpManager → Bytes → Option Connection
get_device_connection m device_id = elim (indexed_group m device_id) [
  | none ↦ none
  | some group ↦ some group.connection
]

unfoldable pub get_session_by_conn_id : TcpManager → ℕ → Option Session
get_session_by_conn_id m conn_id = lookup conn_id m.connections

unfoldable pub validate_device_index : TcpManager → Bytes → Result TcpError (Unit {0})
validate_device_index m device_id = do
  iccid ← or_error (index_missing device_id) (lookup device_id m.device_index)
  group ← or_error (group_missing iccid) (lookup iccid m.device_groups)
  device ← or_error (device_not_in_group device_id) (lookup device_id group.devices)
  session ← or_error (session_missing iccid group.conn_id) (lookup group.conn_id m.connections)
  ok tt

abbrev pub is_ok {ℓ} : {A : Type ℓ} → Result TcpError A → Bool
is_ok (ok a) = true
is_ok _ = false

abbrev pub reverified : Result TcpError (Unit {0}) → Result TcpError (Unit {0})
reverified (err e) = err (unverified e)
reverified r = r

-- The index is set to the first group, in the iteration order, that has the device.
abbrev pub reindexed : TcpManager → Bytes → TcpManager × Result TcpError (Unit {0})
reindexed m device_id = elim (find_first (has_device device_id) m.device_groups) [
  | none ↦ (m, err (device_nowhere device_id))
  | some (iccid, group) ↦
      let m2 = store_index device_id iccid m in
      (m2, reverified (validate_device_index m2 device_id))
]

unfoldable pub repair_device_index : TcpManager → Bytes → TcpManager × Result TcpError (Unit {0})
repair_device_index m device_id =
    if is_ok (validate_device_index m device_id) then (m, ok tt) else reindexed m device_id

-- `if valid, _ := Validate(id); !valid { return Repair(id) }`.
abbrev pub ensure_index : TcpManager → Bytes → TcpManager × Result TcpError (Unit {0})
ensure_index m device_id =
    if is_ok (validate_device_index m device_id)
    then (m, ok tt)
    else repair_device_index m device_id

abbrev pub rebuilt_device : Option Device → Bytes → ℕ → Bytes → ℕ → Device
rebuilt_device none device_id physical_id iccid now = new_device device_id physical_id iccid now
rebuilt_device (some device) device_id physical_id iccid now = record device {
  physical_id = physical_id;
  last_activity = now;
  status = online;
}

abbrev pub rebuilt_group : Bytes → ℕ → Bytes → ℕ → DeviceGroup → DeviceGroup
rebuilt_group device_id physical_id iccid now group = record group {
  devices =
      insert device_id
        (rebuilt_device (lookup device_id group.devices) device_id physical_id iccid now)
        group.devices;
  last_activity = now;
}

abbrev pub touched : ℕ → Session → Session
touched now session = record session { last_activity = now }

-- The check at the end only writes to the log.
abbrev pub rebuilt_tables : TcpManager → Bytes → Session → Bytes → ℕ → ℕ → TcpManager
rebuilt_tables m device_id session iccid physical_id now =
    let m2 = store_index device_id iccid m in
    if is_some (lookup iccid m2.device_groups)
    then record m2 {
      device_groups = adjust iccid (rebuilt_group device_id physical_id iccid now) m2.device_groups;
      connections = adjust session.conn_id (touched now) m2.connections;
    }
    else m2

abbrev pub rebuilt_parsed : TcpManager → Bytes → Session → Bytes → ℕ → Result IdError ℕ → TcpManager
rebuilt_parsed m device_id session iccid now (ok physical_id) =
    rebuilt_tables m device_id session iccid physical_id now
rebuilt_parsed m device_id session iccid now (err e) = m
rebuilt_parsed m device_id session iccid now panic = m

unfoldable pub rebuild_device_index : TcpManager → Bytes → Option Session → ℕ → TcpManager
rebuild_device_index m device_id none now = m
rebuild_device_index m device_id (some session) now =
    if is_empty device_id then m else elim (lookup device_id m.device_index) [
      | none ↦ m
      | some iccid ↦
          rebuilt_parsed m device_id session iccid now (parse_device_id_to_physical_id device_id)
    ]

unfoldable pub is_connection_alive : Connection → Bool
is_connection_alive conn = ltb 0 conn.conn_id

abbrev pub alive : Option Connection → Option Connection
alive none = none
alive (some conn) = if is_connection_alive conn then some conn else none

abbrev pub with_rebuilt : Bytes → ℕ → TcpManager × Option Session → TcpManager × Option Connection
with_rebuilt device_id now (m, none) = (m, none)
with_rebuilt device_id now (m, some session) =
    let m2 = rebuild_device_index m device_id (some session) now in
    (m2, alive (get_device_connection m2 device_id))

unfoldable pub get_connection_by_device_id : TcpManager → Bytes → ℕ → TcpManager × Option Connection
get_connection_by_device_id m device_id now = elim (get_device_connection m device_id) [
  | some conn ↦ (m, alive (some conn))
  | none ↦ with_rebuilt device_id now (get_session_by_device_id m device_id)
]
