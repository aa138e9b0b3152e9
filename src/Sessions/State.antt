-- ===== src/Sessions/State.antt =====
-- The data of the connection manager: connections by number, device groups by the number of their
-- SIM card, and the index from a device to its group. A time is a number of nanoseconds, zero for
-- Go's zero time; the counters are natural numbers.
use iot_zinx.Shared.{ℕ, Bytes, List, [], ◌∷◌, ◌++◌, Bool, false, Option, none, some}
use iot_zinx.Orders.Key.{decimal}
use iot_zinx.Sessions.PhysicalId.{IdError}

-- `DeviceConnectionState`, and its aliases `ConnStatus` and `DeviceStatus`.
pub data ConnState : Type 0 where
  connected iccid_received registered online offline disconnected error_state unknown : ConnState
  other : Bytes → ConnState

-- What the manager reads of a `ziface.IConnection`.
pub record Connection : Type 0 where
  pub conn_id : ℕ
  pub remote_addr : Bytes

pub record Session : Type 0 where
  pub session_id : Bytes
  pub conn_id : ℕ
  pub connection : Connection
  pub remote_addr : Bytes
  pub state : ConnState
  pub connection_state : ConnState
  pub connected_at : ℕ
  pub last_activity : ℕ
  pub updated_at : ℕ

pub record Device : Type 0 where
  pub device_id : Bytes
  pub physical_id : ℕ
  pub iccid : Bytes
  pub device_type : ℕ
  pub device_version : Bytes
  pub status : ConnState
  pub state : ConnState
  pub registered_at : ℕ
  pub last_activity : ℕ
  pub last_heartbeat : ℕ
  pub heartbeat_count : ℕ
  pub last_command_at : ℕ
  pub last_command_code : ℕ
  pub last_command_size : ℕ

abbrev pub Devices : Type 0
Devices = List (Bytes × Device)

pub record DeviceGroup : Type 0 where
  pub iccid : Bytes
  pub conn_id : ℕ
  pub connection : Connection
  pub devices : Devices
  pub created_at : ℕ
  pub last_activity : ℕ

pub record TcpStats : Type 0 where
  pub total_connections : ℕ
  pub active_connections : ℕ
  pub total_devices : ℕ
  pub online_devices : ℕ
  pub last_connection_at : ℕ
  pub last_update_at : ℕ

pub record TcpManager : Type 0 where
  pub connections : List (ℕ × Session)
  pub device_groups : List (Bytes × DeviceGroup)
  pub device_index : List (Bytes × Bytes)
  pub heartbeat_timeout : ℕ
  pub stats : TcpStats
  pub running : Bool
  pub heartbeat_watcher_started : Bool
  pub stop_closed : Bool

pub data TcpError : Type 0 where
  no_connection_given empty_device_id empty_iccid : TcpError
  bad_device_id : IdError → TcpError
  connection_missing : ℕ → TcpError
  index_missing : Bytes → TcpError
  group_missing : Bytes → TcpError
  device_not_in_group : Bytes → TcpError
  session_missing : Bytes → ℕ → TcpError
  device_nowhere : Bytes → TcpError
  operation_failed : TcpError → TcpError
  repair_failed : TcpError → TcpError
  unverified : TcpError → TcpError
  no_session_after_registration : Bytes → TcpError
  already_running not_running : TcpError

-- `HeartbeatTimeout: 60 * time.Second` where no configuration is given.
unfoldable pub new_tcp_manager : Option ℕ → TcpManager
new_tcp_manager heartbeat_timeout = record {
  connections = [];
  device_groups = [];
  device_index = [];
  heartbeat_timeout = elim heartbeat_timeout [ none ↦ 60000000000 | some timeout ↦ timeout ];
  stats = record {
    total_connections = 0;
    active_connections = 0;
    total_devices = 0;
    online_devices = 0;
    last_connection_at = 0;
    last_update_at = 0;
  };
  running = false;
  heartbeat_watcher_started = false;
  stop_closed = false;
}

-- `"session_%d_%d"`.
abbrev pub session_name : ℕ → ℕ → Bytes
session_name conn_id now =
    (0x73 ∷ 0x65 ∷ 0x73 ∷ 0x73 ∷ 0x69 ∷ 0x6f ∷ 0x6e ∷ 0x5f ∷ [])
    ++ (decimal conn_id ++ (0x5f ∷ decimal now))

unfoldable pub new_connection_session : Connection → ℕ → Session
new_connection_session conn now = record {
  session_id = session_name conn.conn_id now;
  conn_id = conn.conn_id;
  connection = conn;
  remote_addr = conn.remote_addr;
  state = connected;
  connection_state = connected;
  connected_at = now;
  last_activity = now;
  updated_at = now;
}

unfoldable pub new_device_group : Connection → Bytes → ℕ → DeviceGroup
new_device_group conn iccid now = record {
  iccid = iccid;
  conn_id = conn.conn_id;
  connection = conn;
  devices = [];
  created_at = now;
  last_activity = now;
}

-- The literal `&Device{...}` of a registration.
unfoldable pub new_device : Bytes → ℕ → Bytes → ℕ → Device
new_device device_id physical_id iccid now = record {
  device_id = device_id;
  physical_id = physical_id;
  iccid = iccid;
  device_type = 0;
  device_version = [];
  status = online;
  state = registered;
  registered_at = now;
  last_activity = now;
  last_heartbeat = 0;
  heartbeat_count = 0;
  last_command_at = 0;
  last_command_code = 0;
  last_command_size = 0;
}
