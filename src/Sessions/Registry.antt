-- ===== src/Sessions/Registry.antt =====
-- Connections come and go, with the devices behind them: `RegisterConnection`, `cleanupConnection`
-- and the calls that lead to it. Each call runs as one step.
use iot_zinx.Shared.{
  ℕ, ◌+◌, ◌-◌, Bytes, bytes_eq, nat_eq, Bool, Option, none, some, length, Result, ok, err, ltb, leb,
  nat_beq, if◌then◌else◌,
}
use iot_zinx.Shared.Table.{lookup, insert, erase}
use iot_zinx.Shared.Adjust.{find_first, keys_of}
use iot_zinx.Shared.Sweep.{erase_keys}
use iot_zinx.Sessions.State.{
  Connection, Session, DeviceGroup, TcpStats, TcpManager, TcpError, no_connection_given,
  new_connection_session,
}
use iot_zinx.Sessions.Index.{get_session_by_device_id}

unfoldable pub connection_added : ℕ → TcpStats → TcpStats
connection_added now stats = record stats {
  total_connections = stats.total_connections + 1;
  active_connections = stats.active_connections + 1;
  last_connection_at = now;
  last_update_at = now;
}

unfoldable pub register_connection :
    TcpManager → Option Connection → ℕ → TcpManager × Result TcpError Session
register_connection m none now = (m, err no_connection_given)
register_connection m (some conn) now = elim (lookup conn.conn_id m.connections) [
  | some session ↦ (m, ok session)
  | none ↦
      let session = new_connection_session conn now in
      (
        record m {
          connections = insert conn.conn_id session m.connections;
          stats = connection_added now m.stats;
        },
        ok session,
      )
]

abbrev pub decreased : ℕ → ℕ
decreased n = if ltb 0 n then n - 1 else n

abbrev pub reduced : ℕ → ℕ → ℕ
reduced n removed = if leb removed n then n - removed else 0

unfoldable pub connection_closed : ℕ → TcpStats → TcpStats
connection_closed now stats = record stats {
  active_connections = decreased stats.active_connections;
  last_update_at = now;
}

unfoldable pub group_closed : ℕ → ℕ → TcpStats → TcpStats
group_closed removed now stats = record stats {
  active_connections = decreased stats.active_connections;
  online_devices = reduced stats.online_devices removed;
  last_update_at = now;
}

abbrev pub is_group_of : ℕ → DeviceGroup → Bool
is_group_of conn_id group = nat_beq group.conn_id conn_id

-- The first group of the connection goes, with the index entries of all its devices.
unfoldable pub close_group : TcpManager → ℕ → ℕ → TcpManager
close_group m conn_id now = elim (find_first (is_group_of conn_id) m.device_groups) [
  | none ↦ record m { stats = connection_closed now m.stats }
  | some (iccid, group) ↦ record m {
    device_index = erase_keys (keys_of group.devices) m.device_index;
    device_groups = erase iccid m.device_groups;
    stats = group_closed (length group.devices) now m.stats;
  }
]

abbrev pub close_session : ℕ → TcpManager → TcpManager
close_session conn_id m = record m { connections = erase conn_id m.connections }

unfoldable pub cleanup_connection : TcpManager → ℕ → ℕ → TcpManager
cleanup_connection m conn_id now = elim (lookup conn_id m.connections) [
  | none ↦ m
  | some session ↦ close_session conn_id (close_group m conn_id now)
]

unfoldable pub unregister_connection : TcpManager → ℕ → ℕ → TcpManager
unregister_connection m conn_id now = cleanup_connection m conn_id now

-- Both `markDeviceOffline` and, but for `Stop` of the connection, `DisconnectByDeviceID`.
abbrev pub cleanup_found : ℕ → TcpManager × Option Session → TcpManager
cleanup_found now (m, none) = m
cleanup_found now (m, some session) = cleanup_connection m session.conn_id now

unfoldable pub mark_device_offline : TcpManager → Bytes → ℕ → TcpManager
mark_device_offline m device_id now = cleanup_found now (get_session_by_device_id m device_id)

-- The connection that is stopped, if there is one.
unfoldable pub disconnect_by_device_id : TcpManager → Bytes → ℕ → TcpManager × Option Connection
disconnect_by_device_id m device_id now =
    let found = get_session_by_device_id m device_id in
    (cleanup_found now found, elim found.1 [ none ↦ none | some session ↦ some session.connection ])
