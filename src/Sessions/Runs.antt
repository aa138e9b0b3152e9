-- ===== src/Sessions/Runs.antt =====
-- The calls of the connection manager in any order, and what holds of its tables throughout.
use iot_zinx.Shared.{
  ℕ, ◌≡◌, refl, arith, Bytes, nat_eq, bytes_eq, Option, ok, Result, panic, Bool, true, false,
  Bool-cases, err-ne-ok, ok-injective, inl, inr, subst, Option-cases,
}
use iot_zinx.Shared.Table.{lookup}
use iot_zinx.Sessions.PhysicalId.{is_empty}
use iot_zinx.Sessions.State.{ConnState, Connection, Session, TcpError, TcpManager, new_tcp_manager}
use iot_zinx.Sessions.Index.{
  get_session_by_device_id, repair_device_index, rebuild_device_index, get_connection_by_device_id,
  get_session_by_conn_id, ensure_index,
}
use iot_zinx.Sessions.Registry.{register_connection, unregister_connection, disconnect_by_device_id}
use iot_zinx.Sessions.Registration.{register_device}
use iot_zinx.Sessions.Activity.{
  beat_indexed, update_device_status, record_device_command, register_device_with_details,
  with_state, set_updated, update_connection_state_by_conn_id, update_iccid_by_conn_id,
  set_heartbeat_timeout,
}
use iot_zinx.Sessions.Watch.{
  start_manager, stop_manager, check_heartbeats, recalculate_stats, periodic_index_health_check,
}
use iot_zinx.Sessions.Invariant.{TcpInvariant}
use iot_zinx.Sessions.Kept.{
  ensure-Tcp, get_session-Tcp, repair-Tcp, register_connection-Tcp, cleanup-Tcp, cleanup_found-Tcp,
}
use iot_zinx.Sessions.KeptDevices.{session_changed-Tcp, register_device-Tcp}
use iot_zinx.Sessions.KeptActivity.{indexed-Tcp, status-Tcp, command-Tcp, details-Tcp}
use iot_zinx.Sessions.KeptWatch.{
  rebuild-Tcp, get_connection-Tcp, watch-Tcp, recalculate-Tcp, health-Tcp,
}

-- One call, whatever it answers; the error of a call that fails leaves what it had changed. A
-- heartbeat is two steps, the check of the index and the beat, and others may come between.
pub data TcpStep : TcpManager → TcpManager → Type 0 where
  by_connection :
      (m : TcpManager) (conn : Option Connection) (now : ℕ)
      → TcpStep m (register_connection m conn now).0
  by_device :
      (m : TcpManager) (conn : Option Connection) (device_id physical_id iccid : Bytes) (now : ℕ)
      → TcpStep m (register_device m conn device_id physical_id iccid now).0
  by_details :
      (m : TcpManager) (conn : Option Connection) (device_id physical_id iccid : Bytes)
      (device_type : ℕ) (device_version : Bytes) (now : ℕ)
      → TcpStep m
          (register_device_with_details m conn device_id physical_id iccid device_type
            device_version now).0
  by_unregister :
      (m : TcpManager) (conn_id now : ℕ) → TcpStep m (unregister_connection m conn_id now)
  by_disconnect :
      (m : TcpManager) (device_id : Bytes) (now : ℕ)
      → TcpStep m (disconnect_by_device_id m device_id now).0
  by_session :
      (m : TcpManager) (device_id : Bytes) → TcpStep m (get_session_by_device_id m device_id).0
  by_lookup :
      (m : TcpManager) (device_id : Bytes) (now : ℕ)
      → TcpStep m (get_connection_by_device_id m device_id now).0
  by_rebuild :
      (m : TcpManager) (device_id : Bytes) (session : Option Session) (now : ℕ)
      → TcpStep m (rebuild_device_index m device_id session now)
  by_repair : (m : TcpManager) (device_id : Bytes) → TcpStep m (repair_device_index m device_id).0
  by_check : (m : TcpManager) (device_id : Bytes) → TcpStep m (ensure_index m device_id).0
  by_beat :
      (m : TcpManager) (device_id : Bytes) (now : ℕ) → TcpStep m (beat_indexed m device_id now).0
  by_status :
      (m m2 : TcpManager) (device_id : Bytes) (status : ConnState) (now : ℕ)
      → update_device_status m device_id status now ≡ ok m2
      → TcpStep m m2
  by_command :
      (m : TcpManager) (device_id : Bytes) (cmd size now : ℕ)
      → TcpStep m (record_device_command m device_id cmd size now)
  by_state :
      (m m2 : TcpManager) (conn_id : ℕ) (state : ConnState) (now : ℕ)
      → update_connection_state_by_conn_id m conn_id state now ≡ ok m2
      → TcpStep m m2
  by_iccid :
      (m m2 : TcpManager) (conn_id : ℕ) (iccid : Bytes) (now : ℕ)
      → update_iccid_by_conn_id m conn_id iccid now ≡ ok m2
      → TcpStep m m2
  by_timeout : (m : TcpManager) (timeout : ℕ) → TcpStep m (set_heartbeat_timeout m timeout)
  by_start : (m m2 : TcpManager) → start_manager m ≡ ok m2 → TcpStep m m2
  by_stop : (m m2 : TcpManager) → stop_manager m ≡ ok m2 → TcpStep m m2
  by_watch : (m : TcpManager) (now : ℕ) → TcpStep m (check_heartbeats m now)
  by_recalculation : (m : TcpManager) (now : ℕ) → TcpStep m (recalculate_stats m now)
  by_health_check : (m : TcpManager) → TcpStep m (periodic_index_health_check m).0

pub data TcpReachable : TcpManager → Type 0 where
  new_manager : (timeout : Option ℕ) → TcpReachable (new_tcp_manager timeout)
  after : (m m2 : TcpManager) → TcpReachable m → TcpStep m m2 → TcpReachable m2

state-Tcp :
    (m m2 : TcpManager) (conn_id : ℕ) (state : ConnState) (now : ℕ)
    → TcpInvariant m
    → update_connection_state_by_conn_id m conn_id state now ≡ ok m2
    → TcpInvariant m2
unfolding update_connection_state_by_conn_id get_session_by_conn_id
state-Tcp m m2 conn_id state now h k = elim (Option-cases (lookup conn_id m.connections)) [
  | inl e ↦ absurd (err-ne-ok refl (rw (update_connection_state_by_conn_id, e) at k))
  | inr (session, e) ↦
      subst TcpInvariant (ok-injective (rw (update_connection_state_by_conn_id, e) at k))
        (session_changed-Tcp m conn_id (with_state state now) (λ s. refl) h)
]

iccid-Tcp :
    (m m2 : TcpManager) (conn_id : ℕ) (iccid : Bytes) (now : ℕ)
    → TcpInvariant m
    → update_iccid_by_conn_id m conn_id iccid now ≡ ok m2
    → TcpInvariant m2
unfolding update_iccid_by_conn_id get_session_by_conn_id
iccid-Tcp m m2 conn_id iccid now h k = elim (Bool-cases (is_empty iccid)) [
  | inl t ↦ absurd (err-ne-ok refl (rw (update_iccid_by_conn_id, t) at k))
  | inr t ↦ elim (Option-cases (lookup conn_id m.connections)) [
    | inl e ↦ absurd (err-ne-ok refl (rw (update_iccid_by_conn_id, t, e) at k))
    | inr (session, e) ↦
        subst TcpInvariant (ok-injective (rw (update_iccid_by_conn_id, t, e) at k))
          (session_changed-Tcp m conn_id (set_updated now) (λ s. refl) h)
  ]
]

same_tables :
    (m : TcpManager) (timeout : ℕ) (running started closed : Bool)
    → TcpInvariant m
    → TcpInvariant (record m {
      heartbeat_timeout = timeout;
      running = running;
      heartbeat_watcher_started = started;
      stop_closed = closed;
    })
same_tables m timeout running started closed h = record {
  connections = h.connections;
  groups = h.groups;
  index = h.index;
  stats = h.stats;
}

start-Tcp : (m m2 : TcpManager) → TcpInvariant m → start_manager m ≡ ok m2 → TcpInvariant m2
unfolding start_manager
start-Tcp m m2 h k = elim (Bool-cases m.running) [
  | inl t ↦ absurd (err-ne-ok refl (rw (start_manager, t) at k))
  | inr t ↦
      subst TcpInvariant (ok-injective (rw (start_manager, t) at k))
        (same_tables m m.heartbeat_timeout true true m.stop_closed h)
]

panic-ne-ok : {m : TcpManager} → ◌≡◌ {A = Result TcpError TcpManager} panic (ok m) → ⊥
panic-ne-ok h = cc

stop-Tcp : (m m2 : TcpManager) → TcpInvariant m → stop_manager m ≡ ok m2 → TcpInvariant m2
unfolding stop_manager
stop-Tcp m m2 h k = elim (Bool-cases m.running) [
  | inr t ↦ absurd (err-ne-ok refl (rw (stop_manager, t) at k))
  | inl t ↦ elim (Bool-cases m.stop_closed) [
    | inl u ↦ absurd (panic-ne-ok (rw (stop_manager, t, u) at k))
    | inr u ↦
        subst TcpInvariant (ok-injective (rw (stop_manager, t, u) at k))
          (same_tables m m.heartbeat_timeout false m.heartbeat_watcher_started true h)
  ]
]

step-Tcp : (m m2 : TcpManager) → TcpStep m m2 → TcpInvariant m → TcpInvariant m2
unfolding unregister_connection disconnect_by_device_id set_heartbeat_timeout
step-Tcp m m2 (by_connection _ conn now) h = register_connection-Tcp m conn now h
step-Tcp m m2 (by_device _ conn device_id physical_id iccid now) h =
    register_device-Tcp m conn device_id physical_id iccid now h
step-Tcp m m2 (by_details _ conn device_id physical_id iccid device_type version now) h =
    details-Tcp m conn device_id physical_id iccid device_type version now h
step-Tcp m m2 (by_unregister _ conn_id now) h = cleanup-Tcp m conn_id now h
step-Tcp m m2 (by_disconnect _ device_id now) h =
    cleanup_found-Tcp (get_session_by_device_id m device_id) now (get_session-Tcp m device_id h)
step-Tcp m m2 (by_session _ device_id) h = get_session-Tcp m device_id h
step-Tcp m m2 (by_lookup _ device_id now) h = get_connection-Tcp m device_id now h
step-Tcp m m2 (by_rebuild _ device_id session now) h = rebuild-Tcp m device_id session now h
step-Tcp m m2 (by_repair _ device_id) h = repair-Tcp m device_id h
step-Tcp m m2 (by_check _ device_id) h = ensure-Tcp m device_id h
step-Tcp m m2 (by_beat _ device_id now) h = indexed-Tcp m device_id now h
step-Tcp m m2 (by_status _ _ device_id status now e) h = status-Tcp m m2 device_id status now h e
step-Tcp m m2 (by_command _ device_id cmd size now) h = command-Tcp m device_id cmd size now h
step-Tcp m m2 (by_state _ _ conn_id state now e) h = state-Tcp m m2 conn_id state now h e
step-Tcp m m2 (by_iccid _ _ conn_id iccid now e) h = iccid-Tcp m m2 conn_id iccid now h e
step-Tcp m m2 (by_timeout _ timeout) h =
    same_tables m timeout m.running m.heartbeat_watcher_started m.stop_closed h
step-Tcp m m2 (by_start _ _ e) h = start-Tcp m m2 h e
step-Tcp m m2 (by_stop _ _ e) h = stop-Tcp m m2 h e
step-Tcp m m2 (by_watch _ now) h = watch-Tcp m now h
step-Tcp m m2 (by_recalculation _ now) h = recalculate-Tcp m now h
step-Tcp m m2 (by_health_check _) h = health-Tcp m h

-- Through every sequence of the manager's calls, failed ones included: each connection stands once,
-- under its number; each group stands once, under its card, with each device once under its name;
-- every entry of the index leads to a group that has the device; the active connections counted are
-- those in the table; and no more devices are counted online than in all.
pub tables_agree : (m : TcpManager) → TcpReachable m → TcpInvariant m
unfolding new_tcp_manager
tables_agree m (new_manager timeout) = record {
  connections = (tt, tt);
  groups = (tt, tt);
  index = (tt, tt);
  stats = (refl, omega arith);
}
tables_agree m2 (after m _ r s) = step-Tcp m m2 s (tables_agree m r)
