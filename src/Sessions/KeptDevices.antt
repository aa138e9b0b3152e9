-- ===== src/Sessions/KeptDevices.antt =====
-- Registrations and the changes of sessions and devices keep the tables' invariant.
use iot_zinx.Shared.{
  ℕ, ◌≡◌, refl, sym, ap, ◌∙◌, inl, inr, arith, Bytes, bytes_eq, nat_eq, Bool, true, false,
  Bool-cases, Option, none, some, Option-cases, length, Result, ok, err, panic, ltb, nat_beq,
}
use iot_zinx.Shared.Table.{lookup, insert, lookup-insert_self}
use iot_zinx.Shared.Keys.{lookup-All, true-ne-false}
use iot_zinx.Shared.Adjust.{is_some, adjust, length-adjust}
use iot_zinx.Sessions.PhysicalId.{is_empty, IdError, parse_device_id_to_physical_id}
use iot_zinx.Sessions.State.{
  Connection, Session, DeviceGroup, TcpStats, TcpManager, TcpError, repair_failed, new_device,
  new_device_group,
}
use iot_zinx.Sessions.Index.{has_device, store_index, get_session_by_device_id, ensure_index}
use iot_zinx.Sessions.Registration.{
  left_other, leave_other_connection, registered_session, mark_session, registered_device,
  with_registered, group_made, store_device, atomic_device_index_operation, device_added,
  count_device, finish_registration, enter_device, enter_parsed, register_device, failed_as,
}
use iot_zinx.Sessions.Invariant.{
  TcpInvariant, StatsInvariant, IsProper, Keeps, holds, adjust-Connections, adjust-Groups,
  adjust-Index, insert-Groups, insert-Index, store-Index,
}
use iot_zinx.Sessions.Kept.{get_session-Tcp, ensure-Tcp, cleanup-Tcp}
use iot_zinx.Sessions.Members.{lookup-single, is_some-insert, registered-Proper}

abbrev pub Outcome : Type 0
Outcome = TcpManager × Result TcpError (Unit {0})

pub session_changed-Tcp :
    (m : TcpManager) (conn_id : ℕ) (change : Session → Session)
    → ((session : Session) → (change session).conn_id ≡ session.conn_id)
    → TcpInvariant m
    → TcpInvariant (record m { connections = adjust conn_id change m.connections })
session_changed-Tcp m conn_id change same h = record {
  connections = adjust-Connections conn_id change m.connections same h.connections;
  groups = h.groups;
  index = h.index;
  stats = (h.stats.0 ∙ sym (length-adjust conn_id change m.connections), h.stats.1);
}

pub group_changed-Tcp :
    (m : TcpManager) (iccid : Bytes) (change : DeviceGroup → DeviceGroup)
    → Keeps change
    → TcpInvariant m
    → TcpInvariant (record m { device_groups = adjust iccid change m.device_groups })
group_changed-Tcp m iccid change keeps h = record {
  connections = h.connections;
  groups = adjust-Groups iccid change m.device_groups keeps h.groups;
  index = adjust-Index iccid change m.device_groups m.device_index keeps h.index;
  stats = h.stats;
}

-- The index is pointed at a group that has the device.
stored-Tcp :
    (m : TcpManager) (device_id iccid : Bytes) (group : DeviceGroup)
    → IsProper (iccid, group)
    → ((d : Bytes) → holds d (lookup iccid m.device_groups) ≡ true → has_device d group ≡ true)
    → has_device device_id group ≡ true
    → TcpInvariant m
    → TcpInvariant (
        store_index device_id iccid
          (record m { device_groups = insert iccid group m.device_groups }))
stored-Tcp m device_id iccid group proper grows has h =
    let groups = insert iccid group m.device_groups in
    record {
      connections = h.connections;
      groups = insert-Groups iccid group m.device_groups proper h.groups;
      index =
          store-Index device_id iccid groups m.device_index
            (rw (lookup-insert_self iccid group m.device_groups) has)
            (insert-Index iccid group m.device_groups m.device_index grows h.index);
      stats = h.stats;
    }

store_device-Tcp :
    (m : TcpManager) (conn : Connection) (device_id : Bytes) (physical_id : ℕ) (iccid : Bytes)
    (now : ℕ)
    → TcpInvariant m
    → TcpInvariant (store_device m conn device_id physical_id iccid now)
unfolding store_device new_device_group new_device with_registered
store_device-Tcp m conn device_id physical_id iccid now h =
    elim (Option-cases (lookup iccid m.device_groups)) [
      | inl e ↦
          rw (store_device, e)
            (stored-Tcp m device_id iccid (group_made conn device_id physical_id iccid now)
              (refl, (tt, tt), (refl, tt)) (λ d x. absurd (true-ne-false (sym (rw e at x))))
              (ap is_some (lookup-single device_id (new_device device_id physical_id iccid now))) h)
      | inr (group, e) ↦
          rw (store_device, e)
            (stored-Tcp m device_id iccid (with_registered device_id physical_id iccid now group)
              (registered-Proper device_id physical_id iccid now group
                (lookup-All IsProper iccid group m.device_groups h.groups.1 e))
              (λ d x.
                is_some-insert device_id d
                  (registered_device (lookup device_id group.devices) device_id physical_id iccid
                    now)
                  group.devices (rw e at x))
              (rw
                (lookup-insert_self device_id
                  (registered_device (lookup device_id group.devices) device_id physical_id iccid
                    now)
                  group.devices)
                refl)
              h)
    ]

-- A registration counted, new or again.
counted-Stats :
    (n : ℕ) (already : Bool) (now : ℕ) (stats : TcpStats)
    → StatsInvariant n stats
    → StatsInvariant n (device_added already now stats)
unfolding device_added
counted-Stats n false now stats h = (h.0, omega (arith, h.1))
counted-Stats n true now stats h =
    elim (Bool-cases (ltb stats.online_devices stats.total_devices)) [
      | inl t ↦ rw t (h.0, omega arith)
      | inr t ↦ rw t h
    ]

counted-Tcp :
    (m : TcpManager) (already : Bool) (now : ℕ)
    → TcpInvariant m
    → TcpInvariant (count_device already now m)
counted-Tcp m already now h = record {
  connections = h.connections;
  groups = h.groups;
  index = h.index;
  stats = counted-Stats (length m.connections) already now m.stats h.stats;
}

failed_as-Tcp :
    (wrap : TcpError → TcpError) (r : Outcome)
    → TcpInvariant r.0
    → TcpInvariant (failed_as wrap r).0
failed_as-Tcp wrap (m, ok x) h = h
failed_as-Tcp wrap (m, err e) h = h
failed_as-Tcp wrap (m, panic) h = h

finish-Tcp :
    (device_id : Bytes) (already : Bool) (now : ℕ) (r : Outcome)
    → TcpInvariant r.0
    → TcpInvariant (finish_registration device_id already now r).0
finish-Tcp device_id already now (m, ok x) h =
    failed_as-Tcp repair_failed (ensure_index (count_device already now m) device_id)
      (ensure-Tcp (count_device already now m) device_id (counted-Tcp m already now h))
finish-Tcp device_id already now (m, err e) h = h
finish-Tcp device_id already now (m, panic) h = h

enter-Tcp :
    (m : TcpManager) (conn : Connection) (device_id : Bytes) (number : ℕ) (iccid : Bytes)
    (already : Bool) (now : ℕ)
    → TcpInvariant m
    → TcpInvariant (enter_device m conn device_id number iccid already now).0
unfolding enter_device atomic_device_index_operation
enter-Tcp m conn device_id number iccid already now h =
    let marked = mark_session conn.conn_id now m in
    let stored = store_device marked conn device_id number iccid now in
    finish-Tcp device_id already now (ensure_index stored device_id) (
      ensure-Tcp stored device_id (
        store_device-Tcp marked conn device_id number iccid now
          (session_changed-Tcp m conn.conn_id (registered_session now) (λ session. refl) h)))

left-Tcp :
    (conn_id now : ℕ) (found : TcpManager × Option Session)
    → TcpInvariant found.0
    → TcpInvariant (left_other conn_id now found).0
left-Tcp conn_id now (m, none) h = h
left-Tcp conn_id now (m, some session) h = elim (Bool-cases (nat_beq session.conn_id conn_id)) [
  | inl t ↦ rw t h
  | inr t ↦ rw t (cleanup-Tcp m session.conn_id now h)
]

parsed-Tcp :
    (conn : Connection) (device_id iccid : Bytes) (now : ℕ) (left : TcpManager × Bool)
    (number : Result IdError ℕ)
    → TcpInvariant left.0
    → TcpInvariant (enter_parsed conn device_id iccid now left number).0
parsed-Tcp conn device_id iccid now left (ok number) h =
    enter-Tcp left.0 conn device_id number iccid left.1 now h
parsed-Tcp conn device_id iccid now left (err e) h = h
parsed-Tcp conn device_id iccid now left panic h = h

pub register_device-Tcp :
    (m : TcpManager) (conn : Option Connection) (device_id physical_id iccid : Bytes) (now : ℕ)
    → TcpInvariant m
    → TcpInvariant (register_device m conn device_id physical_id iccid now).0
unfolding register_device leave_other_connection
register_device-Tcp m none device_id physical_id iccid now h = h
register_device-Tcp m (some conn) device_id physical_id iccid now h =
    let left = left_other conn.conn_id now (get_session_by_device_id m device_id) in
    let kept =
      left-Tcp conn.conn_id now (get_session_by_device_id m device_id)
        (get_session-Tcp m device_id h) in
    elim (Bool-cases (is_empty device_id)) [
      | inl t ↦ rw (register_device, t) h
      | inr t ↦ elim (Bool-cases (is_empty iccid)) [
        | inl u ↦ rw (register_device, t, u) h
        | inr u ↦ elim (Option-cases (lookup conn.conn_id m.connections)) [
          | inl e ↦ rw (register_device, t, u, e) h
          | inr (session, e) ↦
              rw (register_device, t, u, e)
                (parsed-Tcp conn device_id iccid now left
                  (parse_device_id_to_physical_id physical_id) kept)
        ]
      ]
    ]
