-- ===== src/Sessions/KeptActivity.antt =====
-- Heartbeats, the records of a device, the rebuilding of the index and the watcher keep the tables'
-- invariant.
use iot_zinx.Shared.{
  ℕ, ◌≡◌, refl, subst, inl, inr, Bytes, bytes_eq, nat_eq, Bool-cases, Option, none, some,
  Option-cases, ok, err, panic, err-ne-ok, ok-injective,
}
use iot_zinx.Shared.Table.{lookup, insert}
use iot_zinx.Shared.Adjust.{find_first, find_first-lookup, find_first-holds, adjust}
use iot_zinx.Sessions.State.{ConnState, Connection, Session, DeviceGroup, TcpManager}
use iot_zinx.Sessions.Index.{has_device, get_session_by_device_id, touched}
use iot_zinx.Sessions.Registration.{register_device}
use iot_zinx.Sessions.Activity.{
  change_device, beaten, beaten_group, active_session, index_lost, beat_indexed, set_updated,
  with_status, update_device_status, commanded, commanded_group, record_device_command, detailed,
  detail_device, detail_found, detail_registered, register_device_with_details,
}
use iot_zinx.Sessions.Invariant.{TcpInvariant, Keeps, store-Index}
use iot_zinx.Sessions.Members.{change_device-Keeps}
use iot_zinx.Sessions.Kept.{with_index, get_session-Tcp}
use iot_zinx.Sessions.KeptDevices.{
  Outcome, session_changed-Tcp, group_changed-Tcp, register_device-Tcp,
}

-- The group and the session behind a device are changed together.
pub both_changed-Tcp :
    (m : TcpManager) (iccid : Bytes) (conn_id : ℕ) (change : DeviceGroup → DeviceGroup)
    (touch : Session → Session)
    → Keeps change
    → ((session : Session) → (touch session).conn_id ≡ session.conn_id)
    → TcpInvariant m
    → TcpInvariant (record m {
      device_groups = adjust iccid change m.device_groups;
      connections = adjust conn_id touch m.connections;
    })
both_changed-Tcp m iccid conn_id change touch keeps same h =
    session_changed-Tcp (record m { device_groups = adjust iccid change m.device_groups }) conn_id
      touch same (group_changed-Tcp m iccid change keeps h)

beaten-Keeps : (device_id : Bytes) (now : ℕ) → Keeps (beaten_group device_id now)
beaten-Keeps device_id now =
    let same = change_device-Keeps device_id (beaten now) (λ device. refl) in
    record { proper = same.proper; devices = same.devices }

commanded-Keeps :
    (device_id : Bytes) (cmd size now : ℕ) → Keeps (commanded_group device_id cmd size now)
commanded-Keeps device_id cmd size now =
    let same = change_device-Keeps device_id (commanded cmd size now) (λ device. refl) in
    record { proper = same.proper; devices = same.devices }

-- The entry stored is that of a group that `Range` found to have the device.
lost-Tcp :
    (m : TcpManager) (device_id : Bytes) → TcpInvariant m → TcpInvariant (index_lost m device_id).0
lost-Tcp m device_id h = elim (Option-cases (find_first (has_device device_id) m.device_groups)) [
  | inl e ↦ rw (index_lost, e) h
  | inr ((iccid, group), e) ↦
      let found =
        find_first-lookup (has_device device_id) m.device_groups iccid group h.groups.0 e in
      let held = find_first-holds (has_device device_id) m.device_groups iccid group e in
      rw (index_lost, e)
        (with_index m (insert device_id iccid m.device_index) h
          (store-Index device_id iccid m.device_groups m.device_index (rw found held) h.index))
]

pub indexed-Tcp :
    (m : TcpManager) (device_id : Bytes) (now : ℕ)
    → TcpInvariant m
    → TcpInvariant (beat_indexed m device_id now).0
indexed-Tcp m device_id now h = elim (Option-cases (lookup device_id m.device_index)) [
  | inl e ↦ rw (beat_indexed, e) (lost-Tcp m device_id h)
  | inr (iccid, e) ↦ elim (Option-cases (lookup iccid m.device_groups)) [
    | inl f ↦ rw (beat_indexed, e, f) h
    | inr (group, f) ↦ elim (Bool-cases (has_device device_id group)) [
      | inr t ↦ rw (beat_indexed, e, f, t) h
      | inl t ↦
          rw (beat_indexed, e, f, t)
            (both_changed-Tcp m iccid group.conn_id (beaten_group device_id now)
              (active_session now) (beaten-Keeps device_id now) (λ session. refl) h)
    ]
  ]
]

pub status-Tcp :
    (m m2 : TcpManager) (device_id : Bytes) (status : ConnState) (now : ℕ)
    → TcpInvariant m
    → update_device_status m device_id status now ≡ ok m2
    → TcpInvariant m2
unfolding update_device_status
status-Tcp m m2 device_id status now h k = elim (Option-cases (lookup device_id m.device_index)) [
  | inl e ↦ absurd (err-ne-ok refl (rw (update_device_status, e) at k))
  | inr (iccid, e) ↦ elim (Option-cases (lookup iccid m.device_groups)) [
    | inl f ↦ absurd (err-ne-ok refl (rw (update_device_status, e, f) at k))
    | inr (group, f) ↦ elim (Option-cases (lookup device_id group.devices)) [
      | inl g ↦ absurd (err-ne-ok refl (rw (update_device_status, e, f, g) at k))
      | inr (device, g) ↦
          subst TcpInvariant (ok-injective (rw (update_device_status, e, f, g) at k)) (
            both_changed-Tcp m iccid group.conn_id (change_device device_id (with_status status))
              (set_updated now) (change_device-Keeps device_id (with_status status) (λ d. refl))
              (λ session. refl) h)
    ]
  ]
]

pub command-Tcp :
    (m : TcpManager) (device_id : Bytes) (cmd size now : ℕ)
    → TcpInvariant m
    → TcpInvariant (record_device_command m device_id cmd size now)
unfolding record_device_command
command-Tcp m device_id cmd size now h = elim (Option-cases (lookup device_id m.device_index)) [
  | inl e ↦ rw (record_device_command, e) h
  | inr (iccid, e) ↦ elim (Option-cases (lookup iccid m.device_groups)) [
    | inl f ↦ rw (record_device_command, e, f) h
    | inr (group, f) ↦
        rw (record_device_command, e, f)
          (both_changed-Tcp m iccid group.conn_id (commanded_group device_id cmd size now)
            (touched now) (commanded-Keeps device_id cmd size now) (λ session. refl) h)
  ]
]

detail-Tcp :
    (m : TcpManager) (device_id : Bytes) (device_type : ℕ) (device_version : Bytes)
    → TcpInvariant m
    → TcpInvariant (detail_device m device_id device_type device_version)
detail-Tcp m device_id device_type device_version h =
    elim (Option-cases (lookup device_id m.device_index)) [
      | inl e ↦ rw (detail_device, e) h
      | inr (iccid, e) ↦
          rw (detail_device, e)
            (group_changed-Tcp m iccid
              (change_device device_id (detailed device_type device_version))
              (change_device-Keeps device_id (detailed device_type device_version) (λ d. refl)) h)
    ]

detail_found-Tcp :
    (device_id : Bytes) (device_type : ℕ) (device_version : Bytes) (now : ℕ)
    (found : TcpManager × Option Session)
    → TcpInvariant found.0
    → TcpInvariant (detail_found device_id device_type device_version now found).0
detail_found-Tcp device_id device_type device_version now (m, none) h = h
detail_found-Tcp device_id device_type device_version now (m, some session) h =
    detail-Tcp (record m { connections = adjust session.conn_id (set_updated now) m.connections })
      device_id device_type device_version
      (session_changed-Tcp m session.conn_id (set_updated now) (λ s. refl) h)

detail_registered-Tcp :
    (device_id : Bytes) (device_type : ℕ) (device_version : Bytes) (now : ℕ) (r : Outcome)
    → TcpInvariant r.0
    → TcpInvariant (detail_registered device_id device_type device_version now r).0
detail_registered-Tcp device_id device_type device_version now (m, ok x) h =
    detail_found-Tcp device_id device_type device_version now (get_session_by_device_id m device_id)
      (get_session-Tcp m device_id h)
detail_registered-Tcp device_id device_type device_version now (m, err e) h = h
detail_registered-Tcp device_id device_type device_version now (m, panic) h = h

pub details-Tcp :
    (m : TcpManager) (conn : Option Connection) (device_id physical_id iccid : Bytes)
    (device_type : ℕ) (device_version : Bytes) (now : ℕ)
    → TcpInvariant m
    → TcpInvariant
        (register_device_with_details m conn device_id physical_id iccid device_type device_version
          now).0
unfolding register_device_with_details
details-Tcp m conn device_id physical_id iccid device_type device_version now h =
    detail_registered-Tcp device_id device_type device_version now
      (register_device m conn device_id physical_id iccid now)
      (register_device-Tcp m conn device_id physical_id iccid now h)
