-- ===== src/Sessions/Kept.antt =====
-- The look-ups, the repair and the clean-up keep the tables' invariant.
use iot_zinx.Shared.{
  ℕ, suc, ◌≤◌, ◌≡◌, refl, ap, ◌∙◌, inl, inr, arith, Bytes, bytes_eq, nat_eq, List, Bool, true,
  false, Bool-cases, Option, none, some, Option-cases, length, Result, ok, if◌then◌else◌,
}
use iot_zinx.Shared.Table.{lookup, insert, erase}
use iot_zinx.Shared.Adjust.{find_first, find_first-lookup, find_first-holds}
use iot_zinx.Shared.Sizes.{length-insert_new, length-erase_found}
use iot_zinx.Sessions.State.{
  Connection, Session, TcpStats, TcpManager, TcpError, new_connection_session,
}
use iot_zinx.Sessions.Index.{
  has_device, drop_index, get_session_by_device_id, is_ok, validate_device_index, reindexed,
  repair_device_index, ensure_index,
}
use iot_zinx.Sessions.Registry.{
  connection_added, register_connection, decreased, reduced, connection_closed, group_closed,
  is_group_of, close_group, cleanup_connection, cleanup_found, mark_device_offline,
}
use iot_zinx.Sessions.Invariant.{
  TcpInvariant, IndexInvariant, StatsInvariant, insert-Connections, erase-Connections, drop-Index,
  store-Index, close-Index, erase-Groups,
}

pub with_index :
    (m : TcpManager) (index : List (Bytes × Bytes))
    → TcpInvariant m
    → IndexInvariant m.device_groups index
    → TcpInvariant (record m { device_index = index })
with_index m index h i = record {
  connections = h.connections;
  groups = h.groups;
  index = i;
  stats = h.stats;
}

pub dropped-Tcp :
    (m : TcpManager) (device_id : Bytes) → TcpInvariant m → TcpInvariant (drop_index device_id m)
dropped-Tcp m device_id h =
    with_index m (erase device_id m.device_index) h
      (drop-Index device_id m.device_groups m.device_index h.index)

pub get_session-Tcp :
    (m : TcpManager) (device_id : Bytes)
    → TcpInvariant m
    → TcpInvariant (get_session_by_device_id m device_id).0
unfolding get_session_by_device_id
get_session-Tcp m device_id h =
    let dropped = dropped-Tcp m device_id h in
    elim (Option-cases (lookup device_id m.device_index)) [
      | inl e ↦ rw (get_session_by_device_id, e) h
      | inr (iccid, e) ↦ elim (Option-cases (lookup iccid m.device_groups)) [
        | inl f ↦ rw (get_session_by_device_id, e, f) dropped
        | inr (group, f) ↦ elim (Option-cases (lookup group.conn_id m.connections)) [
          | inl g ↦ rw (get_session_by_device_id, e, f, g) dropped
          | inr (session, g) ↦ elim (Bool-cases (has_device device_id group)) [
            | inl t ↦ rw (get_session_by_device_id, e, f, g, t) h
            | inr t ↦ rw (get_session_by_device_id, e, f, g, t) dropped
          ]
        ]
      ]
    ]

reindexed-Tcp :
    (m : TcpManager) (device_id : Bytes) → TcpInvariant m → TcpInvariant (reindexed m device_id).0
reindexed-Tcp m device_id h =
    elim (Option-cases (find_first (has_device device_id) m.device_groups)) [
      | inl e ↦ rw (reindexed, e) h
      | inr ((iccid, group), e) ↦
          let found =
            find_first-lookup (has_device device_id) m.device_groups iccid group h.groups.0 e in
          let held = find_first-holds (has_device device_id) m.device_groups iccid group e in
          rw (reindexed, e)
            (with_index m (insert device_id iccid m.device_index) h
              (store-Index device_id iccid m.device_groups m.device_index (rw found held) h.index))
    ]

choose-Tcp :
    (b : Bool) (x y : TcpManager × Result TcpError (Unit {0}))
    → TcpInvariant x.0
    → TcpInvariant y.0
    → TcpInvariant (if b then x else y).0
choose-Tcp true x y p q = p
choose-Tcp false x y p q = q

pub repair-Tcp :
    (m : TcpManager) (device_id : Bytes)
    → TcpInvariant m
    → TcpInvariant (repair_device_index m device_id).0
unfolding repair_device_index
repair-Tcp m device_id h =
    choose-Tcp (is_ok (validate_device_index m device_id)) (m, ok tt) (reindexed m device_id) h
      (reindexed-Tcp m device_id h)

pub ensure-Tcp :
    (m : TcpManager) (device_id : Bytes)
    → TcpInvariant m
    → TcpInvariant (ensure_index m device_id).0
ensure-Tcp m device_id h =
    choose-Tcp (is_ok (validate_device_index m device_id)) (m, ok tt)
      (repair_device_index m device_id) h (repair-Tcp m device_id h)

pub register_connection-Tcp :
    (m : TcpManager) (conn : Option Connection) (now : ℕ)
    → TcpInvariant m
    → TcpInvariant (register_connection m conn now).0
unfolding register_connection new_connection_session connection_added
register_connection-Tcp m none now h = h
register_connection-Tcp m (some conn) now h =
    elim (Option-cases (lookup conn.conn_id m.connections)) [
      | inr (session, e) ↦ rw (register_connection, e) h
      | inl e ↦
          let session = new_connection_session conn now in
          rw (register_connection, e)
            (record {
              connections =
                  insert-Connections conn.conn_id session m.connections refl h.connections;
              groups = h.groups;
              index = h.index;
              stats = (
                omega (arith, length-insert_new conn.conn_id session m.connections e, h.stats.0),
                h.stats.1,
              );
            })
    ]

reduced-small : (n k total : ℕ) → n ≤ total → reduced n k ≤ total
reduced-small n k total h = ground arith

decreased_one : (n : ℕ) → decreased (suc n) ≡ n
decreased_one n = ground arith

closed-Stats :
    (conns left removed now : ℕ) (stats : TcpStats)
    → conns ≡ suc left
    → StatsInvariant conns stats
    → StatsInvariant left (connection_closed now stats)
      × StatsInvariant left (group_closed removed now stats)
unfolding connection_closed group_closed
closed-Stats conns left removed now stats e h =
    let one : decreased stats.active_connections ≡ left =
      ap decreased (h.0 ∙ e) ∙ decreased_one left in
    ((one, h.1), (one, reduced-small stats.online_devices removed stats.total_devices h.1))

pub cleanup-Tcp :
    (m : TcpManager) (conn_id now : ℕ)
    → TcpInvariant m
    → TcpInvariant (cleanup_connection m conn_id now)
unfolding cleanup_connection close_group
cleanup-Tcp m conn_id now h = elim (Option-cases (lookup conn_id m.connections)) [
  | inl e ↦ rw (cleanup_connection, e) h
  | inr (session, e) ↦
      let left = erase conn_id m.connections in
      let one = length-erase_found conn_id session m.connections h.connections.0 e in
      elim (Option-cases (find_first (is_group_of conn_id) m.device_groups)) [
        | inl f ↦
            rw (cleanup_connection, e, close_group, f)
              (record {
                connections = erase-Connections conn_id m.connections h.connections;
                groups = h.groups;
                index = h.index;
                stats =
                    (closed-Stats (length m.connections) (length left) 0 now m.stats one h.stats).0;
              })
        | inr ((iccid, group), f) ↦
            let found =
              find_first-lookup (is_group_of conn_id) m.device_groups iccid group h.groups.0 f in
            rw (cleanup_connection, e, close_group, f)
              (record {
                connections = erase-Connections conn_id m.connections h.connections;
                groups = erase-Groups iccid m.device_groups h.groups;
                index = close-Index iccid group m.device_groups m.device_index found h.index;
                stats =
                    (closed-Stats (length m.connections) (length left) (length group.devices) now
                      m.stats one h.stats).1;
              })
      ]
]

pub cleanup_found-Tcp :
    (found : TcpManager × Option Session) (now : ℕ)
    → TcpInvariant found.0
    → TcpInvariant (cleanup_found now found)
cleanup_found-Tcp (m, none) now h = h
cleanup_found-Tcp (m, some session) now h = cleanup-Tcp m session.conn_id now h

pub offline-Tcp :
    (m : TcpManager) (device_id : Bytes) (now : ℕ)
    → TcpInvariant m
    → TcpInvariant (mark_device_offline m device_id now)
unfolding mark_device_offline
offline-Tcp m device_id now h =
    cleanup_found-Tcp (get_session_by_device_id m device_id) now (get_session-Tcp m device_id h)
