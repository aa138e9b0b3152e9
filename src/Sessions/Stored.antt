-- ===== src/Sessions/Stored.antt =====
-- The tables as the operation of a device registration leaves them, and the check after it.
use iot_zinx.Shared.{
  ℕ, ◌≡◌, ◌≢◌, ◌⊎◌, refl, sym, ap, ◌∙◌, subst, inl, inr, Bytes, bytes_eq, nat_eq, List, ◌==◌, Bool,
  true, false, Bool-cases, Option, none, some, Option-cases, All, ok, nat_beq, nat_beq_iff,
}
use iot_zinx.Shared.Table.{lookup, lookup-insert_self, lookup-erase_ne}
use iot_zinx.Shared.Keys.{insert-All, other_key, true-ne-false}
use iot_zinx.Shared.Adjust.{
  is_some, find_first, adjust, lookup-adjust-some, lookup-adjust-none, lookup-adjust_ne,
}
use iot_zinx.Sessions.State.{
  Connection, Session, Device, DeviceGroup, TcpManager, new_device, new_device_group,
}
use iot_zinx.Sessions.Index.{has_device, get_session_by_device_id, is_ok, validate_device_index}
use iot_zinx.Sessions.Registry.{is_group_of, cleanup_connection, close_group}
use iot_zinx.Sessions.Members.{lookup-single}
use iot_zinx.Sessions.Registration.{
  left_other, leave_other_connection, registered_session, mark_session, registered_device,
  with_registered, group_made, store_device, atomic_device_index_operation, count_device,
  enter_device,
}

abbrev pub device_in : Bytes → Option DeviceGroup → Option Device
device_in device_id none = none
device_in device_id (some group) = lookup device_id group.devices

-- The connection that a card's devices are reached over: that of its group, or a new group's.
abbrev pub host_of : Connection → Option DeviceGroup → ℕ
host_of conn none = conn.conn_id
host_of conn (some group) = group.conn_id

-- Whether that connection is in the table.
abbrev pub is_hosted : TcpManager → Connection → Bytes → Bool
is_hosted m conn iccid =
    is_some (lookup (host_of conn (lookup iccid m.device_groups)) m.connections)

-- Every group that has the device is the card's.
abbrev pub OnlyHolder : Bytes → Bytes → Bytes × DeviceGroup → Type 0
OnlyHolder iccid device_id p = (p.0 ≡ iccid) ⊎ (has_device device_id p.1 ≡ false)

is_some-adjust_same :
    (conn_id j : ℕ) (change : Session → Session) (conns : List (ℕ × Session))
    → is_some (lookup j (adjust conn_id change conns)) ≡ is_some (lookup j conns)
is_some-adjust_same conn_id j change conns = elim (Bool-cases (conn_id == j)) [
  | inr f ↦ rw (lookup-adjust_ne conn_id j change conns (other_key f)) refl
  | inl t ↦ elim (Option-cases (lookup j conns)) [
    | inl e ↦
        subst (λ i. is_some (lookup j (adjust i change conns)) ≡ is_some (lookup j conns)) {x = j}
          (sym ((nat_beq_iff conn_id j).0 t)) (rw (lookup-adjust-none j change conns e, e) refl)
    | inr (session, e) ↦
        subst (λ i. is_some (lookup j (adjust i change conns)) ≡ is_some (lookup j conns)) {x = j}
          (sym ((nat_beq_iff conn_id j).0 t))
          (rw (lookup-adjust-some j change conns session e, e) refl)
  ]
]

cleanup-connections :
    (m : TcpManager) (conn_id j now : ℕ)
    → conn_id ≢ j
    → lookup j (cleanup_connection m conn_id now).connections ≡ lookup j m.connections
unfolding cleanup_connection close_group
cleanup-connections m conn_id j now h = elim (Option-cases (lookup conn_id m.connections)) [
  | inl e ↦ rw (cleanup_connection, e) refl
  | inr (session, e) ↦ elim (Option-cases (find_first (is_group_of conn_id) m.device_groups)) [
    | inl f ↦ rw (cleanup_connection, e, close_group, f) (lookup-erase_ne conn_id j m.connections h)
    | inr ((iccid, group), f) ↦
        rw (cleanup_connection, e, close_group, f) (lookup-erase_ne conn_id j m.connections h)
  ]
]

get_session-connections :
    (m : TcpManager) (device_id : Bytes)
    → (get_session_by_device_id m device_id).0.connections ≡ m.connections
unfolding get_session_by_device_id
get_session-connections m device_id = elim (Option-cases (lookup device_id m.device_index)) [
  | inl e ↦ rw (get_session_by_device_id, e) refl
  | inr (iccid, e) ↦ elim (Option-cases (lookup iccid m.device_groups)) [
    | inl f ↦ rw (get_session_by_device_id, e, f) refl
    | inr (group, f) ↦ elim (Option-cases (lookup group.conn_id m.connections)) [
      | inl g ↦ rw (get_session_by_device_id, e, f, g) refl
      | inr (session, g) ↦ elim (Bool-cases (has_device device_id group)) [
        | inl t ↦ rw (get_session_by_device_id, e, f, g, t) refl
        | inr t ↦ rw (get_session_by_device_id, e, f, g, t) refl
      ]
    ]
  ]
]

left_other-connections :
    (conn_id now : ℕ) (found : TcpManager × Option Session)
    → lookup conn_id (left_other conn_id now found).0.connections
      ≡ lookup conn_id found.0.connections
left_other-connections conn_id now (m, none) = refl
left_other-connections conn_id now (m, some session) =
    elim (Bool-cases (nat_beq session.conn_id conn_id)) [
      | inl t ↦ rw t refl
      | inr t ↦ rw t (cleanup-connections m session.conn_id conn_id now (other_key t))
    ]

-- The registering connection outlives the clean-up of another.
pub leave-connections :
    (m : TcpManager) (device_id : Bytes) (conn_id now : ℕ)
    → lookup conn_id (leave_other_connection m device_id conn_id now).0.connections
      ≡ lookup conn_id m.connections
unfolding leave_other_connection
leave-connections m device_id conn_id now =
    left_other-connections conn_id now (get_session_by_device_id m device_id)
    ∙ ap (lookup conn_id) (get_session-connections m device_id)

module _ (m : TcpManager) (conn : Connection) (device_id : Bytes) (number : ℕ) (iccid : Bytes)
    (now : ℕ) where
  abbrev pub stored : TcpManager
  stored = store_device (mark_session conn.conn_id now m) conn device_id number iccid now

  -- The device as the registration leaves it.
  abbrev pub entered : Device
  entered =
      registered_device (device_in device_id (lookup iccid m.device_groups)) device_id number iccid
        now

  pub stored-index : lookup device_id stored.device_index ≡ some iccid
  unfolding store_device
  stored-index = elim (Option-cases (lookup iccid m.device_groups)) [
    | inl e ↦ rw (store_device, e) (lookup-insert_self device_id iccid m.device_index)
    | inr (group, e) ↦ rw (store_device, e) (lookup-insert_self device_id iccid m.device_index)
  ]

  pub stored-connections :
      stored.connections ≡ adjust conn.conn_id (registered_session now) m.connections
  unfolding store_device
  stored-connections = elim (Option-cases (lookup iccid m.device_groups)) [
    | inl e ↦ rw (store_device, e) refl
    | inr (group, e) ↦ rw (store_device, e) refl
  ]

  pub stored-group :
      (group : DeviceGroup) × (lookup iccid stored.device_groups ≡ some group)
      × (lookup device_id group.devices ≡ some entered)
      × (group.conn_id ≡ host_of conn (lookup iccid m.device_groups))
  unfolding store_device with_registered new_device_group registered_device
  stored-group = elim (Option-cases (lookup iccid m.device_groups)) [
    | inl e ↦
        let group = group_made conn device_id number iccid now in
        rw (store_device, e)
          (
            group,
            lookup-insert_self iccid group m.device_groups,
            lookup-single device_id (new_device device_id number iccid now),
            refl,
          )
    | inr (old, e) ↦
        let group = with_registered device_id number iccid now old in
        rw (store_device, e)
          (
            group,
            lookup-insert_self iccid group m.device_groups,
            lookup-insert_self device_id
                (registered_device (lookup device_id old.devices) device_id number iccid now)
                old.devices,
            refl,
          )
  ]

  pub hosted-stored :
      (conn_id : ℕ)
      → conn_id ≡ host_of conn (lookup iccid m.device_groups)
      → is_some (lookup conn_id stored.connections) ≡ is_hosted m conn iccid
  hosted-stored conn_id e =
      rw (stored-connections, e)
        (is_some-adjust_same conn.conn_id (host_of conn (lookup iccid m.device_groups))
          (registered_session now) m.connections)

  pub valid-stored : is_hosted m conn iccid ≡ true → validate_device_index stored device_id ≡ ok tt
  unfolding validate_device_index
  valid-stored h =
      let (group, x, y, z) = stored-group in
      elim (Option-cases (lookup group.conn_id stored.connections)) [
        | inl e ↦ absurd (true-ne-false (sym (hosted-stored group.conn_id z ∙ h) ∙ ap is_some e))
        | inr (session, e) ↦ rw (validate_device_index, stored-index, x, y, e) refl
      ]

  pub invalid-stored :
      is_hosted m conn iccid ≡ false → is_ok (validate_device_index stored device_id) ≡ false
  unfolding validate_device_index
  invalid-stored h =
      let (group, x, y, z) = stored-group in
      elim (Option-cases (lookup group.conn_id stored.connections)) [
        | inl e ↦ rw (validate_device_index, stored-index, x, y, e) refl
        | inr (session, e) ↦
            absurd (true-ne-false (sym (ap is_some e) ∙ (hosted-stored group.conn_id z ∙ h)))
      ]

  pub enter_hosted :
      (already : Bool)
      → is_hosted m conn iccid ≡ true
      → enter_device m conn device_id number iccid already now
        ≡ (count_device already now stored, ok tt)
  unfolding enter_device atomic_device_index_operation validate_device_index
  enter_hosted already h =
      let valid = valid-stored h in
      let again : validate_device_index (count_device already now stored) device_id ≡ ok tt =
        valid in
      rw (valid, again) refl

  pub stored-OnlyHolder :
      All (OnlyHolder iccid device_id) m.device_groups
      → All (OnlyHolder iccid device_id) stored.device_groups
  unfolding store_device
  stored-OnlyHolder h = elim (Option-cases (lookup iccid m.device_groups)) [
    | inl e ↦
        rw (store_device, e)
          (insert-All (OnlyHolder iccid device_id) iccid
            (group_made conn device_id number iccid now) m.device_groups (inl refl) h)
    | inr (old, e) ↦
        rw (store_device, e)
          (insert-All (OnlyHolder iccid device_id) iccid
            (with_registered device_id number iccid now old) m.device_groups (inl refl) h)
  ]
