-- ===== src/Sessions/Admission.antt =====
-- When a device registration succeeds, and what it leaves behind.
use iot_zinx.Shared.{
  ℕ, ◌≡◌, ◌↔◌, refl, sym, ap, ◌∙◌, subst, inl, inr, Bytes, bytes_eq, nat_eq, Bool, true, false,
  Bool-cases, some, Option-cases, All, Result, ok, err, panic, IsOk,
}
use iot_zinx.Shared.Table.{lookup, lookup-insert_self}
use iot_zinx.Shared.Keys.{true-ne-false}
use iot_zinx.Shared.Adjust.{is_some, find_first, find_first-All, find_first-holds}
use iot_zinx.Sessions.PhysicalId.{is_empty, IdError, parse_device_id_to_physical_id}
use iot_zinx.Sessions.State.{Connection, Device, DeviceGroup, TcpManager, TcpError}
use iot_zinx.Sessions.Index.{
  has_device, get_session_by_device_id, get_device_by_id, is_ok, validate_device_index, reindexed,
  reverified, repair_device_index, store_index,
}
use iot_zinx.Sessions.Registration.{
  leave_other_connection, atomic_device_index_operation, count_device, finish_registration,
  enter_device, enter_parsed, register_device,
}
use iot_zinx.Sessions.Stored.{
  host_of, stored, entered, stored-index, stored-group, is_hosted, hosted-stored, valid-stored,
  invalid-stored, enter_hosted, OnlyHolder, stored-OnlyHolder,
}

module _ (m : TcpManager) (conn : Connection) (device_id : Bytes) (number : ℕ) (iccid : Bytes)
    (now : ℕ) where
  abbrev after_store : TcpManager
  after_store = stored m conn device_id number iccid now

  -- Pointing the index at the card's group again does not bring its connection back.
  still_invalid :
      is_hosted m conn iccid ≡ false
      → is_ok (validate_device_index (store_index device_id iccid after_store) device_id) ≡ false
  unfolding validate_device_index
  still_invalid h =
      let (group, x, y, z) = stored-group m conn device_id number iccid now in
      elim (Option-cases (lookup group.conn_id after_store.connections)) [
        | inl e ↦
            rw
              (
                validate_device_index,
                lookup-insert_self device_id iccid after_store.device_index,
                x,
                y,
                e,
              )
              refl
        | inr (session, e) ↦ absurd (
            true-ne-false (
              sym (ap is_some e)
              ∙ (hosted-stored m conn device_id number iccid now group.conn_id z ∙ h)))
      ]

  reverified-IsErr : (r : Result TcpError (Unit {0})) → is_ok r ≡ false → ¬ (IsOk (reverified r))
  reverified-IsErr (ok x) h k = true-ne-false h
  reverified-IsErr (err e) h k = k
  reverified-IsErr panic h k = k

  not_reindexed :
      is_hosted m conn iccid ≡ false
      → All (OnlyHolder iccid device_id) m.device_groups
      → ¬ (IsOk (reindexed after_store device_id).1)
  not_reindexed h only k =
      elim (Option-cases (find_first (has_device device_id) after_store.device_groups)) [
        | inl e ↦ rw (reindexed, e) at k
        | inr ((ic, group), e) ↦
            let held =
              find_first-holds (has_device device_id) after_store.device_groups ic group e in
            let which =
              find_first-All (OnlyHolder iccid device_id) (has_device device_id)
                after_store.device_groups ic group
                (stored-OnlyHolder m conn device_id number iccid now only) e in
            elim which [
              | inr f ↦ true-ne-false (sym held ∙ f)
              | inl same ↦
                  let here : IsOk (
                      reverified
                        (validate_device_index (store_index device_id ic after_store) device_id)) =
                    rw (reindexed, e) at k in
                  reverified-IsErr
                    (validate_device_index (store_index device_id iccid after_store) device_id)
                    (still_invalid h)
                    (subst
                      (λ i. IsOk (
                        reverified
                          (validate_device_index (store_index device_id i after_store) device_id)))
                      same here)
            ]
      ]

  finish_refused :
      (already : Bool) (r : TcpManager × Result TcpError (Unit {0}))
      → ¬ (IsOk r.1)
      → ¬ (IsOk (finish_registration device_id already now r).1)
  finish_refused already (m2, ok x) h k = h tt
  finish_refused already (m2, err e) h k = k
  finish_refused already (m2, panic) h k = k

  enter_refused :
      (already : Bool)
      → is_hosted m conn iccid ≡ false
      → All (OnlyHolder iccid device_id) m.device_groups
      → ¬ (IsOk (enter_device m conn device_id number iccid already now).1)
  unfolding enter_device atomic_device_index_operation repair_device_index
  enter_refused already h only k =
      let invalid = invalid-stored m conn device_id number iccid now h in
      finish_refused already (reindexed after_store device_id) (not_reindexed h only)
        (rw invalid at k)

-- The connection over which a device is registered, after the device has left another.
abbrev pub left_for : TcpManager → Connection → Bytes → ℕ → TcpManager
left_for m conn device_id now = (leave_other_connection m device_id conn.conn_id now).0

parsed_iff :
    (conn : Connection) (device_id iccid : Bytes) (now : ℕ) (left : TcpManager × Bool)
    (number : Result IdError ℕ)
    → All (OnlyHolder iccid device_id) left.0.device_groups
    → IsOk (enter_parsed conn device_id iccid now left number).1
      ↔ (IsOk number × (is_hosted left.0 conn iccid ≡ true))
parsed_iff conn device_id iccid now left (ok number) only =
    elim (Bool-cases (is_hosted left.0 conn iccid)) [
      | inl t ↦
          let entered_ok = enter_hosted left.0 conn device_id number iccid now left.1 t in
          (λ h. (tt, t), λ h. rw entered_ok tt)
      | inr t ↦ (
        λ h. absurd (enter_refused left.0 conn device_id number iccid now left.1 t only h),
        λ h. absurd (true-ne-false (sym h.1 ∙ t)),
      )
    ]
parsed_iff conn device_id iccid now left (err e) only = (λ h. absurd h, λ h. absurd h.0)
parsed_iff conn device_id iccid now left panic only = (λ h. absurd h, λ h. absurd h.0)

-- With every group that has the device, once it has left another connection, being the card's: a
-- registration succeeds exactly when the device and the card are named, the connection is
-- registered, the physical ID can be parsed, and the connection of the card's group, where it has
-- one already, is still registered.
pub register_device_iff :
    (m : TcpManager) (conn : Connection) (device_id physical_id iccid : Bytes) (now : ℕ)
    → All (OnlyHolder iccid device_id) (left_for m conn device_id now).device_groups
    → IsOk (register_device m (some conn) device_id physical_id iccid now).1 ↔ (
        (is_empty device_id ≡ false)
        × (is_empty iccid ≡ false)
        × (is_some (lookup conn.conn_id m.connections) ≡ true)
        × IsOk (parse_device_id_to_physical_id physical_id)
        × (is_hosted (left_for m conn device_id now) conn iccid ≡ true))
unfolding register_device
register_device_iff m conn device_id physical_id iccid now only =
    elim (Bool-cases (is_empty device_id)) [
      | inl t ↦ rw (register_device, t) (λ h. absurd h, λ h. absurd (true-ne-false h.0))
      | inr t ↦ elim (Bool-cases (is_empty iccid)) [
        | inl u ↦ rw (register_device, t, u) (λ h. absurd h, λ h. absurd (true-ne-false h.1))
        | inr u ↦ elim (Option-cases (lookup conn.conn_id m.connections)) [
          | inl e ↦
              rw (register_device, t, u, e) (λ h. absurd h, λ h. absurd (true-ne-false (sym h.2)))
          | inr (session, e) ↦
              let (there, back) =
                parsed_iff conn device_id iccid now
                  (leave_other_connection m device_id conn.conn_id now)
                  (parse_device_id_to_physical_id physical_id) only in
              rw (register_device, t, u, e)
                (λ h. (refl, refl, refl, (there h).0, (there h).1), λ h. back (h.3, h.4))
        ]
      ]
    ]

-- What a registration that is accepted leaves.
is_entered :
    (m : TcpManager) (conn : Connection) (device_id physical_id iccid : Bytes) (number now : ℕ)
    → is_empty device_id ≡ false
    → is_empty iccid ≡ false
    → is_some (lookup conn.conn_id m.connections) ≡ true
    → parse_device_id_to_physical_id physical_id ≡ ok number
    → is_hosted (left_for m conn device_id now) conn iccid ≡ true
    → register_device m (some conn) device_id physical_id iccid now ≡ (
      count_device
          (leave_other_connection m device_id conn.conn_id now).1
          now
          (stored (left_for m conn device_id now) conn device_id number iccid now),
      ok tt,
    )
unfolding register_device
is_entered m conn device_id physical_id iccid number now t u c p hosted =
    let left = leave_other_connection m device_id conn.conn_id now in
    elim (Option-cases (lookup conn.conn_id m.connections)) [
      | inl e ↦ absurd (true-ne-false (sym c ∙ ap is_some e))
      | inr (session, e) ↦
          rw (register_device, t, u, e, p)
            (enter_hosted left.0 conn device_id number iccid now left.1 hosted)
    ]

module _ (m : TcpManager) (device_id iccid : Bytes) (group : DeviceGroup) (device : Device)
    (at : lookup device_id m.device_index ≡ some iccid)
    (x : lookup iccid m.device_groups ≡ some group)
    (y : lookup device_id group.devices ≡ some device) where
  pub found_device : get_device_by_id m device_id ≡ some device
  unfolding get_device_by_id
  found_device = rw (get_device_by_id, at, x) y

  found_session : (get_session_by_device_id m device_id).1 ≡ lookup group.conn_id m.connections
  unfolding get_session_by_device_id
  found_session = elim (Option-cases (lookup group.conn_id m.connections)) [
    | inl e ↦ rw (get_session_by_device_id, at, x, e) refl
    | inr (session, e) ↦ rw (get_session_by_device_id, at, x, e, y) refl
  ]

-- A registration over a registered connection, with the device and the card named, a physical ID
-- that can be parsed, and the connection of the card's group, if it has one, still registered,
-- succeeds. Afterwards the device is found with the physical ID and the card given, registered and
-- online, and with the history that the card's group had of it; its session is that of the group's
-- connection, which is the registering one only for a new group.
pub get_device_by_id-register_device :
    (m : TcpManager) (conn : Connection) (device_id physical_id iccid : Bytes) (number now : ℕ)
    → is_empty device_id ≡ false
    → is_empty iccid ≡ false
    → is_some (lookup conn.conn_id m.connections) ≡ true
    → parse_device_id_to_physical_id physical_id ≡ ok number
    → is_hosted (left_for m conn device_id now) conn iccid ≡ true
    → (m2 : TcpManager) × (register_device m (some conn) device_id physical_id iccid now
        ≡ (m2, ok tt))
      × (get_device_by_id m2 device_id
          ≡ some (entered (left_for m conn device_id now) conn device_id number iccid now))
      × (validate_device_index m2 device_id ≡ ok tt)
      × ((get_session_by_device_id m2 device_id).1
          ≡ lookup
              (host_of conn (lookup iccid (left_for m conn device_id now).device_groups))
              m2.connections)
unfolding get_device_by_id get_session_by_device_id validate_device_index
get_device_by_id-register_device m conn device_id physical_id iccid number now t u c p hosted =
    let left = left_for m conn device_id now in
    let m2 = stored left conn device_id number iccid now in
    let (group, x, y, z) = stored-group left conn device_id number iccid now in
    let at = stored-index left conn device_id number iccid now in
    let m3 = count_device (leave_other_connection m device_id conn.conn_id now).1 now m2 in
    (
      m3,
      is_entered m conn device_id physical_id iccid number now t u c p hosted,
      found_device m2 device_id iccid group (entered left conn device_id number iccid now) at x y,
      valid-stored left conn device_id number iccid now hosted,
      found_session m3 device_id iccid group (entered left conn device_id number iccid now) at x y
          ∙ ap (λ i. lookup i m3.connections) z,
    )
