-- ===== src/Sessions/Evict.antt =====
-- Which devices lose their session when a connection is cleaned up.
use iot_zinx.Shared.{
  ℕ, ◌≡◌, ◌≢◌, refl, sym, ap, ◌∙◌, subst, inl, inr, Bytes, bytes_eq, nat_eq, List, [], ◌∷◌, ◌==◌,
  Bool, true, false, ◌&&◌, ◌||◌, Bool-cases, Option, none, some, Option-cases, All, nat_beq,
  nat_beq_iff, if◌then◌else◌,
}
use iot_zinx.Shared.Table.{lookup, erase, lookup-erase_self, lookup-erase_ne, ==-ne}
use iot_zinx.Shared.Keys.{lookup-All, same_key, other_key, true-ne-false, some-injective}
use iot_zinx.Shared.Sweep.{erase_keys, erase_keys-lookup_in, erase_keys-lookup_out}
use iot_zinx.Shared.Adjust.{is_some, keys_of, find_first, find_first-lookup}
use iot_zinx.Sessions.State.{Session, Devices, DeviceGroup, TcpManager}
use iot_zinx.Sessions.Index.{has_device, get_session_by_device_id}
use iot_zinx.Sessions.Registry.{is_group_of, close_group, cleanup_connection}
use iot_zinx.Sessions.Invariant.{TcpInvariant, holds, IsLed}
use iot_zinx.Sessions.Kept.{cleanup-Tcp}

abbrev session_of : TcpManager → Bytes → Option Session
session_of m device_id = (get_session_by_device_id m device_id).1

session_absent :
    (m : TcpManager) (device_id : Bytes)
    → lookup device_id m.device_index ≡ none
    → session_of m device_id ≡ none
unfolding get_session_by_device_id
session_absent m device_id e = rw (session_of, get_session_by_device_id, e) refl

-- A device that the index has is in the group that the index gives, and its session is the group's.
session_found :
    (m : TcpManager) (device_id iccid : Bytes) (group : DeviceGroup)
    → TcpInvariant m
    → lookup device_id m.device_index ≡ some iccid
    → lookup iccid m.device_groups ≡ some group
    → session_of m device_id ≡ lookup group.conn_id m.connections
unfolding get_session_by_device_id
session_found m device_id iccid group h e f =
    let led : holds device_id (lookup iccid m.device_groups) ≡ true =
      lookup-All (IsLed m.device_groups) device_id iccid m.device_index h.index.1 e in
    let has : has_device device_id group ≡ true = rw f at led in
    elim (Option-cases (lookup group.conn_id m.connections)) [
      | inl g ↦ rw (session_of, get_session_by_device_id, e, f, g) refl
      | inr (session, g) ↦ rw (session_of, get_session_by_device_id, e, f, g, has) refl
    ]

group_of :
    (m : TcpManager) (device_id iccid : Bytes)
    → TcpInvariant m
    → lookup device_id m.device_index ≡ some iccid
    → (group : DeviceGroup) × (lookup iccid m.device_groups ≡ some group)
      × (has_device device_id group ≡ true)
group_of m device_id iccid h e =
    let led : holds device_id (lookup iccid m.device_groups) ≡ true =
      lookup-All (IsLed m.device_groups) device_id iccid m.device_index h.index.1 e in
    elim (Option-cases (lookup iccid m.device_groups)) [
      | inl f ↦ absurd (true-ne-false (sym (rw f at led)))
      | inr (group, f) ↦ (group, f, rw f at led)
    ]

abbrev pub is_session_of : ℕ → Option Session → Bool
is_session_of conn_id none = false
is_session_of conn_id (some session) = nat_beq session.conn_id conn_id

abbrev pub is_in_found : Bytes → Option (Bytes × DeviceGroup) → Bool
is_in_found device_id none = false
is_in_found device_id (some (iccid, group)) = has_device device_id group

-- The device is in the group that the clean-up finds, or its session is the connection's.
abbrev pub is_evicted : TcpManager → ℕ → Bytes → Bool
is_evicted m conn_id device_id =
    is_some (lookup conn_id m.connections)
    && (is_in_found device_id (find_first (is_group_of conn_id) m.device_groups)
        || is_session_of conn_id (get_session_by_device_id m device_id).1)

-- A session stands under its own number.
session_number :
    (m : TcpManager) (conn_id : ℕ) (session : Session)
    → TcpInvariant m
    → lookup conn_id m.connections ≡ some session
    → session.conn_id ≡ conn_id
session_number m conn_id session h e =
    lookup-All (λ (p : ℕ × Session). p.1.conn_id ≡ p.0) conn_id session m.connections
      h.connections.1 e

-- What deleting one connection does to the session found under another number.
erased_session :
    (m : TcpManager) (conn_id number : ℕ)
    → TcpInvariant m
    → lookup number (erase conn_id m.connections) ≡ (
        if is_session_of conn_id (lookup number m.connections)
        then none
        else lookup number m.connections)
erased_session m conn_id number h = elim (Bool-cases (conn_id == number)) [
  | inl t ↦
      let gone : lookup number (erase conn_id m.connections) ≡ none =
        subst (λ i. lookup number (erase i m.connections) ≡ none) (sym (same_key t))
          (lookup-erase_self number m.connections) in
      elim (Option-cases (lookup number m.connections)) [
        | inl e ↦ rw (gone, e) refl
        | inr (session, e) ↦
            let own : nat_beq session.conn_id conn_id ≡ true =
              (nat_beq_iff session.conn_id conn_id).1
                (session_number m number session h e ∙ sym (same_key t)) in
            rw (gone, e, own) refl
      ]
  | inr f ↦
      let kept = lookup-erase_ne conn_id number m.connections (other_key f) in
      elim (Option-cases (lookup number m.connections)) [
        | inl e ↦ rw (kept, e) refl
        | inr (session, e) ↦
            let other : nat_beq session.conn_id conn_id ≡ false =
              ==-ne session.conn_id conn_id
                (λ x. other_key f (sym x ∙ session_number m number session h e)) in
            rw (kept, e, other) refl
      ]
]

-- A device that keeps its place in the index and in its group.
route_kept :
    (m m2 : TcpManager) (conn_id : ℕ) (device_id iccid : Bytes) (group : DeviceGroup)
    → TcpInvariant m
    → TcpInvariant m2
    → m2.connections ≡ erase conn_id m.connections
    → (lookup device_id m.device_index ≡ some iccid) × (lookup iccid m.device_groups ≡ some group)
    → (lookup device_id m2.device_index ≡ some iccid) × (lookup iccid m2.device_groups ≡ some group)
    → session_of m2 device_id
      ≡ (if is_session_of conn_id (session_of m device_id) then none else session_of m device_id)
route_kept m m2 conn_id device_id iccid group h h2 conns at1 at2 =
    let before = session_found m device_id iccid group h at1.0 at1.1 in
    let now2 = session_found m2 device_id iccid group h2 at2.0 at2.1 in
    now2
    ∙ ap (λ (x : List (ℕ × Session)). lookup group.conn_id x) conns
    ∙ erased_session m conn_id group.conn_id h
    ∙ ap (λ (o : Option Session). if is_session_of conn_id o then none else o) (sym before)

-- A device without a place in the index has no session to lose.
absent_kept :
    (m m2 : TcpManager) (conn_id : ℕ) (device_id : Bytes)
    → lookup device_id m.device_index ≡ none
    → lookup device_id m2.device_index ≡ none
    → session_of m2 device_id
      ≡ (if is_session_of conn_id (session_of m device_id) then none else session_of m device_id)
absent_kept m m2 conn_id device_id e e2 =
    session_absent m2 device_id e2
    ∙ ap (λ (o : Option Session). if is_session_of conn_id o then none else o)
        (sym (session_absent m device_id e))

members_unindexed :
    (device_id : Bytes) (devices : Devices) (index : List (Bytes × Bytes))
    → is_some (lookup device_id devices) ≡ true
    → lookup device_id (erase_keys (keys_of devices) index) ≡ none
unfolding lookup
members_unindexed device_id [] index h = absurd (true-ne-false (sym h))
members_unindexed device_id ((j, device) ∷ devices) index h = elim (Bool-cases (j == device_id)) [
  | inl t ↦ erase_keys-lookup_in (keys_of devices) device_id (erase j index) (
      subst (λ i. lookup device_id (erase i index) ≡ none) {x = device_id} (sym (same_key t))
        (lookup-erase_self device_id index))
  | inr f ↦
      members_unindexed device_id devices (erase j index)
        (subst (λ b. is_some (if b then some device else lookup device_id devices) ≡ true) f h)
]

others_apart :
    (device_id : Bytes) (devices : Devices)
    → is_some (lookup device_id devices) ≡ false
    → All (λ k. k ≢ device_id) (keys_of devices)
unfolding lookup
others_apart device_id [] h = tt
others_apart device_id ((j, device) ∷ devices) h = elim (Bool-cases (j == device_id)) [
  | inl t ↦ absurd (
      true-ne-false
        (subst (λ b. is_some (if b then some device else lookup device_id devices) ≡ false) t h))
  | inr f ↦ (
    other_key f,
    others_apart device_id devices
        (subst (λ b. is_some (if b then some device else lookup device_id devices) ≡ false) f h),
  )
]

no_group_evicted :
    (m : TcpManager) (conn_id now : ℕ) (device_id : Bytes) (session : Session)
    → TcpInvariant m
    → lookup conn_id m.connections ≡ some session
    → find_first (is_group_of conn_id) m.device_groups ≡ none
    → session_of (cleanup_connection m conn_id now) device_id
      ≡ (if is_session_of conn_id (session_of m device_id) then none else session_of m device_id)
unfolding cleanup_connection close_group
no_group_evicted m conn_id now device_id session h e f =
    let m2 = cleanup_connection m conn_id now in
    let index : m2.device_index ≡ m.device_index =
      rw (cleanup_connection, e, close_group, f) refl in
    let groups : m2.device_groups ≡ m.device_groups =
      rw (cleanup_connection, e, close_group, f) refl in
    elim (Option-cases (lookup device_id m.device_index)) [
      | inl g ↦ absent_kept m m2 conn_id device_id g (ap (lookup device_id) index ∙ g)
      | inr (iccid, g) ↦
          let (group, x, has) = group_of m device_id iccid h g in
          route_kept m m2 conn_id device_id iccid group h (cleanup-Tcp m conn_id now h)
            (rw (cleanup_connection, e, close_group, f) refl) (g, x)
            (ap (lookup device_id) index ∙ g, ap (lookup iccid) groups ∙ x)
    ]

module _ (m : TcpManager) (conn_id now : ℕ) (device_id : Bytes) (session : Session) (ic : Bytes)
    (gone : DeviceGroup) (h : TcpInvariant m) (e : lookup conn_id m.connections ≡ some session)
    (f : find_first (is_group_of conn_id) m.device_groups ≡ some (ic, gone)) where
  index_left :
      (cleanup_connection m conn_id now).device_index
      ≡ erase_keys (keys_of gone.devices) m.device_index
  unfolding cleanup_connection close_group
  index_left = rw (cleanup_connection, e, close_group, f) refl

  member_evicted :
      has_device device_id gone ≡ true
      → session_of (cleanup_connection m conn_id now) device_id ≡ none
  member_evicted t =
      session_absent (cleanup_connection m conn_id now) device_id (
        ap (lookup device_id) index_left
        ∙ members_unindexed device_id gone.devices m.device_index t)

  other_group :
      (iccid : Bytes) (group : DeviceGroup)
      → has_device device_id gone ≡ false
      → lookup iccid m.device_groups ≡ some group
      → has_device device_id group ≡ true
      → ic ≢ iccid
  other_group iccid group t x has same =
      let found = find_first-lookup (is_group_of conn_id) m.device_groups ic gone h.groups.0 f in
      let one : gone ≡ group =
        some-injective (sym found ∙ ap (λ i. lookup i m.device_groups) same ∙ x) in
      true-ne-false (sym (ap (has_device device_id) one ∙ has) ∙ t)

  outsider_kept :
      has_device device_id gone ≡ false
      → session_of (cleanup_connection m conn_id now) device_id
        ≡ (if is_session_of conn_id (session_of m device_id) then none else session_of m device_id)
  unfolding cleanup_connection close_group
  outsider_kept t =
      let m2 = cleanup_connection m conn_id now in
      let index : lookup device_id m2.device_index ≡ lookup device_id m.device_index =
        ap (lookup device_id) index_left
        ∙ erase_keys-lookup_out (keys_of gone.devices) device_id m.device_index
            (others_apart device_id gone.devices t) in
      let groups : m2.device_groups ≡ erase ic m.device_groups =
        rw (cleanup_connection, e, close_group, f) refl in
      elim (Option-cases (lookup device_id m.device_index)) [
        | inl g ↦ absent_kept m m2 conn_id device_id g (index ∙ g)
        | inr (iccid, g) ↦
            let (group, x, has) = group_of m device_id iccid h g in
            route_kept m m2 conn_id device_id iccid group h (cleanup-Tcp m conn_id now h)
              (rw (cleanup_connection, e, close_group, f) refl) (g, x)
              (
                index ∙ g,
                ap (lookup iccid) groups
                    ∙ lookup-erase_ne ic iccid m.device_groups (other_group iccid group t x has)
                    ∙ x,
              )
      ]

-- The clean-up of a connection takes the session from exactly these devices: those of the first
-- group of the connection, and those whose session is the connection's. Every other device keeps
-- the session it had. The tables have to be well formed.
pub get_session_by_device_id-cleanup_connection :
    (m : TcpManager) (conn_id now : ℕ) (device_id : Bytes)
    → TcpInvariant m
    → (get_session_by_device_id (cleanup_connection m conn_id now) device_id).1
      ≡ (if is_evicted m conn_id device_id then none else (get_session_by_device_id m device_id).1)
unfolding cleanup_connection
get_session_by_device_id-cleanup_connection m conn_id now device_id h =
    elim (Option-cases (lookup conn_id m.connections)) [
      | inl e ↦ rw (cleanup_connection, e) refl
      | inr (session, e) ↦ elim (Option-cases (find_first (is_group_of conn_id) m.device_groups)) [
        | inl f ↦ rw (e, f) (no_group_evicted m conn_id now device_id session h e f)
        | inr ((ic, gone), f) ↦ elim (Bool-cases (has_device device_id gone)) [
          | inl t ↦ rw (e, f, t) (member_evicted m conn_id now device_id session ic gone h e f t)
          | inr t ↦ rw (e, f, t) (outsider_kept m conn_id now device_id session ic gone h e f t)
        ]
      ]
    ]
