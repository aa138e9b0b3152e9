-- ===== src/Sessions/Invariant.antt =====
-- What the connection manager keeps of its tables, part by part, and the changes that keep it.
use iot_zinx.Shared.{
  ℕ, ◌≤◌, ◌≡◌, ◌≢◌, sym, ◌∙◌, subst, inl, inr, Bytes, bytes_eq, nat_eq, List, Bool, true, false,
  Bool-cases, Option, none, some, Option-cases, All, length, ◌==◌,
}
use iot_zinx.Shared.Table.{
  lookup, insert, erase, lookup-insert_self, lookup-insert_ne, lookup-erase_ne,
}
use iot_zinx.Shared.Keys.{
  IsDistinct, same_key, other_key, insert-All, erase-All, insert-IsDistinct, erase-IsDistinct,
  true-ne-false,
}
use iot_zinx.Shared.Adjust.{
  keys_of, adjust, adjust-All, adjust-IsDistinct, lookup-adjust-some, lookup-adjust_ne,
}
use iot_zinx.Shared.Sweep.{erase_keys}
use iot_zinx.Shared.Sizes.{
  All-map, All-map2, erase_keys-All, erase_keys-gone, found_among, erase_keys-IsDistinct,
}
use iot_zinx.Sessions.State.{Session, Device, DeviceGroup, TcpStats, TcpManager}
use iot_zinx.Sessions.Index.{has_device}

abbrev pub Connections : Type 0
Connections = List (ℕ × Session)

abbrev pub Groups : Type 0
Groups = List (Bytes × DeviceGroup)

abbrev pub Index : Type 0
Index = List (Bytes × Bytes)

abbrev pub ConnectionsInvariant : Connections → Type 0
ConnectionsInvariant conns = IsDistinct conns × All (λ (p : ℕ × Session). p.1.conn_id ≡ p.0) conns

-- A group stands under its card, and each of its devices under its own name.
abbrev pub IsProper : Bytes × DeviceGroup → Type 0
IsProper p =
    (p.1.iccid ≡ p.0)
    × IsDistinct p.1.devices
    × All (λ (q : Bytes × Device). q.1.device_id ≡ q.0) p.1.devices

abbrev pub GroupsInvariant : Groups → Type 0
GroupsInvariant groups = IsDistinct groups × All IsProper groups

abbrev pub holds : Bytes → Option DeviceGroup → Bool
holds device_id none = false
holds device_id (some group) = has_device device_id group

-- The index leads from a device to a group that has it.
abbrev pub IsLed : Groups → Bytes × Bytes → Type 0
IsLed groups p = holds p.0 (lookup p.1 groups) ≡ true

abbrev pub IndexInvariant : Groups → Index → Type 0
IndexInvariant groups index = IsDistinct index × All (IsLed groups) index

abbrev pub StatsInvariant : ℕ → TcpStats → Type 0
StatsInvariant conns stats =
    (stats.active_connections ≡ conns) × (stats.online_devices ≤ stats.total_devices)

pub record TcpInvariant (m : TcpManager) : Type 0 where
  pub connections : ConnectionsInvariant m.connections
  pub groups : GroupsInvariant m.device_groups
  pub index : IndexInvariant m.device_groups m.device_index
  pub stats : StatsInvariant (length m.connections) m.stats

pub insert-Connections :
    (conn_id : ℕ) (session : Session) (conns : Connections)
    → session.conn_id ≡ conn_id
    → ConnectionsInvariant conns
    → ConnectionsInvariant (insert conn_id session conns)
insert-Connections conn_id session conns e h = (
  insert-IsDistinct conn_id session conns h.0,
  insert-All (λ (p : ℕ × Session). p.1.conn_id ≡ p.0) conn_id session conns e h.1,
)

pub erase-Connections :
    (conn_id : ℕ) (conns : Connections)
    → ConnectionsInvariant conns
    → ConnectionsInvariant (erase conn_id conns)
erase-Connections conn_id conns h = (
  erase-IsDistinct conn_id conns h.0,
  erase-All (λ (p : ℕ × Session). p.1.conn_id ≡ p.0) conn_id conns h.1,
)

pub adjust-Connections :
    (conn_id : ℕ) (change : Session → Session) (conns : Connections)
    → ((session : Session) → (change session).conn_id ≡ session.conn_id)
    → ConnectionsInvariant conns
    → ConnectionsInvariant (adjust conn_id change conns)
adjust-Connections conn_id change conns same h = (
  adjust-IsDistinct conn_id change conns h.0,
  adjust-All (λ (p : ℕ × Session). p.1.conn_id ≡ p.0) conn_id change conns
      (λ session e. same session ∙ e) h.1,
)

-- A change of a group that keeps its card and its devices.
pub record Keeps (change : DeviceGroup → DeviceGroup) : Type 0 where
  pub proper :
      (iccid : Bytes) (group : DeviceGroup)
      → IsProper (iccid, group)
      → IsProper (iccid, change group)
  pub devices :
      (device_id : Bytes) (group : DeviceGroup)
      → has_device device_id group ≡ true
      → has_device device_id (change group) ≡ true

holds-adjust :
    (device_id ic iccid : Bytes) (change : DeviceGroup → DeviceGroup) (groups : Groups)
    → Keeps change
    → holds device_id (lookup ic groups) ≡ true
    → holds device_id (lookup ic (adjust iccid change groups)) ≡ true
holds-adjust device_id ic iccid change groups keeps h = elim (Bool-cases (iccid == ic)) [
  | inr f ↦ rw (lookup-adjust_ne iccid ic change groups (other_key f)) h
  | inl t ↦ elim (Option-cases (lookup ic groups)) [
    | inl e ↦ absurd (true-ne-false (sym (rw e at h)))
    | inr (group, e) ↦
        subst (λ i. holds device_id (lookup ic (adjust i change groups)) ≡ true) (sym (same_key t))
          (rw (lookup-adjust-some ic change groups group e)
            (keeps.devices device_id group (rw e at h)))
  ]
]

pub adjust-Groups :
    (iccid : Bytes) (change : DeviceGroup → DeviceGroup) (groups : Groups)
    → Keeps change
    → GroupsInvariant groups
    → GroupsInvariant (adjust iccid change groups)
adjust-Groups iccid change groups keeps h = (
  adjust-IsDistinct iccid change groups h.0,
  adjust-All IsProper iccid change groups (keeps.proper iccid) h.1,
)

pub adjust-Index :
    (iccid : Bytes) (change : DeviceGroup → DeviceGroup) (groups : Groups) (index : Index)
    → Keeps change
    → IndexInvariant groups index
    → IndexInvariant (adjust iccid change groups) index
adjust-Index iccid change groups index keeps h = (
  h.0,
  All-map (IsLed groups) (IsLed (adjust iccid change groups)) index
      (λ p x. holds-adjust p.0 p.1 iccid change groups keeps x) h.1,
)

pub insert-Groups :
    (iccid : Bytes) (group : DeviceGroup) (groups : Groups)
    → IsProper (iccid, group)
    → GroupsInvariant groups
    → GroupsInvariant (insert iccid group groups)
insert-Groups iccid group groups proper h =
    (insert-IsDistinct iccid group groups h.0, insert-All IsProper iccid group groups proper h.1)

holds-insert :
    (device_id ic iccid : Bytes) (group : DeviceGroup) (groups : Groups)
    → (holds device_id (lookup iccid groups) ≡ true → has_device device_id group ≡ true)
    → holds device_id (lookup ic groups) ≡ true
    → holds device_id (lookup ic (insert iccid group groups)) ≡ true
holds-insert device_id ic iccid group groups keeps h = elim (Bool-cases (iccid == ic)) [
  | inr f ↦ rw (lookup-insert_ne iccid ic group groups (other_key f)) h
  | inl t ↦
      subst (λ i. holds device_id (lookup i (insert iccid group groups)) ≡ true) {x = iccid}
        (same_key t)
        (rw (lookup-insert_self iccid group groups)
          (keeps (subst (λ i. holds device_id (lookup i groups) ≡ true) (sym (same_key t)) h)))
]

-- A group is replaced by one with at least its devices.
pub insert-Index :
    (iccid : Bytes) (group : DeviceGroup) (groups : Groups) (index : Index)
    → ((device_id : Bytes)
        → holds device_id (lookup iccid groups) ≡ true
        → has_device device_id group ≡ true)
    → IndexInvariant groups index
    → IndexInvariant (insert iccid group groups) index
insert-Index iccid group groups index keeps h = (
  h.0,
  All-map (IsLed groups) (IsLed (insert iccid group groups)) index
      (λ p x. holds-insert p.0 p.1 iccid group groups (keeps p.0) x) h.1,
)

pub store-Index :
    (device_id iccid : Bytes) (groups : Groups) (index : Index)
    → holds device_id (lookup iccid groups) ≡ true
    → IndexInvariant groups index
    → IndexInvariant groups (insert device_id iccid index)
store-Index device_id iccid groups index led h = (
  insert-IsDistinct device_id iccid index h.0,
  insert-All (IsLed groups) device_id iccid index led h.1,
)

pub drop-Index :
    (device_id : Bytes) (groups : Groups) (index : Index)
    → IndexInvariant groups index
    → IndexInvariant groups (erase device_id index)
drop-Index device_id groups index h =
    (erase-IsDistinct device_id index h.0, erase-All (IsLed groups) device_id index h.1)

IsLed-elsewhere :
    (iccid : Bytes) (group : DeviceGroup) (groups : Groups) (p : Bytes × Bytes)
    → lookup iccid groups ≡ some group
    → IsLed groups p
    → All (λ k. k ≢ p.0) (keys_of group.devices)
    → IsLed (erase iccid groups) p
IsLed-elsewhere iccid group groups p found led gone = elim (Bool-cases (iccid == p.1)) [
  | inr f ↦ rw (lookup-erase_ne iccid p.1 groups (other_key f)) led
  | inl t ↦
      let here : holds p.0 (lookup iccid groups) ≡ true =
        subst (λ i. holds p.0 (lookup i groups) ≡ true) (sym (same_key t)) led in
      absurd (found_among p.0 group.devices (rw found at here) gone)
]

-- A group goes with the index entries of all its devices.
pub close-Index :
    (iccid : Bytes) (group : DeviceGroup) (groups : Groups) (index : Index)
    → lookup iccid groups ≡ some group
    → IndexInvariant groups index
    → IndexInvariant (erase iccid groups) (erase_keys (keys_of group.devices) index)
close-Index iccid group groups index found h =
    let keys = keys_of group.devices in
    (
      erase_keys-IsDistinct keys index h.0,
      All-map2 (IsLed groups) (λ p. All (λ k. k ≢ p.0) keys) (IsLed (erase iccid groups))
          (erase_keys keys index)
          (λ p led gone. IsLed-elsewhere iccid group groups p found led gone)
          (erase_keys-All (IsLed groups) keys index h.1) (erase_keys-gone keys index),
    )

pub erase-Groups :
    (iccid : Bytes) (groups : Groups)
    → GroupsInvariant groups
    → GroupsInvariant (erase iccid groups)
erase-Groups iccid groups h =
    (erase-IsDistinct iccid groups h.0, erase-All IsProper iccid groups h.1)
