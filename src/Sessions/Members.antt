-- ===== src/Sessions/Members.antt =====
-- Changes of a group's devices that keep the group well formed.
use iot_zinx.Shared.{
  ℕ, ◌≡◌, refl, sym, ◌∙◌, subst, inl, inr, Bytes, bytes_eq, nat_eq, [], ◌∷◌, ◌==◌, true, Bool-cases,
  Option, none, some, Option-cases, All,
}
use iot_zinx.Shared.Table.{lookup, insert, lookup-insert_self, lookup-insert_ne, ==-refl}
use iot_zinx.Shared.Keys.{
  lookup-All, insert-All, insert-IsDistinct, same_key, other_key, true-ne-false,
}
use iot_zinx.Shared.Adjust.{
  is_some, adjust, adjust-All, adjust-IsDistinct, lookup-adjust-some, lookup-adjust_ne,
}
use iot_zinx.Sessions.State.{Device, Devices, DeviceGroup, new_device}
use iot_zinx.Sessions.Index.{rebuilt_group, rebuilt_device}
use iot_zinx.Sessions.Registration.{registered_device, with_registered}
use iot_zinx.Sessions.Activity.{change_device}
use iot_zinx.Sessions.Invariant.{IsProper, Keeps}

pub lookup-single :
    (device_id : Bytes) (device : Device)
    → lookup device_id ((device_id, device) ∷ []) ≡ some device
unfolding lookup
lookup-single device_id device = rw (==-refl device_id) refl

is_some-adjust :
    (device_id d : Bytes) (change : Device → Device) (devices : Devices)
    → is_some (lookup d devices) ≡ true
    → is_some (lookup d (adjust device_id change devices)) ≡ true
is_some-adjust device_id d change devices h = elim (Bool-cases (device_id == d)) [
  | inr f ↦ rw (lookup-adjust_ne device_id d change devices (other_key f)) h
  | inl t ↦ elim (Option-cases (lookup d devices)) [
    | inl e ↦ absurd (true-ne-false (sym (rw e at h)))
    | inr (device, e) ↦
        subst (λ i. is_some (lookup d (adjust i change devices)) ≡ true) {x = d} (sym (same_key t))
          (rw (lookup-adjust-some d change devices device e) refl)
  ]
]

-- A change of one device that keeps its name keeps the group.
pub change_device-Keeps :
    (device_id : Bytes) (change : Device → Device)
    → ((device : Device) → (change device).device_id ≡ device.device_id)
    → Keeps (change_device device_id change)
change_device-Keeps device_id change same = record {
  proper = λ iccid group h. (
    h.0,
    adjust-IsDistinct device_id change group.devices h.1,
    adjust-All (λ (q : Bytes × Device). q.1.device_id ≡ q.0) device_id change group.devices
        (λ device e. same device ∙ e) h.2,
  );
  devices = λ d group h. is_some-adjust device_id d change group.devices h;
}

pub is_some-insert :
    (device_id d : Bytes) (device : Device) (devices : Devices)
    → is_some (lookup d devices) ≡ true
    → is_some (lookup d (insert device_id device devices)) ≡ true
is_some-insert device_id d device devices h = elim (Bool-cases (device_id == d)) [
  | inr f ↦ rw (lookup-insert_ne device_id d device devices (other_key f)) h
  | inl t ↦
      subst (λ i. is_some (lookup i (insert device_id device devices)) ≡ true) {x = device_id}
        (same_key t) (rw (lookup-insert_self device_id device devices) refl)
]

-- So does adding or replacing one device under its name.
pub insert_device-Proper :
    (iccid device_id : Bytes) (device : Device) (group : DeviceGroup)
    → device.device_id ≡ device_id
    → IsProper (iccid, group)
    → IsProper (iccid, record group { devices = insert device_id device group.devices })
insert_device-Proper iccid device_id device group e h = (
  h.0,
  insert-IsDistinct device_id device group.devices h.1,
  insert-All (λ (q : Bytes × Device). q.1.device_id ≡ q.0) device_id device group.devices e h.2,
)

registered_name :
    (found : Option Device) (devices : Devices) (device_id : Bytes) (physical_id : ℕ)
    (iccid : Bytes) (now : ℕ)
    → All (λ (q : Bytes × Device). q.1.device_id ≡ q.0) devices
    → lookup device_id devices ≡ found
    → (registered_device found device_id physical_id iccid now).device_id ≡ device_id
unfolding registered_device new_device
registered_name none devices device_id physical_id iccid now h e = refl
registered_name (some device) devices device_id physical_id iccid now h e =
    lookup-All (λ (q : Bytes × Device). q.1.device_id ≡ q.0) device_id device devices h e

rebuilt_name :
    (found : Option Device) (devices : Devices) (device_id : Bytes) (physical_id : ℕ)
    (iccid : Bytes) (now : ℕ)
    → All (λ (q : Bytes × Device). q.1.device_id ≡ q.0) devices
    → lookup device_id devices ≡ found
    → (rebuilt_device found device_id physical_id iccid now).device_id ≡ device_id
unfolding new_device
rebuilt_name none devices device_id physical_id iccid now h e = refl
rebuilt_name (some device) devices device_id physical_id iccid now h e =
    lookup-All (λ (q : Bytes × Device). q.1.device_id ≡ q.0) device_id device devices h e

pub registered-Proper :
    (device_id : Bytes) (physical_id : ℕ) (iccid : Bytes) (now : ℕ) (group : DeviceGroup)
    → IsProper (iccid, group)
    → IsProper (iccid, with_registered device_id physical_id iccid now group)
unfolding with_registered
registered-Proper device_id physical_id iccid now group h =
    insert_device-Proper iccid device_id
      (registered_device (lookup device_id group.devices) device_id physical_id iccid now) group
      (registered_name (lookup device_id group.devices) group.devices device_id physical_id iccid
        now h.2 refl)
      h

pub rebuilt_tables-Keeps :
    (device_id : Bytes) (physical_id : ℕ) (iccid : Bytes) (now : ℕ)
    → Keeps (rebuilt_group device_id physical_id iccid now)
rebuilt_tables-Keeps device_id physical_id iccid now = record {
  proper = λ ic group h.
      insert_device-Proper ic device_id
        (rebuilt_device (lookup device_id group.devices) device_id physical_id iccid now) group
        (rebuilt_name (lookup device_id group.devices) group.devices device_id physical_id iccid now
          h.2 refl)
        h;
  devices = λ d group h.
      is_some-insert device_id d
        (rebuilt_device (lookup device_id group.devices) device_id physical_id iccid now)
        group.devices h;
}
