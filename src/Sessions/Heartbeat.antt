-- ===== src/Sessions/Heartbeat.antt =====
-- What a heartbeat does to the record of its device.
use iot_zinx.Shared.{
  ℕ, ◌≡◌, ◌⊎◌, refl, ap, ◌∙◌, inl, inr, Bytes, true, none, bytes_eq, nat_eq, some, Option-cases,
  Result, ok, err, panic, IsErr, err-ne-ok,
}
use iot_zinx.Shared.Table.{lookup}
use iot_zinx.Shared.Adjust.{is_some, find_first, lookup-adjust-some}
use iot_zinx.Sessions.State.{Device, DeviceGroup, TcpManager, TcpError}
use iot_zinx.Sessions.Index.{
  has_device, get_device_by_id, validate_device_index, reverified, reindexed, store_index,
  repair_device_index, ensure_index,
}
use iot_zinx.Sessions.Activity.{
  beaten, beaten_group, beat, index_lost, beat_indexed, beat_ensured, update_heartbeat,
}
use iot_zinx.Sessions.Admission.{found_device}

-- The four look-ups that a valid entry of the index passes.
record Route (m : TcpManager) (device_id : Bytes) : Type 0 where
  iccid : Bytes
  group : DeviceGroup
  device : Device
  at_index : lookup device_id m.device_index ≡ some iccid
  at_group : lookup iccid m.device_groups ≡ some group
  at_device : lookup device_id group.devices ≡ some device

validate_cases :
    (m : TcpManager) (device_id : Bytes)
    → ((validate_device_index m device_id ≡ ok tt) × Route m device_id)
      ⊎ ((e : TcpError) × (validate_device_index m device_id ≡ err e))
unfolding validate_device_index
validate_cases m device_id = elim (Option-cases (lookup device_id m.device_index)) [
  | inl a ↦ rw (validate_device_index, a) (inr (_, refl))
  | inr (iccid, a) ↦ elim (Option-cases (lookup iccid m.device_groups)) [
    | inl b ↦ rw (validate_device_index, a, b) (inr (_, refl))
    | inr (group, b) ↦ elim (Option-cases (lookup device_id group.devices)) [
      | inl c ↦ rw (validate_device_index, a, b, c) (inr (_, refl))
      | inr (device, c) ↦
          let route : Route m device_id = record {
            iccid = iccid;
            group = group;
            device = device;
            at_index = a;
            at_group = b;
            at_device = c;
          } in
          elim (Option-cases (lookup group.conn_id m.connections)) [
            | inl d ↦ rw (validate_device_index, a, b, c, d) (inr (_, refl))
            | inr (session, d) ↦ rw (validate_device_index, a, b, c, d) (inl (refl, route))
          ]
    ]
  ]
]

abbrev pub Outcome : Type 0
Outcome = TcpManager × Result TcpError (Unit {0})

-- After the check and the repair the entry leads to the device, or an error is returned.
abbrev IsSettled : Bytes → Outcome → Type 0
IsSettled device_id r = ((r.1 ≡ ok tt) × Route r.0 device_id) ⊎ ((e : TcpError) × (r.1 ≡ err e))

reverified-IsSettled :
    (m : TcpManager) (device_id : Bytes)
    → IsSettled device_id (m, reverified (validate_device_index m device_id))
reverified-IsSettled m device_id = elim (validate_cases m device_id) [
  | inl (a, route) ↦ rw a (inl (refl, route))
  | inr (e, a) ↦ rw a (inr (_, refl))
]

reindexed-IsSettled :
    (m : TcpManager) (device_id : Bytes) → IsSettled device_id (reindexed m device_id)
reindexed-IsSettled m device_id =
    elim (Option-cases (find_first (has_device device_id) m.device_groups)) [
      | inl e ↦ rw (reindexed, e) (inr (_, refl))
      | inr ((iccid, group), e) ↦
          rw (reindexed, e) (reverified-IsSettled (store_index device_id iccid m) device_id)
    ]

ensure-IsSettled :
    (m : TcpManager) (device_id : Bytes) → IsSettled device_id (ensure_index m device_id)
unfolding repair_device_index
ensure-IsSettled m device_id = elim (validate_cases m device_id) [
  | inl (a, route) ↦ rw a (inl (refl, route))
  | inr (e, a) ↦ rw a (reindexed-IsSettled m device_id)
]

-- The beat of a device that the index leads to.
beat-Route :
    (m : TcpManager) (device_id : Bytes) (now : ℕ)
    → Route m device_id
    → (device : Device) × (get_device_by_id m device_id ≡ some device)
      × (get_device_by_id (beat_indexed m device_id now).0 device_id ≡ some (beaten now device))
      × ((beat_indexed m device_id now).1 ≡ ok tt)
beat-Route m device_id now route =
    let m2 = beat m device_id route.iccid route.group now in
    let done : beat_indexed m device_id now ≡ (m2, ok tt) =
      rw (beat_indexed, route.at_index, route.at_group, route.at_device) refl in
    (
      route.device,
      found_device m device_id route.iccid route.group route.device route.at_index route.at_group
          route.at_device,
      ap (λ (r : Outcome). get_device_by_id r.0 device_id) done
          ∙ found_device m2 device_id route.iccid (beaten_group device_id now route.group)
              (beaten now route.device) route.at_index
              (lookup-adjust-some route.iccid (beaten_group device_id now) m.device_groups
                route.group route.at_group)
              (lookup-adjust-some device_id (beaten now) route.group.devices route.device
                route.at_device),
      ap (λ (r : Outcome). r.1) done,
    )

-- What the beat does where the index is looked at again: the device that is found gets it; without
-- the device it returns an error, or panics where a group has the device and the index does not.
abbrev pub BeatOutcome : TcpManager → Bytes → ℕ → Outcome → Type 0
BeatOutcome m device_id now r =
    ((device : Device) × (get_device_by_id m device_id ≡ some device)
      × (get_device_by_id r.0 device_id ≡ some (beaten now device))
      × (r.1 ≡ ok tt))
    ⊎ ((get_device_by_id m device_id ≡ none)
        × ((IsErr r.1
              × (r.0 ≡ m)
              × ((is_some (lookup device_id m.device_index) ≡ true)
                  ⊎ (find_first (has_device device_id) m.device_groups ≡ none)))
            ⊎ ((r.1 ≡ panic)
                × (lookup device_id m.device_index ≡ none)
                × (is_some (find_first (has_device device_id) m.device_groups) ≡ true))))

beat_indexed-BeatOutcome :
    (m : TcpManager) (device_id : Bytes) (now : ℕ)
    → BeatOutcome m device_id now (beat_indexed m device_id now)
unfolding get_device_by_id
beat_indexed-BeatOutcome m device_id now = elim (Option-cases (lookup device_id m.device_index)) [
  | inl a ↦ elim (Option-cases (find_first (has_device device_id) m.device_groups)) [
    | inl b ↦
        rw (beat_indexed, index_lost, get_device_by_id, a, b) (inr (refl, inl (tt, refl, inr refl)))
    | inr (p, b) ↦
        rw (beat_indexed, index_lost, get_device_by_id, a, b) (inr (refl, inr (refl, refl, refl)))
  ]
  | inr (iccid, a) ↦ elim (Option-cases (lookup iccid m.device_groups)) [
    | inl b ↦ rw (beat_indexed, get_device_by_id, a, b) (inr (refl, inl (tt, refl, inl refl)))
    | inr (group, b) ↦ elim (Option-cases (lookup device_id group.devices)) [
      | inl c ↦ rw (beat_indexed, get_device_by_id, a, b, c) (inr (refl, inl (tt, refl, inl refl)))
      | inr (device, c) ↦ inl (
          beat-Route m device_id now (record {
            iccid = iccid;
            group = group;
            device = device;
            at_index = a;
            at_group = b;
            at_device = c;
          }))
    ]
  ]
]

settled_beat :
    (between : TcpManager → TcpManager) (device_id : Bytes) (now : ℕ) (r : Outcome)
    → IsSettled device_id r
    → (IsErr r.1 × IsErr (beat_ensured between device_id now r).1)
      ⊎ ((r.1 ≡ ok tt)
          × (is_some (lookup device_id r.0.device_index) ≡ true)
          × BeatOutcome (between r.0) device_id now (beat_ensured between device_id now r))
settled_beat between device_id now (m, ok x) (inl (a, route)) =
    inr (a, ap is_some route.at_index, beat_indexed-BeatOutcome (between m) device_id now)
settled_beat between device_id now (m, ok x) (inr (e, a)) = absurd (err-ne-ok a refl)
settled_beat between device_id now (m, err e) s = inl (tt, tt)
settled_beat between device_id now (m, panic) (inl (a, route)) = cc
settled_beat between device_id now (m, panic) (inr (e, a)) = cc

-- Where the entry of the index can be neither confirmed nor repaired, a heartbeat returns an error.
-- Everywhere else the entry is there after the check, and then, whatever other goroutines do before
-- the index is looked at again: the device that is found is online, with the time of the beat and
-- one more beat counted; where it is not found, the heartbeat returns an error and changes nothing,
-- save that it panics exactly where the entry has gone while some group still has the device.
pub update_heartbeat_lem :
    (between : TcpManager → TcpManager) (m : TcpManager) (device_id : Bytes) (now : ℕ)
    → (IsErr (ensure_index m device_id).1 × IsErr (update_heartbeat between m device_id now).1)
      ⊎ (((ensure_index m device_id).1 ≡ ok tt)
          × (is_some (lookup device_id (ensure_index m device_id).0.device_index) ≡ true)
          × BeatOutcome
              (between (ensure_index m device_id).0)
              device_id
              now
              (update_heartbeat between m device_id now))
unfolding update_heartbeat
update_heartbeat_lem between m device_id now =
    settled_beat between device_id now (ensure_index m device_id) (ensure-IsSettled m device_id)
