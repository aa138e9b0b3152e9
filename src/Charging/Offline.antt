-- ===== src/Charging/Offline.antt =====
-- What the clean-up of offline devices removes and what it keeps.
use iot_zinx.Shared.{
  ℕ, ◌+◌, ◌≡◌, refl, inl, inr, Bytes, bytes_eq, List, [], ◌∷◌, Bool, false, not, Option, none, some,
  Option-cases, All, ok,
}
use iot_zinx.Shared.Table.{lookup, insert, erase, lookup-insert_self, lookup-insert_ne}
use iot_zinx.Shared.Keys.{IsDistinct, erase-All, lookup-All, erase_absent}
use iot_zinx.Shared.Sweep.{keys_where, erase_keys, spared, sweep-lookup}
use iot_zinx.Orders.Key.{make_order_key, make_order_key-injective}
use iot_zinx.Charging.Machine.{Machine, new_machine, close}
use iot_zinx.Charging.Machines.{
  Machines, get_or_create_state_machine, get_state_machine, close_and_delete, delete_all,
  cleanup_offline_devices,
}

-- No machine of the table is closed.
abbrev pub AllOpen : Machines → Type 0
AllOpen smm = All (λ (p : Bytes × Machine). p.1.closed ≡ false) smm

-- An open machine is closed without a panic.
deleted :
    (key : Bytes) (smm : Machines) (count : ℕ) (found : Option Machine)
    → lookup key smm ≡ found
    → AllOpen smm
    → (n : ℕ) × (close_and_delete key (smm, count) ≡ ok (erase key smm, n))
unfolding close_and_delete close
deleted key smm count none e h = (count, rw (close_and_delete, e, erase_absent key smm e) refl)
deleted key smm count (some sm) e h =
    let is_open = lookup-All (λ (p : Bytes × Machine). p.1.closed ≡ false) key sm smm h e in
    (count + 1, rw (close_and_delete, e, is_open) refl)

all_deleted :
    (keys : List Bytes) (smm : Machines) (count : ℕ)
    → AllOpen smm
    → (n : ℕ) × (delete_all keys (smm, count) ≡ ok (erase_keys keys smm, n))
all_deleted [] smm count h = (count, refl)
all_deleted (key ∷ keys) smm count h =
    let (next, e) = deleted key smm count (lookup key smm) refl h in
    let (n, e2) =
      all_deleted keys (erase key smm) next
        (erase-All (λ (p : Bytes × Machine). p.1.closed ≡ false) key smm h) in
    (n, rw e e2)

-- With each key once and no machine closed, the clean-up of offline devices does not panic: it
-- takes the machines of the devices that are not online out of the table, and keeps every other
-- machine as it is.
pub cleanup_offline_get :
    (online : Bytes → Bool) (smm : Machines) (device_id : Bytes) (port : ℕ)
    → IsDistinct smm
    → AllOpen smm
    → (smm2 : Machines) × (n : ℕ) × (cleanup_offline_devices online smm ≡ ok (smm2, n))
      × (get_state_machine smm2 device_id port
          ≡ spared (λ sm. not (online sm.device_id)) (get_state_machine smm device_id port))
unfolding cleanup_offline_devices get_state_machine
cleanup_offline_get online smm device_id port d h =
    let keys = keys_where (λ (sm : Machine). not (online sm.device_id)) smm in
    let (n, e) = all_deleted keys smm 0 h in
    (
      erase_keys keys smm,
      n,
      e,
      sweep-lookup (λ (sm : Machine). not (online sm.device_id)) (make_order_key device_id port) smm
          d,
    )

is_created :
    (smm : Machines) (device_id : Bytes) (port now : ℕ)
    → lookup (make_order_key device_id port) smm ≡ none
    → get_or_create_state_machine smm device_id port now ≡ (
      insert (make_order_key device_id port) (new_machine device_id port now) smm,
      new_machine device_id port now,
    )
unfolding get_or_create_state_machine
is_created smm device_id port now e = rw (get_or_create_state_machine, e) refl

is_found :
    (smm : Machines) (device_id : Bytes) (port now : ℕ) (sm : Machine)
    → lookup (make_order_key device_id port) smm ≡ some sm
    → get_or_create_state_machine smm device_id port now ≡ (smm, sm)
unfolding get_or_create_state_machine
is_found smm device_id port now sm e = rw (get_or_create_state_machine, e) refl

-- Asking for a machine twice gives the same machine; the second time the table stays as it is, and
-- the first time the machines of all other ports do.
get_or_create_again :
    (smm : Machines) (device_id : Bytes) (port now later : ℕ) (d : Bytes) (p : ℕ)
    → ¬ ((device_id ≡ d) × (port ≡ p))
    → (get_or_create_state_machine
          (get_or_create_state_machine smm device_id port now).0
          device_id
          port
          later
        ≡ get_or_create_state_machine smm device_id port now)
      × (get_state_machine (get_or_create_state_machine smm device_id port now).0 d p
          ≡ get_state_machine smm d p)
unfolding get_state_machine
get_or_create_again smm device_id port now later d p apart =
    let key = make_order_key device_id port in
    let sm = new_machine device_id port now in
    elim (Option-cases (lookup key smm)) [
      | inl e ↦
          let first = is_created smm device_id port now e in
          (
            rw first (
                is_found (insert key sm smm) device_id port later sm
                  (lookup-insert_self key sm smm)),
            rw first (
                lookup-insert_ne key (make_order_key d p) sm smm
                  (λ same. apart (make_order_key-injective device_id port d p same))),
          )
      | inr (found, e) ↦
          let first = is_found smm device_id port now found e in
          (rw first (is_found smm device_id port later found e), rw first refl)
    ]
