-- ===== src/Charging/Machines.antt =====
-- `StateMachineManager` of pkg/gateway/state_machine_manager.go: the machines by device and port.
-- A machine stands in the table by value; what a caller does through the pointer that it got is
-- written back by `with_machine`.
use iot_zinx.Shared.{
  ℕ, ◌+◌, Bytes, bytes_eq, ◌==◌, List, [], ◌∷◌, Bool, not, Option, none, some, Result, ok, ◌>>=◌,
  if◌then◌else◌,
}
use iot_zinx.Shared.Table.{lookup, insert, erase}
use iot_zinx.Shared.Sweep.{keys_where}
use iot_zinx.Orders.Key.{make_order_key}
use iot_zinx.Charging.Machine.{Machine, TransitionError, new_machine, close}

abbrev pub Machines : Type 0
Machines = List (Bytes × Machine)

unfoldable pub get_or_create_state_machine : Machines → Bytes → ℕ → ℕ → Machines × Machine
get_or_create_state_machine smm device_id port now =
    let key = make_order_key device_id port in
    elim (lookup key smm) [
      | some sm ↦ (smm, sm)
      | none ↦ let sm = new_machine device_id port now in (insert key sm smm, sm)
    ]

unfoldable pub get_state_machine : Machines → Bytes → ℕ → Option Machine
get_state_machine smm device_id port = lookup (make_order_key device_id port) smm

unfoldable pub with_machine : Machines → Bytes → ℕ → Machine → Machines
with_machine smm device_id port sm = insert (make_order_key device_id port) sm smm

-- `if sm, exists := ...; exists { sm.Close(); delete(...); count++ }`.
unfoldable pub close_and_delete : Bytes → Machines × ℕ → Result TransitionError (Machines × ℕ)
close_and_delete key (smm, count) = elim (lookup key smm) [
  | none ↦ ok (smm, count)
  | some sm ↦ do closed_machine ← close sm; ok (erase key smm, count + 1)
]

unfoldable pub remove_state_machine : Machines → Bytes → ℕ → Result TransitionError Machines
remove_state_machine smm device_id port = do
  result ← close_and_delete (make_order_key device_id port) (smm, 0)
  ok (result.0)

unfoldable pub get_device_state_machines : Machines → Bytes → List Machine
get_device_state_machines [] device_id = []
get_device_state_machines ((key, sm) ∷ smm) device_id =
    let rest = get_device_state_machines smm device_id in
    if sm.device_id == device_id then sm ∷ rest else rest

abbrev pub delete_all : List Bytes → Machines × ℕ → Result TransitionError (Machines × ℕ)
delete_all [] state = ok state
delete_all (key ∷ keys) state = do next ← close_and_delete key state; delete_all keys next

unfoldable pub cleanup_offline_devices :
    (Bytes → Bool) → Machines → Result TransitionError (Machines × ℕ)
cleanup_offline_devices online smm =
    delete_all (keys_where (λ sm. not (online sm.device_id)) smm) (smm, 0)

abbrev pub close_all : Machines → Result TransitionError (Unit {0})
close_all [] = ok tt
close_all ((key, sm) ∷ smm) = do closed_machine ← close sm; close_all smm

unfoldable pub shutdown : Machines → Result TransitionError Machines
shutdown smm = do done ← close_all smm; ok []
