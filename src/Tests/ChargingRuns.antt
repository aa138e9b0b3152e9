-- ===== src/Tests/ChargingRuns.antt =====
-- The charging state machine on a concrete port.
use iot_zinx.Shared.{
  ℕ, ◌≡◌, ◌↔◌, ◌⊎◌, refl, Bytes, [], ◌∷◌, Bool, true, sym, bytes_eq, bytes_beq_iff, not, none,
  bytes_beq, ok, IsOk,
}
use iot_zinx.Shared.Sweep.{spared}
use iot_zinx.Charging.Machine.{
  plugged, charging, emergency_stop, idle, fault, user_request, Machine, Data, changed, new_machine,
  transition_to, handle_fault, handle_emergency_stop, can_stop_charging,
}
use iot_zinx.Charging.Accepts.{MayEnter, accepts_iff}
use iot_zinx.Charging.History.{WellFormed}
use iot_zinx.Charging.Runs.{Reachable, start, after, by_request, Reachable-WellFormed}
use iot_zinx.Charging.Control.{fault_always, emergency_iff, recovers}
use iot_zinx.Charging.Machines.{Machines, get_state_machine, cleanup_offline_devices}
use iot_zinx.Shared.Keys.{IsDistinct, true-ne-false}
use iot_zinx.Orders.Key.{make_order_key, make_order_key-injective}
use iot_zinx.Charging.Offline.{AllOpen, cleanup_offline_get}

abbrev no_data : Data
no_data = none

abbrev sample_device : Bytes
sample_device = 0x41 ∷ 0x42 ∷ []

abbrev fresh_machine : Machine
fresh_machine = new_machine sample_device 1 10

abbrev plugged_machine : Machine
plugged_machine = changed fresh_machine plugged user_request no_data 20

abbrev charging_machine : Machine
charging_machine = changed plugged_machine charging user_request no_data 30

plugs_in : transition_to fresh_machine plugged user_request no_data 20 ≡ ok plugged_machine
unfolding transition_to new_machine
plugs_in = refl

charges : transition_to plugged_machine charging user_request no_data 30 ≡ ok charging_machine
unfolding transition_to new_machine
charges = refl

charging_reached : Reachable charging_machine
charging_reached =
    after plugged_machine charging_machine
      (after fresh_machine plugged_machine (start sample_device 1 10)
        (by_request fresh_machine plugged_machine plugged user_request no_data 20 plugs_in))
      (by_request plugged_machine charging_machine charging user_request no_data 30 charges)

Reachable-WellFormed_example : WellFormed charging_machine
Reachable-WellFormed_example = Reachable-WellFormed charging_machine charging_reached

accepts_iff_example :
    IsOk (transition_to charging_machine emergency_stop user_request no_data 40) ↔ (
      (charging_machine.current_state ≡ emergency_stop)
      ⊎ MayEnter emergency_stop charging_machine.current_state)
accepts_iff_example = accepts_iff charging_machine emergency_stop user_request no_data 40

fault_always_example :
    (m2 : Machine) × (handle_fault charging_machine sample_device no_data 40 ≡ ok m2)
    × (m2.current_state ≡ fault)
fault_always_example = fault_always charging_machine sample_device no_data 40 charging_reached

emergency_iff_example : IsOk (handle_emergency_stop charging_machine sample_device no_data 40) ↔ (
    (can_stop_charging charging_machine ≡ true) ⊎ (charging_machine.current_state ≡ emergency_stop))
emergency_iff_example = emergency_iff charging_machine sample_device no_data 40

recovers_example :
    (m2 : Machine) × (m3 : Machine) × (handle_fault charging_machine sample_device no_data 40
      ≡ ok m2)
    × (transition_to m2 idle user_request no_data 50 ≡ ok m3)
    × (m3.current_state ≡ idle)
recovers_example =
    recovers charging_machine sample_device user_request no_data 40 50 charging_reached

abbrev other_device : Bytes
other_device = 0x43 ∷ []

abbrev two_machines : Machines
two_machines =
    (make_order_key sample_device 1, fresh_machine)
    ∷ (make_order_key other_device 1, new_machine other_device 1 10)
    ∷ []

two_keys : IsDistinct two_machines
two_keys =
    ((λ e. differ (make_order_key-injective other_device 1 sample_device 1 e).0, tt), (tt, tt))
  where
    differ : other_device ≡ sample_device → ⊥
    differ e = true-ne-false (sym ((bytes_beq_iff other_device sample_device).1 e))

two_open : AllOpen two_machines
unfolding new_machine
two_open = (refl, (refl, tt))

abbrev only_sample : Bytes → Bool
only_sample device_id = bytes_beq device_id sample_device

cleanup_offline_get_example :
    (smm2 : Machines) × (n : ℕ) × (cleanup_offline_devices only_sample two_machines ≡ ok (smm2, n))
    × (get_state_machine smm2 other_device 1
        ≡ spared
            (λ sm. not (only_sample sm.device_id))
            (get_state_machine two_machines other_device 1))
cleanup_offline_get_example =
    cleanup_offline_get only_sample two_machines other_device 1 two_keys two_open
