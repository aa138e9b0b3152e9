-- ===== src/Tests/PortRuns.antt =====
-- The port manager on a device that leaves a port, and its numbers of ports.
use iot_zinx.Shared.{◌≡◌, refl, [], ◌∷◌, Bytes, some, ok}
use iot_zinx.Shared.Table.{lookup, insert}
use iot_zinx.Orders.Key.{make_order_key}
use iot_zinx.Ports.Manager.{
  PortManager, StatusChange, new_port_manager, api_to_protocol, protocol_to_api, update_port_state,
  store_port_state, update_device_port_mapping, get_device_ports, trigger_status_change_callbacks,
  updated_state, port_charging, port_idle,
}
use iot_zinx.Ports.Tables.{PortInvariant, PortReachable, new_manager, after, by_update}
use iot_zinx.Ports.Agree.{ports_agree}

abbrev two_ports : PortManager
two_ports = new_port_manager 2

abbrev device_1 : Bytes
device_1 = 0x31 ∷ []

abbrev device_2 : Bytes
device_2 = 0x32 ∷ []

abbrev started : StatusChange
started = record {
  device_id = device_1;
  port_number = 1;
  old_status = port_idle;
  new_status = port_charging;
}

abbrev charging : PortManager
charging =
    (trigger_status_change_callbacks (store_port_state two_ports 1 port_charging device_1 [] 5)
      started 5).0

is_charging_now :
    update_port_state two_ports 1 port_charging device_1 [] 5 ≡ ok (charging, some started)
unfolding update_port_state store_port_state new_port_manager lookup insert
    update_device_port_mapping get_device_ports trigger_status_change_callbacks updated_state
    make_order_key
is_charging_now = refl

charging-PortReachable : PortReachable charging
charging-PortReachable =
    after two_ports charging (new_manager 2)
      (by_update two_ports charging 1 port_charging device_1 [] 5 (some started) is_charging_now)

ports_agree_example : PortInvariant charging
ports_agree_example = ports_agree charging charging-PortReachable

-- The port is given to another device, and the first one keeps it in its list.
still_listed :
    get_device_ports (store_port_state charging 1 port_idle device_2 [] 9) device_1 ≡ 1 ∷ []
unfolding store_port_state new_port_manager lookup insert update_device_port_mapping
    get_device_ports trigger_status_change_callbacks updated_state make_order_key
still_listed = refl

-- The last port of the protocol and back.
last_port : api_to_protocol 48 ≡ ok 47
unfolding api_to_protocol
last_port = refl

back_again : protocol_to_api (new_port_manager 48) 47 ≡ ok 48
unfolding protocol_to_api new_port_manager
back_again = refl
