-- ===== src/Ports/Manager.antt =====
-- The port manager of pkg/core/port_manager.go. A port is not negative; a status is its text, and
-- times are numbers of nanoseconds.
use iot_zinx.Shared.{
  ℕ, zero, suc, ◌+◌, ◌-◌, ◌/◌, Bytes, bytes_eq, bytes_beq, nat_eq, List, [], ◌∷◌, ◌++◌, Bool, true,
  false, not, ◌||◌, Option, none, some, Result, ok, err, ltb, nat_beq, if◌then◌else◌,
}
use iot_zinx.Shared.Table.{lookup, insert}
use iot_zinx.Orders.Key.{make_order_key}

abbrev pub port_idle : Bytes
port_idle = 0x69 ∷ 0x64 ∷ 0x6c ∷ 0x65 ∷ []

abbrev pub port_charging : Bytes
port_charging = 0x63 ∷ 0x68 ∷ 0x61 ∷ 0x72 ∷ 0x67 ∷ 0x69 ∷ 0x6e ∷ 0x67 ∷ []

abbrev pub port_error : Bytes
port_error = 0x65 ∷ 0x72 ∷ 0x72 ∷ 0x6f ∷ 0x72 ∷ []

abbrev pub min_port_number : ℕ
min_port_number = 1

abbrev pub max_port_number : ℕ
max_port_number = 48

pub record PortState : Type 0 where
  pub port_number : ℕ
  pub status : Bytes
  pub device_id : Bytes
  pub order_no : Bytes
  pub is_charging : Bool
  pub last_activity : ℕ

pub record PortManager : Type 0 where
  pub max_ports : ℕ
  pub port_states : List (ℕ × PortState)
  pub port_devices : List (ℕ × Bytes)
  pub device_ports : List (Bytes × List ℕ)
  pub debounce_interval : ℕ
  pub last_change_time : List (Bytes × ℕ)

-- What a callback is told.
pub record StatusChange : Type 0 where
  pub device_id : Bytes
  pub port_number : ℕ
  pub old_status : Bytes
  pub new_status : Bytes

pub data PortError : Type 0 where
  api_port_out_of_range protocol_port_out_of_range state_missing : ℕ → PortError

abbrev pub blank_state : ℕ → Bytes → PortState
blank_state port status = record {
  port_number = port;
  status = status;
  device_id = [];
  order_no = [];
  is_charging = false;
  last_activity = 0;
}

-- `n` ports from `first` on.
abbrev pub idle_ports : ℕ → ℕ → List (ℕ × PortState)
idle_ports first zero = []
idle_ports first (suc n) = (first, blank_state first port_idle) ∷ idle_ports (suc first) n

unfoldable pub new_port_manager : ℕ → PortManager
new_port_manager max_ports = record {
  max_ports = max_ports;
  port_states = idle_ports 0 max_ports;
  port_devices = [];
  device_ports = [];
  debounce_interval = 2000000000;
  last_change_time = [];
}

unfoldable pub set_debounce_interval : PortManager → ℕ → PortManager
set_debounce_interval pm interval = record pm { debounce_interval = interval }

unfoldable pub api_to_protocol : ℕ → Result PortError ℕ
api_to_protocol api_port =
    if ltb api_port min_port_number || ltb max_port_number api_port
    then err (api_port_out_of_range api_port)
    else ok (api_port - 1)

unfoldable pub protocol_to_api : PortManager → ℕ → Result PortError ℕ
protocol_to_api pm protocol_port =
    if ltb protocol_port pm.max_ports
    then ok (protocol_port + 1)
    else err (protocol_port_out_of_range protocol_port)

unfoldable pub get_port_state : PortManager → ℕ → Result PortError PortState
get_port_state pm protocol_port =
    if ltb protocol_port pm.max_ports
    then elim (lookup protocol_port pm.port_states) [
      | none ↦ err (state_missing protocol_port)
      | some state ↦ ok state
    ]
    else err (protocol_port_out_of_range protocol_port)

abbrev pub among : ℕ → List ℕ → Bool
among port [] = false
among port (p ∷ ports) = let rest = among port ports in if nat_beq p port then true else rest

-- The ports of a device that the map does not have are none.
unfoldable pub get_device_ports : PortManager → Bytes → List ℕ
get_device_ports pm device_id = elim (lookup device_id pm.device_ports) [
  | none ↦ []
  | some ports ↦ ports
]

unfoldable pub update_device_port_mapping : PortManager → Bytes → ℕ → PortManager
update_device_port_mapping pm device_id port =
    let ports = get_device_ports pm device_id in
    if among port ports
    then pm
    else record pm { device_ports = insert device_id (ports ++ (port ∷ [])) pm.device_ports }

abbrev pub is_recent : Option ℕ → ℕ → ℕ → Bool
is_recent none now interval = false
is_recent (some last_time) now interval = ltb (now - last_time) interval

-- The callbacks are told of the change, or the change comes too soon after the last one told.
unfoldable pub trigger_status_change_callbacks :
    PortManager → StatusChange → ℕ → PortManager × Option StatusChange
trigger_status_change_callbacks pm change now =
    let key = make_order_key change.device_id change.port_number in
    if is_recent (lookup key pm.last_change_time) now pm.debounce_interval
    then (pm, none)
    else (record pm { last_change_time = insert key now pm.last_change_time }, some change)

abbrev pub old_state : PortManager → ℕ → PortState
old_state pm port = elim (lookup port pm.port_states) [
  | none ↦ blank_state 0 []
  | some state ↦ state
]

-- `time.Now().Unix()` counts seconds.
unfoldable pub updated_state : PortState → Bytes → Bytes → Bytes → ℕ → PortState
updated_state old status device_id order_no now = record old {
  status = status;
  device_id = device_id;
  order_no = order_no;
  is_charging = bytes_beq status port_charging;
  last_activity = now / 1000000000;
}

abbrev pub is_nameless : Bytes → Bool
is_nameless [] = true
is_nameless (c ∷ name) = false

abbrev pub with_device : PortManager → Bytes → ℕ → PortManager
with_device pm device_id port =
    if is_nameless device_id
    then pm
    else update_device_port_mapping
        (record pm { port_devices = insert port device_id pm.port_devices }) device_id port

unfoldable pub store_port_state : PortManager → ℕ → Bytes → Bytes → Bytes → ℕ → PortManager
store_port_state pm port status device_id order_no now =
    with_device
      (record pm {
        port_states =
            insert port (updated_state (old_state pm port) status device_id order_no now)
              pm.port_states;
      })
      device_id port

unfoldable pub update_port_state :
    PortManager
    → ℕ
    → Bytes
    → Bytes
    → Bytes
    → ℕ
    → Result PortError (PortManager × Option StatusChange)
update_port_state pm port status device_id order_no now =
    let old_status = (old_state pm port).status in
    let stored = store_port_state pm port status device_id order_no now in
    let change : StatusChange = record {
      device_id = device_id;
      port_number = port;
      old_status = old_status;
      new_status = status;
    } in
    if not (ltb port pm.max_ports)
    then err (protocol_port_out_of_range port)
    else if bytes_beq old_status status
    then ok (stored, none)
    else ok (trigger_status_change_callbacks stored change now)

pub record PortStats : Type 0 where
  pub total_ports : ℕ
  pub port_counts : List (Bytes × ℕ)
  pub charging_ports : ℕ
  pub idle_count : ℕ
  pub error_ports : ℕ

abbrev pub next_count : Option ℕ → ℕ
next_count none = 1
next_count (some count) = count + 1

abbrev pub add_when : Bool → ℕ → ℕ
add_when true n = n + 1
add_when false n = n

unfoldable pub count_port : PortState → PortStats → PortStats
count_port state stats = record stats {
  port_counts =
      insert state.status (next_count (lookup state.status stats.port_counts)) stats.port_counts;
  charging_ports = add_when (bytes_beq state.status port_charging) stats.charging_ports;
  idle_count = add_when (bytes_beq state.status port_idle) stats.idle_count;
  error_ports = add_when (bytes_beq state.status port_error) stats.error_ports;
}

abbrev pub count_ports : List (ℕ × PortState) → PortStats → PortStats
count_ports [] stats = stats
count_ports ((port, state) ∷ states) stats = count_ports states (count_port state stats)

unfoldable pub get_port_stats : PortManager → PortStats
get_port_stats pm = count_ports pm.port_states (record {
  total_ports = pm.max_ports;
  port_counts = [];
  charging_ports = 0;
  idle_count = 0;
  error_ports = 0;
})
