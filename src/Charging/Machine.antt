-- ===== src/Charging/Machine.antt =====
-- `ChargingStateMachine` of pkg/gateway/charging_state_machine.go. A call takes the machine and gives
-- back the machine that the mutex releases; `now` is the reading of the clock.
use iot_zinx.Shared.{
  ℕ, zero, suc, Bytes, bytes_eq, List, [], ◌∷◌, ◌++◌, Bool, true, false, ◌||◌, Option, none, some,
  length, drop, get_elem?, Result, ok, err, panic, ltb, nat_beq, if◌then◌else◌,
}
use iot_zinx.Shared.Table.{insert}

-- `other n` is the integer `7 + n`, which has no name in the source.
pub data ChargingState : Type 0 where
  idle plugged charging float_charging completed fault emergency_stop : ChargingState
  other : ℕ → ChargingState

abbrev pub state_number : ChargingState → ℕ
state_number idle = 0
state_number plugged = 1
state_number charging = 2
state_number float_charging = 3
state_number completed = 4
state_number fault = 5
state_number emergency_stop = 6
state_number (other n) = suc (suc (suc (suc (suc (suc (suc n))))))

abbrev pub state_beq : ChargingState → ChargingState → Bool
state_beq a b = nat_beq (state_number a) (state_number b)

pub data StateChangeReason : Type 0 where
  user_request device_response heartbeat timeout fault_reason emergency power_abnormal settlement :
      StateChangeReason

-- The values that the machine itself puts in a `map[string]interface{}`.
pub data DataValue : Type 0 where
  byte_value : ℕ → DataValue
  text_value : Bytes → DataValue

-- `none` is the nil map.
abbrev pub Data : Type 0
Data = Option (List (Bytes × DataValue))

pub record StateChange : Type 0 where
  pub device_id : Bytes
  pub port : ℕ
  pub from_state : ChargingState
  pub to_state : ChargingState
  pub reason : StateChangeReason
  pub timestamp : ℕ
  pub order_no : Bytes
  pub details : Data

-- `in_flight` holds the events of the goroutines that have not sent yet; `state_changes` and
-- `closed` are the channel.
pub record Machine : Type 0 where
  pub current_state : ChargingState
  pub device_id : Bytes
  pub port : ℕ
  pub order_no : Bytes
  pub last_update : ℕ
  pub state_history : List StateChange
  pub in_flight : List StateChange
  pub state_changes : List StateChange
  pub closed : Bool

abbrev pub history_limit : ℕ
history_limit = 50

abbrev pub channel_capacity : ℕ
channel_capacity = 100

abbrev pub transitions : ChargingState → Option (List ChargingState)
transitions idle = some (plugged ∷ fault ∷ [])
transitions plugged = some (charging ∷ idle ∷ fault ∷ [])
transitions charging = some (float_charging ∷ completed ∷ fault ∷ emergency_stop ∷ idle ∷ [])
transitions float_charging = some (completed ∷ fault ∷ emergency_stop ∷ [])
transitions completed = some (idle ∷ fault ∷ [])
transitions fault = some (idle ∷ [])
transitions emergency_stop = some (idle ∷ fault ∷ [])
transitions (other n) = none

unfoldable pub new_machine : Bytes → ℕ → ℕ → Machine
new_machine device_id port now = record {
  current_state = idle;
  device_id = device_id;
  port = port;
  order_no = [];
  last_update = now;
  state_history = [];
  in_flight = [];
  state_changes = [];
  closed = false;
}

pub data TransitionError : Type 0 where
  no_rules : ChargingState → TransitionError
  not_allowed : ChargingState → ChargingState → TransitionError

abbrev pub contains : ChargingState → List ChargingState → Bool
contains s [] = false
contains s (a ∷ allowed) = state_beq a s || contains s allowed

-- Past 50 entries the oldest goes.
unfoldable pub add_to_history : StateChange → List StateChange → List StateChange
add_to_history c history =
    let history2 = history ++ (c ∷ []) in
    if ltb history_limit (length history2) then drop 1 history2 else history2

abbrev pub change_of : Machine → ChargingState → StateChangeReason → Data → ℕ → StateChange
change_of m new_state reason details now = record {
  device_id = m.device_id;
  port = m.port;
  from_state = m.current_state;
  to_state = new_state;
  reason = reason;
  timestamp = now;
  order_no = m.order_no;
  details = details;
}

abbrev pub changed : Machine → ChargingState → StateChangeReason → Data → ℕ → Machine
changed m new_state reason details now =
    let change = change_of m new_state reason details now in
    record m {
      current_state = new_state;
      last_update = now;
      state_history = add_to_history change m.state_history;
      in_flight = m.in_flight ++ (change ∷ []);
    }

abbrev pub checked :
    Machine
    → ChargingState
    → StateChangeReason
    → Data
    → ℕ
    → Option (List ChargingState)
    → Result TransitionError Machine
checked m new_state reason details now none = err (no_rules m.current_state)
checked m new_state reason details now (some allowed) =
    if contains new_state allowed
    then ok (changed m new_state reason details now)
    else err (not_allowed m.current_state new_state)

unfoldable pub transition_to :
    Machine → ChargingState → StateChangeReason → Data → ℕ → Result TransitionError Machine
transition_to m new_state reason details now =
    if state_beq m.current_state new_state
    then ok m
    else checked m new_state reason details now (transitions m.current_state)

-- `if data == nil { data = make(...) }; data[key] = value`. The caller's map is not modelled.
abbrev pub put_data : Bytes → DataValue → Data → Data
put_data key value none = some (insert key value [])
put_data key value (some entries) = some (insert key value entries)

-- "unknown_protocol_status", "emergency_reason" and "fault_code".
abbrev pub unknown_status_key : Bytes
unknown_status_key =
    117 ∷ 110 ∷ 107 ∷ 110 ∷ 111 ∷ 119 ∷ 110 ∷ 95 ∷ 112 ∷ 114 ∷ 111 ∷ 116 ∷ 111 ∷ 99 ∷ 111 ∷ 108 ∷ 95
    ∷ 115 ∷ 116 ∷ 97 ∷ 116 ∷ 117 ∷ 115 ∷ []

abbrev pub emergency_reason_key : Bytes
emergency_reason_key =
    101 ∷ 109 ∷ 101 ∷ 114 ∷ 103 ∷ 101 ∷ 110 ∷ 99 ∷ 121 ∷ 95 ∷ 114 ∷ 101 ∷ 97 ∷ 115 ∷ 111 ∷ 110 ∷ []

abbrev pub fault_code_key : Bytes
fault_code_key = 102 ∷ 97 ∷ 117 ∷ 108 ∷ 116 ∷ 95 ∷ 99 ∷ 111 ∷ 100 ∷ 101 ∷ []

-- The switch: any other code is a fault, with the code noted in the data.
abbrev pub known_status : ℕ → Option ChargingState
known_status n =
    if nat_beq n 0
    then some idle
    else (if nat_beq n 1
        then some charging
        else (if nat_beq n 2
            then some plugged
            else (if nat_beq n 3
                then some completed
                else (if nat_beq n 5 then some float_charging else none))))

unfoldable pub process_protocol_status :
    Machine → ℕ → StateChangeReason → Data → ℕ → Result TransitionError Machine
process_protocol_status m n reason details now = elim (known_status n) [
  | some target ↦ transition_to m target reason details now
  | none ↦ transition_to m fault reason (put_data unknown_status_key (byte_value n) details) now
]

unfoldable pub handle_emergency_stop : Machine → Bytes → Data → ℕ → Result TransitionError Machine
handle_emergency_stop m reason details now =
    transition_to m emergency_stop emergency
      (put_data emergency_reason_key (text_value reason) details) now

unfoldable pub handle_fault : Machine → Bytes → Data → ℕ → Result TransitionError Machine
handle_fault m code details now =
    transition_to m fault fault_reason (put_data fault_code_key (text_value code) details) now

abbrev pub set_order_no : Bytes → Machine → Machine
set_order_no order_no m = record m { order_no = order_no }

abbrev pub remove_at {ℓ} : {A : Type ℓ} → ℕ → List A → List A
remove_at i [] = []
remove_at zero (x ∷ xs) = xs
remove_at (suc i) (x ∷ xs) = x ∷ remove_at i xs

-- The `i`-th waiting goroutine sends its event, or drops it when the channel is full; a send on a
-- closed channel panics.
abbrev pub sent : Machine → ℕ → Option StateChange → Result TransitionError Machine
sent m i none = ok m
sent m i (some change) =
    let m1 = record m { in_flight = remove_at i m.in_flight } in
    if m.closed
    then panic
    else (if ltb (length m.state_changes) channel_capacity
        then ok (record m1 { state_changes = m.state_changes ++ (change ∷ []) })
        else ok m1)

unfoldable pub send_event : Machine → ℕ → Result TransitionError Machine
send_event m i = sent m i (get_elem? m.in_flight i)

-- A listener takes an event.
unfoldable pub receive_event : Machine → Machine
receive_event m = record m { state_changes = drop 1 m.state_changes }

-- Closing a closed channel panics.
unfoldable pub close : Machine → Result TransitionError Machine
close m = if m.closed then panic else ok (record m { closed = true })

abbrev pub is_charging : Machine → Bool
is_charging m = state_beq m.current_state charging || state_beq m.current_state float_charging

abbrev pub can_start_charging : Machine → Bool
can_start_charging m = state_beq m.current_state idle || state_beq m.current_state plugged

abbrev pub can_stop_charging : Machine → Bool
can_stop_charging m = state_beq m.current_state charging || state_beq m.current_state float_charging
