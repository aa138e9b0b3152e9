-- ===== src/Orders/Manager.antt =====
-- `OrderManager`: the table of orders and its operations. A time is a number of nanoseconds; `now`
-- is the reading of the clock.
use iot_zinx.Shared.{
  ℕ, ◌+◌, ◌-◌, Bytes, bytes_eq, ◌==◌, List, [], ◌∷◌, Bool, true, false, not, ◌&&◌, Option, none,
  some, length, Result, ok, err, reject, ◌>>◌, ltb, if◌then◌else◌,
}
use iot_zinx.Shared.Table.{lookup, insert, erase}
use iot_zinx.Shared.Sweep.{keys_where, erase_keys}
use iot_zinx.Orders.Key.{make_order_key}

-- `other n` is an integer that has no name in the source.
pub data OrderStatus : Type 0 where
  pending charging completed cancelled failed : OrderStatus
  other : ℕ → OrderStatus

pub record OrderState : Type 0 where
  pub order_no : Bytes
  pub status : OrderStatus
  pub device_id : Bytes
  pub port : ℕ
  pub mode : ℕ
  pub value : ℕ
  pub balance : ℕ
  pub start_time : ℕ
  pub end_time : Option ℕ
  pub last_update : ℕ
  pub error_reason : Bytes

abbrev pub Orders : Type 0
Orders = List (Bytes × OrderState)

pub data OrderError : Type 0 where
  order_in_progress : Bytes → ℕ → Bytes → OrderStatus → OrderError
  order_not_found : Bytes → OrderError
  no_order : Bytes → ℕ → OrderError
  status_forbids_stop : Bytes → ℕ → Bytes → OrderStatus → OrderError
  order_mismatch : Bytes → ℕ → Bytes → Bytes → OrderError

abbrev pub is_active : OrderStatus → Bool
is_active pending = true
is_active charging = true
is_active _ = false

abbrev pub is_finished : OrderStatus → Bool
is_finished completed = true
is_finished cancelled = true
is_finished failed = true
is_finished _ = false

unfoldable pub new_order : Bytes → ℕ → Bytes → ℕ → ℕ → ℕ → ℕ → OrderState
new_order device_id port order_no mode value balance now = record {
  order_no = order_no;
  status = pending;
  device_id = device_id;
  port = port;
  mode = mode;
  value = value;
  balance = balance;
  start_time = now;
  end_time = none;
  last_update = now;
  error_reason = [];
}

-- `if existing, exists := ...; exists { if active { return err } }`.
abbrev pub in_progress : Bytes → ℕ → Option OrderState → Result OrderError (Unit {0})
in_progress device_id port none = ok tt
in_progress device_id port (some existing) =
    reject (is_active existing.status)
      (order_in_progress device_id port existing.order_no existing.status)

unfoldable pub create_order : Orders → Bytes → ℕ → Bytes → ℕ → ℕ → ℕ → ℕ → Result OrderError Orders
create_order om device_id port order_no mode value balance now = do
  let key = make_order_key device_id port
  in_progress device_id port (lookup key om)
  ok (insert key (new_order device_id port order_no mode value balance now) om)

abbrev pub is_empty : Bytes → Bool
is_empty [] = true
is_empty (x ∷ xs) = false

unfoldable pub updated : OrderState → OrderStatus → Bytes → ℕ → OrderState
updated order status reason now = record order {
  status = status;
  last_update = now;
  error_reason = if is_empty reason then order.error_reason else reason;
  end_time = if is_finished status then some now else order.end_time;
}

unfoldable pub update_order_status :
    Orders → Bytes → ℕ → OrderStatus → Bytes → ℕ → Result OrderError Orders
update_order_status om device_id port status reason now =
    let key = make_order_key device_id port in
    elim (lookup key om) [
      | none ↦ err (order_not_found key)
      | some order ↦ ok (insert key (updated order status reason now) om)
    ]

unfoldable pub get_order : Orders → Bytes → ℕ → Option OrderState
get_order om device_id port = lookup (make_order_key device_id port) om

-- The first in the map's iteration order.
unfoldable pub get_order_by_order_no : Orders → Bytes → Option OrderState
get_order_by_order_no [] order_no = none
get_order_by_order_no ((key, order) ∷ om) order_no =
    if order.order_no == order_no then some order else get_order_by_order_no om order_no

unfoldable pub validate_order_for_stop : Orders → Bytes → ℕ → Bytes → Result OrderError (Unit {0})
validate_order_for_stop om device_id port order_no = elim (get_order om device_id port) [
  | none ↦ err (no_order device_id port)
  | some order ↦ do
    reject (not (is_active order.status))
        (status_forbids_stop device_id port order.order_no order.status)
    reject (not (is_empty order_no) && not (order.order_no == order_no))
        (order_mismatch device_id port order.order_no order_no)
    ok tt
]

unfoldable pub cleanup_order : Orders → Bytes → ℕ → Orders
cleanup_order om device_id port = erase (make_order_key device_id port) om

unfoldable pub list_active_orders : Orders → List OrderState
list_active_orders [] = []
list_active_orders ((key, order) ∷ om) =
    let rest = list_active_orders om in if is_active order.status then order ∷ rest else rest

pub record OrderStats : Type 0 where
  pub total : ℕ
  pub pending_count : ℕ
  pub charging_count : ℕ
  pub completed_count : ℕ
  pub cancelled_count : ℕ
  pub failed_count : ℕ

abbrev pub counted : OrderStatus → OrderStats → OrderStats
counted pending stats = record stats { pending_count = stats.pending_count + 1 }
counted charging stats = record stats { charging_count = stats.charging_count + 1 }
counted completed stats = record stats { completed_count = stats.completed_count + 1 }
counted cancelled stats = record stats { cancelled_count = stats.cancelled_count + 1 }
counted failed stats = record stats { failed_count = stats.failed_count + 1 }
counted (other n) stats = stats

abbrev pub count_orders : Orders → OrderStats → OrderStats
count_orders [] stats = stats
count_orders ((key, order) ∷ om) stats = count_orders om (counted order.status stats)

unfoldable pub get_order_stats : Orders → OrderStats
get_order_stats om = count_orders om (record {
  total = length om;
  pending_count = 0;
  charging_count = 0;
  completed_count = 0;
  cancelled_count = 0;
  failed_count = 0;
})

abbrev pub hour : ℕ
hour = 3600000000000

abbrev pub half_hour : ℕ
half_hour = 1800000000000

abbrev pub day : ℕ
day = 86400000000000

abbrev pub ended_before : ℕ → Option ℕ → Bool
ended_before now none = false
ended_before now (some end_time) = ltb hour (now - end_time)

unfoldable pub should_cleanup : ℕ → OrderState → Bool
should_cleanup now order = elim order.status [
  | pending ↦ ltb half_hour (now - order.last_update)
  | charging ↦ ltb day (now - order.start_time)
  | other n ↦ false
  | _ ↦ ended_before now order.end_time
]

unfoldable pub cleanup_expired_orders : ℕ → Orders → Orders
cleanup_expired_orders now om = erase_keys (keys_where (should_cleanup now) om) om
