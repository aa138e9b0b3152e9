-- ===== src/Tests/OrderRuns.antt =====
-- The order manager on a concrete port.
use iot_zinx.Shared.{
  ℕ, ◌≡◌, ◌↔◌, ◌⊎◌, refl, arith, Bytes, bytes_eq, [], ◌∷◌, true, some, ok, IsOk, inl, All,
}
use iot_zinx.Shared.Table.{lookup, insert}
use iot_zinx.Shared.Sweep.{Removes}
use iot_zinx.Orders.Key.{make_order_key, make_order_key-injective}
use iot_zinx.Orders.Manager.{
  OrderState, Orders, new_order, create_order, get_order, is_active, list_active_orders,
  validate_order_for_stop, cleanup_expired_orders,
}
use iot_zinx.Orders.Invariant.{OrdersReachable, OrderStep, new_manager, after, by_create, IsApart}
use iot_zinx.Orders.Effects.{
  IsNotInWay, create_order_iff, create_order_get, validate_order_for_stop_iff,
}
use iot_zinx.Orders.Expiry.{IsDue, cleanup_expired_get}
use iot_zinx.Orders.Lasting.{MayRemove, IsSameOrder, active_order_kept}

abbrev sample_device : Bytes
sample_device = 0x41 ∷ 0x42 ∷ []

abbrev first_number : Bytes
first_number = 0x31 ∷ []

abbrev second_number : Bytes
second_number = 0x32 ∷ []

abbrev one_order : Orders
one_order =
    insert (make_order_key sample_device 1) (new_order sample_device 1 first_number 0 60 100 10) []

abbrev two_orders : Orders
two_orders =
    insert (make_order_key sample_device 2) (new_order sample_device 2 second_number 0 60 100 20)
      one_order

first_created : create_order [] sample_device 1 first_number 0 60 100 10 ≡ ok one_order
unfolding create_order lookup
first_created = refl

second_created : create_order one_order sample_device 2 second_number 0 60 100 20 ≡ ok two_orders
unfolding create_order lookup insert make_order_key
second_created = refl

one_reached : OrdersReachable one_order
one_reached =
    after [] one_order new_manager
      (by_create [] one_order sample_device 1 first_number 0 60 100 10 first_created)

second_step : OrderStep one_order two_orders
second_step =
    by_create one_order two_orders sample_device 2 second_number 0 60 100 20 second_created

two_reached : OrdersReachable two_orders
two_reached = after one_order two_orders one_reached second_step

first_found :
    get_order one_order sample_device 1 ≡ some (new_order sample_device 1 first_number 0 60 100 10)
unfolding get_order lookup insert make_order_key
first_found = refl

two_ne_one : ¬ ((sample_device ≡ sample_device) × ◌≡◌ {A = ℕ} 2 1)
two_ne_one h = absurd (differ h.1)
  where
    differ : ◌≡◌ {A = ℕ} 2 1 → ⊥
    differ e = omega arith

active_order_kept_example :
    IsSameOrder
      (MayRemove one_order two_orders second_step)
      (new_order sample_device 1 first_number 0 60 100 10)
      (get_order two_orders sample_device 1)
    × IsApart (list_active_orders two_orders)
unfolding new_order
active_order_kept_example =
    active_order_kept one_order two_orders second_step sample_device 1
      (new_order sample_device 1 first_number 0 60 100 10) one_reached first_found (inl refl)

create_order_iff_example :
    IsOk (create_order two_orders sample_device 1 second_number 0 60 100 30)
    ↔ All (IsNotInWay sample_device 1) two_orders
create_order_iff_example =
    create_order_iff two_orders sample_device 1 second_number 0 60 100 30 two_reached

create_order_get_example :
    (get_order two_orders sample_device 2
      ≡ some (new_order sample_device 2 second_number 0 60 100 20))
    × (get_order two_orders sample_device 1 ≡ get_order one_order sample_device 1)
create_order_get_example =
    create_order_get one_order sample_device 2 second_number 0 60 100 20 two_orders sample_device 1
      second_created two_ne_one

validate_order_for_stop_iff_example :
    IsOk (validate_order_for_stop two_orders sample_device 1 first_number) ↔ (
      (order : OrderState) × ((get_order two_orders sample_device 1 ≡ some order)
        × (is_active order.status ≡ true)
        × ((first_number ≡ []) ⊎ (order.order_no ≡ first_number))))
validate_order_for_stop_iff_example =
    validate_order_for_stop_iff two_orders sample_device 1 first_number

-- Half an hour and a nanosecond after the last update.
cleanup_expired_get_example :
    Removes
      (IsDue 1800000000011)
      (get_order two_orders sample_device 1)
      (get_order (cleanup_expired_orders 1800000000011 two_orders) sample_device 1)
cleanup_expired_get_example =
    cleanup_expired_get two_orders 1800000000011 sample_device 1 two_reached

make_order_key-injective_example : (sample_device ≡ sample_device) × ◌≡◌ {A = ℕ} 12 12
make_order_key-injective_example = make_order_key-injective sample_device 12 sample_device 12 refl
