-- ===== src/Orders/Invariant.antt =====
-- The table of orders: each key once, and each order under the key of its own device and port.
use iot_zinx.Shared.{
  ℕ, ◌≡◌, refl, sym, ◌∙◌, subst, inl, inr, Bytes, bytes_eq, List, [], ◌∷◌, Bool-cases, Option, none,
  some, All, Result, ok, ok-injective, err-ne-ok,
}
use iot_zinx.Shared.Table.{lookup, insert, erase}
use iot_zinx.Shared.Keys.{
  IsFresh, IsDistinct, insert-All, erase-All, insert-IsDistinct, erase-IsDistinct, lookup-All,
}
use iot_zinx.Shared.Sweep.{keys_where, erase_keys}
use iot_zinx.Orders.Key.{make_order_key}
use iot_zinx.Orders.Manager.{
  OrderStatus, OrderState, Orders, OrderError, is_active, new_order, create_order, updated,
  update_order_status, cleanup_order, list_active_orders, should_cleanup, cleanup_expired_orders,
}

abbrev pub IsKeyed : Bytes × OrderState → Type 0
IsKeyed p = p.0 ≡ make_order_key p.1.device_id p.1.port

pub record OrdersInvariant (om : Orders) : Type 0 where
  pub distinct : IsDistinct om
  pub keyed : All IsKeyed om

insert-Invariant :
    (key : Bytes) (order : OrderState) (om : Orders)
    → key ≡ make_order_key order.device_id order.port
    → OrdersInvariant om
    → OrdersInvariant (insert key order om)
insert-Invariant key order om e h = record {
  distinct = insert-IsDistinct key order om h.distinct;
  keyed = insert-All IsKeyed key order om e h.keyed;
}

erase-Invariant : (key : Bytes) (om : Orders) → OrdersInvariant om → OrdersInvariant (erase key om)
erase-Invariant key om h = record {
  distinct = erase-IsDistinct key om h.distinct;
  keyed = erase-All IsKeyed key om h.keyed;
}

erase_keys-Invariant :
    (keys : List Bytes) (om : Orders) → OrdersInvariant om → OrdersInvariant (erase_keys keys om)
erase_keys-Invariant [] om h = h
erase_keys-Invariant (key ∷ keys) om h =
    erase_keys-Invariant keys (erase key om) (erase-Invariant key om h)

orders_same : {a b : Orders} → ◌≡◌ {A = Result OrderError Orders} (ok a) (ok b) → a ≡ b
orders_same = ok-injective

-- One call of the manager that changes its table.
pub data OrderStep : Orders → Orders → Type 0 where
  by_create :
      (om om2 : Orders) (device_id : Bytes) (port : ℕ) (order_no : Bytes)
      (mode value balance now : ℕ)
      → create_order om device_id port order_no mode value balance now ≡ ok om2
      → OrderStep om om2
  by_update :
      (om om2 : Orders) (device_id : Bytes) (port : ℕ) (status : OrderStatus) (reason : Bytes)
      (now : ℕ)
      → update_order_status om device_id port status reason now ≡ ok om2
      → OrderStep om om2
  by_cleanup :
      (om : Orders) (device_id : Bytes) (port : ℕ) → OrderStep om (cleanup_order om device_id port)
  by_expiry : (om : Orders) (now : ℕ) → OrderStep om (cleanup_expired_orders now om)

pub data OrdersReachable : Orders → Type 0 where
  new_manager : OrdersReachable []
  after : (om om2 : Orders) → OrdersReachable om → OrderStep om om2 → OrdersReachable om2

module _ (om om2 : Orders) (h : OrdersInvariant om) where
  create-Invariant :
      (device_id : Bytes) (port : ℕ) (order_no : Bytes) (mode value balance now : ℕ)
      (found : Option OrderState)
      → lookup (make_order_key device_id port) om ≡ found
      → create_order om device_id port order_no mode value balance now ≡ ok om2
      → OrdersInvariant om2
  unfolding create_order new_order
  create-Invariant device_id port order_no mode value balance now none e k =
      subst OrdersInvariant (orders_same (rw (create_order, e) at k)) (
        insert-Invariant (make_order_key device_id port)
          (new_order device_id port order_no mode value balance now) om refl h)
  create-Invariant device_id port order_no mode value balance now (some order) e k =
      elim (Bool-cases (is_active order.status)) [
        | inl t ↦ absurd (err-ne-ok refl (rw (create_order, e, t) at k))
        | inr t ↦ subst OrdersInvariant (orders_same (rw (create_order, e, t) at k)) (
            insert-Invariant (make_order_key device_id port)
              (new_order device_id port order_no mode value balance now) om refl h)
      ]

  update-Invariant :
      (device_id : Bytes) (port : ℕ) (status : OrderStatus) (reason : Bytes) (now : ℕ)
      (found : Option OrderState)
      → lookup (make_order_key device_id port) om ≡ found
      → update_order_status om device_id port status reason now ≡ ok om2
      → OrdersInvariant om2
  unfolding update_order_status updated
  update-Invariant device_id port status reason now none e k =
      absurd (err-ne-ok refl (rw (update_order_status, e) at k))
  update-Invariant device_id port status reason now (some order) e k =
      subst OrdersInvariant (orders_same (rw (update_order_status, e) at k)) (
        insert-Invariant (make_order_key device_id port) (updated order status reason now) om
          (lookup-All IsKeyed (make_order_key device_id port) order om h.keyed e) h)

step-Invariant : (om om2 : Orders) → OrderStep om om2 → OrdersInvariant om → OrdersInvariant om2
unfolding cleanup_order cleanup_expired_orders
step-Invariant om om2 (by_create _ _ device_id port order_no mode value balance now e) h =
    create-Invariant om om2 h device_id port order_no mode value balance now _ refl e
step-Invariant om om2 (by_update _ _ device_id port status reason now e) h =
    update-Invariant om om2 h device_id port status reason now _ refl e
step-Invariant om om2 (by_cleanup _ device_id port) h =
    erase-Invariant (make_order_key device_id port) om h
step-Invariant om om2 (by_expiry _ now) h =
    erase_keys-Invariant (keys_where (should_cleanup now) om) om h

pub reachable-Invariant : (om : Orders) → OrdersReachable om → OrdersInvariant om
reachable-Invariant om new_manager = record { distinct = tt; keyed = tt }
reachable-Invariant om2 (after om _ r s) = step-Invariant om om2 s (reachable-Invariant om r)

-- Two orders on different ports.
abbrev pub IsElsewhere : OrderState → OrderState → Type 0
IsElsewhere a b = ¬ ((a.device_id ≡ b.device_id) × (a.port ≡ b.port))

abbrev pub IsApart : List OrderState → Type 0
IsApart [] = Unit {0}
IsApart (order ∷ orders) = All (IsElsewhere order) orders × IsApart orders

same_keys :
    (a b : OrderState)
    → (a.device_id ≡ b.device_id) × (a.port ≡ b.port)
    → make_order_key a.device_id a.port ≡ make_order_key b.device_id b.port
same_keys a b h = rw (h.0, h.1) refl

fresh-IsElsewhere :
    (key : Bytes) (order : OrderState) (om : Orders)
    → key ≡ make_order_key order.device_id order.port
    → IsFresh key om
    → All IsKeyed om
    → All (IsElsewhere order) (list_active_orders om)
unfolding list_active_orders
fresh-IsElsewhere key order [] e f h = tt
fresh-IsElsewhere key order ((key2, order2) ∷ om) e f h =
    elim (Bool-cases (is_active order2.status)) [
      | inl t ↦ rw t (
        λ same. f.0 (h.0 ∙ sym (e ∙ same_keys order order2 same)),
        fresh-IsElsewhere key order om e f.1 h.1,
      )
      | inr t ↦ rw t (fresh-IsElsewhere key order om e f.1 h.1)
    ]

active-IsApart : (om : Orders) → OrdersInvariant om → IsApart (list_active_orders om)
unfolding list_active_orders
active-IsApart [] h = tt
active-IsApart ((key, order) ∷ om) h =
    let rest = active-IsApart om (record { distinct = h.distinct.1; keyed = h.keyed.1 }) in
    elim (Bool-cases (is_active order.status)) [
      | inl t ↦ rw t (fresh-IsElsewhere key order om h.keyed.0 h.distinct.0 h.keyed.1, rest)
      | inr t ↦ rw t rest
    ]

-- Whatever calls create, update and clean up orders, no two of the active orders that are listed
-- stand on the same port of the same device.
pub one_active_order : (om : Orders) → OrdersReachable om → IsApart (list_active_orders om)
one_active_order om r = active-IsApart om (reachable-Invariant om r)
