-- ===== src/Orders/Lasting.antt =====
-- An order that is under way keeps its port: what each call may do to it.
use iot_zinx.Shared.{
  ℕ, ◌≡◌, refl, sym, ap, ◌∙◌, subst, inl, inr, ◌⊎◌, ◌≢◌, Bytes, bytes_eq, bytes_beq_iff, ◌==◌, true,
  false, Bool-cases, Option, none, some, Result, ok, ok-injective, err-ne-ok,
}
use iot_zinx.Shared.Table.{
  lookup, insert, erase, lookup-insert_self, lookup-insert_ne, lookup-erase_self, lookup-erase_ne,
}
use iot_zinx.Shared.Keys.{true-ne-false, some-injective}
use iot_zinx.Shared.Sweep.{sweep-lookup}
use iot_zinx.Orders.Key.{make_order_key}
use iot_zinx.Orders.Manager.{
  OrderStatus, pending, charging, OrderState, Orders, OrderError, is_active, new_order,
  create_order, updated, update_order_status, get_order, cleanup_order, list_active_orders,
  should_cleanup, cleanup_expired_orders,
}
use iot_zinx.Orders.Invariant.{
  OrderStep, by_create, by_update, by_cleanup, by_expiry, OrdersReachable, after,
  reachable-Invariant, IsApart, one_active_order,
}
use iot_zinx.Orders.Effects.{inserted}

abbrev pub IsUnderWay : OrderState → Type 0
IsUnderWay order = (order.status ≡ pending) ⊎ (order.status ≡ charging)

-- Only a clean-up may take an order away.
abbrev pub MayRemove : (om om2 : Orders) → OrderStep om om2 → Type 0
MayRemove om om2 (by_create _ _ device_id port order_no mode value balance now e) = ⊥
MayRemove om om2 (by_update _ _ device_id port status reason now e) = ⊥
MayRemove om om2 (by_cleanup _ device_id port) = Unit
MayRemove om om2 (by_expiry _ now) = Unit

-- What is found afterwards is the order with the number, the terms and the start that it had, or
-- nothing where that may be.
abbrev pub IsSameOrder : Type 0 → OrderState → Option OrderState → Type 0
IsSameOrder may_go order none = may_go
IsSameOrder may_go order (some order2) =
    (order2.order_no ≡ order.order_no)
    × (order2.device_id ≡ order.device_id)
    × (order2.port ≡ order.port)
    × (order2.mode ≡ order.mode)
    × (order2.value ≡ order.value)
    × (order2.balance ≡ order.balance)
    × (order2.start_time ≡ order.start_time)

orders_same : {a b : Orders} → ◌≡◌ {A = Result OrderError Orders} (ok a) (ok b) → a ≡ b
orders_same = ok-injective

active : (order : OrderState) → IsUnderWay order → is_active order.status ≡ true
active order (inl e) = rw e refl
active order (inr e) = rw e refl

unchanged :
    (may_go : Type 0) (order : OrderState) (found : Option OrderState)
    → found ≡ some order
    → IsSameOrder may_go order found
unchanged may_go order found e =
    subst (IsSameOrder may_go order) (sym e) (refl, refl, refl, refl, refl, refl, refl)

removed :
    (order : OrderState) (found : Option OrderState) → found ≡ none → IsSameOrder Unit order found
removed order found e = subst (IsSameOrder Unit order) (sym e) tt

module _ (om om2 : Orders) (d : Bytes) (p : ℕ) (order : OrderState)
    (there : lookup (make_order_key d p) om ≡ some order) where
  abbrev key : Bytes
  key = make_order_key d p

  apart : (key2 : Bytes) → (key2 == key) ≡ false → key2 ≢ key
  apart key2 f e = true-ne-false (sym ((bytes_beq_iff key2 key).1 e) ∙ f)

  created_same :
      (device_id : Bytes) (port : ℕ) (order_no : Bytes) (mode value balance now : ℕ)
      → create_order om device_id port order_no mode value balance now ≡ ok om2
      → IsUnderWay order
      → IsSameOrder ⊥ order (lookup key om2)
  unfolding create_order
  created_same device_id port order_no mode value balance now e under =
      let key2 = make_order_key device_id port in
      elim (Bool-cases (key2 == key)) [
        | inl t ↦
            let found : lookup key2 om ≡ some order = rw ((bytes_beq_iff key2 key).0 t) there in
            absurd (err-ne-ok refl (rw (create_order, found, active order under) at e))
        | inr t ↦ unchanged ⊥ order (lookup key om2) (
            ap (lookup key) (
              sym (
                inserted om device_id port order_no mode value balance now om2 (lookup key2 om) refl
                  e))
            ∙ lookup-insert_ne key2 key (new_order device_id port order_no mode value balance now)
                om (apart key2 t)
            ∙ there)
      ]

  updated_same :
      (device_id : Bytes) (port : ℕ) (status : OrderStatus) (reason : Bytes) (now : ℕ)
      (found : Option OrderState)
      → lookup (make_order_key device_id port) om ≡ found
      → update_order_status om device_id port status reason now ≡ ok om2
      → IsSameOrder ⊥ order (lookup key om2)
  unfolding update_order_status updated
  updated_same device_id port status reason now none e h =
      absurd (err-ne-ok refl (rw (update_order_status, e) at h))
  updated_same device_id port status reason now (some order2) e h =
      let key2 = make_order_key device_id port in
      let order3 = updated order2 status reason now in
      let made : insert key2 order3 om ≡ om2 = orders_same (rw (update_order_status, e) at h) in
      elim (Bool-cases (key2 == key)) [
        | inl t ↦
            let same : key2 ≡ key = (bytes_beq_iff key2 key).0 t in
            let was : order2 ≡ order =
              some-injective (sym e ∙ ap (λ k. lookup k om) same ∙ there) in
            let found : lookup key om2 ≡ some order3 =
              ap (lookup key) (sym made)
              ∙ ap (λ k. lookup k (insert key2 order3 om)) (sym same)
              ∙ lookup-insert_self key2 order3 om in
            subst (IsSameOrder ⊥ order) (sym found) (updated_terms order2 was)
        | inr t ↦ unchanged ⊥ order (lookup key om2) (
            ap (lookup key) (sym made) ∙ lookup-insert_ne key2 key order3 om (apart key2 t) ∙ there)
      ]
    where
      updated_terms :
          (order2 : OrderState)
          → order2 ≡ order
          → IsSameOrder ⊥ order (some (updated order2 status reason now))
      updated_terms order2 e = (
        ap (λ (x : OrderState). x.order_no) e,
        ap (λ (x : OrderState). x.device_id) e,
        ap (λ (x : OrderState). x.port) e,
        ap (λ (x : OrderState). x.mode) e,
        ap (λ (x : OrderState). x.value) e,
        ap (λ (x : OrderState). x.balance) e,
        ap (λ (x : OrderState). x.start_time) e,
      )

  cleaned_same :
      (device_id : Bytes) (port : ℕ)
      → IsSameOrder Unit order (lookup key (cleanup_order om device_id port))
  unfolding cleanup_order
  cleaned_same device_id port =
      let key2 = make_order_key device_id port in
      elim (Bool-cases (key2 == key)) [
        | inl t ↦ removed order _ (
            ap (λ k. lookup key (erase k om)) ((bytes_beq_iff key2 key).0 t)
            ∙ lookup-erase_self key om)
        | inr t ↦ unchanged Unit order _ (lookup-erase_ne key2 key om (apart key2 t) ∙ there)
      ]

  expired_same :
      (now : ℕ)
      → OrdersReachable om
      → IsSameOrder Unit order (lookup key (cleanup_expired_orders now om))
  unfolding cleanup_expired_orders
  expired_same now r =
      let swept = sweep-lookup (should_cleanup now) key om (reachable-Invariant om r).distinct in
      elim (Bool-cases (should_cleanup now order)) [
        | inl t ↦ removed order _ (swept ∙ rw (there, t))
        | inr t ↦ unchanged Unit order _ (swept ∙ rw (there, t))
      ]

step_same :
    (om om2 : Orders) (s : OrderStep om om2) (d : Bytes) (p : ℕ) (order : OrderState)
    → OrdersReachable om
    → lookup (make_order_key d p) om ≡ some order
    → IsUnderWay order
    → IsSameOrder (MayRemove om om2 s) order (lookup (make_order_key d p) om2)
step_same om om2 (by_create _ _ device_id port order_no mode value balance now e) d p order r there
      under =
    created_same om om2 d p order there device_id port order_no mode value balance now e under
step_same om om2 (by_update _ _ device_id port status reason now e) d p order r there under =
    updated_same om om2 d p order there device_id port status reason now _ refl e
step_same om om2 (by_cleanup _ device_id port) d p order r there under =
    cleaned_same om om2 d p order there device_id port
step_same om om2 (by_expiry _ now) d p order r there under =
    expired_same om om2 d p order there now r

-- Whatever calls create, update and clean up orders: a call that finds an order pending or charging
-- on a port leaves there the order with the same number, terms and start, or, where the call is a
-- clean-up, possibly none; and no two of the active orders that are listed afterwards stand on the
-- same port of the same device.
pub active_order_kept :
    (om om2 : Orders) (s : OrderStep om om2) (d : Bytes) (p : ℕ) (order : OrderState)
    → OrdersReachable om
    → get_order om d p ≡ some order
    → IsUnderWay order
    → IsSameOrder (MayRemove om om2 s) order (get_order om2 d p) × IsApart (list_active_orders om2)
unfolding get_order
active_order_kept om om2 s d p order r there under =
    (step_same om om2 s d p order r there under, one_active_order om2 (after om om2 r s))
