-- ===== src/Orders/Expiry.antt =====
-- What the periodic clean-up removes and what it keeps.
use iot_zinx.Shared.{
  ℕ, ◌+◌, ◌<◌, ◌≡◌, ◌↔◌, ◌⊎◌, inl, inr, refl, sym, subst, arith, true, none, some, Option, Bytes,
  bytes_eq, ltb, ltb→lt, ◌-◌,
}
use iot_zinx.Shared.Sweep.{Removes, spared-Removes, sweep-lookup}
use iot_zinx.Shared.Table.{lookup}
use iot_zinx.Shared.Keys.{true-ne-false}
use iot_zinx.Orders.Key.{make_order_key}
use iot_zinx.Orders.Manager.{
  OrderStatus, pending, charging, completed, cancelled, failed, other, OrderState, Orders,
  get_order, half_hour, day, should_cleanup, ended_before, cleanup_expired_orders,
}
use iot_zinx.Orders.Invariant.{OrdersReachable, reachable-Invariant}

-- Ended more than an hour ago.
abbrev pub IsOver : ℕ → Option ℕ → Type 0
IsOver now ended = (t : ℕ) × (ended ≡ some t) × (t + 3600000000000 < now)

-- Pending and not touched for half an hour, charging for a day, or over for an hour.
abbrev pub IsDue : ℕ → OrderState → Type 0
IsDue now order =
    ((order.status ≡ pending) × (order.last_update + 1800000000000 < now))
    ⊎ ((order.status ≡ charging) × (order.start_time + 86400000000000 < now))
    ⊎ (((order.status ≡ completed) ⊎ (order.status ≡ cancelled) ⊎ (order.status ≡ failed))
        × IsOver now order.end_time)

module _ (now : ℕ) (order : OrderState) where
  ended_before_iff : (ended : Option ℕ) → (ended_before now ended ≡ true) ↔ IsOver now ended
  ended_before_iff none = (λ h. cc, λ h. cc)
  ended_before_iff (some t) = (
    λ h. (t, refl, ground arith),
    λ h. subst (λ e. ended_before now e ≡ true) (sym h.1) (ground arith),
  )

  should_cleanup-IsDue :
      (s : OrderStatus) → order.status ≡ s → should_cleanup now order ≡ true → IsDue now order
  unfolding should_cleanup
  should_cleanup-IsDue pending e h =
      let late : ltb half_hour (now - order.last_update) ≡ true = rw (should_cleanup, e) at h in
      inl (e, omega (arith, ltb→lt _ _ late))
  should_cleanup-IsDue charging e h =
      let late : ltb day (now - order.start_time) ≡ true = rw (should_cleanup, e) at h in
      inr (inl (e, omega (arith, ltb→lt _ _ late)))
  should_cleanup-IsDue completed e h =
      inr (inr (inl e, (ended_before_iff order.end_time).0 (rw (should_cleanup, e) at h)))
  should_cleanup-IsDue cancelled e h =
      inr (inr (inr (inl e), (ended_before_iff order.end_time).0 (rw (should_cleanup, e) at h)))
  should_cleanup-IsDue failed e h =
      inr (inr (inr (inr e), (ended_before_iff order.end_time).0 (rw (should_cleanup, e) at h)))
  should_cleanup-IsDue (other n) e h = absurd (true-ne-false (sym (rw (should_cleanup, e) at h)))

  IsDue-should_cleanup : IsDue now order → should_cleanup now order ≡ true
  unfolding should_cleanup
  IsDue-should_cleanup (inl (e, h)) = rw (should_cleanup, e) (ground arith)
  IsDue-should_cleanup (inr (inl (e, h))) = rw (should_cleanup, e) (ground arith)
  IsDue-should_cleanup (inr (inr (inl e, h))) =
      rw (should_cleanup, e) ((ended_before_iff order.end_time).1 h)
  IsDue-should_cleanup (inr (inr (inr (inl e), h))) =
      rw (should_cleanup, e) ((ended_before_iff order.end_time).1 h)
  IsDue-should_cleanup (inr (inr (inr (inr e), h))) =
      rw (should_cleanup, e) ((ended_before_iff order.end_time).1 h)

-- In every table that the calls can reach, the periodic clean-up removes exactly the orders that
-- are pending and untouched for more than half an hour, charging for more than a day, or completed,
-- cancelled or failed for more than an hour, and keeps every other order as it is.
pub cleanup_expired_get :
    (om : Orders) (now : ℕ) (device_id : Bytes) (port : ℕ)
    → OrdersReachable om
    → Removes
        (IsDue now)
        (get_order om device_id port)
        (get_order (cleanup_expired_orders now om) device_id port)
unfolding get_order cleanup_expired_orders
cleanup_expired_get om now device_id port r =
    let key = make_order_key device_id port in
    subst (Removes (IsDue now) (lookup key om))
      (sym (sweep-lookup (should_cleanup now) key om (reachable-Invariant om r).distinct))
      (spared-Removes (should_cleanup now) (IsDue now)
        (λ order.
          (should_cleanup-IsDue now order order.status refl, IsDue-should_cleanup now order))
        (lookup key om))
