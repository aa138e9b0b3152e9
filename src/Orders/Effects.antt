-- ===== src/Orders/Effects.antt =====
-- What each call of the order manager does to the orders that `GetOrder` finds.
use iot_zinx.Shared.{
  ℕ, ◌≡◌, ◌≢◌, ◌↔◌, refl, sym, ◌∙◌, subst, inl, inr, ◌⊎◌, Bytes, bytes_eq, bytes_beq_iff, ◌==◌, [],
  ◌∷◌, Bool, true, false, not, ◌&&◌, All, Bool-cases, Option, none, some, Result, ok, IsOk,
  ok-injective, err-ne-ok,
}
use iot_zinx.Shared.Table.{lookup, insert, lookup-insert_self, lookup-insert_ne, ==-refl}
use iot_zinx.Shared.Keys.{IsFresh, IsDistinct, lookup-All, true-ne-false}
use iot_zinx.Orders.Key.{make_order_key, make_order_key-injective}
use iot_zinx.Orders.Invariant.{IsKeyed, OrdersReachable, reachable-Invariant}
use iot_zinx.Orders.Manager.{
  OrderStatus, pending, charging, completed, cancelled, failed, other, OrderState, Orders,
  OrderError, is_active, is_empty, new_order, create_order, get_order, validate_order_for_stop,
}

orders_same : {a b : Orders} → ◌≡◌ {A = Result OrderError Orders} (ok a) (ok b) → a ≡ b
orders_same = ok-injective

empty_sound : (xs : Bytes) → is_empty xs ≡ true → xs ≡ []
empty_sound [] h = refl
empty_sound (x ∷ xs) h = cc

and_false : (b : Bool) → (b && false) ≡ false
and_false true = refl
and_false false = refl

-- The order found is pending or charging.
abbrev pub has_active : Option OrderState → Bool
has_active none = false
has_active (some order) = is_active order.status

-- The keys of two different ports differ.
keys_apart :
    (d1 : Bytes) (p1 : ℕ) (d2 : Bytes) (p2 : ℕ)
    → ((d1 ≡ d2) × (p1 ≡ p2) → ⊥)
    → make_order_key d1 p1 ≢ make_order_key d2 p2
keys_apart d1 p1 d2 p2 h e = h (make_order_key-injective d1 p1 d2 p2 e)

-- Not an order of that port that is pending or charging.
abbrev pub IsNotInWay : Bytes → ℕ → Bytes × OrderState → Type 0
IsNotInWay device_id port p =
    (p.1.device_id ≡ device_id)
    → (p.1.port ≡ port)
    → (p.1.status ≢ pending) × (p.1.status ≢ charging)

inactive :
    (status : OrderStatus) → is_active status ≡ false → (status ≢ pending) × (status ≢ charging)
inactive pending h = cc
inactive charging h = cc
inactive completed h = (λ e. cc, λ e. cc)
inactive cancelled h = (λ e. cc, λ e. cc)
inactive failed h = (λ e. cc, λ e. cc)
inactive (other n) h = (λ e. cc, λ e. cc)

inactive_back :
    (status : OrderStatus) → (status ≢ pending) × (status ≢ charging) → is_active status ≡ false
inactive_back pending h = absurd (h.0 refl)
inactive_back charging h = absurd (h.1 refl)
inactive_back completed h = refl
inactive_back cancelled h = refl
inactive_back failed h = refl
inactive_back (other n) h = refl

module _ (device_id : Bytes) (port : ℕ) where
  abbrev key : Bytes
  key = make_order_key device_id port

  same_key_of :
      (k : Bytes) (order : OrderState)
      → IsKeyed (k, order)
      → order.device_id ≡ device_id
      → order.port ≡ port
      → k ≡ key
  same_key_of k order e d p = e ∙ rw (d, p) refl

  -- Behind the entry of the port no other entry is for it.
  fresh_free : (om : Orders) → IsFresh key om → All IsKeyed om → All (IsNotInWay device_id port) om
  fresh_free [] f h = tt
  fresh_free ((k, order) ∷ om) f h =
      (λ d p. absurd (f.0 (same_key_of k order h.0 d p)), fresh_free om f.1 h.1)

  free_everywhere :
      (om : Orders)
      → IsDistinct om
      → All IsKeyed om
      → has_active (lookup key om) ≡ false
      → All (IsNotInWay device_id port) om
  unfolding lookup
  free_everywhere [] d h a = tt
  free_everywhere ((k, order) ∷ om) d h a = elim (Bool-cases (k == key)) [
    | inl t ↦ (
      λ _ _. inactive order.status (rw t at a),
      fresh_free om (subst (λ x. IsFresh x om) ((bytes_beq_iff k key).0 t) d.0) h.1,
    )
    | inr t ↦ (
      λ e p.
          absurd (true-ne-false (sym ((bytes_beq_iff k key).1 (same_key_of k order h.0 e p)) ∙ t)),
      free_everywhere om d.1 h.1 (rw t at a),
    )
  ]

  free_found :
      (om : Orders) (found : Option OrderState)
      → lookup key om ≡ found
      → All IsKeyed om
      → All (IsNotInWay device_id port) om
      → has_active found ≡ false
  free_found om none e h k = refl
  free_found om (some order) e h k =
      let same =
        make_order_key-injective device_id port order.device_id order.port
          (lookup-All IsKeyed key order om h e) in
      inactive_back order.status
        (lookup-All (IsNotInWay device_id port) key order om k e (sym same.0) (sym same.1))

module _ (om : Orders) (device_id : Bytes) (port : ℕ) where
  module _ (order_no : Bytes) (mode value balance now : ℕ) where
    pub inserted :
        (om2 : Orders) (found : Option OrderState)
        → lookup (make_order_key device_id port) om ≡ found
        → create_order om device_id port order_no mode value balance now ≡ ok om2
        → insert
            (make_order_key device_id port)
            (new_order device_id port order_no mode value balance now)
            om
          ≡ om2
    unfolding create_order
    inserted om2 none e k = orders_same (rw (create_order, e) at k)
    inserted om2 (some order) e k = elim (Bool-cases (is_active order.status)) [
      | inl t ↦ absurd (err-ne-ok refl (rw (create_order, e, t) at k))
      | inr t ↦ orders_same (rw (create_order, e, t) at k)
    ]

    -- A created order is pending on its port, and every other port has the order that it had.
    pub create_order_get :
        (om2 : Orders) (d : Bytes) (p : ℕ)
        → create_order om device_id port order_no mode value balance now ≡ ok om2
        → ¬ ((device_id ≡ d) × (port ≡ p))
        → (get_order om2 device_id port
            ≡ some (new_order device_id port order_no mode value balance now))
          × (get_order om2 d p ≡ get_order om d p)
    unfolding get_order
    create_order_get om2 d p k apart =
        let key = make_order_key device_id port in
        let order = new_order device_id port order_no mode value balance now in
        let e = inserted om2 (lookup key om) refl k in
        (
          subst (λ m. lookup key m ≡ some order) e (lookup-insert_self key order om),
          subst (λ m. lookup (make_order_key d p) m ≡ lookup (make_order_key d p) om) e
              (lookup-insert_ne key (make_order_key d p) order om
                (keys_apart device_id port d p apart)),
        )

    created_over :
        (found : Option OrderState)
        → lookup (make_order_key device_id port) om ≡ found
        → IsOk (create_order om device_id port order_no mode value balance now)
          ↔ (has_active found ≡ false)
    unfolding create_order
    created_over none e = (λ h. refl, λ h. rw (create_order, e) tt)
    created_over (some order) e = elim (Bool-cases (is_active order.status)) [
      | inl t ↦
          (λ h. absurd (rw (create_order, e, t) at h), λ h. absurd (true-ne-false (sym t ∙ h)))
      | inr t ↦ (λ h. t, λ h. rw (create_order, e, t) tt)
    ]

    -- In every table that the calls can reach, an order is created exactly when no order of the
    -- table is for that port of that device and pending or charging.
    pub create_order_iff :
        OrdersReachable om
        → IsOk (create_order om device_id port order_no mode value balance now)
          ↔ All (IsNotInWay device_id port) om
    create_order_iff r =
        let h = reachable-Invariant om r in
        let found = lookup (make_order_key device_id port) om in
        let created = created_over found refl in
        (
          λ k. free_everywhere device_id port om h.distinct h.keyed (created.0 k),
          λ k. created.1 (free_found device_id port om found refl h.keyed k),
        )

  module _ (order_no : Bytes) where
    abbrev Matches : OrderState → Type 0
    Matches order =
        (get_order om device_id port ≡ some order)
        × (is_active order.status ≡ true)
        × ((order_no ≡ []) ⊎ (order.order_no ≡ order_no))

    stop_sound :
        (found : Option OrderState)
        → get_order om device_id port ≡ found
        → IsOk (validate_order_for_stop om device_id port order_no)
        → (order : OrderState) × Matches order
    unfolding validate_order_for_stop
    stop_sound none e h = absurd (rw (validate_order_for_stop, e) at h)
    stop_sound (some order) e h = elim (Bool-cases (is_active order.status)) [
      | inr a ↦ absurd (rw (validate_order_for_stop, e, a) at h)
      | inl a ↦ elim (Bool-cases (is_empty order_no)) [
        | inl n ↦ (order, (e, a, inl (empty_sound order_no n)))
        | inr n ↦ elim (Bool-cases (order.order_no == order_no)) [
          | inl q ↦ (order, (e, a, inr ((bytes_beq_iff order.order_no order_no).0 q)))
          | inr q ↦ absurd (rw (validate_order_for_stop, e, a, n, q) at h)
        ]
      ]
    ]

    stop_complete :
        (order : OrderState)
        → Matches order
        → IsOk (validate_order_for_stop om device_id port order_no)
    unfolding validate_order_for_stop
    stop_complete order (e, a, inl n) = rw (validate_order_for_stop, e, a, n) tt
    stop_complete order (e, a, inr n) =
        rw (validate_order_for_stop, e, a, n, ==-refl order_no, and_false (not (is_empty order_no)))
          tt

    -- A stop is let through exactly when the port has a pending or charging order and the order
    -- number of the request is empty or that order's number.
    pub validate_order_for_stop_iff : IsOk (validate_order_for_stop om device_id port order_no) ↔ (
        (order : OrderState) × ((get_order om device_id port ≡ some order)
          × (is_active order.status ≡ true)
          × ((order_no ≡ []) ⊎ (order.order_no ≡ order_no))))
    validate_order_for_stop_iff =
        (stop_sound (get_order om device_id port) refl, λ h. stop_complete h.0 h.1)
