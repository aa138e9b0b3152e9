-- ===== src/Orders/Key.antt =====
-- The text key `fmt.Sprintf("%s:%d", deviceID, port)` of the order and state machine tables
-- (`makeOrderKey` of pkg/gateway/order_manager.go, `makeKey` of state_machine_manager.go).
use iot_zinx.Shared.{
  ℕ, zero, suc, ◌+◌, ◌-◌, ◌*◌, ◌/◌, ◌%◌, ◌≡◌, ◌≢◌, ◌≤◌, refl, sym, ap, ◌∙◌, inl, inr, arith, Bytes,
  [], ◌∷◌, ◌++◌, All, ltb, Bool-cases, if◌then◌else◌,
}

cons-ne-nil : {x : ℕ} {xs : Bytes} → x ∷ xs ≡ [] → ⊥
cons-ne-nil h = cc

cons-head : {x y : ℕ} {xs ys : Bytes} → x ∷ xs ≡ y ∷ ys → x ≡ y
cons-head h = cc

cons-tail : {x y : ℕ} {xs ys : Bytes} → x ∷ xs ≡ y ∷ ys → xs ≡ ys
cons-tail h = cc

-- The decimal digits of `n` before `done`, for at most `fuel + 1` digits.
abbrev pub digits : ℕ → ℕ → Bytes → Bytes
digits zero n done = (0x30 + n % 10) ∷ done
digits (suc fuel) n done =
    let more = digits fuel (n / 10) ((0x30 + n % 10) ∷ done) in
    if ltb n 10 then (0x30 + n) ∷ done else more

-- `%d` of a number that is not negative; a number has no more digits than its value and one.
abbrev pub decimal : ℕ → Bytes
decimal n = digits n n []

unfoldable pub make_order_key : Bytes → ℕ → Bytes
make_order_key device_id port = device_id ++ (0x3a ∷ decimal port)

abbrev value_from : ℕ → Bytes → ℕ
value_from v [] = v
value_from v (d ∷ ds) = value_from (v * 10 + (d - 0x30)) ds

value_from-digits :
    (fuel n : ℕ) (done : Bytes) → n ≤ fuel → value_from 0 (digits fuel n done) ≡ value_from n done
value_from-digits zero n done h = ap (λ v. value_from v done) (omega arith)
value_from-digits (suc fuel) n done h = elim (Bool-cases (ltb n 10)) [
  | inl t ↦ rw t (ap (λ v. value_from v done) (omega arith))
  | inr t ↦ rw t (
      value_from-digits fuel (n / 10) ((0x30 + n % 10) ∷ done) (ground arith)
      ∙ ap (λ v. value_from v done) (omega arith))
]

-- No digit is a colon.
digits-plain :
    (fuel n : ℕ) (done : Bytes)
    → All (λ d. d ≢ 0x3a) done
    → All (λ d. d ≢ 0x3a) (digits fuel n done)
digits-plain zero n done h = (λ e. omega arith, h)
digits-plain (suc fuel) n done h = elim (Bool-cases (ltb n 10)) [
  | inl t ↦ rw t (λ e. ground arith, h)
  | inr t ↦ rw t (digits-plain fuel (n / 10) ((0x30 + n % 10) ∷ done) (λ e. omega arith, h))
]

colon_beyond : (c : ℕ) (ys ds es : Bytes) → All (λ d. d ≢ c) ds → ds ≡ ys ++ (c ∷ es) → ⊥
colon_beyond c [] [] es h e = absurd (cons-ne-nil (sym e))
colon_beyond c [] (d ∷ ds) es h e = h.0 (cons-head e)
colon_beyond c (y ∷ ys) [] es h e = absurd (cons-ne-nil (sym e))
colon_beyond c (y ∷ ys) (d ∷ ds) es h e = colon_beyond c ys ds es h.1 (cons-tail e)

-- A list is cut at its last separator in one way.
cut_once :
    (c : ℕ) (xs ys ds es : Bytes)
    → All (λ d. d ≢ c) ds
    → All (λ d. d ≢ c) es
    → xs ++ (c ∷ ds) ≡ ys ++ (c ∷ es)
    → (xs ≡ ys) × (ds ≡ es)
cut_once c [] [] ds es h k e = (refl, cons-tail e)
cut_once c [] (y ∷ ys) ds es h k e = absurd (colon_beyond c ys ds es h (cons-tail e))
cut_once c (x ∷ xs) [] ds es h k e = absurd (colon_beyond c xs es ds k (sym (cons-tail e)))
cut_once c (x ∷ xs) (y ∷ ys) ds es h k e =
    let (p, q) = cut_once c xs ys ds es h k (cons-tail e) in (rw (cons-head e, p) refl, q)

-- Two device and port pairs with the same key are the same pair, whatever bytes, colons included,
-- the device's name has.
pub make_order_key-injective :
    (d1 : Bytes) (p1 : ℕ) (d2 : Bytes) (p2 : ℕ)
    → make_order_key d1 p1 ≡ make_order_key d2 p2
    → (d1 ≡ d2) × (p1 ≡ p2)
unfolding make_order_key
make_order_key-injective d1 p1 d2 p2 h =
    let (d, p) =
      cut_once 0x3a d1 d2 (decimal p1) (decimal p2) (digits-plain p1 p1 [] tt)
        (digits-plain p2 p2 [] tt) h in
    (
      d,
      sym (value_from-digits p1 p1 [] (omega arith))
          ∙ ap (value_from 0) p
          ∙ value_from-digits p2 p2 [] (omega arith),
    )
