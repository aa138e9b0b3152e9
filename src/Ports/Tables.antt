-- ===== src/Ports/Tables.antt =====
-- What holds of the port manager's tables, its calls in any order, and lemmas on the table of states.
use iot_zinx.Shared.{
  ℕ, zero, suc, ◌+◌, ◌<◌, ◌≤◌, ◌≡◌, ◌≢◌, refl, sym, ap, ◌∙◌, subst, inl, inr, arith, Bytes,
  bytes_eq, bytes_beq, nat_eq, List, [], ◌∷◌, ◌==◌, Bool, true, false, Bool-cases, Option, none,
  some, All, ok, if◌then◌else◌,
}
use iot_zinx.Shared.Table.{lookup, insert}
use iot_zinx.Shared.Keys.{same_key, other_key, true-ne-false}
use iot_zinx.Shared.Adjust.{keys_of, is_some}
use iot_zinx.Ports.Manager.{
  port_charging, PortState, PortManager, StatusChange, idle_ports, new_port_manager,
  set_debounce_interval, among, update_port_state,
}

-- The ports from `first` on, in order.
abbrev pub ports_from : ℕ → ℕ → List ℕ
ports_from first zero = []
ports_from first (suc n) = first ∷ ports_from (suc first) n

-- A state stands under its own number, and is charging exactly by its status.
abbrev pub IsConsistent : ℕ × PortState → Type 0
IsConsistent p = (p.1.port_number ≡ p.0) × (p.1.is_charging ≡ bytes_beq p.1.status port_charging)

abbrev pub IsUnrepeated : List ℕ → Type 0
IsUnrepeated [] = Unit {0}
IsUnrepeated (p ∷ ports) = (among p ports ≡ false) × IsUnrepeated ports

-- Each of a device's ports once, and each in range.
abbrev pub IsPortList : ℕ → Bytes × List ℕ → Type 0
IsPortList max_ports q = IsUnrepeated q.1 × All (λ p. p < max_ports) q.1

abbrev pub listed : ℕ → Option (List ℕ) → Bool
listed port none = false
listed port (some ports) = among port ports

-- The port of a device is among the device's ports.
abbrev pub IsMapped : List (Bytes × List ℕ) → ℕ × Bytes → Type 0
IsMapped device_ports p = listed p.0 (lookup p.1 device_ports) ≡ true

pub record PortInvariant (pm : PortManager) : Type 0 where
  pub complete : keys_of pm.port_states ≡ ports_from 0 pm.max_ports
  pub consistent : All IsConsistent pm.port_states
  pub lists : All (IsPortList pm.max_ports) pm.device_ports
  pub mapped : All (IsMapped pm.device_ports) pm.port_devices

pub data PortStep : PortManager → PortManager → Type 0 where
  by_update :
      (pm pm2 : PortManager) (port : ℕ) (status device_id order_no : Bytes) (now : ℕ)
      (change : Option StatusChange)
      → update_port_state pm port status device_id order_no now ≡ ok (pm2, change)
      → PortStep pm pm2
  by_debounce : (pm : PortManager) (interval : ℕ) → PortStep pm (set_debounce_interval pm interval)

pub data PortReachable : PortManager → Type 0 where
  new_manager : (max_ports : ℕ) → PortReachable (new_port_manager max_ports)
  after : (pm pm2 : PortManager) → PortReachable pm → PortStep pm pm2 → PortReachable pm2

pub new_complete : (first n : ℕ) → keys_of (idle_ports first n) ≡ ports_from first n
new_complete first zero = refl
new_complete first (suc n) = ap (λ (x : List ℕ). first ∷ x) (new_complete (suc first) n)

pub new-IsConsistent : (first n : ℕ) → All IsConsistent (idle_ports first n)
new-IsConsistent first zero = tt
new-IsConsistent first (suc n) = ((refl, refl), new-IsConsistent (suc first) n)

-- Storing at a key that is there leaves the keys as they are.
pub keys-insert :
    (k : ℕ) (v : PortState) (m : List (ℕ × PortState))
    → is_some (lookup k m) ≡ true
    → keys_of (insert k v m) ≡ keys_of m
unfolding lookup insert
keys-insert k v [] h = absurd (true-ne-false (sym h))
keys-insert k v ((j, w) ∷ m) h = elim (Bool-cases (j == k)) [
  | inl t ↦ rw t (ap (λ (i : ℕ). i ∷ keys_of m) (sym (same_key t)))
  | inr f ↦ rw f (
      ap (λ (x : List ℕ). j ∷ x)
        (keys-insert k v m (subst (λ b. is_some (if b then some w else lookup k m) ≡ true) f h)))
]

cons_head : {x y : ℕ} {xs ys : List ℕ} → x ∷ xs ≡ y ∷ ys → x ≡ y
cons_head h = cc

cons_tail : {x y : ℕ} {xs ys : List ℕ} → x ∷ xs ≡ y ∷ ys → xs ≡ ys
cons_tail h = cc

nil_cons : {y : ℕ} {ys : List ℕ} → [] ≡ y ∷ ys → ⊥
nil_cons h = cc

-- A table with these keys has every port in range.
pub complete-lookup :
    (m : List (ℕ × PortState)) (first n k : ℕ)
    → keys_of m ≡ ports_from first n
    → first ≤ k
    → k < first + n
    → is_some (lookup k m) ≡ true
unfolding lookup
complete-lookup m first zero k e a b = absurd (omega (arith, a, b))
complete-lookup [] first (suc n) k e a b = absurd (nil_cons e)
complete-lookup ((j, w) ∷ m) first (suc n) k e a b = elim (Bool-cases (j == k)) [
  | inl t ↦ rw t refl
  | inr f ↦
      let apart : first ≢ k = λ x. other_key f (cons_head e ∙ x) in
      rw f (
        complete-lookup m (suc first) n k (cons_tail e) (omega (arith, a, apart))
          (omega (arith, b)))
]
