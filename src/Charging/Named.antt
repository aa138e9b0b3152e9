-- ===== src/Charging/Named.antt =====
-- The transition table, as a relation on the states that have a name.
use iot_zinx.Shared.{ℕ, ◌≡◌, refl, sym, subst, ◌∙◌, arith, List, [], ◌∷◌, true, false, some, All}
use iot_zinx.Shared.Keys.{true-ne-false, some-injective, none-ne-some}
use iot_zinx.Charging.Machine.{
  ChargingState, idle, plugged, charging, float_charging, completed, fault, emergency_stop, other,
  state_beq, transitions, contains,
}

-- `b` is in the table's list for `a`.
pub data Allowed : ChargingState → ChargingState → Type 0 where
  listed :
      (a b : ChargingState) (targets : List ChargingState)
      → transitions a ≡ some targets
      → contains b targets ≡ true
      → Allowed a b

-- One of the seven states that the source names.
abbrev pub IsNamed : ChargingState → Type 0
IsNamed (other n) = ⊥
IsNamed _ = Unit

other_apart : (a : ChargingState) (n : ℕ) → IsNamed a → state_beq a (other n) ≡ false
other_apart idle n k = ground arith
other_apart plugged n k = ground arith
other_apart charging n k = ground arith
other_apart float_charging n k = ground arith
other_apart completed n k = ground arith
other_apart fault n k = ground arith
other_apart emergency_stop n k = ground arith
other_apart (other m) n k = absurd k

none_contained :
    (targets : List ChargingState) (n : ℕ)
    → All IsNamed targets
    → contains (other n) targets ≡ false
none_contained [] n h = refl
none_contained (a ∷ targets) n h = rw (other_apart a n h.0, none_contained targets n h.1)

-- The table lists named states only.
targets-IsNamed :
    (a : ChargingState) (targets : List ChargingState)
    → transitions a ≡ some targets
    → All IsNamed targets
targets-IsNamed idle targets e = subst (All IsNamed) (some-injective e) (tt, (tt, tt))
targets-IsNamed plugged targets e = subst (All IsNamed) (some-injective e) (tt, (tt, (tt, tt)))
targets-IsNamed charging targets e =
    subst (All IsNamed) (some-injective e) (tt, (tt, (tt, (tt, (tt, tt)))))
targets-IsNamed float_charging targets e =
    subst (All IsNamed) (some-injective e) (tt, (tt, (tt, tt)))
targets-IsNamed completed targets e = subst (All IsNamed) (some-injective e) (tt, (tt, tt))
targets-IsNamed fault targets e = subst (All IsNamed) (some-injective e) (tt, tt)
targets-IsNamed emergency_stop targets e = subst (All IsNamed) (some-injective e) (tt, (tt, tt))
targets-IsNamed (other n) targets e = absurd (none-ne-some e)

none_listed :
    (a : ChargingState) (n : ℕ) (targets : List ChargingState)
    → transitions a ≡ some targets
    → contains (other n) targets ≡ true
    → true ≡ false
none_listed a n targets e h = sym h ∙ none_contained targets n (targets-IsNamed a targets e)

target-IsNamed :
    (a b : ChargingState) (targets : List ChargingState)
    → transitions a ≡ some targets
    → contains b targets ≡ true
    → IsNamed b
target-IsNamed a idle targets e h = tt
target-IsNamed a plugged targets e h = tt
target-IsNamed a charging targets e h = tt
target-IsNamed a float_charging targets e h = tt
target-IsNamed a completed targets e h = tt
target-IsNamed a fault targets e h = tt
target-IsNamed a emergency_stop targets e h = tt
target-IsNamed a (other n) targets e h = true-ne-false (none_listed a n targets e h)

pub Allowed-IsNamed : (a b : ChargingState) → Allowed a b → IsNamed b
Allowed-IsNamed a b (listed _ _ targets e h) = target-IsNamed a b targets e h
