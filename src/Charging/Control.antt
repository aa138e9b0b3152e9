-- ===== src/Charging/Control.antt =====
-- What the charging machine's requests do in each state.
use iot_zinx.Shared.{
  ℕ, zero, suc, ◌≡◌, ◌↔◌, ◌⊎◌, inl, inr, refl, sym, subst, ap, ◌∙◌, arith, Bytes, List, Bool, true,
  ◌||◌, Option, none, some, Bool-cases, Result, ok, err, panic, IsOk, nat_beq_iff, ok-injective,
  err-ne-ok,
}
use iot_zinx.Shared.Keys.{true-ne-false, none-ne-some}
use iot_zinx.Charging.Machine.{
  ChargingState, idle, plugged, charging, float_charging, completed, fault, emergency_stop, other,
  state_number, state_beq, StateChangeReason, Data, Machine, transitions, TransitionError, contains,
  checked, transition_to, handle_emergency_stop, handle_fault, put_data, fault_code_key,
  emergency_reason_key, text_value, emergency, fault_reason, can_stop_charging,
}
use iot_zinx.Charging.Named.{Allowed, listed, IsNamed}
use iot_zinx.Charging.Runs.{Reachable, Reachable-IsNamed}

state_of : ℕ → ChargingState
state_of zero = idle
state_of (suc zero) = plugged
state_of (suc (suc zero)) = charging
state_of (suc (suc (suc zero))) = float_charging
state_of (suc (suc (suc (suc zero)))) = completed
state_of (suc (suc (suc (suc (suc zero))))) = fault
state_of (suc (suc (suc (suc (suc (suc zero)))))) = emergency_stop
state_of (suc (suc (suc (suc (suc (suc (suc n))))))) = other n

state_of-state_number : (s : ChargingState) → state_of (state_number s) ≡ s
unfolding state_of
state_of-state_number idle = refl
state_of-state_number plugged = refl
state_of-state_number charging = refl
state_of-state_number float_charging = refl
state_of-state_number completed = refl
state_of-state_number fault = refl
state_of-state_number emergency_stop = refl
state_of-state_number (other n) = refl

pub state_beq_sound : (a b : ChargingState) → state_beq a b ≡ true → a ≡ b
state_beq_sound a b h =
    sym (state_of-state_number a)
    ∙ ap state_of ((nat_beq_iff (state_number a) (state_number b)).0 h)
    ∙ state_of-state_number b

pub state_beq_complete : (a b : ChargingState) → a ≡ b → state_beq a b ≡ true
state_beq_complete a b h = (nat_beq_iff (state_number a) (state_number b)).1 (ap state_number h)

accepted_same : {a b : Machine} → ◌≡◌ {A = Result TransitionError Machine} (ok a) (ok b) → a ≡ b
accepted_same = ok-injective

accepted_machine : (r : Result TransitionError Machine) → IsOk r → (m : Machine) × (r ≡ ok m)
accepted_machine (ok m) h = (m, refl)
accepted_machine (err e) h = absurd h
accepted_machine panic h = absurd h

module _ (m : Machine) (new_state : ChargingState) (reason : StateChangeReason) (details : Data)
    (now : ℕ) where
  checked_sound :
      (targets : Option (List ChargingState))
      → transitions m.current_state ≡ targets
      → IsOk (checked m new_state reason details now targets)
      → Allowed m.current_state new_state
  checked_sound none e h = absurd h
  checked_sound (some targets) e h = elim (Bool-cases (contains new_state targets)) [
    | inl t ↦ listed m.current_state new_state targets e t
    | inr t ↦ absurd (rw t at h)
  ]

  accepts_sound :
      IsOk (transition_to m new_state reason details now)
      → (m.current_state ≡ new_state) ⊎ Allowed m.current_state new_state
  unfolding transition_to
  accepts_sound h = elim (Bool-cases (state_beq m.current_state new_state)) [
    | inl t ↦ inl (state_beq_sound m.current_state new_state t)
    | inr t ↦ inr (checked_sound (transitions m.current_state) refl (rw t at h))
  ]

  Allowed-accepted :
      (from : ChargingState)
      → Allowed from new_state
      → m.current_state ≡ from
      → IsOk (transition_to m new_state reason details now)
  unfolding transition_to
  Allowed-accepted from (listed _ _ targets e t) k =
      elim (Bool-cases (state_beq m.current_state new_state)) [
        | inl u ↦ rw u tt
        | inr u ↦ rw (u, k, e, t) tt
      ]

  accepts_complete :
      (m.current_state ≡ new_state) ⊎ Allowed m.current_state new_state
      → IsOk (transition_to m new_state reason details now)
  unfolding transition_to
  accepts_complete (inl e) = rw (state_beq_complete m.current_state new_state e) tt
  accepts_complete (inr a) = Allowed-accepted m.current_state a refl

  checked_state :
      (m2 : Machine) (targets : Option (List ChargingState))
      → checked m new_state reason details now targets ≡ ok m2
      → m2.current_state ≡ new_state
  checked_state m2 none h = cc
  checked_state m2 (some targets) h = elim (Bool-cases (contains new_state targets)) [
    | inl t ↦ ap (λ x. x.current_state) (sym (accepted_same (rw t at h)))
    | inr t ↦ absurd (err-ne-ok refl (rw t at h))
  ]

  -- An accepted request leaves the state that it asks for.
  transition_to_state :
      (m2 : Machine)
      → transition_to m new_state reason details now ≡ ok m2
      → m2.current_state ≡ new_state
  unfolding transition_to
  transition_to_state m2 h = elim (Bool-cases (state_beq m.current_state new_state)) [
    | inl t ↦
        ap (λ x. x.current_state) (sym (accepted_same (rw (transition_to, t) at h)))
        ∙ state_beq_sound m.current_state new_state t
    | inr t ↦ checked_state m2 (transitions m.current_state) (rw (transition_to, t) at h)
  ]

  -- A request for a state is accepted exactly when the machine is in that state already or the
  -- transition table lists it for the current state.
  pub accepts_Allowed :
      IsOk (transition_to m new_state reason details now)
      ↔ ((m.current_state ≡ new_state) ⊎ Allowed m.current_state new_state)
  accepts_Allowed = (accepts_sound, accepts_complete)

-- `fault` is listed for every other named state.
fault_listed : (s : ChargingState) → IsNamed s → (s ≡ fault) ⊎ Allowed s fault
fault_listed idle k = inr (listed idle fault _ refl refl)
fault_listed plugged k = inr (listed plugged fault _ refl refl)
fault_listed charging k = inr (listed charging fault _ refl refl)
fault_listed float_charging k = inr (listed float_charging fault _ refl refl)
fault_listed completed k = inr (listed completed fault _ refl refl)
fault_listed fault k = inl refl
fault_listed emergency_stop k = inr (listed emergency_stop fault _ refl refl)
fault_listed (other n) k = absurd k

-- In every machine that the calls can reach, a fault report succeeds and leaves the state `fault`.
pub fault_always :
    (m : Machine) (code : Bytes) (details : Data) (now : ℕ)
    → Reachable m
    → (m2 : Machine) × (handle_fault m code details now ≡ ok m2) × (m2.current_state ≡ fault)
unfolding handle_fault
fault_always m code details now r =
    let noted = put_data fault_code_key (text_value code) details in
    let taken =
      accepts_complete m fault fault_reason noted now
        (fault_listed m.current_state (Reachable-IsNamed m r)) in
    let (m2, e) = accepted_machine (transition_to m fault fault_reason noted now) taken in
    (m2, e, transition_to_state m fault fault_reason noted now m2 e)

abbrev stoppable : ChargingState → Bool
stoppable s = state_beq s charging || state_beq s float_charging

emergency_sound :
    (s : ChargingState)
    → (s ≡ emergency_stop) ⊎ Allowed s emergency_stop
    → (stoppable s ≡ true) ⊎ (s ≡ emergency_stop)
emergency_sound s (inl e) = inr e
emergency_sound idle (inr (listed _ _ targets e t)) = inl cc
emergency_sound plugged (inr (listed _ _ targets e t)) = inl cc
emergency_sound charging (inr h) = inl refl
emergency_sound float_charging (inr h) = inl refl
emergency_sound completed (inr (listed _ _ targets e t)) = inl cc
emergency_sound fault (inr (listed _ _ targets e t)) = inl cc
emergency_sound emergency_stop (inr (listed _ _ targets e t)) = inl cc
emergency_sound (other n) (inr (listed _ _ targets e t)) = absurd (none-ne-some e)

emergency_complete :
    (s : ChargingState)
    → (stoppable s ≡ true) ⊎ (s ≡ emergency_stop)
    → (s ≡ emergency_stop) ⊎ Allowed s emergency_stop
emergency_complete s (inr e) = inl e
emergency_complete idle (inl h) = absurd (true-ne-false (sym h))
emergency_complete plugged (inl h) = absurd (true-ne-false (sym h))
emergency_complete charging (inl h) = inr (listed charging emergency_stop _ refl refl)
emergency_complete float_charging (inl h) = inr (listed float_charging emergency_stop _ refl refl)
emergency_complete completed (inl h) = absurd (true-ne-false (sym h))
emergency_complete fault (inl h) = absurd (true-ne-false (sym h))
emergency_complete emergency_stop (inl h) = absurd (true-ne-false (sym h))
emergency_complete (other n) (inl h) = absurd (ground (arith, h))

-- An emergency stop is accepted exactly when the machine is charging or float charging, or is in
-- the emergency state already.
pub emergency_iff :
    (m : Machine) (why : Bytes) (details : Data) (now : ℕ)
    → IsOk (handle_emergency_stop m why details now)
      ↔ ((can_stop_charging m ≡ true) ⊎ (m.current_state ≡ emergency_stop))
unfolding handle_emergency_stop
emergency_iff m why details now =
    let noted = put_data emergency_reason_key (text_value why) details in
    (
      λ h. emergency_sound m.current_state (accepts_sound m emergency_stop emergency noted now h),
      λ h.
          accepts_complete m emergency_stop emergency noted now
            (emergency_complete m.current_state h),
    )

-- From every machine that the calls can reach, a fault report and then a request for `idle` both
-- succeed, and leave the state `idle`.
pub recovers :
    (m : Machine) (code : Bytes) (reason : StateChangeReason) (details : Data) (now later : ℕ)
    → Reachable m
    → (m2 : Machine) × (m3 : Machine) × (handle_fault m code details now ≡ ok m2)
      × (transition_to m2 idle reason details later ≡ ok m3)
      × (m3.current_state ≡ idle)
recovers m code reason details now later r =
    let (m2, e, f) = fault_always m code details now r in
    let taken =
      accepts_complete m2 idle reason details later
        (inr (subst (λ s. Allowed s idle) (sym f) (listed fault idle _ refl refl))) in
    let (m3, e2) = accepted_machine (transition_to m2 idle reason details later) taken in
    (m2, m3, e, e2, transition_to_state m2 idle reason details later m3 e2)
