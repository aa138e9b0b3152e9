-- ===== src/Charging/Accepts.antt =====
-- Which changes of state `TransitionTo` lets through, by the state that is asked for.
use iot_zinx.Shared.{
  ℕ, ◌≡◌, ◌↔◌, ◌⊎◌, inl, inr, refl, sym, subst, List, [], ◌∷◌, true, none, some, Option, ap,
  Bool-cases, IsOk,
}
use iot_zinx.Charging.Machine.{
  ChargingState, idle, plugged, charging, float_charging, completed, fault, emergency_stop, other,
  state_beq, StateChangeReason, Data, Machine, transitions, contains, transition_to,
}
use iot_zinx.Charging.Named.{Allowed, listed}
use iot_zinx.Charging.Control.{state_beq_sound, accepts_Allowed}

-- From where each state can be entered.
abbrev pub MayEnter : ChargingState → ChargingState → Type 0
MayEnter idle from =
    (from ≡ plugged)
    ⊎ (from ≡ charging)
    ⊎ (from ≡ completed)
    ⊎ (from ≡ fault)
    ⊎ (from ≡ emergency_stop)
MayEnter plugged from = from ≡ idle
MayEnter charging from = from ≡ plugged
MayEnter float_charging from = from ≡ charging
MayEnter completed from = (from ≡ charging) ⊎ (from ≡ float_charging)
MayEnter fault from =
    (from ≡ idle)
    ⊎ (from ≡ plugged)
    ⊎ (from ≡ charging)
    ⊎ (from ≡ float_charging)
    ⊎ (from ≡ completed)
    ⊎ (from ≡ emergency_stop)
MayEnter emergency_stop from = (from ≡ charging) ⊎ (from ≡ float_charging)
MayEnter (other n) from = ⊥

-- Among the states listed.
abbrev IsAmong : ChargingState → List ChargingState → Type 0
IsAmong s [] = ⊥
IsAmong s (a ∷ allowed) = (a ≡ s) ⊎ IsAmong s allowed

contains-IsAmong :
    (s : ChargingState) (allowed : List ChargingState)
    → contains s allowed ≡ true
    → IsAmong s allowed
contains-IsAmong s [] h = cc
contains-IsAmong s (a ∷ allowed) h = elim (Bool-cases (state_beq a s)) [
  | inl t ↦ inl (state_beq_sound a s t)
  | inr t ↦ inr (contains-IsAmong s allowed (rw t at h))
]

abbrev listed_targets : Option (List ChargingState) → List ChargingState
listed_targets none = []
listed_targets (some targets) = targets

abbrev row : ChargingState → List ChargingState
row from = listed_targets (transitions from)

row_edges : (from to : ChargingState) → IsAmong to (row from) → MayEnter to from
row_edges idle to (inl e) = subst (λ t. MayEnter t idle) e refl
row_edges idle to (inr (inl e)) = subst (λ t. MayEnter t idle) e (inl refl)
row_edges idle to (inr (inr e)) = absurd e
row_edges plugged to (inl e) = subst (λ t. MayEnter t plugged) e refl
row_edges plugged to (inr (inl e)) = subst (λ t. MayEnter t plugged) e (inl refl)
row_edges plugged to (inr (inr (inl e))) = subst (λ t. MayEnter t plugged) e (inr (inl refl))
row_edges plugged to (inr (inr (inr e))) = absurd e
row_edges charging to (inl e) = subst (λ t. MayEnter t charging) e refl
row_edges charging to (inr (inl e)) = subst (λ t. MayEnter t charging) e (inl refl)
row_edges charging to (inr (inr (inl e))) =
    subst (λ t. MayEnter t charging) e (inr (inr (inl refl)))
row_edges charging to (inr (inr (inr (inl e)))) = subst (λ t. MayEnter t charging) e (inl refl)
row_edges charging to (inr (inr (inr (inr (inl e))))) =
    subst (λ t. MayEnter t charging) e (inr (inl refl))
row_edges charging to (inr (inr (inr (inr (inr e))))) = absurd e
row_edges float_charging to (inl e) = subst (λ t. MayEnter t float_charging) e (inr refl)
row_edges float_charging to (inr (inl e)) =
    subst (λ t. MayEnter t float_charging) e (inr (inr (inr (inl refl))))
row_edges float_charging to (inr (inr (inl e))) =
    subst (λ t. MayEnter t float_charging) e (inr refl)
row_edges float_charging to (inr (inr (inr e))) = absurd e
row_edges completed to (inl e) = subst (λ t. MayEnter t completed) e (inr (inr (inl refl)))
row_edges completed to (inr (inl e)) =
    subst (λ t. MayEnter t completed) e (inr (inr (inr (inr (inl refl)))))
row_edges completed to (inr (inr e)) = absurd e
row_edges fault to (inl e) = subst (λ t. MayEnter t fault) e (inr (inr (inr (inl refl))))
row_edges fault to (inr e) = absurd e
row_edges emergency_stop to (inl e) =
    subst (λ t. MayEnter t emergency_stop) e (inr (inr (inr (inr refl))))
row_edges emergency_stop to (inr (inl e)) =
    subst (λ t. MayEnter t emergency_stop) e (inr (inr (inr (inr (inr refl)))))
row_edges emergency_stop to (inr (inr e)) = absurd e
row_edges (other n) to h = absurd h

edges_listed : (to from : ChargingState) → MayEnter to from → Allowed from to
edges_listed idle from (inl e) =
    subst (λ x. Allowed x idle) (sym e) (listed plugged idle (row plugged) refl refl)
edges_listed idle from (inr (inl e)) =
    subst (λ x. Allowed x idle) (sym e) (listed charging idle (row charging) refl refl)
edges_listed idle from (inr (inr (inl e))) =
    subst (λ x. Allowed x idle) (sym e) (listed completed idle (row completed) refl refl)
edges_listed idle from (inr (inr (inr (inl e)))) =
    subst (λ x. Allowed x idle) (sym e) (listed fault idle (row fault) refl refl)
edges_listed idle from (inr (inr (inr (inr e)))) =
    subst (λ x. Allowed x idle) (sym e) (listed emergency_stop idle (row emergency_stop) refl refl)
edges_listed plugged from e =
    subst (λ x. Allowed x plugged) (sym e) (listed idle plugged (row idle) refl refl)
edges_listed charging from e =
    subst (λ x. Allowed x charging) (sym e) (listed plugged charging (row plugged) refl refl)
edges_listed float_charging from e =
    subst (λ x. Allowed x float_charging) (sym e)
      (listed charging float_charging (row charging) refl refl)
edges_listed completed from (inl e) =
    subst (λ x. Allowed x completed) (sym e) (listed charging completed (row charging) refl refl)
edges_listed completed from (inr e) =
    subst (λ x. Allowed x completed) (sym e)
      (listed float_charging completed (row float_charging) refl refl)
edges_listed fault from (inl e) =
    subst (λ x. Allowed x fault) (sym e) (listed idle fault (row idle) refl refl)
edges_listed fault from (inr (inl e)) =
    subst (λ x. Allowed x fault) (sym e) (listed plugged fault (row plugged) refl refl)
edges_listed fault from (inr (inr (inl e))) =
    subst (λ x. Allowed x fault) (sym e) (listed charging fault (row charging) refl refl)
edges_listed fault from (inr (inr (inr (inl e)))) =
    subst (λ x. Allowed x fault) (sym e)
      (listed float_charging fault (row float_charging) refl refl)
edges_listed fault from (inr (inr (inr (inr (inl e))))) =
    subst (λ x. Allowed x fault) (sym e) (listed completed fault (row completed) refl refl)
edges_listed fault from (inr (inr (inr (inr (inr e))))) =
    subst (λ x. Allowed x fault) (sym e)
      (listed emergency_stop fault (row emergency_stop) refl refl)
edges_listed emergency_stop from (inl e) =
    subst (λ x. Allowed x emergency_stop) (sym e)
      (listed charging emergency_stop (row charging) refl refl)
edges_listed emergency_stop from (inr e) =
    subst (λ x. Allowed x emergency_stop) (sym e)
      (listed float_charging emergency_stop (row float_charging) refl refl)
edges_listed (other n) from h = absurd h

Allowed-MayEnter : (from to : ChargingState) → Allowed from to → MayEnter to from
Allowed-MayEnter from to (listed _ _ targets e h) =
    row_edges from to
      (subst (IsAmong to) (sym (ap listed_targets e)) (contains-IsAmong to targets h))

-- A request for a state is accepted exactly when the machine is in that state already, or may enter
-- it from its own: idle from every other named state but float charging, plugged from idle, charging
-- from plugged, float charging from charging, completed and emergency stop from charging and float
-- charging, fault from every other named state, and states without a name from none.
pub accepts_iff :
    (m : Machine) (new_state : ChargingState) (reason : StateChangeReason) (details : Data)
    (now : ℕ)
    → IsOk (transition_to m new_state reason details now)
      ↔ ((m.current_state ≡ new_state) ⊎ MayEnter new_state m.current_state)
accepts_iff m new_state reason details now = (
  λ h. elim ((accepts_Allowed m new_state reason details now).0 h) [
    | inl e ↦ inl e
    | inr a ↦ inr (Allowed-MayEnter m.current_state new_state a)
  ],
  λ h.
      (accepts_Allowed m new_state reason details now).1
        (elim h [ inl e ↦ inl e | inr a ↦ inr (edges_listed new_state m.current_state a) ]),
)
