-- ===== src/Charging/History.antt =====
-- The history of a charging state machine: every entry is an allowed step, each starts where the
-- one before it ended, and the last ends in the current state.
use iot_zinx.Shared.{
  ℕ, ◌+◌, ◌≡◌, ◌≤◌, inl, inr, refl, sym, subst, ◌∙◌, arith, List, [], ◌∷◌, ◌++◌, Bool, Option, none,
  some, length, drop, length-append, length-drop, ok-injective, err-ne-ok, ok, err, ltb,
  if◌then◌else◌, Bool-cases,
}
use iot_zinx.Charging.Machine.{
  ChargingState, state_beq, StateChangeReason, Data, StateChange, Machine, history_limit,
  transitions, TransitionError, not_allowed, contains, add_to_history, change_of, changed, checked,
  transition_to,
}
use iot_zinx.Charging.Named.{Allowed, listed, IsNamed, Allowed-IsNamed}

abbrev pub Linked : ChargingState → List StateChange → ChargingState → Type 0
Linked from [] to = from ≡ to
Linked from (c ∷ cs) to =
    (c.from_state ≡ from) × Allowed c.from_state c.to_state × Linked c.to_state cs to

pub record WellFormed (m : Machine) : Type 0 where
  pub bounded : length m.state_history ≤ history_limit
  pub first : ChargingState
  pub first_named : IsNamed first
  pub linked : Linked first m.state_history m.current_state

Linked-snoc :
    (from mid to : ChargingState) (cs : List StateChange) (c : StateChange)
    → Linked from cs mid
    → c.from_state ≡ mid
    → c.to_state ≡ to
    → Allowed mid to
    → Linked from (cs ++ (c ∷ [])) to
Linked-snoc from mid to [] c h e f a =
    (e ∙ sym h, subst (λ x. Allowed x c.to_state) (sym e) (subst (λ x. Allowed mid x) (sym f) a), f)
Linked-snoc from mid to (d ∷ cs) c h e f a =
    (h.0, h.1, Linked-snoc d.to_state mid to cs c h.2 e f a)

Linked-drop :
    (from to : ChargingState) (cs : List StateChange)
    → IsNamed from
    → Linked from cs to
    → (start : ChargingState) × IsNamed start × Linked start (drop 1 cs) to
Linked-drop from to [] k h = (from, k, h)
Linked-drop from to (c ∷ cs) k h = (c.to_state, Allowed-IsNamed c.from_state c.to_state h.1, h.2)

pub Linked-IsNamed :
    (from to : ChargingState) (cs : List StateChange)
    → IsNamed from
    → Linked from cs to
    → IsNamed to
Linked-IsNamed from to [] k h = subst IsNamed h k
Linked-IsNamed from to (c ∷ cs) k h =
    Linked-IsNamed c.to_state to cs (Allowed-IsNamed c.from_state c.to_state h.1) h.2

add_to_history-Linked :
    (first mid to : ChargingState) (history : List StateChange) (c : StateChange)
    → length history ≤ history_limit
    → IsNamed first
    → Linked first history mid
    → c.from_state ≡ mid
    → c.to_state ≡ to
    → Allowed mid to
    → (length (add_to_history c history) ≤ history_limit)
      × ((start : ChargingState) × IsNamed start × Linked start (add_to_history c history) to)
unfolding add_to_history
add_to_history-Linked first mid to history c b k h e f a =
    let longer = history ++ (c ∷ []) in
    let size : length longer ≡ length history + 1 = length-append history (c ∷ []) in
    let linked : Linked first longer to = Linked-snoc first mid to history c h e f a in
    elim (Bool-cases (ltb history_limit (length longer))) [
      | inl t ↦ rw t (omega (arith, length-drop 1 longer), Linked-drop first to longer k linked)
      | inr t ↦ rw t (ground arith, (first, k, linked))
    ]

changed-WellFormed :
    (m : Machine) (new_state : ChargingState) (reason : StateChangeReason) (details : Data)
    (now : ℕ)
    → Allowed m.current_state new_state
    → WellFormed m
    → WellFormed (changed m new_state reason details now)
changed-WellFormed m new_state reason details now a h =
    let (b, (start, named, linked)) =
      add_to_history-Linked h.first m.current_state new_state m.state_history
        (change_of m new_state reason details now) h.bounded h.first_named h.linked refl refl a in
    record { bounded = b; first = start; first_named = named; linked = linked }

checked-WellFormed :
    (m m2 : Machine) (new_state : ChargingState) (reason : StateChangeReason) (details : Data)
    (now : ℕ) (targets : Option (List ChargingState))
    → transitions m.current_state ≡ targets
    → WellFormed m
    → checked m new_state reason details now targets ≡ ok m2
    → WellFormed m2
checked-WellFormed m m2 new_state reason details now none e h k = cc
checked-WellFormed m m2 new_state reason details now (some targets) e h k =
    let result = λ (b : Bool).
      if b
      then ok (changed m new_state reason details now)
      else err (not_allowed m.current_state new_state) in
    elim (Bool-cases (contains new_state targets)) [
      | inl t ↦
          subst WellFormed (ok-injective {E = TransitionError} (subst (λ b. result b ≡ ok m2) t k))
            (changed-WellFormed m new_state reason details now
              (listed m.current_state new_state targets e t) h)
      | inr t ↦ absurd (err-ne-ok refl (subst (λ b. result b ≡ ok m2) t k))
    ]

pub transition_to-WellFormed :
    (m m2 : Machine) (new_state : ChargingState) (reason : StateChangeReason) (details : Data)
    (now : ℕ)
    → WellFormed m
    → transition_to m new_state reason details now ≡ ok m2
    → WellFormed m2
unfolding transition_to
transition_to-WellFormed m m2 new_state reason details now h k =
    let result = λ (b : Bool).
      if b then ok m else checked m new_state reason details now (transitions m.current_state) in
    elim (Bool-cases (state_beq m.current_state new_state)) [
      | inl t ↦
          subst WellFormed (ok-injective {E = TransitionError} (subst (λ b. result b ≡ ok m2) t k))
            h
      | inr t ↦
          checked-WellFormed m m2 new_state reason details now (transitions m.current_state) refl h
            (subst (λ b. result b ≡ ok m2) t k)
    ]
