-- ===== src/Charging/Runs.antt =====
-- The calls and events of a charging state machine in any order, and what holds throughout.
use iot_zinx.Shared.{
  ℕ, ◌≡◌, ◌≤◌, inl, inr, refl, sym, subst, ap, arith, Bytes, Option, none, some, Option-cases,
  length, get_elem?, ok-injective, Result, ok, panic, ltb, Bool-cases,
}
use iot_zinx.Charging.Machine.{
  ChargingState, idle, fault, emergency_stop, StateChangeReason, Data, StateChange, Machine,
  history_limit, new_machine, TransitionError, transition_to, known_status, process_protocol_status,
  handle_emergency_stop, handle_fault, put_data, unknown_status_key, emergency_reason_key,
  fault_code_key, byte_value, text_value, emergency, fault_reason, set_order_no, send_event, sent,
  channel_capacity, receive_event, close,
}
use iot_zinx.Charging.Named.{IsNamed}
use iot_zinx.Charging.History.{Linked, Linked-IsNamed, WellFormed, transition_to-WellFormed}

-- One call on a machine that succeeds, or one event that a goroutine sends or a listener takes.
pub data Step : Machine → Machine → Type 0 where
  by_request :
      (m m2 : Machine) (new_state : ChargingState) (reason : StateChangeReason) (details : Data)
      (now : ℕ)
      → transition_to m new_state reason details now ≡ ok m2
      → Step m m2
  by_protocol :
      (m m2 : Machine) (status : ℕ) (reason : StateChangeReason) (details : Data) (now : ℕ)
      → process_protocol_status m status reason details now ≡ ok m2
      → Step m m2
  by_emergency :
      (m m2 : Machine) (why : Bytes) (details : Data) (now : ℕ)
      → handle_emergency_stop m why details now ≡ ok m2
      → Step m m2
  by_fault :
      (m m2 : Machine) (code : Bytes) (details : Data) (now : ℕ)
      → handle_fault m code details now ≡ ok m2
      → Step m m2
  by_order : (m : Machine) (order_no : Bytes) → Step m (set_order_no order_no m)
  by_send : (m m2 : Machine) (i : ℕ) → send_event m i ≡ ok m2 → Step m m2
  by_receive : (m : Machine) → Step m (receive_event m)
  by_close : (m m2 : Machine) → close m ≡ ok m2 → Step m m2

pub data Reachable : Machine → Type 0 where
  start : (device_id : Bytes) (port now : ℕ) → Reachable (new_machine device_id port now)
  after : (m m2 : Machine) → Reachable m → Step m m2 → Reachable m2

injected : {a b : Machine} → ◌≡◌ {A = Result TransitionError Machine} (ok a) (ok b) → a ≡ b
injected = ok-injective

panic-ne-ok : {a : Machine} → ◌≡◌ {A = Result TransitionError Machine} panic (ok a) → ⊥
panic-ne-ok h = cc

module _ (m m2 : Machine) where
  process-WellFormed :
      (status : ℕ) (reason : StateChangeReason) (details : Data) (now : ℕ)
      → WellFormed m
      → process_protocol_status m status reason details now ≡ ok m2
      → WellFormed m2
  unfolding process_protocol_status
  process-WellFormed status reason details now h k = elim (Option-cases (known_status status)) [
    | inl e ↦
        transition_to-WellFormed m m2 fault reason
          (put_data unknown_status_key (byte_value status) details) now h
          (rw (process_protocol_status, e) at k)
    | inr (target, e) ↦
        transition_to-WellFormed m m2 target reason details now h
          (rw (process_protocol_status, e) at k)
  ]

  same-WellFormed :
      m2.state_history ≡ m.state_history
      → m2.current_state ≡ m.current_state
      → WellFormed m
      → WellFormed m2
  same-WellFormed p q h = record {
    bounded = subst (λ cs. length cs ≤ history_limit) (sym p) h.bounded;
    first = h.first;
    first_named = h.first_named;
    linked =
        subst (Linked h.first m2.state_history) (sym q)
          (subst (λ cs. Linked h.first cs m.current_state) (sym p) h.linked);
  }

  sent_keeps :
      (i : ℕ) (o : Option StateChange)
      → sent m i o ≡ ok m2
      → (m2.state_history ≡ m.state_history) × (m2.current_state ≡ m.current_state)
  sent_keeps i none k =
      (ap (λ x. x.state_history) (sym (injected k)), ap (λ x. x.current_state) (sym (injected k)))
  sent_keeps i (some change) k = elim (Bool-cases m.closed) [
    | inl t ↦ absurd (panic-ne-ok (rw t at k))
    | inr t ↦ elim (Bool-cases (ltb (length m.state_changes) channel_capacity)) [
      | inl u ↦
          let k2 = rw (t, u) at k in
          (
            ap (λ x. x.state_history) (sym (injected k2)),
            ap (λ x. x.current_state) (sym (injected k2)),
          )
      | inr u ↦
          let k2 = rw (t, u) at k in
          (
            ap (λ x. x.state_history) (sym (injected k2)),
            ap (λ x. x.current_state) (sym (injected k2)),
          )
    ]
  ]

  send-WellFormed : (i : ℕ) → WellFormed m → send_event m i ≡ ok m2 → WellFormed m2
  unfolding send_event
  send-WellFormed i h k =
      let (p, q) = sent_keeps i (get_elem? m.in_flight i) k in same-WellFormed p q h

  close-WellFormed : WellFormed m → close m ≡ ok m2 → WellFormed m2
  unfolding close
  close-WellFormed h k = elim (Bool-cases m.closed) [
    | inl t ↦ absurd (panic-ne-ok (rw (close, t) at k))
    | inr t ↦
        let same = injected (rw (close, t) at k) in
        same-WellFormed (ap (λ x. x.state_history) (sym same))
          (ap (λ x. x.current_state) (sym same)) h
  ]

step-WellFormed : (m m2 : Machine) → Step m m2 → WellFormed m → WellFormed m2
unfolding handle_emergency_stop handle_fault receive_event
step-WellFormed m m2 (by_request _ _ new_state reason details now e) h =
    transition_to-WellFormed m m2 new_state reason details now h e
step-WellFormed m m2 (by_protocol _ _ status reason details now e) h =
    process-WellFormed m m2 status reason details now h e
step-WellFormed m m2 (by_emergency _ _ why details now e) h =
    transition_to-WellFormed m m2 emergency_stop emergency
      (put_data emergency_reason_key (text_value why) details) now h e
step-WellFormed m m2 (by_fault _ _ code details now e) h =
    transition_to-WellFormed m m2 fault fault_reason
      (put_data fault_code_key (text_value code) details) now h e
step-WellFormed m m2 (by_order _ order_no) h = record {
  bounded = h.bounded;
  first = h.first;
  first_named = h.first_named;
  linked = h.linked;
}
step-WellFormed m m2 (by_send _ _ i e) h = send-WellFormed m m2 i h e
step-WellFormed m m2 (by_receive _) h = record {
  bounded = h.bounded;
  first = h.first;
  first_named = h.first_named;
  linked = h.linked;
}
step-WellFormed m m2 (by_close _ _ e) h = close-WellFormed m m2 h e

-- Whatever calls and events a new machine goes through, its history holds at most 50 entries, each
-- entry is a step that the transition table allows, each starts in the state where the one before
-- it ended, and the last ends in the current state.
pub Reachable-WellFormed : (m : Machine) → Reachable m → WellFormed m
unfolding new_machine
Reachable-WellFormed m (start device_id port now) = record {
  bounded = omega arith;
  first = idle;
  first_named = tt;
  linked = refl;
}
Reachable-WellFormed m2 (after m _ r s) = step-WellFormed m m2 s (Reachable-WellFormed m r)

pub Reachable-IsNamed : (m : Machine) → Reachable m → IsNamed m.current_state
Reachable-IsNamed m r =
    let h = Reachable-WellFormed m r in
    Linked-IsNamed h.first m.current_state m.state_history h.first_named h.linked
