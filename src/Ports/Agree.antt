-- ===== src/Ports/Agree.antt =====
-- The calls of the port manager keep its tables consistent.
use iot_zinx.Shared.{
  ℕ, ◌<◌, ◌≡◌, ◌↔◌, refl, sym, ◌∙◌, subst, inl, inr, arith, Bytes, bytes_eq, bytes_beq, nat_eq,
  Bool-cases, Option, Option-cases, ok, IsOk, err-ne-ok, ok-injective, ltb, ltb→lt, lt→ltb,
}
use iot_zinx.Shared.Table.{lookup, insert}
use iot_zinx.Shared.Keys.{insert-All, lookup-All, true-ne-false}
use iot_zinx.Orders.Key.{make_order_key}
use iot_zinx.Ports.Manager.{
  PortManager, StatusChange, new_port_manager, set_debounce_interval, get_port_state,
  trigger_status_change_callbacks, is_recent, old_state, updated_state, store_port_state,
  update_port_state,
}
use iot_zinx.Ports.Tables.{
  IsConsistent, PortInvariant, PortStep, by_update, by_debounce, PortReachable, new_manager, after,
  new_complete, new-IsConsistent, keys-insert, complete-lookup,
}
use iot_zinx.Ports.Mapping.{mapping-Invariant}

-- The state that is replaced is that of the port itself.
old-IsConsistent :
    (pm : PortManager) (port : ℕ) (status device_id order_no : Bytes) (now : ℕ)
    → PortInvariant pm
    → port < pm.max_ports
    → IsConsistent (port, updated_state (old_state pm port) status device_id order_no now)
unfolding updated_state
old-IsConsistent pm port status device_id order_no now i b =
    elim (Option-cases (lookup port pm.port_states)) [
      | inl e ↦
          let has =
            complete-lookup pm.port_states 0 pm.max_ports port i.complete (omega arith)
              (omega (arith, b)) in
          absurd (true-ne-false (sym (rw e at has)))
      | inr (state, e) ↦
          rw (old_state, e)
            ((lookup-All IsConsistent port state pm.port_states i.consistent e).0, refl)
    ]

store-Invariant :
    (pm : PortManager) (port : ℕ) (status device_id order_no : Bytes) (now : ℕ)
    → port < pm.max_ports
    → PortInvariant pm
    → PortInvariant (store_port_state pm port status device_id order_no now)
unfolding store_port_state
store-Invariant pm port status device_id order_no now b i =
    let state = updated_state (old_state pm port) status device_id order_no now in
    let has =
      complete-lookup pm.port_states 0 pm.max_ports port i.complete (omega arith)
        (omega (arith, b)) in
    mapping-Invariant (record pm { port_states = insert port state pm.port_states }) device_id port
      b
      (record {
        complete = keys-insert port state pm.port_states has ∙ i.complete;
        consistent =
            insert-All IsConsistent port state pm.port_states
              (old-IsConsistent pm port status device_id order_no now i b) i.consistent;
        lists = i.lists;
        mapped = i.mapped;
      })

told-Invariant :
    (pm : PortManager) (change : StatusChange) (now : ℕ)
    → PortInvariant pm
    → PortInvariant (trigger_status_change_callbacks pm change now).0
unfolding trigger_status_change_callbacks
told-Invariant pm change now i =
    elim (Bool-cases (
      is_recent (lookup (make_order_key change.device_id change.port_number) pm.last_change_time)
        now pm.debounce_interval)) [
          | inl t ↦ rw (trigger_status_change_callbacks, t) i
          | inr t ↦
              rw (trigger_status_change_callbacks, t)
                (record {
                  complete = i.complete;
                  consistent = i.consistent;
                  lists = i.lists;
                  mapped = i.mapped;
                })
        ]

update-Invariant :
    (pm pm2 : PortManager) (port : ℕ) (status device_id order_no : Bytes) (now : ℕ)
    (change : Option StatusChange)
    → PortInvariant pm
    → update_port_state pm port status device_id order_no now ≡ ok (pm2, change)
    → PortInvariant pm2
unfolding update_port_state
update-Invariant pm pm2 port status device_id order_no now change i h =
    elim (Bool-cases (ltb port pm.max_ports)) [
      | inr t ↦ absurd (err-ne-ok refl (rw (update_port_state, t) at h))
      | inl t ↦
          let stored =
            store-Invariant pm port status device_id order_no now (ltb→lt port pm.max_ports t) i in
          elim (Bool-cases (bytes_beq (old_state pm port).status status)) [
            | inl u ↦
                subst (λ (x : PortManager × Option StatusChange). PortInvariant x.0)
                  (ok-injective (rw (update_port_state, t, u) at h)) stored
            | inr u ↦
                subst (λ (x : PortManager × Option StatusChange). PortInvariant x.0)
                  (ok-injective (rw (update_port_state, t, u) at h))
                  (told-Invariant (store_port_state pm port status device_id order_no now)
                    (record {
                      device_id = device_id;
                      port_number = port;
                      old_status = (old_state pm port).status;
                      new_status = status;
                    })
                    now stored)
          ]
    ]

step-Invariant : (pm pm2 : PortManager) → PortStep pm pm2 → PortInvariant pm → PortInvariant pm2
unfolding set_debounce_interval
step-Invariant pm pm2 (by_update _ _ port status device_id order_no now change e) i =
    update-Invariant pm pm2 port status device_id order_no now change i e
step-Invariant pm pm2 (by_debounce _ interval) i = record {
  complete = i.complete;
  consistent = i.consistent;
  lists = i.lists;
  mapped = i.mapped;
}

-- Through every sequence of the port manager's calls: the states are those of all ports in range, in
-- order, each under its own number and charging exactly when its status says so; no device has a
-- port twice or one out of range; and the device last given to a port has the port among its own.
pub ports_agree : (pm : PortManager) → PortReachable pm → PortInvariant pm
unfolding new_port_manager
ports_agree pm (new_manager max_ports) = record {
  complete = new_complete 0 max_ports;
  consistent = new-IsConsistent 0 max_ports;
  lists = tt;
  mapped = tt;
}
ports_agree pm2 (after pm _ r s) = step-Invariant pm pm2 s (ports_agree pm r)

-- So the state of a port is found exactly when the port is in range.
pub get_port_state_iff :
    (pm : PortManager) (port : ℕ)
    → PortReachable pm
    → IsOk (get_port_state pm port) ↔ (port < pm.max_ports)
unfolding get_port_state
get_port_state_iff pm port r =
    let i = ports_agree pm r in
    elim (Bool-cases (ltb port pm.max_ports)) [
      | inr t ↦
          rw (get_port_state, t)
            (λ h. absurd h, λ h. absurd (true-ne-false (sym (lt→ltb port pm.max_ports h) ∙ t)))
      | inl t ↦
          let b = ltb→lt port pm.max_ports t in
          let has =
            complete-lookup pm.port_states 0 pm.max_ports port i.complete (omega arith)
              (omega (arith, b)) in
          elim (Option-cases (lookup port pm.port_states)) [
            | inl e ↦ absurd (true-ne-false (sym (rw e at has)))
            | inr (state, e) ↦ rw (get_port_state, t, e) (λ h. b, λ h. tt)
          ]
    ]
