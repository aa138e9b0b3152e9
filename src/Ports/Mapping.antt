-- ===== src/Ports/Mapping.antt =====
-- Giving a port to a device keeps the lists of ports.
use iot_zinx.Shared.{
  ℕ, ◌<◌, ◌≡◌, ◌≢◌, refl, sym, ◌∙◌, subst, inl, inr, Bytes, bytes_eq, nat_eq, List, [], ◌∷◌, ◌++◌,
  ◌==◌, true, false, Bool-cases, Option-cases, All, nat_beq, nat_beq_iff, if◌then◌else◌,
}
use iot_zinx.Shared.Table.{lookup, insert, lookup-insert_self, lookup-insert_ne, ==-ne}
use iot_zinx.Shared.Keys.{insert-All, lookup-All, same_key, other_key, true-ne-false}
use iot_zinx.Shared.Sizes.{All-map}
use iot_zinx.Ports.Manager.{
  PortManager, among, get_device_ports, update_device_port_mapping, is_nameless, with_device,
}
use iot_zinx.Ports.Tables.{IsUnrepeated, IsPortList, listed, IsMapped, PortInvariant}

among-snoc :
    (q p : ℕ) (ports : List ℕ)
    → among q (ports ++ (p ∷ [])) ≡ (if among q ports then true else nat_beq p q)
among-snoc q p [] = elim (Bool-cases (nat_beq p q)) [ inl t ↦ rw t refl | inr t ↦ rw t refl ]
among-snoc q p (x ∷ ports) = elim (Bool-cases (nat_beq x q)) [
  | inl t ↦ rw t refl
  | inr t ↦ rw t (among-snoc q p ports)
]

among-tail : (p x : ℕ) (ports : List ℕ) → among p (x ∷ ports) ≡ false → among p ports ≡ false
among-tail p x ports h = elim (Bool-cases (nat_beq x p)) [
  | inl t ↦ absurd (true-ne-false (rw t at h))
  | inr t ↦ rw t at h
]

among-head : (p x : ℕ) (ports : List ℕ) → among p (x ∷ ports) ≡ false → x ≢ p
among-head p x ports h e = elim (Bool-cases (nat_beq x p)) [
  | inl t ↦ true-ne-false (rw t at h)
  | inr t ↦ other_key t e
]

IsUnrepeated-snoc :
    (p : ℕ) (ports : List ℕ)
    → among p ports ≡ false
    → IsUnrepeated ports
    → IsUnrepeated (ports ++ (p ∷ []))
IsUnrepeated-snoc p [] h u = (refl, tt)
IsUnrepeated-snoc p (x ∷ ports) h u =
    let apart : nat_beq p x ≡ false = ==-ne p x (λ e. among-head p x ports h (sym e)) in
    let alone : among x (ports ++ (p ∷ [])) ≡ false = rw (among-snoc x p ports, u.0, apart) refl in
    (alone, IsUnrepeated-snoc p ports (among-tail p x ports h) u.1)

below-snoc :
    (p m : ℕ) (ports : List ℕ)
    → p < m
    → All (λ q. q < m) ports
    → All (λ q. q < m) (ports ++ (p ∷ []))
below-snoc p m [] h a = (h, tt)
below-snoc p m (x ∷ ports) h a = (a.0, below-snoc p m ports h a.1)

-- The list of a device's ports, as the invariant has it.
known_ports :
    (pm : PortManager) (device_id : Bytes)
    → All (IsPortList pm.max_ports) pm.device_ports
    → IsPortList pm.max_ports (device_id, get_device_ports pm device_id)
unfolding get_device_ports
known_ports pm device_id h = elim (Option-cases (lookup device_id pm.device_ports)) [
  | inl e ↦ rw (get_device_ports, e) (tt, tt)
  | inr (ports, e) ↦
      rw (get_device_ports, e)
        (lookup-All (IsPortList pm.max_ports) device_id ports pm.device_ports h e)
]

still-IsMapped :
    (pm : PortManager) (device_id : Bytes) (port : ℕ) (p : ℕ × Bytes)
    → IsMapped pm.device_ports p
    → IsMapped (insert device_id (get_device_ports pm device_id ++ (port ∷ [])) pm.device_ports) p
unfolding get_device_ports
still-IsMapped pm device_id port p h =
    let ports = get_device_ports pm device_id in
    elim (Bool-cases (device_id == p.1)) [
      | inr f ↦
          rw (lookup-insert_ne device_id p.1 (ports ++ (port ∷ [])) pm.device_ports (other_key f)) h
      | inl t ↦ elim (Option-cases (lookup device_id pm.device_ports)) [
        | inl e ↦
            let gone : listed p.0 (lookup device_id pm.device_ports) ≡ true =
              subst (λ d. listed p.0 (lookup d pm.device_ports) ≡ true) {x = p.1} (sym (same_key t))
                h in
            absurd (true-ne-false (sym (rw e at gone)))
        | inr (old, e) ↦
            let here : listed p.0 (lookup device_id pm.device_ports) ≡ true =
              subst (λ d. listed p.0 (lookup d pm.device_ports) ≡ true) {x = p.1} (sym (same_key t))
                h in
            let was : among p.0 old ≡ true = rw e at here in
            let found : get_device_ports pm device_id ≡ old = rw (get_device_ports, e) refl in
            subst
              (λ d.
                listed p.0 (lookup d (insert device_id (ports ++ (port ∷ [])) pm.device_ports))
                ≡ true)
              {x = device_id} (same_key t)
              (rw (lookup-insert_self device_id (ports ++ (port ∷ [])) pm.device_ports)
                (among-snoc p.0 port ports ∙ rw found (rw was refl)))
      ]
    ]

already-IsMapped :
    (pm : PortManager) (device_id : Bytes) (port : ℕ)
    → among port (get_device_ports pm device_id) ≡ true
    → IsMapped pm.device_ports (port, device_id)
unfolding get_device_ports
already-IsMapped pm device_id port h = elim (Option-cases (lookup device_id pm.device_ports)) [
  | inl e ↦ absurd (true-ne-false (sym (rw (get_device_ports, e) at h)))
  | inr (ports, e) ↦ rw e (rw (get_device_ports, e) at h)
]

newly-IsMapped :
    (pm : PortManager) (device_id : Bytes) (port : ℕ)
    → IsMapped
        (insert device_id (get_device_ports pm device_id ++ (port ∷ [])) pm.device_ports)
        (port, device_id)
newly-IsMapped pm device_id port =
    let ports = get_device_ports pm device_id in
    rw (lookup-insert_self device_id (ports ++ (port ∷ [])) pm.device_ports) (
      among-snoc port port ports
      ∙ rw ((nat_beq_iff port port).1 refl)
          (elim (Bool-cases (among port ports)) [ inl t ↦ rw t refl | inr t ↦ rw t refl ]))

-- A device is given a port in range.
pub mapping-Invariant :
    (pm : PortManager) (device_id : Bytes) (port : ℕ)
    → port < pm.max_ports
    → PortInvariant pm
    → PortInvariant (with_device pm device_id port)
unfolding update_device_port_mapping get_device_ports
mapping-Invariant pm device_id port b i =
    let ports = get_device_ports pm device_id in
    elim (Bool-cases (is_nameless device_id)) [
      | inl t ↦ rw t i
      | inr t ↦ elim (Bool-cases (among port ports)) [
        | inl u ↦
            rw (t, u)
              (record {
                complete = i.complete;
                consistent = i.consistent;
                lists = i.lists;
                mapped =
                    insert-All (IsMapped pm.device_ports) port device_id pm.port_devices
                      (already-IsMapped pm device_id port u) i.mapped;
              })
        | inr u ↦
            let known = known_ports pm device_id i.lists in
            let grown = insert device_id (ports ++ (port ∷ [])) pm.device_ports in
            rw (t, u)
              (record {
                complete = i.complete;
                consistent = i.consistent;
                lists =
                    insert-All (IsPortList pm.max_ports) device_id (ports ++ (port ∷ []))
                      pm.device_ports
                      (
                        IsUnrepeated-snoc port ports u known.0,
                        below-snoc port pm.max_ports ports b known.1,
                      )
                      i.lists;
                mapped =
                    insert-All (IsMapped grown) port device_id pm.port_devices
                      (newly-IsMapped pm device_id port)
                      (All-map (IsMapped pm.device_ports) (IsMapped grown) pm.port_devices
                        (λ p x. still-IsMapped pm device_id port p x) i.mapped);
              })
      ]
    ]
