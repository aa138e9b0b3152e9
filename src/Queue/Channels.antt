-- ===== src/Queue/Channels.antt =====
-- What a send and a receipt do to the channels: no channel outgrows its capacity.
use iot_zinx.Shared.{
  ℕ, suc, ◌+◌, ◌≤◌, ◌≡◌, refl, sym, ap, ◌∙◌, subst, inl, inr, arith, List, [], ◌∷◌, ◌++◌, Bool,
  true, false, not, ◌&&◌, ◌||◌, Bool-cases, length, Result, ok, err, panic, err-ne-ok, ok-injective,
  ltb, ltb→lt, nat_beq, if◌then◌else◌,
}
use iot_zinx.Queue.State.{
  QueuedCommand, Channel, CommandQueue, QueueError, with_defaults, sent_to, select_send, put_back,
  send_command, Place, at_urgent, at_high, at_normal, at_low, at_wait, next_command, nil_command,
  go_on, receive_or, get_next_command,
}
use iot_zinx.Queue.Runs.{Running, queued, QueueInvariant}

length-snoc : (q : Channel) (cmd : QueuedCommand) → length (q ++ (cmd ∷ [])) ≡ suc (length q)
length-snoc [] cmd = refl
length-snoc (c ∷ q) cmd = ap (λ n. suc n) (length-snoc q cmd)

pub length-middle {ℓ} :
    {A : Type ℓ} (before : List A) (cmd : A) (behind : List A)
    → length (before ++ (cmd ∷ behind)) ≡ suc (length (before ++ behind))
length-middle [] cmd behind = refl
length-middle (c ∷ before) cmd behind = ap (λ n. suc n) (length-middle before cmd behind)

next-command :
    {c d : QueuedCommand} {a b : CommandQueue} → next_command c a ≡ next_command d b → c ≡ d
next-command h = cc

next-queue :
    {c d : QueuedCommand} {a b : CommandQueue} → next_command c a ≡ next_command d b → a ≡ b
next-queue h = cc

cons_eq : {c d : QueuedCommand} {q : Channel} → c ≡ d → c ∷ q ≡ d ∷ q
cons_eq h = cc

sent-longer :
    (wins closed has_room : Bool) (priority : ℕ) (q q2 : Channel) (cmd : QueuedCommand)
    → sent_to wins closed has_room priority q cmd ≡ ok q2
    → (has_room ≡ true) × (length q2 ≡ suc (length q))
sent-longer true closed has_room priority q q2 cmd h = absurd (err-ne-ok refl h)
sent-longer false true has_room priority q q2 cmd h = cc
sent-longer false false true priority q q2 cmd h =
    (refl, sym (ap length (ok-injective h)) ∙ length-snoc q cmd)
sent-longer false false false priority q q2 cmd h = absurd (err-ne-ok refl h)

-- A send that succeeds makes the queue longer by one, and only where there is room.
select-fits :
    (done_first stopped closed : Bool) (capacity priority : ℕ) (q q2 : Channel)
    (cmd : QueuedCommand)
    → select_send done_first stopped closed capacity priority q cmd ≡ ok q2
    → (length q2 ≡ suc (length q)) × (length q2 ≤ capacity)
select-fits done_first stopped closed capacity priority q q2 cmd h =
    let has_room = ltb (length q) capacity in
    let (room, longer) =
      sent-longer (stopped && (done_first || not (closed || has_room))) closed has_room priority q
        q2 cmd h in
    (longer, omega (arith, longer, ltb→lt (length q) capacity room))

put_back-ok :
    (place : Channel → CommandQueue) (sent : Result QueueError Channel) (cq : CommandQueue)
    → put_back place sent ≡ ok cq
    → (q : Channel) × (sent ≡ ok q) × (place q ≡ cq)
put_back-ok place (ok q) cq h = (q, refl, ok-injective h)
put_back-ok place (err e) cq h = cc
put_back-ok place panic cq h = cc

-- The channels, the uncounted sends and the uncounted receipts change together.
resized :
    (r : Running) (u h n l : Channel) (sent : ℕ) (looking : List Place) (taken : Channel)
    → QueueInvariant r
    → length u ≤ 100
    → length h ≤ 200
    → length n ≤ 500
    → length l ≤ 1000
    → sent + queued r.queue + length r.taken
      ≡ r.sent + (length u + length h + length n + length l) + length taken
    → length looking + length taken ≡ length r.looking + length r.taken
    → QueueInvariant (record r {
      queue = record r.queue { urgent = u; high = h; normal = n; low = l };
      sent = sent;
      looking = looking;
      taken = taken;
    })
resized r u h n l sent looking taken i a b c d e w = record {
  urgent_fits = a;
  high_fits = b;
  normal_fits = c;
  low_fits = d;
  accounted = omega (arith, i.accounted, e);
  pending = i.pending;
  timeouts = i.timeouts;
  workers = omega (arith, i.workers, w);
}

module _ (r : Running) (i : QueueInvariant r) where
  -- It is enough that every longer channel that fits may stand in the place of the old one.
  placed :
      (place : Channel → CommandQueue) (done_first closed : Bool) (capacity priority : ℕ)
      (q : Channel) (cmd : QueuedCommand) (cq : CommandQueue)
      → put_back place (select_send done_first r.queue.stopped closed capacity priority q cmd)
        ≡ ok cq
      → ((q2 : Channel)
          → length q2 ≡ suc (length q)
          → length q2 ≤ capacity
          → QueueInvariant (record r { queue = place q2; sent = suc r.sent }))
      → QueueInvariant (record r { queue = cq; sent = suc r.sent })
  placed place done_first closed capacity priority q cmd cq h fits =
      let (q2, sent, e) =
        put_back-ok place (select_send done_first r.queue.stopped closed capacity priority q cmd) cq
          h in
      let k = select-fits done_first r.queue.stopped closed capacity priority q q2 cmd sent in
      subst (λ x. QueueInvariant (record r { queue = x; sent = suc r.sent })) e (fits q2 k.0 k.1)

  pub send-Invariant :
      (done_first : Bool) (cmd : QueuedCommand) (now : ℕ) (cq : CommandQueue)
      → send_command done_first r.queue cmd now ≡ ok cq
      → QueueInvariant (record r { queue = cq; sent = suc r.sent })
  unfolding send_command
  send-Invariant done_first cmd now cq h =
      let full = with_defaults now cmd in
      let cq0 = r.queue in
      elim (Bool-cases (nat_beq full.priority 4)) [
        | inl t ↦
            placed (λ q. record cq0 { urgent = q }) done_first cq0.urgent_closed 100 4 cq0.urgent
              full cq (rw (send_command, t) at h)
              (λ q a b.
                resized r q cq0.high cq0.normal cq0.low (suc r.sent) r.looking r.taken i b
                  i.high_fits i.normal_fits i.low_fits (omega (arith, a)) refl)
        | inr t ↦ elim (Bool-cases (nat_beq full.priority 3)) [
          | inl u ↦
              placed (λ q. record cq0 { high = q }) done_first cq0.high_closed 200 3 cq0.high full
                cq (rw (send_command, t, u) at h)
                (λ q a b.
                  resized r cq0.urgent q cq0.normal cq0.low (suc r.sent) r.looking r.taken i
                    i.urgent_fits b i.normal_fits i.low_fits (omega (arith, a)) refl)
          | inr u ↦ elim (Bool-cases (nat_beq full.priority 2)) [
            | inl v ↦
                placed (λ q. record cq0 { normal = q }) done_first cq0.normal_closed 500 2
                  cq0.normal full cq (rw (send_command, t, u, v) at h)
                  (λ q a b.
                    resized r cq0.urgent cq0.high q cq0.low (suc r.sent) r.looking r.taken i
                      i.urgent_fits i.high_fits b i.low_fits (omega (arith, a)) refl)
            | inr v ↦ elim (Bool-cases (nat_beq full.priority 1)) [
              | inl w ↦
                  placed (λ q. record cq0 { low = q }) done_first cq0.low_closed 1000 1 cq0.low full
                    cq (rw (send_command, t, u, v, w) at h)
                    (λ q a b.
                      resized r cq0.urgent cq0.high cq0.normal q (suc r.sent) r.looking r.taken i
                        i.urgent_fits i.high_fits i.normal_fits b (omega (arith, a)) refl)
              | inr w ↦ absurd (err-ne-ok refl (rw (send_command, t, u, v, w) at h))
            ]
          ]
        ]
      ]

-- What a worker may receive: the head of the channel.
receive-cases :
    (closed : Bool) (q : Channel) (place : Channel → CommandQueue) (otherwise : Place)
    (cmd : QueuedCommand) (cq : CommandQueue)
    → receive_or closed q place otherwise ≡ next_command cmd cq
    → (q2 : Channel) × (q ≡ cmd ∷ q2) × (place q2 ≡ cq)
receive-cases closed (c ∷ q) place otherwise cmd cq h = (q, cons_eq (next-command h), next-queue h)
receive-cases true [] place otherwise cmd cq h = cc
receive-cases false [] place otherwise cmd cq h = cc

nothing_received :
    (b : Bool) (cmd : QueuedCommand) (cq : CommandQueue)
    → (if b then nil_command else go_on at_urgent) ≡ next_command cmd cq
    → ⊥
nothing_received true cmd cq h = cc
nothing_received false cmd cq h = cc

module _ (r : Running) (i : QueueInvariant r) (looking : List Place)
    (one_less : length r.looking ≡ suc (length looking)) where
  received :
      (closed : Bool) (place : Channel → CommandQueue) (q : Channel) (otherwise : Place)
      (cmd : QueuedCommand) (cq : CommandQueue)
      → receive_or closed q place otherwise ≡ next_command cmd cq
      → ((q2 : Channel)
          → length q ≡ suc (length q2)
          → QueueInvariant
              (record r { queue = place q2; looking = looking; taken = cmd ∷ r.taken }))
      → QueueInvariant (record r { queue = cq; looking = looking; taken = cmd ∷ r.taken })
  received closed place q otherwise cmd cq h here =
      let (q2, e, p) = receive-cases closed q place otherwise cmd cq h in
      subst (λ x. QueueInvariant (record r { queue = x; looking = looking; taken = cmd ∷ r.taken }))
        p (here q2 (ap length e))

  pub receive-Invariant :
      (timer_first : Bool) (place : Place) (cmd : QueuedCommand) (cq : CommandQueue)
      → get_next_command timer_first place r.queue ≡ next_command cmd cq
      → QueueInvariant (record r { queue = cq; looking = looking; taken = cmd ∷ r.taken })
  unfolding get_next_command
  receive-Invariant timer_first at_urgent cmd cq h =
      let c = r.queue in
      received c.urgent_closed (λ q. record c { urgent = q }) c.urgent at_high cmd cq h
        (λ q e.
          resized r q c.high c.normal c.low r.sent looking (cmd ∷ r.taken) i
            (omega (arith, e, i.urgent_fits)) i.high_fits i.normal_fits i.low_fits
            (omega (arith, e)) (omega (arith, one_less)))
  receive-Invariant timer_first at_high cmd cq h =
      let c = r.queue in
      received c.high_closed (λ q. record c { high = q }) c.high at_normal cmd cq h
        (λ q e.
          resized r c.urgent q c.normal c.low r.sent looking (cmd ∷ r.taken) i i.urgent_fits
            (omega (arith, e, i.high_fits)) i.normal_fits i.low_fits (omega (arith, e))
            (omega (arith, one_less)))
  receive-Invariant timer_first at_normal cmd cq h =
      let c = r.queue in
      received c.normal_closed (λ q. record c { normal = q }) c.normal at_low cmd cq h
        (λ q e.
          resized r c.urgent c.high q c.low r.sent looking (cmd ∷ r.taken) i i.urgent_fits
            i.high_fits (omega (arith, e, i.normal_fits)) i.low_fits (omega (arith, e))
            (omega (arith, one_less)))
  receive-Invariant timer_first at_low cmd cq h =
      let c = r.queue in
      received c.low_closed (λ q. record c { low = q }) c.low at_wait cmd cq h
        (λ q e.
          resized r c.urgent c.high c.normal q r.sent looking (cmd ∷ r.taken) i i.urgent_fits
            i.high_fits i.normal_fits (omega (arith, e, i.low_fits)) (omega (arith, e))
            (omega (arith, one_less)))
  receive-Invariant timer_first at_wait cmd cq h =
      absurd (nothing_received (r.queue.stopped && not timer_first) cmd cq h)
