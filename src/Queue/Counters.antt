-- ===== src/Queue/Counters.antt =====
-- No queue outgrows its channel, and every command is accounted for.
use iot_zinx.Shared.{
  ℕ, suc, ◌+◌, ◌-◌, ◌≤◌, ◌≡◌, refl, sym, ap, ◌∙◌, subst, inl, inr, arith, Bytes, ◌∷◌, ◌++◌, Bool,
  true, false, List, nat_beq, Bool-cases, Option-cases, length, Result, ok, panic, ok-injective,
  ltb,
}
use iot_zinx.Shared.Integers.{
  increase, decrease, difference, increase-difference, decrease-difference,
}
use iot_zinx.Sessions.State.{Connection}
use iot_zinx.Queue.State.{
  QueuedCommand, Channel, QueueStats, CommandQueue, QueueError, new_command_queue, count_enqueued,
  count_taken, process_command, cancel, unless_closed, close_queue, Place, at_urgent, failed_stats,
  timed_out_stats, processed_stats,
}
use iot_zinx.Queue.Runs.{
  Running, QueueStep, by_send, by_count, by_start, by_receive, by_go_on, by_end, by_taken,
  by_process, by_cancel, by_close, QueueReachable, new_queue, after, QueueInvariant,
}
use iot_zinx.Queue.Channels.{length-middle, send-Invariant, receive-Invariant}

cancel-Invariant :
    (r : Running) → QueueInvariant r → QueueInvariant (record r { queue = cancel r.queue })
unfolding cancel
cancel-Invariant r i = record {
  urgent_fits = i.urgent_fits;
  high_fits = i.high_fits;
  normal_fits = i.normal_fits;
  low_fits = i.low_fits;
  accounted = i.accounted;
  pending = i.pending;
  timeouts = i.timeouts;
  workers = i.workers;
}

panic-ne-queue : {cq : CommandQueue} → ◌≡◌ {A = Result QueueError CommandQueue} panic (ok cq) → ⊥
panic-ne-queue h = cc

-- The flags of the channels do not matter to the accounts.
closed-Invariant :
    (r : Running) (u h n l : Bool)
    → QueueInvariant r
    → QueueInvariant (record r {
      queue = record r.queue {
        urgent_closed = u;
        high_closed = h;
        normal_closed = n;
        low_closed = l;
      };
    })
closed-Invariant r u h n l i = record {
  urgent_fits = i.urgent_fits;
  high_fits = i.high_fits;
  normal_fits = i.normal_fits;
  low_fits = i.low_fits;
  accounted = i.accounted;
  pending = i.pending;
  timeouts = i.timeouts;
  workers = i.workers;
}

module _ (r : Running) where
  abbrev Holds : CommandQueue → Type 0
  Holds cq = QueueInvariant (record r { queue = cq })

  unless-Invariant :
      (closed : Bool) (cq cq2 : CommandQueue)
      → unless_closed closed cq ≡ ok cq2
      → Holds cq
      → Holds cq2
  unless-Invariant true cq cq2 h i = absurd (panic-ne-queue h)
  unless-Invariant false cq cq2 h i = subst Holds (ok-injective h) i

  close-Invariant :
      (priority : ℕ) (cq : CommandQueue)
      → QueueInvariant r
      → close_queue priority r.queue ≡ ok cq
      → Holds cq
  unfolding close_queue
  close-Invariant priority cq i h =
      let c = r.queue in
      elim (Bool-cases (nat_beq priority 4)) [
        | inl t ↦
            unless-Invariant c.urgent_closed (record c { urgent_closed = true }) cq
              (rw (close_queue, t) at h)
              (closed-Invariant r true c.high_closed c.normal_closed c.low_closed i)
        | inr t ↦ elim (Bool-cases (nat_beq priority 3)) [
          | inl u ↦
              unless-Invariant c.high_closed (record c { high_closed = true }) cq
                (rw (close_queue, t, u) at h)
                (closed-Invariant r c.urgent_closed true c.normal_closed c.low_closed i)
          | inr u ↦ elim (Bool-cases (nat_beq priority 2)) [
            | inl v ↦
                unless-Invariant c.normal_closed (record c { normal_closed = true }) cq
                  (rw (close_queue, t, u, v) at h)
                  (closed-Invariant r c.urgent_closed c.high_closed true c.low_closed i)
            | inr v ↦
                unless-Invariant c.low_closed (record c { low_closed = true }) cq
                  (rw (close_queue, t, u, v) at h)
                  (closed-Invariant r c.urgent_closed c.high_closed c.normal_closed true i)
          ]
        ]
      ]

-- Workers come, go on to the next channel, and end.
moved-Invariant :
    (r : Running) (looking : List Place) (ended started : ℕ)
    → QueueInvariant r
    → length looking + ended + r.started ≡ length r.looking + r.ended + started
    → QueueInvariant (record r { looking = looking; ended = ended; started = started })
moved-Invariant r looking ended started i e = record {
  urgent_fits = i.urgent_fits;
  high_fits = i.high_fits;
  normal_fits = i.normal_fits;
  low_fits = i.low_fits;
  accounted = i.accounted;
  pending = i.pending;
  timeouts = i.timeouts;
  workers = omega (arith, i.workers, e);
}

one_less :
    (looking before : List Place) (place : Place) (behind : List Place)
    → looking ≡ before ++ (place ∷ behind)
    → length looking ≡ suc (length (before ++ behind))
one_less looking before place behind e = ap length e ∙ length-middle before place behind

count-Invariant :
    (r : Running) (n : ℕ)
    → QueueInvariant r
    → r.sent ≡ suc n
    → QueueInvariant (record r { queue = count_enqueued r.queue; sent = n })
unfolding count_enqueued
count-Invariant r n i e =
    let s = r.queue.stats in
    let done = length r.working + s.total_processed + s.total_failed in
    record {
      urgent_fits = i.urgent_fits;
      high_fits = i.high_fits;
      normal_fits = i.normal_fits;
      low_fits = i.low_fits;
      accounted = omega (arith, i.accounted, e);
      pending =
          ap increase i.pending
          ∙ increase-difference s.total_enqueued done
          ∙ ap (λ x. difference x done) (omega arith);
      timeouts = i.timeouts;
      workers = i.workers;
    }

taken-Invariant :
    (r : Running) (before : Channel) (cmd : QueuedCommand) (behind : Channel)
    → QueueInvariant r
    → r.taken ≡ before ++ (cmd ∷ behind)
    → QueueInvariant (record r {
      queue = count_taken r.queue;
      taken = before ++ behind;
      working = cmd ∷ r.working;
    })
unfolding count_taken
taken-Invariant r before cmd behind i e =
    let s = r.queue.stats in
    let shorter = ap length e ∙ length-middle before cmd behind in
    let more : suc (length r.working + s.total_processed + s.total_failed)
        ≡ suc (length r.working) + s.total_processed + s.total_failed =
      omega arith in
    record {
      urgent_fits = i.urgent_fits;
      high_fits = i.high_fits;
      normal_fits = i.normal_fits;
      low_fits = i.low_fits;
      accounted = omega (arith, i.accounted, shorter);
      pending =
          ap decrease i.pending
          ∙ decrease-difference s.total_enqueued
              (length r.working + s.total_processed + s.total_failed)
          ∙ ap (difference s.total_enqueued) more;
      timeouts = i.timeouts;
      workers = omega (arith, i.workers, shorter);
    }

-- A command that has been worked on is counted as processed or as failed.
worked :
    (r : Running) (stats : QueueStats) (before : Channel) (cmd : QueuedCommand) (behind : Channel)
    → QueueInvariant r
    → r.working ≡ before ++ (cmd ∷ behind)
    → stats.total_enqueued ≡ r.queue.stats.total_enqueued
    → stats.current_pending ≡ r.queue.stats.current_pending
    → stats.total_processed + stats.total_failed
      ≡ suc (r.queue.stats.total_processed + r.queue.stats.total_failed)
    → stats.total_timeout ≤ stats.total_failed
    → QueueInvariant (record r {
      queue = record r.queue { stats = stats };
      looking = at_urgent ∷ r.looking;
      working = before ++ behind;
    })
worked r stats before cmd behind i e same_total same_pending one_more timeouts =
    let shorter = ap length e ∙ length-middle before cmd behind in
    let s = r.queue.stats in
    record {
      urgent_fits = i.urgent_fits;
      high_fits = i.high_fits;
      normal_fits = i.normal_fits;
      low_fits = i.low_fits;
      accounted = omega (arith, i.accounted, shorter, same_total, one_more);
      pending =
          same_pending
          ∙ i.pending
          ∙ ap (λ x. difference x (length r.working + s.total_processed + s.total_failed))
              (sym same_total)
          ∙ ap (difference stats.total_enqueued) (omega (arith, shorter, one_more));
      timeouts = timeouts;
      workers = omega (arith, i.workers, shorter);
    }

process-Invariant :
    (r : Running) (write : Connection → ℕ → Bytes → Bool) (now : ℕ) (before : Channel)
    (cmd : QueuedCommand) (behind : Channel)
    → QueueInvariant r
    → r.working ≡ before ++ (cmd ∷ behind)
    → QueueInvariant (record r {
      queue = process_command write r.queue cmd now;
      looking = at_urgent ∷ r.looking;
      working = before ++ behind;
    })
unfolding process_command failed_stats timed_out_stats processed_stats
process-Invariant r write now before cmd behind i e =
    let s = r.queue.stats in
    let failed =
      worked r (failed_stats s) before cmd behind i e refl refl (omega arith)
        (omega (arith, i.timeouts)) in
    elim (Bool-cases (ltb cmd.timeout (now - cmd.created_at))) [
      | inl t ↦
          rw (process_command, t)
            (worked r (timed_out_stats s) before cmd behind i e refl refl (omega arith)
              (omega (arith, i.timeouts)))
      | inr t ↦ elim (Option-cases cmd.connection) [
        | inl c ↦ rw (process_command, t, c) failed
        | inr (connection, c) ↦ elim (Bool-cases (write connection cmd.msg_id cmd.data_bytes)) [
          | inr w ↦ rw (process_command, t, c, w) failed
          | inl w ↦
              rw (process_command, t, c, w)
                (worked r (processed_stats s) before cmd behind i e refl refl (omega arith)
                  (omega (arith, i.timeouts)))
        ]
      ]
    ]

step-Invariant : (r r2 : Running) → QueueStep r r2 → QueueInvariant r → QueueInvariant r2
step-Invariant r r2 (by_send _ done_first cmd now cq e) i =
    send-Invariant r i done_first cmd now cq e
step-Invariant r r2 (by_count _ n e) i = count-Invariant r n i e
step-Invariant r r2 (by_start _) i =
    moved-Invariant r (at_urgent ∷ r.looking) r.ended (suc r.started) i (omega arith)
step-Invariant r r2 (by_receive _ timer_first before place behind cmd cq e h) i =
    receive-Invariant r i (before ++ behind) (one_less r.looking before place behind e) timer_first
      place cmd cq h
step-Invariant r r2 (by_go_on _ timer_first before place behind otherwise e h) i =
    moved-Invariant r (before ++ (otherwise ∷ behind)) r.ended r.started i (
      omega
        (arith, one_less r.looking before place behind e, length-middle before otherwise behind))
step-Invariant r r2 (by_end _ timer_first before place behind e h) i =
    moved-Invariant r (before ++ behind) (suc r.ended) r.started i
      (omega (arith, one_less r.looking before place behind e))
step-Invariant r r2 (by_taken _ before cmd behind e) i = taken-Invariant r before cmd behind i e
step-Invariant r r2 (by_process _ write now before cmd behind e) i =
    process-Invariant r write now before cmd behind i e
step-Invariant r r2 (by_cancel _) i = cancel-Invariant r i
step-Invariant r r2 (by_close _ priority cq stopped e) i = close-Invariant r priority cq i e

-- In every interleaving of callers, workers and `Stop`: the four channels hold at most 100, 200,
-- 500 and 1000 commands; every command that was sent is in a channel, with a worker, processed or
-- failed; the pending counter is the number of enqueued commands counted less those that workers
-- have counted as taken, and below zero where a worker was faster than the caller; no more timeouts
-- than failures are counted; and every worker that was started looks for a command, has one, or has
-- ended.
pub queue_accounts : (r : Running) → QueueReachable r → QueueInvariant r
unfolding new_command_queue
queue_accounts r new_queue = record {
  urgent_fits = omega arith;
  high_fits = omega arith;
  normal_fits = omega arith;
  low_fits = omega arith;
  accounted = refl;
  pending = refl;
  timeouts = omega arith;
  workers = refl;
}
queue_accounts r2 (after r _ h s) = step-Invariant r r2 s (queue_accounts r h)
