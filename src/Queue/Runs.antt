-- ===== src/Queue/Runs.antt =====
-- The callers and the workers of the command queue in every interleaving: a channel operation and
-- the counter that follows it are two steps, every `select` of a worker and every `close` of `Stop` is
-- one, and other goroutines may come between.
use iot_zinx.Shared.{ℕ, suc, ◌+◌, ◌≤◌, ◌≡◌, Bytes, List, true, [], ◌∷◌, ◌++◌, Bool, length, ok}
use iot_zinx.Shared.Integers.{difference}
use iot_zinx.Sessions.State.{Connection}
use iot_zinx.Queue.State.{
  QueuedCommand, Channel, CommandQueue, new_command_queue, send_command, count_enqueued, Place,
  at_urgent, next_command, nil_command, go_on, get_next_command, count_taken, process_command,
  cancel, close_queue,
}

-- The queue, the number of sends not counted yet, the places of the workers that look for a command,
-- the commands that workers have received and not counted yet, those they are working on, and how
-- many workers were started and have ended.
pub record Running : Type 0 where
  pub queue : CommandQueue
  pub sent : ℕ
  pub looking : List Place
  pub taken : Channel
  pub working : Channel
  pub started : ℕ
  pub ended : ℕ

abbrev pub idle : CommandQueue → Running
idle cq = record {
  queue = cq;
  sent = 0;
  looking = [];
  taken = [];
  working = [];
  started = 0;
  ended = 0;
}

pub data QueueStep : Running → Running → Type 0 where
  by_send :
      (r : Running) (done_first : Bool) (cmd : QueuedCommand) (now : ℕ) (cq : CommandQueue)
      → send_command done_first r.queue cmd now ≡ ok cq
      → QueueStep r (record r { queue = cq; sent = suc r.sent })
  by_count :
      (r : Running) (n : ℕ)
      → r.sent ≡ suc n
      → QueueStep r (record r { queue = count_enqueued r.queue; sent = n })
  by_start :
      (r : Running)
      → QueueStep r (record r { looking = at_urgent ∷ r.looking; started = suc r.started })
  by_receive :
      (r : Running) (timer_first : Bool) (before : List Place) (place : Place) (behind : List Place)
      (cmd : QueuedCommand) (cq : CommandQueue)
      → r.looking ≡ before ++ (place ∷ behind)
      → get_next_command timer_first place r.queue ≡ next_command cmd cq
      → QueueStep r (record r { queue = cq; looking = before ++ behind; taken = cmd ∷ r.taken })
  by_go_on :
      (r : Running) (timer_first : Bool) (before : List Place) (place : Place) (behind : List Place)
      (otherwise : Place)
      → r.looking ≡ before ++ (place ∷ behind)
      → get_next_command timer_first place r.queue ≡ go_on otherwise
      → QueueStep r (record r { looking = before ++ (otherwise ∷ behind) })
  by_end :
      (r : Running) (timer_first : Bool) (before : List Place) (place : Place) (behind : List Place)
      → r.looking ≡ before ++ (place ∷ behind)
      → get_next_command timer_first place r.queue ≡ nil_command
      → QueueStep r (record r { looking = before ++ behind; ended = suc r.ended })
  by_taken :
      (r : Running) (before : Channel) (cmd : QueuedCommand) (behind : Channel)
      → r.taken ≡ before ++ (cmd ∷ behind)
      → QueueStep r (record r {
        queue = count_taken r.queue;
        taken = before ++ behind;
        working = cmd ∷ r.working;
      })
  by_process :
      (r : Running) (write : Connection → ℕ → Bytes → Bool) (now : ℕ) (before : Channel)
      (cmd : QueuedCommand) (behind : Channel)
      → r.working ≡ before ++ (cmd ∷ behind)
      → QueueStep r (record r {
        queue = process_command write r.queue cmd now;
        looking = at_urgent ∷ r.looking;
        working = before ++ behind;
      })
  by_cancel : (r : Running) → QueueStep r (record r { queue = cancel r.queue })
  by_close :
      (r : Running) (priority : ℕ) (cq : CommandQueue)
      → r.queue.stopped ≡ true
      → close_queue priority r.queue ≡ ok cq
      → QueueStep r (record r { queue = cq })

pub data QueueReachable : Running → Type 0 where
  new_queue : QueueReachable (idle new_command_queue)
  after : (r r2 : Running) → QueueReachable r → QueueStep r r2 → QueueReachable r2

abbrev pub queued : CommandQueue → ℕ
queued cq = length cq.urgent + length cq.high + length cq.normal + length cq.low

pub record QueueInvariant (r : Running) : Type 0 where
  pub urgent_fits : length r.queue.urgent ≤ 100
  pub high_fits : length r.queue.high ≤ 200
  pub normal_fits : length r.queue.normal ≤ 500
  pub low_fits : length r.queue.low ≤ 1000
  pub accounted :
      r.queue.stats.total_enqueued + r.sent
      ≡ queued r.queue
        + length r.taken
        + length r.working
        + r.queue.stats.total_processed
        + r.queue.stats.total_failed
  pub pending :
      r.queue.stats.current_pending
      ≡ difference r.queue.stats.total_enqueued
          (length r.working + r.queue.stats.total_processed + r.queue.stats.total_failed)
  pub timeouts : r.queue.stats.total_timeout ≤ r.queue.stats.total_failed
  pub workers : length r.looking + length r.taken + length r.working + r.ended ≡ r.started
