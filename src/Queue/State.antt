-- ===== src/Queue/State.antt =====
-- The queue's state, and what its callers and workers do with it: `EnqueueCommand`,
-- `getNextCommand`, `processCommand` and `Stop`. A channel is the list of what it holds, oldest
-- first.
use iot_zinx.Shared.{
  ℕ, ◌+◌, ◌-◌, Bytes, List, [], ◌∷◌, ◌++◌, Bool, true, false, not, ◌&&◌, ◌||◌, Option, none, some,
  length, Result, ok, err, panic, ltb, nat_beq, if◌then◌else◌,
}
use iot_zinx.Shared.Integers.{ℤ, pos, increase, decrease}
use iot_zinx.Sessions.State.{Connection}

abbrev pub priority_low : ℕ
priority_low = 1

abbrev pub priority_normal : ℕ
priority_normal = 2

abbrev pub priority_high : ℕ
priority_high = 3

abbrev pub priority_urgent : ℕ
priority_urgent = 4

pub record QueuedCommand : Type 0 where
  pub id : Bytes
  pub connection : Option Connection
  pub msg_id : ℕ
  pub data_bytes : Bytes
  pub priority : ℕ
  pub created_at : ℕ
  pub timeout : ℕ

abbrev pub Channel : Type 0
Channel = List QueuedCommand

pub record QueueStats : Type 0 where
  pub total_enqueued : ℕ
  pub total_processed : ℕ
  pub total_failed : ℕ
  pub total_timeout : ℕ
  pub current_pending : ℤ

-- `stopped`: the context is cancelled. `Stop` closes the channels one after the other.
pub record CommandQueue : Type 0 where
  pub urgent : Channel
  pub high : Channel
  pub normal : Channel
  pub low : Channel
  pub stopped : Bool
  pub urgent_closed : Bool
  pub high_closed : Bool
  pub normal_closed : Bool
  pub low_closed : Bool
  pub stats : QueueStats

pub data QueueError : Type 0 where
  unsupported_priority : ℕ → QueueError
  queue_stopped : QueueError
  queue_full : ℕ → QueueError

abbrev pub no_stats : QueueStats
no_stats = record {
  total_enqueued = 0;
  total_processed = 0;
  total_failed = 0;
  total_timeout = 0;
  current_pending = pos 0;
}

unfoldable pub new_command_queue : CommandQueue
new_command_queue = record {
  urgent = [];
  high = [];
  normal = [];
  low = [];
  stopped = false;
  urgent_closed = false;
  high_closed = false;
  normal_closed = false;
  low_closed = false;
  stats = no_stats;
}

-- The default timeout is 30 seconds.
unfoldable pub with_defaults : ℕ → QueuedCommand → QueuedCommand
with_defaults now cmd = record cmd {
  created_at = if nat_beq cmd.created_at 0 then now else cmd.created_at;
  timeout = if nat_beq cmd.timeout 0 then 30000000000 else cmd.timeout;
}

abbrev pub sent_to : Bool → Bool → Bool → ℕ → Channel → QueuedCommand → Result QueueError Channel
sent_to true closed has_room priority queue cmd = err queue_stopped
sent_to false true has_room priority queue cmd = panic
sent_to false false true priority queue cmd = ok (queue ++ (cmd ∷ []))
sent_to false false false priority queue cmd = err (queue_full priority)

-- The send of a `select` whose other cases are the cancelled context and the default. Where both of
-- the first are ready Go picks either, and `done_first` says which. Sending on a closed channel
-- counts as ready, and panics.
abbrev pub select_send :
    Bool → Bool → Bool → ℕ → ℕ → Channel → QueuedCommand → Result QueueError Channel
select_send done_first stopped closed capacity priority queue cmd =
    let has_room = ltb (length queue) capacity in
    sent_to (stopped && (done_first || not (closed || has_room))) closed has_room priority queue cmd

abbrev pub put_back {ℓ} : {A B : Type ℓ} → (A → B) → Result QueueError A → Result QueueError B
put_back place (ok queue) = ok (place queue)
put_back place (err e) = err e
put_back place panic = panic

-- `EnqueueCommand` up to the counters: the command is in its queue.
unfoldable pub send_command :
    Bool → CommandQueue → QueuedCommand → ℕ → Result QueueError CommandQueue
send_command done_first cq cmd now =
    let full = with_defaults now cmd in
    let send = select_send done_first cq.stopped in
    if nat_beq full.priority priority_urgent
    then put_back (λ q. record cq { urgent = q })
        (send cq.urgent_closed 100 priority_urgent cq.urgent full)
    else if nat_beq full.priority priority_high
    then put_back (λ q. record cq { high = q }) (send cq.high_closed 200 priority_high cq.high full)
    else if nat_beq full.priority priority_normal
    then put_back (λ q. record cq { normal = q })
        (send cq.normal_closed 500 priority_normal cq.normal full)
    else if nat_beq full.priority priority_low
    then put_back (λ q. record cq { low = q }) (send cq.low_closed 1000 priority_low cq.low full)
    else err (unsupported_priority full.priority)

-- The counters of `EnqueueCommand`, after the send.
unfoldable pub count_enqueued : CommandQueue → CommandQueue
count_enqueued cq = record cq {
  stats = record cq.stats {
    total_enqueued = cq.stats.total_enqueued + 1;
    current_pending = increase cq.stats.current_pending;
  };
}

-- Where a worker is in `getNextCommand`: before the `select` on one of the channels, or before the
-- one that waits. Every `select` is a step of its own.
pub data Place : Type 0 where
  at_urgent at_high at_normal at_low at_wait : Place

-- What a worker gets from one `select`: a command, nil, or the way to the next `select`.
pub data Next : Type 0 where
  next_command : QueuedCommand → CommandQueue → Next
  nil_command : Next
  go_on : Place → Next

-- A closed channel that is empty gives nil at once, whatever the queues of lower priority hold.
abbrev pub receive_or : Bool → Channel → (Channel → CommandQueue) → Place → Next
receive_or closed (cmd ∷ queue) place otherwise = next_command cmd (place queue)
receive_or closed [] place otherwise = if closed then nil_command else go_on otherwise

-- The `select` of `getNextCommand` before which the worker is. When it waits and the context is
-- cancelled, the timer may still be picked, and `timer_first` says so.
unfoldable pub get_next_command : Bool → Place → CommandQueue → Next
get_next_command timer_first at_urgent cq =
    receive_or cq.urgent_closed cq.urgent (λ q. record cq { urgent = q }) at_high
get_next_command timer_first at_high cq =
    receive_or cq.high_closed cq.high (λ q. record cq { high = q }) at_normal
get_next_command timer_first at_normal cq =
    receive_or cq.normal_closed cq.normal (λ q. record cq { normal = q }) at_low
get_next_command timer_first at_low cq =
    receive_or cq.low_closed cq.low (λ q. record cq { low = q }) at_wait
get_next_command timer_first at_wait cq =
    if cq.stopped && not timer_first then nil_command else go_on at_urgent

-- The counter of `getNextCommand`, after the command has been received.
unfoldable pub count_taken : CommandQueue → CommandQueue
count_taken cq = record cq {
  stats = record cq.stats { current_pending = decrease cq.stats.current_pending };
}

unfoldable pub failed_stats : QueueStats → QueueStats
failed_stats stats = record stats { total_failed = stats.total_failed + 1 }

unfoldable pub timed_out_stats : QueueStats → QueueStats
timed_out_stats stats = record stats {
  total_timeout = stats.total_timeout + 1;
  total_failed = stats.total_failed + 1;
}

unfoldable pub processed_stats : QueueStats → QueueStats
processed_stats stats = record stats { total_processed = stats.total_processed + 1 }

-- `write` is the outcome of `WriteWithRetry` on the connection.
unfoldable pub process_command :
    (Connection → ℕ → Bytes → Bool) → CommandQueue → QueuedCommand → ℕ → CommandQueue
process_command write cq cmd now =
    if ltb cmd.timeout (now - cmd.created_at)
    then record cq { stats = timed_out_stats cq.stats }
    else elim cmd.connection [
      | none ↦ record cq { stats = failed_stats cq.stats }
      | some connection ↦
          if write connection cmd.msg_id cmd.data_bytes
          then record cq { stats = processed_stats cq.stats }
          else record cq { stats = failed_stats cq.stats }
    ]

-- `Stop`: the context is cancelled, then the channels are closed, in the order in which Go ranges
-- over the map; closing one again panics.
unfoldable pub cancel : CommandQueue → CommandQueue
cancel cq = record cq { stopped = true }

abbrev pub unless_closed : Bool → CommandQueue → Result QueueError CommandQueue
unless_closed closed cq = if closed then panic else ok cq

-- `close(queue)` for the channel of a priority.
unfoldable pub close_queue : ℕ → CommandQueue → Result QueueError CommandQueue
close_queue priority cq =
    if nat_beq priority priority_urgent
    then unless_closed cq.urgent_closed (record cq { urgent_closed = true })
    else if nat_beq priority priority_high
    then unless_closed cq.high_closed (record cq { high_closed = true })
    else if nat_beq priority priority_normal
    then unless_closed cq.normal_closed (record cq { normal_closed = true })
    else unless_closed cq.low_closed (record cq { low_closed = true })

pub record QueueLengths : Type 0 where
  pub urgent_length : ℕ
  pub high_length : ℕ
  pub normal_length : ℕ
  pub low_length : ℕ

unfoldable pub get_queue_lengths : CommandQueue → QueueLengths
get_queue_lengths cq = record {
  urgent_length = length cq.urgent;
  high_length = length cq.high;
  normal_length = length cq.normal;
  low_length = length cq.low;
}
