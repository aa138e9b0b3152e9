-- ===== src/Tests/QueueRuns.antt =====
-- The command queue with a worker that is faster than the caller's counter, and a stop that leaves
-- a command behind.
use iot_zinx.Shared.{◌≡◌, refl, [], ◌∷◌, true, false, none, ok}
use iot_zinx.Shared.Integers.{negsuc}
use iot_zinx.Queue.State.{
  QueuedCommand, CommandQueue, new_command_queue, with_defaults, send_command, nil_command,
  next_command, get_next_command, count_taken, Place, at_urgent, at_high, at_normal, at_low, go_on,
}
use iot_zinx.Queue.Runs.{
  Running, idle, QueueReachable, QueueInvariant, new_queue, after, by_send, by_start, by_go_on,
  by_receive, by_taken,
}
use iot_zinx.Queue.Counters.{queue_accounts}

abbrev low_command : QueuedCommand
low_command = record {
  id = [];
  connection = none;
  msg_id = 1;
  data_bytes = [];
  priority = 1;
  created_at = 10;
  timeout = 5;
}

abbrev with_low : CommandQueue
with_low = record new_command_queue { low = low_command ∷ [] }

abbrev sent_low : Running
sent_low = record (idle with_low) { sent = 1 }

-- A worker that starts then finds the first three channels empty.
abbrev looking_low : Place → Running
looking_low place = record sent_low { looking = place ∷ []; started = 1 }

abbrev taken_low : Running
taken_low = record (idle new_command_queue) { sent = 1; taken = low_command ∷ []; started = 1 }

-- The worker has counted the command before the caller has.
abbrev counted_low : Running
counted_low = record (idle (count_taken new_command_queue)) {
  sent = 1;
  working = low_command ∷ [];
  started = 1;
}

is_sent : send_command false new_command_queue low_command 20 ≡ ok with_low
unfolding send_command new_command_queue with_defaults
is_sent = refl

is_received : get_next_command false at_low with_low ≡ next_command low_command new_command_queue
unfolding get_next_command new_command_queue
is_received = refl

past_urgent : get_next_command false at_urgent with_low ≡ go_on at_high
unfolding get_next_command new_command_queue
past_urgent = refl

past_high : get_next_command false at_high with_low ≡ go_on at_normal
unfolding get_next_command new_command_queue
past_high = refl

past_normal : get_next_command false at_normal with_low ≡ go_on at_low
unfolding get_next_command new_command_queue
past_normal = refl

sent_low-QueueReachable : QueueReachable sent_low
sent_low-QueueReachable =
    after (idle new_command_queue) sent_low new_queue
      (by_send (idle new_command_queue) false low_command 20 with_low is_sent)

moved_on :
    (place otherwise : Place)
    → get_next_command false place with_low ≡ go_on otherwise
    → QueueReachable (looking_low place)
    → QueueReachable (looking_low otherwise)
moved_on place otherwise e h =
    after (looking_low place) (looking_low otherwise) h
      (by_go_on (looking_low place) false [] place [] otherwise refl e)

at_low-QueueReachable : QueueReachable (looking_low at_low)
at_low-QueueReachable = moved_on at_normal at_low past_normal (
    moved_on at_high at_normal past_high (
      moved_on at_urgent at_high past_urgent
        (after sent_low (looking_low at_urgent) sent_low-QueueReachable (by_start sent_low))))

counted_low-QueueReachable : QueueReachable counted_low
counted_low-QueueReachable =
    after taken_low counted_low
      (after (looking_low at_low) taken_low at_low-QueueReachable (
        by_receive (looking_low at_low) false [] at_low [] low_command new_command_queue refl
          is_received))
      (by_taken taken_low [] low_command [] refl)

queue_accounts_example : QueueInvariant counted_low
queue_accounts_example = queue_accounts counted_low counted_low-QueueReachable

below_zero : counted_low.queue.stats.current_pending ≡ negsuc 0
unfolding count_taken new_command_queue
below_zero = refl

-- Once the urgent channel is closed and empty, it ends every worker that comes to it.
left_behind :
    get_next_command false at_urgent (record with_low { stopped = true; urgent_closed = true })
    ≡ nil_command
unfolding get_next_command new_command_queue
left_behind = refl
