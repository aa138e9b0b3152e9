-- ===== src/Commands/Retry.antt =====
-- `checkTimeoutCommands` and `processBatchTimeoutCommands`: expiry and retries. The lock is given
-- up between collecting, deleting, preparing a retry and noting its result, so each is a call of
-- its own here; what happens to an entry that is no longer in the map is not seen.
use iot_zinx.Shared.{
  ℕ, ◌+◌, ◌-◌, Bytes, bytes_eq, List, [], ◌∷◌, Bool, not, ◌&&◌, ◌||◌, Option, none, some, ltb, leb,
  if◌then◌else◌,
}
use iot_zinx.Shared.Table.{lookup, insert, erase}
use iot_zinx.Shared.Sweep.{keys_where}
use iot_zinx.Payload.Defs.{format_physical_id}
use iot_zinx.Commands.Manager.{
  CommandEntry, Commands, CommandManager, sent, retrying, expired, too_old, send_error,
  generate_command_key, change_entry, delete_commands,
}

abbrev pub command_timeout : ℕ
command_timeout = 15000000000

abbrev pub command_max_age : ℕ
command_max_age = 60000000000

unfoldable pub is_expired : ℕ → CommandEntry → Bool
is_expired now entry = not entry.is_confirmed && ltb command_max_age (now - entry.create_time)

unfoldable pub is_timed_out : ℕ → CommandEntry → Bool
is_timed_out now entry =
    not entry.is_confirmed
    && (not (is_expired now entry) && ltb command_timeout (now - entry.last_sent_time))

abbrev pub marked_expired : ℕ → CommandEntry → CommandEntry
marked_expired now entry =
    if is_expired now entry then record entry { status = expired; last_error = too_old } else entry

abbrev pub mark_expired : ℕ → Commands → Commands
mark_expired now [] = []
mark_expired now ((key, entry) ∷ commands) =
    (key, marked_expired now entry) ∷ mark_expired now commands

abbrev pub timed_out : ℕ → Commands → List CommandEntry
timed_out now [] = []
timed_out now ((key, entry) ∷ commands) =
    let rest = timed_out now commands in if is_timed_out now entry then entry ∷ rest else rest

-- Under the first lock: the manager, the keys to delete, and copies of the timed-out entries. The
-- order in which these are retried, by priority and physical ID, is left open.
unfoldable pub collect_timeouts :
    ℕ → CommandManager → CommandManager × List Bytes × List CommandEntry
collect_timeouts now cm = (
  record cm { commands = mark_expired now cm.commands },
  keys_where (is_expired now) cm.commands,
  timed_out now cm.commands,
)

unfoldable pub delete_expired : List Bytes → CommandManager → CommandManager
delete_expired keys cm = delete_commands keys cm

abbrev pub key_of : CommandEntry → Bytes
key_of entry = generate_command_key entry.conn_id entry.physical_id entry.message_id entry.command

abbrev pub retried : ℕ → CommandEntry → CommandEntry
retried now entry = record entry {
  retry_count = entry.retry_count + 1;
  status = retrying;
  last_sent_time = now;
}

-- Under the second lock, for the copy of a timed-out entry: what is to be sent, if anything.
-- `is_active` asks the connection and `is_registered` the device registry.
unfoldable pub begin_retry :
    (ℕ → Bool)
    → (Bytes → Bool)
    → ℕ
    → CommandManager
    → CommandEntry
    → CommandManager × Option CommandEntry
begin_retry is_active is_registered now cm copy = elim (lookup (key_of copy) cm.commands) [
  | none ↦ (cm, none)
  | some entry ↦
      if entry.is_confirmed
      then (cm, none)
      else (if leb cm.max_retry entry.retry_count
            || (not (is_active entry.conn_id)
                || not (is_registered (format_physical_id entry.physical_id)))
          then (record cm { commands = erase (key_of copy) cm.commands }, none)
          else (
            record cm { commands = insert (key_of copy) (retried now entry) cm.commands },
            some (retried now entry),
          ))
]

abbrev pub noted : Option Bytes → CommandEntry → CommandEntry
noted none entry = record entry { status = sent }
noted (some text) entry = record entry { last_error = send_error text }

-- Under the third lock: `result` is the error of the send.
unfoldable pub end_retry : CommandManager → Bytes → Option Bytes → CommandManager
end_retry cm key result = record cm { commands = change_entry key (noted result) cm.commands }
