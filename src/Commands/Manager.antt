-- ===== src/Commands/Manager.antt =====
-- `CommandManager`: its two maps, and the calls that register, confirm and delete commands. A time
-- is a number of nanoseconds; a connection stands as its ID.
use iot_zinx.Shared.{
  ℕ, zero, suc, ◌+◌, Bytes, bytes_eq, nat_eq, ◌==◌, List, [], ◌∷◌, ◌++◌, Bool, true, false, ◌&&◌,
  Option, none, some, get_elem?, drop, length, nat_beq, if◌then◌else◌,
}
use iot_zinx.Shared.Table.{lookup, insert, erase}
use iot_zinx.Shared.Sweep.{keys_where}
use iot_zinx.Orders.Key.{decimal}
use iot_zinx.Payload.Defs.{format_physical_id}

pub data CommandStatus : Type 0 where
  pending sent retrying confirmed failed expired : CommandStatus

-- What `LastError` says.
pub data LastError : Type 0 where
  no_error too_old retries_used connection_closed device_unregistered : LastError
  send_error : Bytes → LastError

pub record CommandEntry : Type 0 where
  pub conn_id : ℕ
  pub physical_id : ℕ
  pub message_id : ℕ
  pub command : ℕ
  pub payload : Bytes
  pub create_time : ℕ
  pub retry_count : ℕ
  pub last_sent_time : ℕ
  pub is_confirmed : Bool
  pub priority : ℕ
  pub status : CommandStatus
  pub last_error : LastError

abbrev pub Commands : Type 0
Commands = List (Bytes × CommandEntry)

pub record CommandManager : Type 0 where
  pub commands : Commands
  pub physical_commands : List (ℕ × List Bytes)
  pub max_retry : ℕ

abbrev pub command_retry_count : ℕ
command_retry_count = 2

unfoldable pub new_command_manager : CommandManager
new_command_manager = record {
  commands = [];
  physical_commands = [];
  max_retry = command_retry_count;
}

-- `fmt.Sprintf("%d-0x%08X-%d-%d", ...)`.
unfoldable pub generate_command_key : ℕ → ℕ → ℕ → ℕ → Bytes
generate_command_key conn_id physical_id message_id command =
    decimal conn_id
    ++ (0x2d
        ∷ 0x30
        ∷ 0x78
        ∷ (format_physical_id physical_id
            ++ (0x2d ∷ (decimal message_id ++ (0x2d ∷ decimal command)))))

-- The keys kept for a physical ID; none for one that is not in the map.
abbrev pub keys_of : ℕ → List (ℕ × List Bytes) → List Bytes
keys_of physical_id m = elim (lookup physical_id m) [ none ↦ [] | some keys ↦ keys ]

-- The first key in the list whose entry passes the test.
abbrev pub find_key : (CommandEntry → Bool) → List Bytes → Commands → Option Bytes
find_key test [] commands = none
find_key test (key ∷ keys) commands =
    let rest = find_key test keys commands in
    elim (lookup key commands) [ none ↦ rest | some entry ↦ if test entry then some key else rest ]

-- What an entry is changed to under its key.
abbrev pub change_entry : Bytes → (CommandEntry → CommandEntry) → Commands → Commands
change_entry key change commands = elim (lookup key commands) [
  | none ↦ commands
  | some entry ↦ insert key (change entry) commands
]

abbrev pub refreshed : ℕ → Bytes → ℕ → CommandEntry → CommandEntry
refreshed message_id payload now entry = record entry {
  message_id = message_id;
  payload = payload;
  last_sent_time = now;
  retry_count = 0;
  is_confirmed = false;
  status = sent;
  last_error = no_error;
}

abbrev pub new_entry : ℕ → ℕ → ℕ → ℕ → Bytes → ℕ → ℕ → CommandEntry
new_entry conn_id physical_id message_id command payload priority now = record {
  conn_id = conn_id;
  physical_id = physical_id;
  message_id = message_id;
  command = command;
  payload = payload;
  create_time = now;
  retry_count = 0;
  last_sent_time = now;
  is_confirmed = false;
  priority = priority;
  status = sent;
  last_error = no_error;
}

-- `command_priority` is the registry's `GetCommandPriority`. An entry of the same connection and
-- command is changed where it stands, under its old key.
unfoldable pub register_command :
    (ℕ → ℕ) → CommandManager → ℕ → ℕ → ℕ → ℕ → Bytes → ℕ → CommandManager
register_command command_priority cm conn_id physical_id message_id command payload now =
    let keys = keys_of physical_id cm.physical_commands in
    elim (find_key (λ entry. nat_beq entry.command command && nat_beq entry.conn_id conn_id) keys
      cm.commands) [
        | some key ↦ record cm {
          commands = change_entry key (refreshed message_id payload now) cm.commands;
        }
        | none ↦
            let key = generate_command_key conn_id physical_id message_id command in
            let entry =
              new_entry conn_id physical_id message_id command payload (command_priority command)
                now in
            record cm {
              commands = insert key entry cm.commands;
              physical_commands = insert physical_id (keys ++ (key ∷ [])) cm.physical_commands;
            }
      ]

-- The first occurrence goes.
abbrev pub without : Bytes → List Bytes → List Bytes
without key [] = []
without key (k ∷ keys) = let rest = without key keys in if k == key then keys else k ∷ rest

unfoldable pub delete_command : Bytes → CommandManager → CommandManager
delete_command key cm = elim (lookup key cm.commands) [
  | none ↦ cm
  | some entry ↦ record cm {
    commands = erase key cm.commands;
    physical_commands = elim (lookup entry.physical_id cm.physical_commands) [
      | none ↦ cm.physical_commands
      | some keys ↦ insert entry.physical_id (without key keys) cm.physical_commands
    ];
  }
]

abbrev pub delete_commands : List Bytes → CommandManager → CommandManager
delete_commands [] cm = cm
delete_commands (key ∷ keys) cm = delete_commands keys (delete_command key cm)

unfoldable pub cleanup_confirmed_commands : CommandManager → CommandManager
cleanup_confirmed_commands cm =
    delete_commands (keys_where (λ entry. entry.is_confirmed) cm.commands) cm

abbrev pub marked_confirmed : CommandEntry → CommandEntry
marked_confirmed entry = record entry { is_confirmed = true; status = confirmed }

unfoldable pub confirm_command : CommandManager → ℕ → ℕ → ℕ → CommandManager × Bool
confirm_command cm physical_id message_id command = elim (lookup physical_id cm.physical_commands) [
  | none ↦ (cm, false)
  | some keys ↦
      elim (find_key (λ entry. nat_beq entry.command command && nat_beq entry.message_id message_id)
        keys cm.commands) [
          | none ↦ (cleanup_confirmed_commands cm, false)
          | some key ↦ (
            cleanup_confirmed_commands
                (record cm { commands = change_entry key marked_confirmed cm.commands }),
            true,
          )
        ]
]

unfoldable pub clear_connection_commands : CommandManager → ℕ → CommandManager
clear_connection_commands cm conn_id =
    delete_commands (keys_where (λ entry. nat_beq entry.conn_id conn_id) cm.commands) cm

-- The list of keys that the loop ranges over shares its array with the map's list, and deleting a
-- key moves the keys behind it forward in that array, under the loop. `array` is what the array
-- holds, `i` the loop's index.
abbrev pub clear_keys : ℕ → ℕ → ℕ → List Bytes → CommandManager → CommandManager
clear_keys physical_id i zero array cm = cm
clear_keys physical_id i (suc left) array cm = elim (get_elem? array i) [
  | none ↦ cm
  | some key ↦
      let cm2 = delete_command key cm in
      let kept = keys_of physical_id cm2.physical_commands in
      clear_keys physical_id (i + 1) left (kept ++ drop (length kept) array) cm2
]

unfoldable pub clear_physical_id_commands : CommandManager → ℕ → CommandManager
clear_physical_id_commands cm physical_id = elim (lookup physical_id cm.physical_commands) [
  | none ↦ cm
  | some keys ↦
      let cm2 = clear_keys physical_id 0 (length keys) keys cm in
      record cm2 { physical_commands = erase physical_id cm2.physical_commands }
]

unfoldable pub get_command : CommandManager → Bytes → Option CommandEntry
get_command cm key = lookup key cm.commands
