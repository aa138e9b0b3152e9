-- ===== src/Commands/Runs.antt =====
-- The calls of the command manager in any order and interleaving, and what holds throughout.
use iot_zinx.Shared.{
  ℕ, ◌+◌, ◌≡◌, ◌≤◌, refl, inl, inr, arith, Bytes, bytes_eq, nat_eq, List, [], ◌∷◌, Bool, true,
  false, not, ◌&&◌, ◌||◌, Bool-cases, Option, none, some, Option-cases, length, All, leb, nat_beq,
  if◌then◌else◌,
}
use iot_zinx.Shared.Table.{lookup, insert, erase}
use iot_zinx.Shared.Keys.{IsFresh, IsDistinct, lookup-All}
use iot_zinx.Shared.Sweep.{keys_where}
use iot_zinx.Payload.Defs.{format_physical_id}
use iot_zinx.Commands.Manager.{
  CommandEntry, Commands, CommandManager, new_command_manager, find_key, change_entry,
  register_command, cleanup_confirmed_commands, marked_confirmed, confirm_command,
  clear_connection_commands, clear_physical_id_commands,
}
use iot_zinx.Commands.Retry.{
  is_expired, marked_expired, mark_expired, collect_timeouts, delete_expired, key_of, retried,
  begin_retry, noted, end_retry,
}
use iot_zinx.Commands.Bounds.{
  IsBounded, CommandInvariant, TableInvariant, insert-Table, erase-Table, change-Table, with_table,
  table_of, delete_commands-Invariant, clear_keys-Invariant, register-Invariant,
}

-- One call, whatever the connection, the device registry and the send answer.
pub data CommandStep : CommandManager → CommandManager → Type 0 where
  by_register :
      (cm : CommandManager) (command_priority : ℕ → ℕ) (conn_id physical_id message_id command : ℕ)
      (payload : Bytes) (now : ℕ)
      → CommandStep cm
          (register_command command_priority cm conn_id physical_id message_id command payload now)
  by_confirm :
      (cm : CommandManager) (physical_id message_id command : ℕ)
      → CommandStep cm (confirm_command cm physical_id message_id command).0
  by_clear_connection :
      (cm : CommandManager) (conn_id : ℕ) → CommandStep cm (clear_connection_commands cm conn_id)
  by_clear_physical :
      (cm : CommandManager) (physical_id : ℕ)
      → CommandStep cm (clear_physical_id_commands cm physical_id)
  by_collect : (cm : CommandManager) (now : ℕ) → CommandStep cm (collect_timeouts now cm).0
  by_delete : (cm : CommandManager) (keys : List Bytes) → CommandStep cm (delete_expired keys cm)
  by_retry :
      (cm : CommandManager) (is_active : ℕ → Bool) (is_registered : Bytes → Bool) (now : ℕ)
      (copy : CommandEntry)
      → CommandStep cm (begin_retry is_active is_registered now cm copy).0
  by_result :
      (cm : CommandManager) (key : Bytes) (result : Option Bytes)
      → CommandStep cm (end_retry cm key result)

pub data CommandReachable : CommandManager → Type 0 where
  new_manager : CommandReachable new_command_manager
  after :
      (cm cm2 : CommandManager) → CommandReachable cm → CommandStep cm cm2 → CommandReachable cm2

expired_same :
    (now : ℕ) (entry : CommandEntry) → (marked_expired now entry).retry_count ≡ entry.retry_count
expired_same now entry = elim (Bool-cases (is_expired now entry)) [
  | inl t ↦ rw t refl
  | inr t ↦ rw t refl
]

mark-IsFresh :
    (now : ℕ) (key : Bytes) (commands : Commands)
    → IsFresh key commands
    → IsFresh key (mark_expired now commands)
mark-IsFresh now key [] h = tt
mark-IsFresh now key ((k, entry) ∷ commands) h = (h.0, mark-IsFresh now key commands h.1)

pub mark-Table :
    (now : ℕ) (commands : Commands)
    → IsDistinct commands
    → All IsBounded commands
    → TableInvariant (mark_expired now commands)
mark-Table now [] d b = record { distinct = tt; bounded = tt }
mark-Table now ((k, entry) ∷ commands) d b =
    let rest = mark-Table now commands d.1 b.1 in
    record {
      distinct = (mark-IsFresh now k commands d.0, rest.distinct);
      bounded = (omega (arith, expired_same now entry, b.0), rest.bounded);
    }

noted_same :
    (result : Option Bytes) (entry : CommandEntry)
    → entry.retry_count ≤ 2
    → (noted result entry).retry_count ≤ 2
noted_same none entry b = b
noted_same (some text) entry b = b

choose-Invariant :
    (b : Bool) (x y : CommandManager × Option CommandEntry)
    → (b ≡ true → CommandInvariant x.0)
    → (b ≡ false → CommandInvariant y.0)
    → CommandInvariant (if b then x else y).0
choose-Invariant true x y p q = p refl
choose-Invariant false x y p q = q refl

below :
    (limit count : ℕ) (other : Bool) → limit ≡ 2 → leb limit count || other ≡ false → count + 1 ≤ 2
below limit count other e h = ground arith

module _ (cm : CommandManager) (h : CommandInvariant cm) where
  confirm-Invariant :
      (physical_id message_id command : ℕ)
      → CommandInvariant (confirm_command cm physical_id message_id command).0
  unfolding confirm_command cleanup_confirmed_commands
  confirm-Invariant physical_id message_id command =
      elim (Option-cases (lookup physical_id cm.physical_commands)) [
        | inl e ↦ rw (confirm_command, e) h
        | inr (keys, e) ↦
            elim (Option-cases (
              find_key
                (λ entry. nat_beq entry.command command && nat_beq entry.message_id message_id) keys
                cm.commands)) [
                  | inl f ↦
                      rw (confirm_command, e, f)
                        (delete_commands-Invariant
                          (keys_where (λ entry. entry.is_confirmed) cm.commands) cm h)
                  | inr (key, f) ↦
                      let marked = change_entry key marked_confirmed cm.commands in
                      let cm2 = record cm { commands = marked } in
                      rw (confirm_command, e, f)
                        (delete_commands-Invariant (keys_where (λ entry. entry.is_confirmed) marked)
                          cm2
                          (with_table cm2
                            (change-Table key marked_confirmed cm.commands (λ entry b. b)
                              (table_of cm h))
                            h.limit))
                ]
      ]

  clear-Invariant : (physical_id : ℕ) → CommandInvariant (clear_physical_id_commands cm physical_id)
  unfolding clear_physical_id_commands
  clear-Invariant physical_id = elim (Option-cases (lookup physical_id cm.physical_commands)) [
    | inl e ↦ rw (clear_physical_id_commands, e) h
    | inr (keys, e) ↦
        let cleared = clear_keys-Invariant physical_id 0 (length keys) keys cm h in
        rw (clear_physical_id_commands, e)
          (record { distinct = cleared.distinct; bounded = cleared.bounded; limit = cleared.limit })
  ]

  retry-Invariant :
      (is_active : ℕ → Bool) (is_registered : Bytes → Bool) (now : ℕ) (copy : CommandEntry)
      → CommandInvariant (begin_retry is_active is_registered now cm copy).0
  unfolding begin_retry
  retry-Invariant is_active is_registered now copy =
      elim (Option-cases (lookup (key_of copy) cm.commands)) [
        | inl e ↦ rw (begin_retry, e) h
        | inr (entry, e) ↦
            let small = lookup-All IsBounded (key_of copy) entry cm.commands h.bounded e in
            let unreachable =
              not (is_active entry.conn_id)
              || not (is_registered (format_physical_id entry.physical_id)) in
            let give_up = leb cm.max_retry entry.retry_count || unreachable in
            let dropped = record cm { commands = erase (key_of copy) cm.commands } in
            let prepared = record cm {
              commands = insert (key_of copy) (retried now entry) cm.commands;
            } in
            rw (begin_retry, e)
              (choose-Invariant entry.is_confirmed (cm, none)
                (if give_up then (dropped, none) else (prepared, some (retried now entry))) (λ c. h)
                (λ c.
                  choose-Invariant give_up (dropped, none) (prepared, some (retried now entry))
                    (λ g.
                      with_table dropped (erase-Table (key_of copy) cm.commands (table_of cm h))
                        h.limit)
                    (λ g.
                      with_table prepared
                        (insert-Table (key_of copy) (retried now entry) cm.commands
                          (below cm.max_retry entry.retry_count unreachable h.limit g)
                          (table_of cm h))
                        h.limit)))
      ]

step-Invariant :
    (cm cm2 : CommandManager) → CommandStep cm cm2 → CommandInvariant cm → CommandInvariant cm2
unfolding clear_connection_commands collect_timeouts delete_expired end_retry
step-Invariant cm cm2
      (by_register _ command_priority conn_id physical_id message_id command payload now) h =
    register-Invariant cm h command_priority conn_id physical_id message_id command payload now
step-Invariant cm cm2 (by_confirm _ physical_id message_id command) h =
    confirm-Invariant cm h physical_id message_id command
step-Invariant cm cm2 (by_clear_connection _ conn_id) h =
    delete_commands-Invariant (keys_where (λ entry. nat_beq entry.conn_id conn_id) cm.commands) cm h
step-Invariant cm cm2 (by_clear_physical _ physical_id) h = clear-Invariant cm h physical_id
step-Invariant cm cm2 (by_collect _ now) h =
    with_table (record cm { commands = mark_expired now cm.commands })
      (mark-Table now cm.commands h.distinct h.bounded) h.limit
step-Invariant cm cm2 (by_delete _ keys) h = delete_commands-Invariant keys cm h
step-Invariant cm cm2 (by_retry _ is_active is_registered now copy) h =
    retry-Invariant cm h is_active is_registered now copy
step-Invariant cm cm2 (by_result _ key result) h =
    with_table (record cm { commands = change_entry key (noted result) cm.commands })
      (change-Table key (noted result) cm.commands (noted_same result) (table_of cm h)) h.limit

-- Through every interleaving of the manager's calls, whatever the connections, the device registry
-- and the sends answer, each key stands once in the table, no entry's retry count is above two, and
-- the limit on retries stays two.
pub retries_bounded : (cm : CommandManager) → CommandReachable cm → CommandInvariant cm
unfolding new_command_manager
retries_bounded cm new_manager = record { distinct = tt; bounded = tt; limit = refl }
retries_bounded cm2 (after cm _ r s) = step-Invariant cm cm2 s (retries_bounded cm r)
