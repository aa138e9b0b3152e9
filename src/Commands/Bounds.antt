-- ===== src/Commands/Bounds.antt =====
-- The bound on retries, and each key once, through every interleaving of the manager's calls.
use iot_zinx.Shared.{
  ℕ, zero, suc, ◌+◌, ◌≡◌, ◌≤◌, refl, ◌∙◌, inl, inr, arith, Bytes, bytes_eq, nat_eq, List, [], ◌∷◌,
  ◌++◌, ◌&&◌, Option-cases, get_elem?, drop, length, All, nat_beq,
}
use iot_zinx.Shared.Table.{lookup, insert, erase}
use iot_zinx.Shared.Keys.{
  IsDistinct, insert-All, erase-All, lookup-All, insert-IsDistinct, erase-IsDistinct,
}
use iot_zinx.Commands.Manager.{
  CommandEntry, Commands, CommandManager, keys_of, find_key, change_entry, refreshed, new_entry,
  generate_command_key, register_command, delete_command, delete_commands, clear_keys,
}

abbrev pub IsBounded : Bytes × CommandEntry → Type 0
IsBounded p = p.1.retry_count ≤ 2

pub record CommandInvariant (cm : CommandManager) : Type 0 where
  pub distinct : IsDistinct cm.commands
  pub bounded : All IsBounded cm.commands
  pub limit : cm.max_retry ≡ 2

-- The table's part of it.
pub record TableInvariant (commands : Commands) : Type 0 where
  pub distinct : IsDistinct commands
  pub bounded : All IsBounded commands

pub insert-Table :
    (key : Bytes) (entry : CommandEntry) (commands : Commands)
    → entry.retry_count ≤ 2
    → TableInvariant commands
    → TableInvariant (insert key entry commands)
insert-Table key entry commands b h = record {
  distinct = insert-IsDistinct key entry commands h.distinct;
  bounded = insert-All IsBounded key entry commands b h.bounded;
}

pub erase-Table :
    (key : Bytes) (commands : Commands)
    → TableInvariant commands
    → TableInvariant (erase key commands)
erase-Table key commands h = record {
  distinct = erase-IsDistinct key commands h.distinct;
  bounded = erase-All IsBounded key commands h.bounded;
}

pub change-Table :
    (key : Bytes) (change : CommandEntry → CommandEntry) (commands : Commands)
    → ((entry : CommandEntry) → entry.retry_count ≤ 2 → (change entry).retry_count ≤ 2)
    → TableInvariant commands
    → TableInvariant (change_entry key change commands)
change-Table key change commands keeps h = elim (Option-cases (lookup key commands)) [
  | inl e ↦ rw (change_entry, e) h
  | inr (entry, e) ↦
      rw (change_entry, e)
        (insert-Table key (change entry) commands
          (keeps entry (lookup-All IsBounded key entry commands h.bounded e)) h)
]

delete-Table :
    (key : Bytes) (cm : CommandManager)
    → TableInvariant cm.commands
    → TableInvariant (delete_command key cm).commands
unfolding delete_command
delete-Table key cm h = elim (Option-cases (lookup key cm.commands)) [
  | inl e ↦ rw (delete_command, e) h
  | inr (entry, e) ↦ rw (delete_command, e) (erase-Table key cm.commands h)
]

delete-limit :
    (key : Bytes) (cm : CommandManager) → (delete_command key cm).max_retry ≡ cm.max_retry
unfolding delete_command
delete-limit key cm = elim (Option-cases (lookup key cm.commands)) [
  | inl e ↦ rw (delete_command, e) refl
  | inr (entry, e) ↦ rw (delete_command, e) refl
]

pub with_table :
    (cm : CommandManager) → TableInvariant cm.commands → cm.max_retry ≡ 2 → CommandInvariant cm
with_table cm h l = record { distinct = h.distinct; bounded = h.bounded; limit = l }

pub table_of : (cm : CommandManager) → CommandInvariant cm → TableInvariant cm.commands
table_of cm h = record { distinct = h.distinct; bounded = h.bounded }

delete-Invariant :
    (key : Bytes) (cm : CommandManager)
    → CommandInvariant cm
    → CommandInvariant (delete_command key cm)
delete-Invariant key cm h =
    with_table (delete_command key cm) (delete-Table key cm (table_of cm h))
      (delete-limit key cm ∙ h.limit)

pub delete_commands-Invariant :
    (keys : List Bytes) (cm : CommandManager)
    → CommandInvariant cm
    → CommandInvariant (delete_commands keys cm)
delete_commands-Invariant [] cm h = h
delete_commands-Invariant (key ∷ keys) cm h =
    delete_commands-Invariant keys (delete_command key cm) (delete-Invariant key cm h)

pub clear_keys-Invariant :
    (physical_id i left : ℕ) (array : List Bytes) (cm : CommandManager)
    → CommandInvariant cm
    → CommandInvariant (clear_keys physical_id i left array cm)
clear_keys-Invariant physical_id i zero array cm h = h
clear_keys-Invariant physical_id i (suc left) array cm h = elim (Option-cases (get_elem? array i)) [
  | inl e ↦ rw (clear_keys, e) h
  | inr (key, e) ↦
      let cm2 = delete_command key cm in
      let kept = keys_of physical_id cm2.physical_commands in
      rw (clear_keys, e)
        (clear_keys-Invariant physical_id (i + 1) left (kept ++ drop (length kept) array) cm2
          (delete-Invariant key cm h))
]

module _ (cm : CommandManager) (h : CommandInvariant cm) where
  pub register-Invariant :
      (command_priority : ℕ → ℕ) (conn_id physical_id message_id command : ℕ) (payload : Bytes)
      (now : ℕ)
      → CommandInvariant
          (register_command command_priority cm conn_id physical_id message_id command payload now)
  unfolding register_command
  register-Invariant command_priority conn_id physical_id message_id command payload now =
      elim (Option-cases (
        find_key (λ entry. nat_beq entry.command command && nat_beq entry.conn_id conn_id)
          (keys_of physical_id cm.physical_commands) cm.commands)) [
            | inl e ↦
                rw (register_command, e)
                  (with_table _
                    (insert-Table (generate_command_key conn_id physical_id message_id command)
                      (new_entry conn_id physical_id message_id command payload
                        (command_priority command) now)
                      cm.commands (omega arith) (table_of cm h))
                    h.limit)
            | inr (key, e) ↦
                rw (register_command, e)
                  (with_table _
                    (change-Table key (refreshed message_id payload now) cm.commands
                      (λ entry b. omega arith) (table_of cm h))
                    h.limit)
          ]
