-- ===== src/Tests/CommandRuns.antt =====
-- The command manager on three commands of one device.
use iot_zinx.Shared.{ℕ, ◌≡◌, refl, [], true, none, some}
use iot_zinx.Shared.Table.{lookup, insert, erase}
use iot_zinx.Shared.Sweep.{Removes}
use iot_zinx.Payload.Defs.{format_physical_id, hex_digit}
use iot_zinx.Commands.Manager.{
  CommandManager, new_command_manager, generate_command_key, new_entry, register_command,
  clear_physical_id_commands, get_command, delete_command,
}
use iot_zinx.Commands.Retry.{begin_retry, collect_timeouts, delete_expired}
use iot_zinx.Commands.Bounds.{CommandInvariant}
use iot_zinx.Commands.Runs.{CommandReachable, new_manager, after, by_register, retries_bounded}
use iot_zinx.Commands.Expiry.{IsOverdue, expired_deleted}

abbrev same_priority : ℕ → ℕ
same_priority command = 1

abbrev with_command : CommandManager → ℕ → ℕ → CommandManager
with_command cm message_id command =
    register_command same_priority cm 7 255 message_id command [] 10

abbrev three_commands : CommandManager
three_commands = with_command (with_command (with_command new_command_manager 1 130) 2 131) 3 132

three_reached : CommandReachable three_commands
three_reached =
    after _ three_commands
      (after _ _
        (after _ _ new_manager (by_register new_command_manager same_priority 7 255 1 130 [] 10))
        (by_register (with_command new_command_manager 1 130) same_priority 7 255 2 131 [] 10))
      (by_register (with_command (with_command new_command_manager 1 130) 2 131) same_priority 7 255
        3 132 [] 10)

retries_bounded_example : CommandInvariant three_commands
retries_bounded_example = retries_bounded three_commands three_reached

-- A minute and a nanosecond after the registration.
expired_deleted_example :
    Removes
      (IsOverdue 60000000011)
      (get_command three_commands (generate_command_key 7 255 2 131))
      (get_command
        (delete_expired
          (collect_timeouts 60000000011 three_commands).1
          (collect_timeouts 60000000011 three_commands).0)
        (generate_command_key 7 255 2 131))
expired_deleted_example =
    expired_deleted three_commands 60000000011 (generate_command_key 7 255 2 131) three_reached

-- Clearing the device's commands leaves the second of the three in the table.
second_left :
    get_command (clear_physical_id_commands three_commands 255) (generate_command_key 7 255 2 131)
    ≡ some (new_entry 7 255 2 131 [] 1 10)
unfolding clear_physical_id_commands get_command register_command generate_command_key
    new_command_manager lookup insert erase format_physical_id hex_digit delete_command
second_left = refl

-- The first command is sent again with a new message ID; its timed-out copy is then not found.
abbrev sent_again : CommandManager
sent_again = with_command (with_command new_command_manager 1 130) 5 130

not_retried :
    (begin_retry (λ c. true) (λ d. true) 20000000000 sent_again (new_entry 7 255 5 130 [] 1 10)).1
    ≡ none
unfolding begin_retry register_command generate_command_key new_command_manager lookup insert
    format_physical_id hex_digit
not_retried = refl
