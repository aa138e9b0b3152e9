-- ===== src/Tests/SessionRuns.antt =====
-- The connection manager on one connection with two cards, and what becomes of the second card.
use iot_zinx.Shared.{
  ◌≡◌, ◌<◌, ◌⊎◌, ◌↔◌, refl, panic, sym, ◌∙◌, inl, Bytes, bytes_eq, nat_eq, [], ◌∷◌, true, false,
  none, some, ok, IsOk, IsErr, All, if◌then◌else◌,
}
use iot_zinx.Shared.Table.{lookup, insert, erase}
use iot_zinx.Shared.Adjust.{is_some, adjust}
use iot_zinx.Shared.Keys.{true-ne-false}
use iot_zinx.Payload.Defs.{format_physical_id, hex_digit}
use iot_zinx.Sessions.PhysicalId.{
  is_empty, trim_space, parse_trimmed, scan_hex, hex_value, parse_device_id_to_physical_id,
}
use iot_zinx.Sessions.State.{Connection, TcpManager, new_tcp_manager, new_device_group, new_device}
use iot_zinx.Sessions.Index.{
  get_session_by_device_id, get_device_by_id, validate_device_index, ensure_index,
}
use iot_zinx.Sessions.Registry.{
  register_connection, cleanup_connection, close_group, unregister_connection, connection_added,
  connection_closed, group_closed,
}
use iot_zinx.Sessions.Registration.{
  leave_other_connection, registered_device, with_registered, store_device,
  atomic_device_index_operation, device_added, enter_device, register_device,
}
use iot_zinx.Sessions.Activity.{update_heartbeat}
use iot_zinx.Sessions.Invariant.{TcpInvariant}
use iot_zinx.Sessions.Runs.{
  TcpReachable, new_manager, after, by_connection, by_device, tables_agree,
}
use iot_zinx.Sessions.Evict.{is_evicted, get_session_by_device_id-cleanup_connection}
use iot_zinx.Sessions.Stored.{entered, host_of, is_hosted, OnlyHolder}
use iot_zinx.Sessions.Admission.{left_for, register_device_iff, get_device_by_id-register_device}
use iot_zinx.Sessions.Heartbeat.{BeatOutcome, update_heartbeat_lem}
use iot_zinx.Sessions.PhysicalIdLaws.{parse_device_id_iff}

abbrev connection_1 : Connection
connection_1 = record { conn_id = 1; remote_addr = [] }

abbrev connection_2 : Connection
connection_2 = record { conn_id = 2; remote_addr = [] }

-- "04A228CD" and "04A228CE".
abbrev device_a : Bytes
device_a = 0x30 ∷ 0x34 ∷ 0x41 ∷ 0x32 ∷ 0x32 ∷ 0x38 ∷ 0x43 ∷ 0x44 ∷ []

abbrev device_b : Bytes
device_b = 0x30 ∷ 0x34 ∷ 0x41 ∷ 0x32 ∷ 0x32 ∷ 0x38 ∷ 0x43 ∷ 0x45 ∷ []

abbrev card_a : Bytes
card_a = 0x38 ∷ 0x41 ∷ []

abbrev card_b : Bytes
card_b = 0x38 ∷ 0x42 ∷ []

abbrev nobody : TcpManager
nobody = new_tcp_manager none

abbrev one_connection : TcpManager
one_connection = (register_connection nobody (some connection_1) 10).0

abbrev one_device : TcpManager
one_device = (register_device one_connection (some connection_1) device_a device_a card_a 20).0

-- The second device comes over the same connection with another card.
abbrev two_cards : TcpManager
two_cards = (register_device one_device (some connection_1) device_b device_b card_b 30).0

-- The connection goes, and the second device tries another one.
abbrev stranded : TcpManager
stranded = (register_connection (unregister_connection two_cards 1 40) (some connection_2) 50).0

two_cards-TcpReachable : TcpReachable two_cards
two_cards-TcpReachable =
    after one_device two_cards
      (after one_connection one_device
        (after nobody one_connection (new_manager none)
          (by_connection nobody (some connection_1) 10))
        (by_device one_connection (some connection_1) device_a device_a card_a 20))
      (by_device one_device (some connection_1) device_b device_b card_b 30)

tables_agree_example : TcpInvariant two_cards
tables_agree_example = tables_agree two_cards two_cards-TcpReachable

get_session_by_device_id-cleanup_connection_example :
    (get_session_by_device_id (cleanup_connection two_cards 1 40) device_a).1 ≡ (
      if is_evicted two_cards 1 device_a
      then none
      else (get_session_by_device_id two_cards device_a).1)
get_session_by_device_id-cleanup_connection_example =
    get_session_by_device_id-cleanup_connection two_cards 1 40 device_a
      (tables_agree two_cards two_cards-TcpReachable)

-- Another goroutine takes the index entries away while the heartbeat is under way.
abbrev entries_gone : TcpManager → TcpManager
entries_gone m = record m { device_index = [] }

update_heartbeat_lem_example :
    (IsErr (ensure_index two_cards device_a).1
      × IsErr (update_heartbeat entries_gone two_cards device_a 35).1)
    ⊎ (((ensure_index two_cards device_a).1 ≡ ok tt)
        × (is_some (lookup device_a (ensure_index two_cards device_a).0.device_index) ≡ true)
        × BeatOutcome
            (entries_gone (ensure_index two_cards device_a).0)
            device_a
            35
            (update_heartbeat entries_gone two_cards device_a 35))
update_heartbeat_lem_example = update_heartbeat_lem entries_gone two_cards device_a 35

-- The heartbeat of a device that some group still has then panics.
heartbeat_panics : (update_heartbeat entries_gone two_cards device_a 35).1 ≡ panic
unfolding update_heartbeat validate_device_index register_device leave_other_connection
    get_session_by_device_id register_connection new_tcp_manager lookup insert enter_device
    atomic_device_index_operation store_device with_registered new_device_group new_device
    registered_device parse_device_id_to_physical_id trim_space parse_trimmed scan_hex hex_value
    format_physical_id hex_digit device_added connection_added adjust
heartbeat_panics = refl

parse_device_id_iff_example :
    (parse_device_id_to_physical_id device_a ≡ ok 77736141)
    ↔ ((trim_space device_a ≡ format_physical_id 77736141) × (77736141 < 4294967296))
parse_device_id_iff_example = parse_device_id_iff device_a 77736141

parsed_a : parse_device_id_to_physical_id device_a ≡ ok 77736141
unfolding parse_device_id_to_physical_id trim_space parse_trimmed scan_hex hex_value
    format_physical_id hex_digit
parsed_a = refl

connected : is_some (lookup 1 one_connection.connections) ≡ true
unfolding register_connection new_tcp_manager lookup insert
connected = refl

hosted : is_hosted (left_for one_connection connection_1 device_a 20) connection_1 card_a ≡ true
unfolding leave_other_connection get_session_by_device_id register_connection new_tcp_manager lookup
    insert
hosted = refl

get_device_by_id-register_device_example :
    (m2 : TcpManager) × (register_device one_connection
        (some connection_1)
        device_a
        device_a
        card_a
        20
      ≡ (m2, ok tt))
    × (get_device_by_id m2 device_a
        ≡ some (
            entered
              (left_for one_connection connection_1 device_a 20)
              connection_1
              device_a
              77736141
              card_a
              20))
    × (validate_device_index m2 device_a ≡ ok tt)
    × ((get_session_by_device_id m2 device_a).1
        ≡ lookup
            (host_of connection_1
              (lookup card_a (left_for one_connection connection_1 device_a 20).device_groups))
            m2.connections)
get_device_by_id-register_device_example =
    get_device_by_id-register_device one_connection connection_1 device_a device_a card_a 77736141
      20 refl refl connected parsed_a hosted

-- The first connection's second group is still there, without a connection.
card_b-stranded :
    All (OnlyHolder card_b device_b) (left_for stranded connection_2 device_b 60).device_groups
    × (is_hosted (left_for stranded connection_2 device_b 60) connection_2 card_b ≡ false)
unfolding leave_other_connection get_session_by_device_id register_connection new_tcp_manager lookup
    insert unregister_connection cleanup_connection close_group erase register_device enter_device
    atomic_device_index_operation store_device with_registered new_device_group new_device
    registered_device validate_device_index parse_device_id_to_physical_id trim_space parse_trimmed
    scan_hex hex_value format_physical_id hex_digit device_added connection_added group_closed
    connection_closed adjust
card_b-stranded = ((inl refl, tt), refl)

register_device_iff_example :
    IsOk (register_device stranded (some connection_2) device_b device_b card_b 60).1 ↔ (
      (is_empty device_b ≡ false)
      × (is_empty card_b ≡ false)
      × (is_some (lookup 2 stranded.connections) ≡ true)
      × IsOk (parse_device_id_to_physical_id device_b)
      × (is_hosted (left_for stranded connection_2 device_b 60) connection_2 card_b ≡ true))
register_device_iff_example =
    register_device_iff stranded connection_2 device_b device_b card_b 60 card_b-stranded.0

-- So the second device cannot be registered again.
second_device_refused :
    ¬ (IsOk (register_device stranded (some connection_2) device_b device_b card_b 60).1)
second_device_refused h = true-ne-false (
    sym
      ((register_device_iff stranded connection_2 device_b device_b card_b 60 card_b-stranded.0).0
        h).4
    ∙ card_b-stranded.1)
