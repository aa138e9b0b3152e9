-- ===== src/Wire/Frame.antt =====
-- internal/domain/dny_protocol/frame.go: the DNY message, and the protocol's constants.
use iot_zinx.Shared.{ℕ, Bytes, [], ◌∷◌, length, Option, none}
use iot_zinx.Shared.Words.{u32}

-- The kinds that `MessageType` names; `unset` is the empty string of a new `Message`.
pub data MessageType : Type 0 where
  unset standard iccid heartbeat_link error : MessageType

-- The errors of the wire code, each with the numbers that its text shows; those that begin with
-- `packet` are the texts of `ValidatePacket`.
pub data WireError : Type 0 where
  packet_too_short : ℕ → WireError
  packet_bad_header : Bytes → WireError
  packet_length_mismatch : ℕ → ℕ → ℕ → WireError
  packet_checksum_mismatch : ℕ → ℕ → WireError
  empty_packet empty_frame not_enough_data : WireError
  too_short : ℕ → WireError
  bad_header : Bytes → WireError
  length_mismatch : ℕ → ℕ → ℕ → WireError
  checksum_mismatch : ℕ → ℕ → WireError
  content_too_short : ℕ → WireError
  joined : WireError → WireError → WireError

pub record Message : Type 0 where
  pub id : ℕ
  pub data_len : ℕ
  pub payload : Bytes
  pub raw_data : Bytes
  pub packet_header : Bytes
  pub physical_id : ℕ
  pub command_id : ℕ
  pub message_id : ℕ
  pub checksum : ℕ
  pub message_type : MessageType
  pub iccid_value : Bytes
  pub error_message : Option WireError

-- `"DNY"`, `"link"` and `"89"`.
abbrev pub protocol_header : Bytes
protocol_header = 0x44 ∷ 0x4e ∷ 0x59 ∷ []

abbrev pub header_link : Bytes
header_link = 0x6c ∷ 0x69 ∷ 0x6e ∷ 0x6b ∷ []

abbrev pub iccid_prefix : Bytes
iccid_prefix = 0x38 ∷ 0x39 ∷ []

abbrev pub min_packet_size : ℕ
min_packet_size = 14

abbrev pub min_header_size : ℕ
min_header_size = 5

abbrev pub iot_sim_card_length : ℕ
iot_sim_card_length = 20

-- `&Message{RawData: data}`: every other field is Go's zero value.
unfoldable pub raw_message : Bytes → Message
raw_message data' = record {
  id = 0;
  data_len = 0;
  payload = [];
  raw_data = data';
  packet_header = [];
  physical_id = 0;
  command_id = 0;
  message_id = 0;
  checksum = 0;
  message_type = unset;
  iccid_value = [];
  error_message = none;
}

unfoldable pub new_message : ℕ → ℕ → Bytes → ℕ → Message
new_message id physical_id payload message_id = record {
  id = id;
  data_len = u32 (length payload);
  payload = payload;
  raw_data = [];
  packet_header = protocol_header;
  physical_id = physical_id;
  command_id = id;
  message_id = message_id;
  checksum = 0;
  message_type = standard;
  iccid_value = [];
  error_message = none;
}

unfoldable pub set_raw_data : Message → Bytes → Message
set_raw_data m raw = record m { raw_data = raw }

unfoldable pub set_data : Message → Bytes → Message
set_data m payload = record m { payload = payload; data_len = u32 (length payload) }
