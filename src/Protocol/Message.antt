-- ===== src/Protocol/Message.antt =====
-- protocol.go: the constants and the message.
use callbridge_le_audio_serv.Prelude.{ℕ, ◌-◌, ◌<◌, ◌^◌, [], ◌∷◌, Bytes}

abbrev pub version : ℕ
version = 2

abbrev pub packet_size : ℕ
packet_size = 128

abbrev pub payload_size : ℕ
payload_size = packet_size - 50

abbrev pub identity_uri_max : ℕ
identity_uri_max = 32

abbrev pub identity_name_max : ℕ
identity_name_max = 44

abbrev pub type_state : ℕ
type_state = 1

abbrev pub type_command : ℕ
type_command = 2

abbrev pub type_ack : ℕ
type_ack = 3

abbrev pub type_result : ℕ
type_result = 4

abbrev pub type_ready : ℕ
type_ready = 5

abbrev pub flag_snapshot : ℕ
flag_snapshot = 1

abbrev pub flag_last : ℕ
flag_last = 2

abbrev pub no_call_state : ℕ
no_call_state = 0xff

abbrev pub opcode_accept : ℕ
opcode_accept = 0

abbrev pub opcode_terminate : ℕ
opcode_terminate = 1

abbrev pub opcode_local_hold : ℕ
opcode_local_hold = 2

abbrev pub opcode_local_retrieve : ℕ
opcode_local_retrieve = 3

abbrev pub opcode_originate : ℕ
opcode_originate = 4

abbrev pub opcode_join : ℕ
opcode_join = 5

abbrev pub ack_accepted : ℕ
ack_accepted = 0

abbrev pub ack_stale : ℕ
ack_stale = 1

abbrev pub ack_unavailable : ℕ
ack_unavailable = 2

abbrev pub ack_invalid : ℕ
ack_invalid = 3

abbrev pub ack_write_failed : ℕ
ack_write_failed = 4

abbrev pub magic : Bytes
magic = b'G' ∷ b'G' ∷ b'C' ∷ b'C' ∷ []

pub record Message : Type 0 where
  pub type : ℕ  -- byte
  pub flags : ℕ  -- byte
  pub sequence : ℕ  -- uint64
  pub token : ℕ  -- uint64
  pub device : Bytes
  pub index : ℕ  -- byte
  pub code : ℕ  -- byte
  pub value : ℕ  -- byte
  pub payload : Bytes

-- The ranges of the two wide fields. The others are bytes, and go through as they are.
pub record InRange (m : Message) : Type 0 where
  pub sequence_u64 : m.sequence < 2 ^ 64
  pub token_u64 : m.token < 2 ^ 64

pub data Error : Type 0 where
  identity_exceeds uri_out_of_bounds name_out_of_bounds : Error
  invalid_header payload_exceeds nonzero_padding : Error
  invalid_message invalid_device not_full_snapshot invalid_empty_snapshot invalid_state : Error
  command_flags invalid_opcode invalid_originate invalid_indexed invalid_ack : Error
  invalid_result invalid_ready : Error
