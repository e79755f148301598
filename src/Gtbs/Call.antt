-- ===== src/Gtbs/Call.antt =====
-- state.go: the constants, `Call` and `Snapshot`.
use callbridge_le_audio_serv.Prelude.{ℕ, List}
use callbridge_le_audio_serv.Protocol.Identity.{Identity}

abbrev pub state_incoming : ℕ
state_incoming = 0

abbrev pub state_dialing : ℕ
state_dialing = 1

abbrev pub state_alerting : ℕ
state_alerting = 2

abbrev pub state_active : ℕ
state_active = 3

abbrev pub state_locally_held : ℕ
state_locally_held = 4

abbrev pub state_remotely_held : ℕ
state_remotely_held = 5

abbrev pub state_locally_remotely_held : ℕ
state_locally_remotely_held = 6

abbrev pub call_flag_outgoing : ℕ
call_flag_outgoing = 1

-- `CallFlagOutgoing | CallFlagWithheldByServer | CallFlagWithheldByNetwork`
abbrev pub call_flags : ℕ
call_flags = 7

pub record Call : Type 0 where
  pub index : ℕ  -- byte
  pub state : ℕ  -- byte
  pub flags : ℕ  -- byte
  pub token : ℕ  -- uint64
  pub identity : Identity

pub record Snapshot : Type 0 where
  pub sequence : ℕ  -- uint64
  pub calls : List Call

pub data Error : Type 0 where
  no_call_identity identity_unchanged invalid_length invalid_entry : Error
