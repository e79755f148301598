-- ===== src/Protocol/Validate.antt =====
-- protocol.go: `validate`, a check for each message type.
pub mod Laws
use callbridge_le_audio_serv.Prelude.{
  ℕ, Bool, true, false, ◌&&◌, ◌||◌, not, [], ◌==◌, ◌!=◌, ltb, leb, bit_and, length, Result, ok,
  fail_if, ◌>>=◌, ◌>>◌, if◌then◌else◌, bytes_eq,
}
use callbridge_le_audio_serv.Prelude.Bits.{and_not}
use callbridge_le_audio_serv.Protocol.Message
use callbridge_le_audio_serv.Protocol.Message.{
  Message, Error, type_state, type_command, type_ack, type_result, type_ready, flag_snapshot,
  no_call_state, opcode_join, opcode_originate, ack_write_failed, payload_size,
}
use callbridge_le_audio_serv.Protocol.Identity.{decode_identity}
use callbridge_le_audio_serv.Protocol.Device.{normalized_device, valid_uri}

unfoldable pub valid_call_reference : ℕ → ℕ → ℕ → Bool
valid_call_reference opcode index token =
    if opcode == opcode_originate
    then (index == 0 && token == 0) || (index != 0 && token != 0)
    else index != 0 && token != 0

unfoldable pub valid_result : ℕ → Bool
valid_result result = leb result 4 || result == 6

unfoldable pub validate_state : Message → Result Error (Unit {0})
validate_state m = do
  fail_if (bit_and m.flags flag_snapshot == 0) Message.not_full_snapshot
  if m.code == no_call_state
      then fail_if (m.index != 0 || m.token != 0 || m.value != 0 || length m.payload != 0)
          Message.invalid_empty_snapshot
      else if m.index == 0 || m.token == 0 || ltb 6 m.code || and_not m.value 7 != 0
      then Result.err Message.invalid_state
      else (do identity ← decode_identity m.payload; ok tt)

unfoldable pub validate_command : Message → Result Error (Unit {0})
validate_command m = do
  fail_if (m.flags != 0) Message.command_flags
  fail_if (ltb opcode_join m.code) Message.invalid_opcode
  if m.code == opcode_originate
      then fail_if (m.index != 0 || m.token != 0 || not (valid_uri m.payload))
          Message.invalid_originate
      else fail_if (m.index == 0 || m.token == 0 || length m.payload != 0) Message.invalid_indexed

unfoldable pub validate_ack : Message → Result Error (Unit {0})
validate_ack m =
    fail_if
      (m.flags != 0
        || ltb opcode_join m.code
        || ltb ack_write_failed m.value
        || length m.payload != 0
        || not (valid_call_reference m.code m.index m.token))
      Message.invalid_ack

unfoldable pub validate_result : Message → Result Error (Unit {0})
validate_result m =
    fail_if
      (m.flags != 0
        || ltb opcode_join m.code
        || not (valid_call_reference m.code m.index m.token)
        || not (valid_result m.value)
        || length m.payload != 0)
      Message.invalid_result

unfoldable pub validate_ready : Message → Result Error (Unit {0})
validate_ready m =
    fail_if
      (m.flags != 0
        || m.index != 0
        || m.token != 0
        || ltb 1 m.code
        || m.value != 0
        || length m.payload != 0)
      Message.invalid_ready

-- The `switch` of `validate`; another type has been refused above it.
unfoldable pub validate_type : Message → Result Error (Unit {0})
validate_type m =
    if m.type == type_state
    then validate_state m
    else if m.type == type_command
    then validate_command m
    else if m.type == type_ack
    then validate_ack m
    else if m.type == type_result
    then validate_result m
    else if m.type == type_ready
    then validate_ready m
    else ok tt

unfoldable pub validate : Message → Result Error (Unit {0})
validate m = do
  fail_if
      (ltb m.type type_state
        || ltb type_ready m.type
        || and_not m.flags 3 != 0
        || m.sequence == 0
        || ltb payload_size (length m.payload))
      Message.invalid_message
  fail_if (bytes_eq (normalized_device m.device) []) Message.invalid_device
  validate_type m
