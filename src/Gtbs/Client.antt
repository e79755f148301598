-- ===== src/Gtbs/Client.antt =====
-- client.go: `Command`, `handleControlResult`, `classifyCommandError`, and the state they keep.
-- `Command` asks the store, then the link and then registers, each in a section of its own; the D-Bus
-- write follows with no lock held, and where it fails its abort is one more section.
pub mod Commands
pub mod Signals
use callbridge_le_audio_serv.Prelude.{
  ℕ, ◌+◌, ◌*◌, Bool, true, false, not, ◌&&◌, ◌||◌, [], ◌∷◌, ◌==◌, ◌!=◌, ltb, if◌then◌else◌, Bytes,
  length, byte_at, bytes_eq, Option, none, some, Result, ok, err,
}
use callbridge_le_audio_serv.Prelude.Dict.{Dict, lookup, insert, remove}
use callbridge_le_audio_serv.Protocol.Message.{
  Message, type_command, opcode_originate, opcode_join, ack_accepted, ack_stale, ack_unavailable,
  ack_invalid, ack_write_failed,
}
use callbridge_le_audio_serv.Protocol.Device.{normalized_device, valid_uri}
use callbridge_le_audio_serv.Protocol.Validate.{valid_result}
use callbridge_le_audio_serv.Gtbs.Store.{Store, validate_indexed_command, token_for_index}

-- The errors of `Command`: the three of the package, and the wrapped one of the write.
pub data CommandError : Type 0 where
  unavailable stale invalid write_failed : CommandError

unfoldable pub classify_command_error : Option CommandError → ℕ
classify_command_error none = ack_accepted
classify_command_error (some stale) = ack_stale
classify_command_error (some unavailable) = ack_unavailable
classify_command_error (some invalid) = ack_invalid
classify_command_error (some write_failed) = ack_write_failed

-- `connected` is `conn != nil`, `control` is that the inventory has the Control Point. The key
-- `[2]byte{opcode, index}` of a pending command is the number of the two bytes.
pub record Client : Type 0 where
  pub device : Bytes
  pub store : Store
  pub connected : Bool
  pub control : Bool
  pub ready : Bool
  pub pending : Dict ℕ
  pub pending_originate : Bool

unfoldable pub pending_key : ℕ → ℕ → ℕ
pending_key opcode index = opcode * 256 + index

-- The tests of `Command` on the message and the store.
unfoldable pub refusal : Client → Message → Option CommandError
refusal c m =
    if m.type != type_command || not (bytes_eq (normalized_device m.device) c.device)
    then some invalid
    else if m.code == opcode_originate
    then (if valid_uri m.payload then none else some invalid)
    else if validate_indexed_command m.index m.token m.code c.store
    then none
    else some stale

-- What is written to the Control Point.
unfoldable pub control_value : Message → Bytes
control_value m = if m.code == opcode_originate then m.code ∷ m.payload else m.code ∷ m.index ∷ []

-- The section under the read lock: whether the link can take a command.
unfoldable pub link_refusal : Client → Option CommandError
link_refusal c = if not c.connected || not c.ready || not c.control then some unavailable else none

-- The section under the lock that registers the command: the client, and the value to write or the
-- error.
unfoldable pub register_command : Client → Message → Client × Result CommandError Bytes
register_command c m =
    if m.code == opcode_originate
    then (if c.pending_originate
        then (c, err stale)
        else (record c { pending_originate = true }, ok (control_value m)))
    else (
      record c { pending = insert (pending_key m.code m.index) m.token c.pending },
      ok (control_value m),
    )

-- `Command` up to the write, with the client as its three sections find it: no lock is held from one
-- to the next, so other goroutines can have changed it between them. The first asks the store, the
-- second the link, and the third changes the client.
unfoldable pub begin_command :
    Client → Client → Client → Message → Client × Result CommandError Bytes
begin_command checked linked c m = elim (refusal checked m) [
  | some e ↦ (c, err e)
  | none ↦ elim (link_refusal linked) [ some e ↦ (c, err e) | none ↦ register_command c m ]
]

-- `c.pending[key] == message.Token`: a missing entry reads as 0.
unfoldable pub is_pending : Dict ℕ → ℕ → ℕ → Bool
is_pending pending key token = elim (lookup key pending) [ none ↦ token == 0 | some t ↦ t == token ]

-- `Command` behind a write that failed.
unfoldable pub abort_command : Client → Message → Client
abort_command c m =
    if m.code == opcode_originate
    then record c { pending_originate = false }
    else if is_pending c.pending (pending_key m.code m.index) m.token
    then record c { pending = remove (pending_key m.code m.index) c.pending }
    else c

-- The arguments of the callback `Result`: opcode, index, result and token.
pub record Outcome : Type 0 where
  pub opcode : ℕ
  pub index : ℕ
  pub result : ℕ
  pub token : ℕ

pub data ResultError : Type 0 where
  invalid_control_result unexpected_originate unexpected_indexed : ResultError

unfoldable pub bad_control_result : Bytes → Bool
bad_control_result value =
    length value != 3
    || ltb opcode_join (byte_at value 0)
    || (byte_at value 0 != opcode_originate && byte_at value 1 == 0)
    || not (valid_result (byte_at value 2))

unfoldable pub originate_result : Client → ℕ → ℕ → Client × Result ResultError Outcome
originate_result c index result =
    if not c.pending_originate then (c, err unexpected_originate) else (
      record c { pending_originate = false },
      ok (record {
        opcode = opcode_originate;
        index = index;
        result = result;
        token = (token_for_index index c.store).0;
      }),
    )

-- The token that a result is for: 0 where no command is pending.
unfoldable pub pending_token : Dict ℕ → ℕ → ℕ
pending_token pending key = elim (lookup key pending) [ none ↦ 0 | some token ↦ token ]

unfoldable pub indexed_result : Client → ℕ → ℕ → ℕ → Client × Result ResultError Outcome
indexed_result c opcode index result =
    let key = pending_key opcode index in
    let token = pending_token c.pending key in
    (
      record c { pending = remove key c.pending },
      if token == 0
          then err unexpected_indexed
          else ok (record { opcode = opcode; index = index; result = result; token = token }),
    )

unfoldable pub handle_control_result : Client → Bytes → Client × Result ResultError Outcome
handle_control_result c value =
    if bad_control_result value
    then (c, err invalid_control_result)
    else if byte_at value 0 == opcode_originate
    then originate_result c (byte_at value 1) (byte_at value 2)
    else indexed_result c (byte_at value 0) (byte_at value 1) (byte_at value 2)
