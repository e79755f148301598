-- ===== src/Control/Snapshot.antt =====
-- server.go: `snapshotMessages`.
pub mod Encodes
pub mod Reports
pub mod Whole
use callbridge_le_audio_serv.Prelude.{ℕ, [], ◌∷◌, List, Bytes, Result, ok, err, bit_or}
use callbridge_le_audio_serv.Protocol.Message
use callbridge_le_audio_serv.Protocol.Message.{
  Message, type_state, flag_snapshot, flag_last, no_call_state,
}
use callbridge_le_audio_serv.Protocol.Identity.{Identity, encode_identity}
use callbridge_le_audio_serv.Gtbs.Call.{Call, Snapshot}

-- `nil` where the identity does not encode
abbrev pub payload_or_nil : Result Message.Error Bytes → Bytes
payload_or_nil (ok payload) = payload
payload_or_nil (err e) = []

unfoldable pub call_message : Bytes → ℕ → ℕ → Call → Message
call_message device sequence flags call = record {
  type = type_state;
  flags = flags;
  sequence = sequence;
  token = call.token;
  device = device;
  index = call.index;
  code = call.state;
  value = call.flags;
  payload = payload_or_nil (encode_identity call.identity);
}

unfoldable pub empty_message : Bytes → ℕ → Message
empty_message device sequence = record {
  type = type_state;
  flags = bit_or flag_snapshot flag_last;
  sequence = sequence;
  token = 0;
  device = device;
  index = 0;
  code = no_call_state;
  value = 0;
  payload = [];
}

-- The loop: the last call carries the second flag.
unfoldable pub call_messages : Bytes → ℕ → List Call → List Message
call_messages device sequence [] = []
call_messages device sequence (call ∷ []) =
    call_message device sequence (bit_or flag_snapshot flag_last) call ∷ []
call_messages device sequence (call ∷ next ∷ calls) =
    call_message device sequence flag_snapshot call ∷ call_messages device sequence (next ∷ calls)

unfoldable pub messages_of : Bytes → ℕ → List Call → List Message
messages_of device sequence [] = empty_message device sequence ∷ []
messages_of device sequence (call ∷ calls) = call_messages device sequence (call ∷ calls)

unfoldable pub snapshot_messages : Bytes → Snapshot → List Message
snapshot_messages device snapshot = messages_of device snapshot.sequence snapshot.calls
