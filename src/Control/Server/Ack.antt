-- ===== src/Control/Server/Ack.antt =====
-- The acknowledgement of a command.
use callbridge_le_audio_serv.Prelude.{
  ℕ, ◌≤◌, ◌≡◌, ◌≢◌, ◌∙◌, refl, ap, Bool, true, false, [], ◌∷◌, ◌++◌, arith, Bytes, IsBytes, length,
  Option, none, some, ok, bytes_eq, bytes_eq_iff,
}
use callbridge_le_audio_serv.Protocol.Message.{Message, type_command, packet_size}
use callbridge_le_audio_serv.Protocol.Device.Canonical.{IsDevice}
use callbridge_le_audio_serv.Protocol.Validate.{
  validate, validate_type, validate_command, validate_ack, valid_call_reference,
}
use callbridge_le_audio_serv.Protocol.Validate.Laws.{validate-validate_type}
use callbridge_le_audio_serv.Protocol.Codec.{encode, decode}
use callbridge_le_audio_serv.Protocol.Codec.RoundTrip.{decode-validate}
use callbridge_le_audio_serv.Protocol.Codec.Range.{decode-InRange}
use callbridge_le_audio_serv.Gtbs.Client.{
  CommandError, unavailable, stale, invalid, write_failed, classify_command_error,
}
use callbridge_le_audio_serv.Control.Snapshot.Encodes.{Arrives, Arrives-valid}
use callbridge_le_audio_serv.Control.Server.{
  Server, packet, ack_message, is_command_for, send_packet, send_message_to, send_message_locked,
  send_messages_locked, send, handle_message, receive,
}

classify_command_error_bound : (e : Option CommandError) → classify_command_error e ≤ 4
unfolding classify_command_error
classify_command_error_bound none = omega arith
classify_command_error_bound (some unavailable) = omega arith
classify_command_error_bound (some stale) = omega arith
classify_command_error_bound (some invalid) = omega arith
classify_command_error_bound (some write_failed) = omega arith

validate-command :
    (m : Message)
    → validate m ≡ ok tt
    → m.type ≡ type_command
    → (m.sequence ≢ 0) × (validate_command m ≡ ok tt)
unfolding validate validate_type
validate-command m v t = (ground arith, ground arith)

-- The reference of a command is one that its acknowledgement may carry.
command_reference :
    (m : Message)
    → validate_command m ≡ ok tt
    → (m.code ≤ 5) × (valid_call_reference m.code m.index m.token ≡ true)
unfolding validate_command valid_call_reference
command_reference m v = (ground arith, ground arith)

ack_validate_type :
    (d : Bytes) (m : Message) (e : Option CommandError)
    → validate_command m ≡ ok tt
    → validate_type (ack_message d m e) ≡ ok tt
unfolding validate_type validate_ack ack_message
ack_validate_type d m e v = ground (arith, command_reference m v, classify_command_error_bound e)

-- Whatever the handler answers to a valid command, the acknowledgement encodes, and its packet
-- decodes to it.
pub ack_message-Arrives :
    (p : Bytes) (m : Message) (d : Bytes) (e : Option CommandError)
    → IsBytes p
    → decode p ≡ ok m
    → m.type ≡ type_command
    → IsDevice d
    → Arrives (ack_message d m e)
unfolding ack_message
ack_message-Arrives p m d e b good type dev =
    let r = decode-InRange p b good in
    let (pos, v) = validate-command m (decode-validate p good) type in
    let framed = validate-validate_type (ack_message d m e) (record {
      type_low = omega arith;
      type_high = omega arith;
      flags_known = refl;
      sequence_pos = omega arith;
      payload_fits = omega arith;
      device = dev;
    }) in
    Arrives-valid (ack_message d m e)
      (record { sequence_u64 = r.sequence_u64; token_u64 = r.token_u64 }) dev
      (framed ∙ ack_validate_type d m e v)

-- The codes of an acknowledgement: accepted, stale, unavailable, invalid, not written
abbrev pub answer_code : Option CommandError → ℕ
answer_code none = 0
answer_code (some stale) = 1
answer_code (some unavailable) = 2
answer_code (some invalid) = 3
answer_code (some write_failed) = 4

-- The Ack message (3) that a command is owed
abbrev pub acknowledgement : Bytes → Message → ℕ → Message
acknowledgement device m code = record {
  type = 3;
  flags = 0;
  sequence = m.sequence;
  token = m.token;
  device = device;
  index = m.index;
  code = m.code;
  value = code;
  payload = [];
}

ack_message-acknowledgement :
    (d : Bytes) (m : Message) (e : Option CommandError)
    → ack_message d m e ≡ acknowledgement d m (answer_code e)
unfolding ack_message classify_command_error
ack_message-acknowledgement d m none = refl
ack_message-acknowledgement d m (some stale) = refl
ack_message-acknowledgement d m (some unavailable) = refl
ack_message-acknowledgement d m (some invalid) = refl
ack_message-acknowledgement d m (some write_failed) = refl

module _ (deliver : ℕ → Bytes → Bool) where
  -- One message to a client that takes it.
  pub send_message_locked-delivered :
      (fd : ℕ) (m : Message) (p : Bytes) (s : Server)
      → s.client ≡ some fd
      → encode m ≡ ok p
      → deliver (length s.sent) p ≡ true
      → send_message_locked deliver m s ≡ record s { sent = s.sent ++ ((fd, p) ∷ []) }
  unfolding send_message_locked send_message_to send_packet
  send_message_locked-delivered fd m p s there written whole =
      rw (there, send_message_to, written, whole) refl

  pub send-delivered :
      (fd : ℕ) (m : Message) (p : Bytes) (s : Server)
      → s.client ≡ some fd
      → encode m ≡ ok p
      → deliver (length s.sent) p ≡ true
      → send deliver m s ≡ record s { sent = s.sent ++ ((fd, p) ∷ []) }
  unfolding send send_messages_locked
  send-delivered fd m p s there written whole =
      rw (send_message_locked-delivered fd m p s there written whole, there) refl

  -- A command for the device of the server, from a client that is connected and reads what it is
  -- sent, is handled once and acknowledged with one packet: the sequence, token, index and opcode
  -- of the command, and the handler's answer as its code.
  pub receive_acknowledges :
      (handler : Message → Option CommandError) (fd reader : ℕ) (p : Bytes) (m : Message)
      (s : Server)
      → IsBytes p
      → length p ≡ packet_size
      → decode p ≡ ok m
      → m.type ≡ type_command
      → m.device ≡ s.device
      → IsDevice s.device
      → s.client ≡ some reader
      → ((n : ℕ) (q : Bytes) → deliver n q ≡ true)
      → (q : Bytes) × (decode q ≡ ok (acknowledgement s.device m (answer_code (handler m))))
        × (receive deliver handler fd (packet false p) s
            ≡ record s { handled = m ∷ s.handled; sent = s.sent ++ ((reader, q) ∷ []) })
  unfolding receive handle_message
  receive_acknowledges handler fd reader p m s b size good type device dev there whole =
      let (q, written, reads) = ack_message-Arrives p m s.device (handler m) b good type dev in
      let same : bytes_eq m.device s.device ≡ true = (bytes_eq_iff m.device s.device).1 device in
      let command : is_command_for s.device m ≡ true = ground arith in
      let handled = record s { handled = m ∷ s.handled } in
      (
        q,
        reads ∙ ap ok (ack_message-acknowledgement s.device m (handler m)),
        rw (size, good, command)
            (send-delivered reader (ack_message s.device m (handler m)) q handled there written
              (whole (length s.sent) q)),
      )
