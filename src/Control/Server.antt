-- ===== src/Control/Server.antt =====
-- server.go: `Server`. The methods take the state and return it; `sent` is the record of the
-- packets that went out whole, oldest first, with the client they went to, and `handled` that of
-- the messages the handler was called with. What `SendmsgN` does, the handler, and the snapshot
-- provider are parameters.
pub mod Sent
pub mod Events
pub mod Ack
pub mod Greeting
pub mod Results
use callbridge_le_audio_serv.Prelude.{
  ℕ, ◌+◌, ◌%◌, ◌^◌, Bool, true, false, not, ◌&&◌, ◌||◌, List, [], ◌∷◌, ◌++◌, ◌==◌, ◌!=◌, ltb,
  if◌then◌else◌, Bytes, length, bytes_eq, Option, none, some, Result, ok, err,
}
use callbridge_le_audio_serv.Protocol.Message.{
  Message, type_command, type_ack, type_result, type_ready, packet_size,
}
use callbridge_le_audio_serv.Protocol.Message
use callbridge_le_audio_serv.Protocol.Device.{normalized_device}
use callbridge_le_audio_serv.Go.Strings.{has_prefix}
use callbridge_le_audio_serv.Protocol.Codec.{encode, decode}
use callbridge_le_audio_serv.Gtbs.Call.{Snapshot}
use callbridge_le_audio_serv.Gtbs.Client.{CommandError, classify_command_error}
use callbridge_le_audio_serv.Control.Snapshot.{snapshot_messages}

-- A file descriptor of -1 is `none`.
pub record Server : Type 0 where
  pub peer_uid : ℕ
  pub device : Bytes
  pub client : Option ℕ
  pub ready : Bool
  pub sequence : ℕ  -- uint64
  pub sent : List (ℕ × Bytes)
  pub handled : List Message

-- `s.sequence.Add(1)`, again if that is 0
unfoldable pub next_sequence : ℕ → ℕ
next_sequence sequence = let next = (sequence + 1) % 2 ^ 64 in if next == 0 then 1 else next

-- `NewServer`, with its clock; `peerUID` is not negative, and the callbacks are there.
unfoldable pub new_server : Bytes → ℕ → Bytes → ℕ → Option Server
new_server path peer_uid device now =
    let device = normalized_device device in
    if not (has_prefix path (b'/' ∷ [])) || ltb 100 (length path) || bytes_eq device []
    then none
    else some (record {
      peer_uid = peer_uid % 2 ^ 32;
      device = device;
      client = none;
      ready = false;
      sequence = now;
      sent = [];
      handled = [];
    })

abbrev pub ready_code : Bool → ℕ
ready_code ready = if ready then 1 else 0

unfoldable pub ready_message : Bytes → ℕ → Bool → Message
ready_message device sequence ready = record {
  type = type_ready;
  flags = 0;
  sequence = sequence;
  token = 0;
  device = device;
  index = 0;
  code = ready_code ready;
  value = 0;
  payload = [];
}

unfoldable pub ack_message : Bytes → Message → Option CommandError → Message
ack_message device message error = record {
  type = type_ack;
  flags = 0;
  sequence = message.sequence;
  token = message.token;
  device = device;
  index = message.index;
  code = message.code;
  value = classify_command_error error;
  payload = [];
}

unfoldable pub result_message : Bytes → ℕ → ℕ → ℕ → ℕ → ℕ → Message
result_message device sequence opcode index result token = record {
  type = type_result;
  flags = 0;
  sequence = sequence;
  token = token;
  device = device;
  index = index;
  code = opcode;
  value = result;
  payload = [];
}

unfoldable pub close_client_locked : Server → Server
close_client_locked s = record s { client = none }

-- `s.clientFD == client`
abbrev pub is_client : Server → ℕ → Bool
is_client s fd = elim s.client [ none ↦ false | some c ↦ c == fd ]

unfoldable pub drop_client : ℕ → Server → Server
drop_client fd s = if is_client s fd then close_client_locked s else s

-- What `Recvmsg` gives: no packet yet, an error, or a packet and whether it was truncated.
pub data Received : Type 0 where
  would_block : Received
  failed : Received
  packet : Bool → Bytes → Received

-- The tests of `receive` on a message that decodes.
abbrev pub is_command_for : Bytes → Message → Bool
is_command_for device m = m.type == type_command && bytes_eq m.device device

-- `if s.clientFD == -1 { return }`, with the state there and the state behind it
abbrev pub unless_gone : Option ℕ → Server → Server → Server
unless_gone none s rest = s
unless_gone (some fd) s rest = rest

-- `deliver n p`: `SendmsgN`, called with `p` after `n` packets went out, wrote `len(p)` bytes.
module _ (deliver : ℕ → Bytes → Bool) where
  unfoldable pub send_packet : ℕ → Result Message.Error Bytes → Server → Server
  send_packet fd (err e) s = s
  send_packet fd (ok p) s =
      if deliver (length s.sent) p
      then record s { sent = s.sent ++ ((fd, p) ∷ []) }
      else close_client_locked s

  unfoldable pub send_message_to : Option ℕ → Message → Server → Server
  send_message_to none m s = s
  send_message_to (some fd) m s = send_packet fd (encode m) s

  unfoldable pub send_message_locked : Message → Server → Server
  send_message_locked m s = send_message_to s.client m s

  -- The loop stops when the client is gone.
  unfoldable pub send_messages_locked : List Message → Server → Server
  send_messages_locked [] s = s
  send_messages_locked (m ∷ ms) s =
      let s' = send_message_locked m s in
      let rest = send_messages_locked ms s' in unless_gone s'.client s' rest

  unfoldable pub send : Message → Server → Server
  send m s = send_messages_locked (m ∷ []) s

  -- `accept` of a client that is let in: it is told everything.
  unfoldable pub greet : ℕ → Snapshot → Server → Server
  greet fd snapshot s =
      let n = next_sequence s.sequence in
      send_messages_locked
        (snapshot_messages s.device snapshot ++ (ready_message s.device n s.ready ∷ []))
        (record s { client = some fd; sequence = n })

  -- `accept`: the client, its user by `SO_PEERCRED` if that could be read, and the snapshot.
  unfoldable pub accept : ℕ → Option ℕ → Snapshot → Server → Server
  accept fd credential snapshot s = elim credential [
    | none ↦ s
    | some uid ↦
        if uid != s.peer_uid
        then s
        else elim s.client [ none ↦ greet fd snapshot s | some other ↦ s ]
  ]

  -- `receive` behind `Decode`, with the handler's answer.
  unfoldable pub handle_message :
      (Message → Option CommandError) → ℕ → Result Message.Error Message → Server → Server
  handle_message handler fd (err e) s = drop_client fd s
  handle_message handler fd (ok m) s =
      if is_command_for s.device m
      then send (ack_message s.device m (handler m)) (record s { handled = m ∷ s.handled })
      else drop_client fd s

  unfoldable pub receive : (Message → Option CommandError) → ℕ → Received → Server → Server
  receive handler fd would_block s = s
  receive handler fd failed s = drop_client fd s
  receive handler fd (packet truncated bytes) s =
      if truncated || length bytes != packet_size
      then drop_client fd s
      else handle_message handler fd (decode bytes) s

  unfoldable pub set_ready : Bool → Server → Server
  set_ready ready s =
      let changed = not (ready_code s.ready == ready_code ready) in
      let s' = record s { ready = ready } in
      let n = next_sequence s.sequence in
      if changed
      then send_message_locked (ready_message s.device n ready) (record s' { sequence = n })
      else s'

  unfoldable pub broadcast_ready : Bool → Server → Server
  broadcast_ready ready s =
      let n = next_sequence s.sequence in
      send (ready_message s.device n ready) (record s { sequence = n })

  unfoldable pub broadcast_snapshot : Snapshot → Server → Server
  broadcast_snapshot snapshot s = send_messages_locked (snapshot_messages s.device snapshot) s

  unfoldable pub broadcast_result : ℕ → ℕ → ℕ → ℕ → Server → Server
  broadcast_result opcode index result token s =
      let n = next_sequence s.sequence in
      send (result_message s.device n opcode index result token) (record s { sequence = n })
