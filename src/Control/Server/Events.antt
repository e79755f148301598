-- ===== src/Control/Server/Events.antt =====
-- Sequences of what happens to a server, and what goes out and comes in over them.
use callbridge_le_audio_serv.Prelude.{
  ℕ, ◌<◌, ◌^◌, ◌≡◌, ◌∙◌, inl, inr, Bool, true, not, [], ◌∷◌, ◌++◌, List, arith, All, All-append,
  Bytes, IsBytes, length, Option, none, some, Option-cases, Bool-cases, Result-cases, ok, ◌==◌,
  ◌!=◌, ◌||◌, bytes_eq_iff,
}
use callbridge_le_audio_serv.Protocol.Message.{Message, packet_size}
use callbridge_le_audio_serv.Protocol.Device.Canonical.{IsDevice}
use callbridge_le_audio_serv.Protocol.Codec.{decode}
use callbridge_le_audio_serv.Protocol.Codec.RoundTrip.{decode-validate}
use callbridge_le_audio_serv.Protocol.Codec.Range.{decode-InRange}
use callbridge_le_audio_serv.Gtbs.Call.{Snapshot}
use callbridge_le_audio_serv.Gtbs.Client.{CommandError}
use callbridge_le_audio_serv.Control.Snapshot.{snapshot_messages}
use callbridge_le_audio_serv.Control.Server.{
  Server, Received, would_block, failed, packet, next_sequence, ready_message, ack_message,
  result_message, drop_client, is_command_for, greet, accept, handle_message, receive, set_ready,
  broadcast_ready, broadcast_snapshot, broadcast_result, ready_code,
}
use callbridge_le_audio_serv.Control.Server.Sent.{
  Carries, IsFor, Sound, next_sequence_u64, snapshot_messages-IsFor, drop_client-Sound,
  send_message_locked-Sound, send_messages_locked-Sound, send-Sound, ready-IsFor, with_Sound,
}

-- What happens to a server: a connection, a packet, a lost client, and the calls of the program.
pub data Event : Type 0 where
  connection : ℕ → Option ℕ → Snapshot → Event
  received : ℕ → Received → Event
  hang_up : ℕ → Event
  readiness : Bool → Event
  ready_again : Bool → Event
  state_change : Snapshot → Event
  outcome : ℕ → ℕ → ℕ → ℕ → Event

-- The numbers that an event brings are those of the Go types.
abbrev pub InTypes : Event → Type 0
InTypes (connection fd uid snapshot) = Carries snapshot
InTypes (received fd (packet truncated bytes)) = IsBytes bytes
InTypes (state_change snapshot) = Carries snapshot
InTypes (outcome opcode index result token) = token < 2 ^ 64
InTypes _ = Unit

module _ (deliver : ℕ → Bytes → Bool) (d : Bytes) (dev : IsDevice d) where
  greet-Sound :
      (fd : ℕ) (snapshot : Snapshot) (s : Server)
      → Carries snapshot
      → Sound d s
      → Sound d (greet deliver fd snapshot s)
  unfolding greet
  greet-Sound fd snapshot s c w =
      let n = next_sequence s.sequence in
      let ms = snapshot_messages s.device snapshot in
      send_messages_locked-Sound deliver d dev (ms ++ (ready_message s.device n s.ready ∷ []))
        (record s { client = some fd; sequence = n })
        (All-append (IsFor d) ms (ready_message s.device n s.ready ∷ [])
          (rw w.device (snapshot_messages-IsFor d snapshot c))
          (ready-IsFor deliver d dev s.sequence s.ready s w, tt))
        (with_Sound deliver d dev (some fd) s.ready n s w)

  accept-Sound :
      (fd : ℕ) (uid : Option ℕ) (snapshot : Snapshot) (s : Server)
      → Carries snapshot
      → Sound d s
      → Sound d (accept deliver fd uid snapshot s)
  unfolding accept
  accept-Sound fd none snapshot s c w = w
  accept-Sound fd (some uid) snapshot s c w = elim (Bool-cases (uid != s.peer_uid)) [
    | inl other ↦ rw other w
    | inr same ↦ elim (Option-cases s.client) [
      | inl free ↦ rw (same, free, accept) (greet-Sound fd snapshot s c w)
      | inr (held, taken) ↦ rw (same, taken, accept) w
    ]
  ]

  ack-IsFor :
      (p : Bytes) (m : Message) (e : Option CommandError) (s : Server)
      → IsBytes p
      → decode p ≡ ok m
      → Sound d s
      → IsFor d (ack_message s.device m e)
  unfolding ack_message
  ack-IsFor p m e s b good w =
      let r = decode-InRange p b good in
      (record { sequence_u64 = r.sequence_u64; token_u64 = r.token_u64 }, w.device)

  handle_message-Sound :
      (handler : Message → Option CommandError) (fd : ℕ) (p : Bytes) (s : Server)
      → IsBytes p
      → Sound d s
      → Sound d (handle_message deliver handler fd (decode p) s)
  unfolding handle_message
  handle_message-Sound handler fd p s b w = elim (Result-cases (decode p)) [
    | inl (e, bad) ↦ rw bad (drop_client-Sound d fd s w)
    | inr (m, good) ↦ elim (Bool-cases (is_command_for s.device m)) [
      | inr other ↦ rw (good, other) (drop_client-Sound d fd s w)
      | inl command ↦
          rw (good, command)
            (send-Sound deliver d dev (ack_message s.device m (handler m))
              (record s { handled = m ∷ s.handled }) (ack-IsFor p m (handler m) s b good w)
              (record {
                device = w.device;
                reads = w.reads;
                commands =
                    ((decode-validate p good, ground arith, addressed m command), w.commands);
              }))
    ]
  ]
    where
      addressed : (m : Message) → is_command_for s.device m ≡ true → m.device ≡ d
      addressed m command = (bytes_eq_iff m.device s.device).0 (ground arith) ∙ w.device

  receive-Sound :
      (handler : Message → Option CommandError) (fd : ℕ) (r : Received) (s : Server)
      → InTypes (received fd r)
      → Sound d s
      → Sound d (receive deliver handler fd r s)
  unfolding receive
  receive-Sound handler fd would_block s b w = w
  receive-Sound handler fd failed s b w = drop_client-Sound d fd s w
  receive-Sound handler fd (packet truncated bytes) s b w =
      elim (Bool-cases (truncated || length bytes != packet_size)) [
        | inl odd ↦ rw odd (drop_client-Sound d fd s w)
        | inr good ↦ rw good (handle_message-Sound handler fd bytes s b w)
      ]

  set_ready-Sound : (ready : Bool) (s : Server) → Sound d s → Sound d (set_ready deliver ready s)
  unfolding set_ready
  set_ready-Sound ready s w =
      let n = next_sequence s.sequence in
      elim (Bool-cases (not (ready_code s.ready == ready_code ready))) [
        | inl changed ↦ rw changed (
            send_message_locked-Sound deliver d dev (ready_message s.device n ready)
              (record s { ready = ready; sequence = n })
              (ready-IsFor deliver d dev s.sequence ready s w)
              (with_Sound deliver d dev s.client ready n s w))
        | inr same ↦ rw same (with_Sound deliver d dev s.client ready s.sequence s w)
      ]

  broadcast_ready-Sound :
      (ready : Bool) (s : Server) → Sound d s → Sound d (broadcast_ready deliver ready s)
  unfolding broadcast_ready
  broadcast_ready-Sound ready s w =
      let n = next_sequence s.sequence in
      send-Sound deliver d dev (ready_message s.device n ready) (record s { sequence = n })
        (ready-IsFor deliver d dev s.sequence ready s w)
        (with_Sound deliver d dev s.client s.ready n s w)

  broadcast_snapshot-Sound :
      (snapshot : Snapshot) (s : Server)
      → Carries snapshot
      → Sound d s
      → Sound d (broadcast_snapshot deliver snapshot s)
  unfolding broadcast_snapshot
  broadcast_snapshot-Sound snapshot s c w =
      send_messages_locked-Sound deliver d dev (snapshot_messages s.device snapshot) s
        (rw w.device (snapshot_messages-IsFor d snapshot c)) w

  broadcast_result-Sound :
      (opcode index result token : ℕ) (s : Server)
      → token < 2 ^ 64
      → Sound d s
      → Sound d (broadcast_result deliver opcode index result token s)
  unfolding broadcast_result result_message
  broadcast_result-Sound opcode index result token s h w =
      let n = next_sequence s.sequence in
      send-Sound deliver d dev (result_message s.device n opcode index result token)
        (record s { sequence = n })
        (record { sequence_u64 = (next_sequence_u64 s.sequence).1; token_u64 = h }, w.device)
        (with_Sound deliver d dev s.client s.ready n s w)

module _ (deliver : ℕ → Bytes → Bool) (handler : Message → Option CommandError) where
  unfoldable pub step : Event → Server → Server
  step (connection fd uid snapshot) s = accept deliver fd uid snapshot s
  step (received fd r) s = receive deliver handler fd r s
  step (hang_up fd) s = drop_client fd s
  step (readiness ready) s = set_ready deliver ready s
  step (ready_again ready) s = broadcast_ready deliver ready s
  step (state_change snapshot) s = broadcast_snapshot deliver snapshot s
  step (outcome opcode index result token) s = broadcast_result deliver opcode index result token s

  unfoldable pub run : List Event → Server → Server
  run [] s = s
  run (e ∷ es) s = run es (step e s)

  step-Sound :
      (d : Bytes) (e : Event) (s : Server) → IsDevice d → InTypes e → Sound d s → Sound d (step e s)
  unfolding step
  step-Sound d (connection fd uid snapshot) s dev t w =
      accept-Sound deliver d dev fd uid snapshot s t w
  step-Sound d (received fd r) s dev t w = receive-Sound deliver d dev handler fd r s t w
  step-Sound d (hang_up fd) s dev t w = drop_client-Sound d fd s w
  step-Sound d (readiness ready) s dev t w = set_ready-Sound deliver d dev ready s w
  step-Sound d (ready_again ready) s dev t w = broadcast_ready-Sound deliver d dev ready s w
  step-Sound d (state_change snapshot) s dev t w =
      broadcast_snapshot-Sound deliver d dev snapshot s t w
  step-Sound d (outcome opcode index result token) s dev t w =
      broadcast_result-Sound deliver d dev opcode index result token s t w

  -- Whatever happens to a server for a device, in any order and with any losses: every packet that
  -- goes out decodes to a message for that device, and the handler is called only with valid
  -- commands for it.
  pub run-Sound :
      (d : Bytes) (es : List Event) (s : Server)
      → IsDevice d
      → All InTypes es
      → Sound d s
      → Sound d (run es s)
  unfolding run
  run-Sound d [] s dev ts w = w
  run-Sound d (e ∷ es) s dev ts w = run-Sound d es (step e s) dev ts.1 (step-Sound d e s dev ts.0 w)
