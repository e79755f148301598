-- ===== src/Control/Server/Sent.antt =====
-- What the sending methods put on the wire.
use callbridge_le_audio_serv.Prelude.{
  ℕ, ◌<◌, ◌^◌, ◌≡◌, refl, inl, inr, Bool, [], ◌∷◌, List, arith, All, All-append, Bytes, length,
  Option, none, some, Bool-cases, Result-cases, ok,
}
use callbridge_le_audio_serv.Protocol.Message.{Message, InRange, type_command}
use callbridge_le_audio_serv.Protocol.Device.Canonical.{IsDevice, IsDevice-clean}
use callbridge_le_audio_serv.Protocol.Validate.{validate}
use callbridge_le_audio_serv.Protocol.Codec.{encode, decode}
use callbridge_le_audio_serv.Protocol.Codec.RoundTrip.{decode-encode}
use callbridge_le_audio_serv.Gtbs.Call.{Call, Snapshot}
use callbridge_le_audio_serv.Control.Snapshot.{
  call_messages, messages_of, snapshot_messages, call_message, empty_message,
}
use callbridge_le_audio_serv.Control.Server.{
  Server, next_sequence, ready_message, close_client_locked, drop_client, is_client, send_packet,
  send_message_to, unless_gone, send_message_locked, send_messages_locked, send,
}

-- The sequence and the tokens of a snapshot fit 64 bits.
abbrev pub Carries : Snapshot → Type 0
Carries snapshot =
    (snapshot.sequence < 2 ^ 64) × All (λ (c : Call). c.token < 2 ^ 64) snapshot.calls

-- The message is for this device, and its wide fields fit.
abbrev pub IsFor : Bytes → Message → Type 0
IsFor d m = InRange m × (m.device ≡ d)

-- The packet decodes to a message for this device.
abbrev pub Reads : Bytes → ℕ × Bytes → Type 0
Reads d e = (m : Message) × (decode e.1 ≡ ok m) × (m.device ≡ d)

-- A valid command for this device.
abbrev pub IsCommand : Bytes → Message → Type 0
IsCommand d m = (validate m ≡ ok tt) × (m.type ≡ type_command) × (m.device ≡ d)

-- What holds of a server for a device between two events.
pub record Sound (d : Bytes) (s : Server) : Type 0 where
  pub device : s.device ≡ d
  pub reads : All (Reads d) s.sent
  pub commands : All (IsCommand d) s.handled

pub next_sequence_u64 : (n : ℕ) → (0 < next_sequence n) × (next_sequence n < 2 ^ 64)
unfolding next_sequence
next_sequence_u64 n = ground arith

-- Messages of a snapshot are for the device.
call_messages-IsFor :
    (d : Bytes) (n : ℕ) (cs : List Call)
    → n < 2 ^ 64
    → All (λ (c : Call). c.token < 2 ^ 64) cs
    → All (IsFor d) (call_messages d n cs)
unfolding call_messages call_message
call_messages-IsFor d n [] h k = tt
call_messages-IsFor d n (c ∷ []) h k = ((record { sequence_u64 = h; token_u64 = k.0 }, refl), tt)
call_messages-IsFor d n (c ∷ c' ∷ cs) h k =
    ((record { sequence_u64 = h; token_u64 = k.0 }, refl), call_messages-IsFor d n (c' ∷ cs) h k.1)

messages_of-IsFor :
    (d : Bytes) (n : ℕ) (cs : List Call)
    → n < 2 ^ 64
    → All (λ (c : Call). c.token < 2 ^ 64) cs
    → All (IsFor d) (messages_of d n cs)
unfolding messages_of empty_message
messages_of-IsFor d n [] h k = ((record { sequence_u64 = h; token_u64 = omega arith }, refl), tt)
messages_of-IsFor d n (c ∷ cs) h k = call_messages-IsFor d n (c ∷ cs) h k

pub snapshot_messages-IsFor :
    (d : Bytes) (snapshot : Snapshot)
    → Carries snapshot
    → All (IsFor d) (snapshot_messages d snapshot)
unfolding snapshot_messages
snapshot_messages-IsFor d snapshot c = messages_of-IsFor d snapshot.sequence snapshot.calls c.0 c.1

pub close_client_locked-Sound :
    (d : Bytes) (s : Server) → Sound d s → Sound d (close_client_locked s)
unfolding close_client_locked
close_client_locked-Sound d s w = record {
  device = w.device;
  reads = w.reads;
  commands = w.commands;
}

pub drop_client-Sound : (d : Bytes) (fd : ℕ) (s : Server) → Sound d s → Sound d (drop_client fd s)
unfolding drop_client
drop_client-Sound d fd s w = elim (Bool-cases (is_client s fd)) [
  | inl same ↦ rw same (close_client_locked-Sound d s w)
  | inr other ↦ rw other w
]

unless_gone-Sound :
    {d : Bytes} (client : Option ℕ) (s s' : Server)
    → Sound d s
    → Sound d s'
    → Sound d (unless_gone client s s')
unless_gone-Sound none s s' w w' = w
unless_gone-Sound (some fd) s s' w w' = w'

module _ (deliver : ℕ → Bytes → Bool) (d : Bytes) (dev : IsDevice d) where
  send_packet-Sound :
      (fd : ℕ) (m : Message) (s : Server)
      → IsFor d m
      → Sound d s
      → Sound d (send_packet deliver fd (encode m) s)
  unfolding send_packet
  send_packet-Sound fd m s f w = elim (Result-cases (encode m)) [
    | inl (e, refused) ↦ rw refused w
    | inr (p, written) ↦ elim (Bool-cases (deliver (length s.sent) p)) [
      | inr lost ↦ rw (written, lost) (close_client_locked-Sound d s w)
      | inl whole ↦
          rw (written, whole)
            (record {
              device = w.device;
              reads =
                  All-append (Reads d) s.sent ((fd, p) ∷ []) w.reads
                    ((m, comes_back written, f.1), tt);
              commands = w.commands;
            })
    ]
  ]
    where
      comes_back : {p : Bytes} → encode m ≡ ok p → decode p ≡ ok m
      comes_back written =
          let (long, clean) = IsDevice-clean d dev in
          (decode-encode m f.0 (rw f.1 (omega arith)) (rw f.1 clean) written).0

  send_message_to-Sound :
      (client : Option ℕ) (m : Message) (s : Server)
      → IsFor d m
      → Sound d s
      → Sound d (send_message_to deliver client m s)
  unfolding send_message_to
  send_message_to-Sound none m s f w = w
  send_message_to-Sound (some fd) m s f w = send_packet-Sound fd m s f w

  pub send_message_locked-Sound :
      (m : Message) (s : Server) → IsFor d m → Sound d s → Sound d (send_message_locked deliver m s)
  unfolding send_message_locked
  send_message_locked-Sound m s f w = send_message_to-Sound s.client m s f w

  pub send_messages_locked-Sound :
      (ms : List Message) (s : Server)
      → All (IsFor d) ms
      → Sound d s
      → Sound d (send_messages_locked deliver ms s)
  unfolding send_messages_locked
  send_messages_locked-Sound [] s f w = w
  send_messages_locked-Sound (m ∷ ms) s f w =
      let s' = send_message_locked deliver m s in
      let w' = send_message_locked-Sound m s f.0 w in
      unless_gone-Sound s'.client s' (send_messages_locked deliver ms s') w'
        (send_messages_locked-Sound ms s' f.1 w')

  pub send-Sound : (m : Message) (s : Server) → IsFor d m → Sound d s → Sound d (send deliver m s)
  unfolding send
  send-Sound m s f w = send_messages_locked-Sound (m ∷ []) s (f, tt) w

  pub ready-IsFor :
      (n : ℕ) (ready : Bool) (s : Server)
      → Sound d s
      → IsFor d (ready_message s.device (next_sequence n) ready)
  unfolding ready_message
  ready-IsFor n ready s w =
      (record { sequence_u64 = (next_sequence_u64 n).1; token_u64 = omega arith }, w.device)

  -- The fields that no record of traffic is among may change.
  pub with_Sound :
      (client : Option ℕ) (ready : Bool) (n : ℕ) (s : Server)
      → Sound d s
      → Sound d (record s { client = client; ready = ready; sequence = n })
  with_Sound client ready n s w = record {
    device = w.device;
    reads = w.reads;
    commands = w.commands;
  }
