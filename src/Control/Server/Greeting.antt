-- ===== src/Control/Server/Greeting.antt =====
-- What a client is told when it connects.
use callbridge_le_audio_serv.Prelude.{
  ℕ, ◌≡◌, ◌∙◌, refl, sym, ap, Bool, true, false, [], ◌∷◌, ◌++◌, List, map, arith, All, All-append,
  Bytes, length, none, some, Result, ok, append_assoc, if◌then◌else◌, append-nil, ◌!=◌,
}
use callbridge_le_audio_serv.Protocol.Message
use callbridge_le_audio_serv.Protocol.Message.{Message}
use callbridge_le_audio_serv.Protocol.Device.Canonical.{IsDevice}
use callbridge_le_audio_serv.Protocol.Validate.{validate_type, validate_ready}
use callbridge_le_audio_serv.Protocol.Validate.Laws.{validate-validate_type}
use callbridge_le_audio_serv.Protocol.Codec.{decode}
use mathlib.Core.List.{Perm}
use callbridge_le_audio_serv.Gtbs.Parse.Sort.{Rising}
use callbridge_le_audio_serv.Gtbs.Store.{Store, snapshot, with_identity}
use callbridge_le_audio_serv.Gtbs.Store.Invariant.{WellFormed}
use callbridge_le_audio_serv.Control.Snapshot.{snapshot_messages}
use callbridge_le_audio_serv.Control.Snapshot.Encodes.{Arrives, Arrives-valid}
use callbridge_le_audio_serv.Control.Snapshot.Reports.{snapshot_messages-Arrives}
use callbridge_le_audio_serv.Control.Snapshot.Whole.{
  IsWhole, snapshot_messages-IsWhole, snapshot-calls,
}
use callbridge_le_audio_serv.Control.Server.{
  Server, next_sequence, ready_message, unless_gone, send_messages_locked, greet, accept,
}
use callbridge_le_audio_serv.Control.Server.Sent.{next_sequence_u64}
use callbridge_le_audio_serv.Control.Server.Ack.{send_message_locked-delivered}

-- What the reader of a packet makes of it.
abbrev pub reading : ℕ × Bytes → Result Message.Error Message
reading e = decode e.1

abbrev pub readings : List (ℕ × Bytes) → List (Result Message.Error Message)
readings = map reading

-- The Ready message (5) that a server owes a new client, with 1 for ready
abbrev pub readiness : Server → Message
readiness s = record {
  type = 5;
  flags = 0;
  sequence = next_sequence s.sequence;
  token = 0;
  device = s.device;
  index = 0;
  code = if s.ready then 1 else 0;
  value = 0;
  payload = [];
}

ready_message-readiness :
    (s : Server) → ready_message s.device (next_sequence s.sequence) s.ready ≡ readiness s
unfolding ready_message
ready_message-readiness s = ground arith

ready_valid : (d : Bytes) (n : ℕ) (ready : Bool) → validate_type (ready_message d n ready) ≡ ok tt
unfolding validate_type validate_ready ready_message
ready_valid d n true = refl
ready_valid d n false = refl

ready_message-Arrives :
    (d : Bytes) (n : ℕ) (ready : Bool)
    → IsDevice d
    → Arrives (ready_message d (next_sequence n) ready)
unfolding ready_message
ready_message-Arrives d n ready dev =
    let (pos, u64) = next_sequence_u64 n in
    let m = ready_message d (next_sequence n) ready in
    let framed = validate-validate_type m (record {
      type_low = omega arith;
      type_high = omega arith;
      flags_known = refl;
      sequence_pos = pos;
      payload_fits = omega arith;
      device = dev;
    }) in
    Arrives-valid m (record { sequence_u64 = u64; token_u64 = omega arith }) dev
      (framed ∙ ready_valid d (next_sequence n) ready)

module _ (deliver : ℕ → Bytes → Bool) (whole : (n : ℕ) (p : Bytes) → deliver n p ≡ true) where
  -- Messages that encode all go out, in order, and nothing else about the server changes.
  pub send_messages_locked-delivered :
      (fd : ℕ) (ms : List Message) (s : Server)
      → s.client ≡ some fd
      → All Arrives ms
      → (out : List (ℕ × Bytes)) × (send_messages_locked deliver ms s
          ≡ record s { sent = s.sent ++ out })
        × (readings out ≡ map ok ms)
        × All (λ e. e.0 ≡ fd) out
  unfolding send_messages_locked
  send_messages_locked-delivered fd [] s there a =
      ([], ap (λ sent. record s { sent = sent }) (sym (append-nil s.sent)), refl, tt)
  send_messages_locked-delivered fd (m ∷ ms) s there a =
      let (p, written, reads) = a.0 in
      let s' = record s { sent = s.sent ++ ((fd, p) ∷ []) } in
      let one =
        send_message_locked-delivered deliver fd m p s there written (whole (length s.sent) p) in
      let (out, rest, back, to) = send_messages_locked-delivered fd ms s' there a.1 in
      (
        (fd, p) ∷ out,
        ap (λ x. unless_gone x.client x (send_messages_locked deliver ms x)) one
            ∙ ap (λ client. unless_gone client s' (send_messages_locked deliver ms s')) there
            ∙ rest
            ∙ ap (λ sent. record s { sent = sent }) (append_assoc s.sent ((fd, p) ∷ []) out),
        λ i. reads i ∷ back i,
        (refl, to),
      )

  accept-free :
      (fd : ℕ) (store : Store) (s : Server)
      → s.client ≡ none
      → accept deliver fd (some s.peer_uid) (snapshot store) s ≡ greet deliver fd (snapshot store) s
  unfolding accept greet
  accept-free fd store s free =
      let same : (s.peer_uid != s.peer_uid) ≡ false = ground arith in rw (same, free, accept) refl

  -- A process of the expected user that connects when no other does is told each call of a
  -- well-formed store once, by rising index, or that there is none, and then whether the bridge is
  -- ready; these packets go to it only.
  pub accept_greets :
      (fd : ℕ) (store : Store) (s : Server)
      → IsDevice s.device
      → WellFormed store
      → s.client ≡ none
      → let after = accept deliver fd (some s.peer_uid) (snapshot store) s in
        (out : List (ℕ × Bytes)) × (told : List Message) × (after.sent ≡ s.sent ++ out)
        × (readings out ≡ map ok (told ++ (readiness s ∷ [])))
        × IsWhole s.device store.sequence (snapshot store).calls told
        × Perm (snapshot store).calls (map (with_identity store.identities) store.calls)
        × Rising (snapshot store).calls
        × All (λ e. e.0 ≡ fd) out
        × (after.client ≡ some fd)
  unfolding greet ready_message
  accept_greets fd store s dev w free =
      let n = next_sequence s.sequence in
      let ms = snapshot_messages s.device (snapshot store) in
      let ready = ready_message s.device n s.ready in
      let s' = record s { client = some fd; sequence = n } in
      let (out, sends, back, to) = send_messages_locked-delivered fd (ms ++ (ready ∷ [])) s' refl (
        All-append Arrives ms (ready ∷ []) (snapshot_messages-Arrives s.device store dev w)
          (ready_message-Arrives s.device s.sequence s.ready dev, tt)) in
      let behind = accept-free fd store s free ∙ sends in
      let (perm, rising) = snapshot-calls store w in
      (
        out,
        ms,
        ap (λ (x : Server). x.sent) behind,
        back ∙ ap (λ r. map ok (ms ++ (r ∷ []))) (ready_message-readiness s),
        snapshot_messages-IsWhole s.device store,
        perm,
        rising,
        to,
        ap (λ (x : Server). x.client) behind,
      )
