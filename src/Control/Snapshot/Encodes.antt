-- ===== src/Control/Snapshot/Encodes.antt =====
-- Every message of a snapshot reaches the peer as it was meant: none is dropped by `Encode`.
use callbridge_le_audio_serv.Prelude.{
  ℕ, ◌^◌, ◌≤◌, ◌<◌, ◌≡◌, refl, ◌∙◌, inl, inr, [], ◌∷◌, List, arith, All, Bytes, length, bit_and, ok,
  Result-cases,
}
use callbridge_le_audio_serv.Prelude.Bits.{and_not, bit_and-seven}
use callbridge_le_audio_serv.Protocol.Message.{Message, InRange}
use callbridge_le_audio_serv.Protocol.Identity.{
  Identity, no_identity, encode_identity, decode_identity,
}
use callbridge_le_audio_serv.Protocol.Identity.RoundTrip.{
  decode-encode_identity, length-encode_identity,
}
use callbridge_le_audio_serv.Protocol.Device.Canonical.{IsDevice, IsDevice-clean}
use callbridge_le_audio_serv.Protocol.Validate.{validate, validate_type, validate_state}
use callbridge_le_audio_serv.Protocol.Validate.Laws.{validate-validate_type}
use callbridge_le_audio_serv.Protocol.Codec.{layout, encode, decode}
use callbridge_le_audio_serv.Protocol.Codec.RoundTrip.{decode-encode}
use callbridge_le_audio_serv.Gtbs.Call.{Call}
use callbridge_le_audio_serv.Gtbs.Parse.Sound.{IsEntry}
use callbridge_le_audio_serv.Control.Snapshot.{
  payload_or_nil, call_message, empty_message, call_messages, messages_of,
}

-- What the call of a snapshot satisfies.
pub record IsReported (c : Call) : Type 0 where
  pub is_entry : IsEntry c
  pub token_pos : 0 < c.token
  pub token_u64 : c.token < 2 ^ 64

-- The payload of a state message has room in the packet and decodes.
payload_good :
    (i : Identity)
    → let p = payload_or_nil (encode_identity i) in
      (length p ≤ 78) × ((j : Identity) × (decode_identity p ≡ ok j))
payload_good i = elim (Result-cases (encode_identity i)) [
  | inl (e, h) ↦ rw h (omega arith, (no_identity, unfold decode_identity in refl))
  | inr (p, h) ↦ rw h (length-encode_identity i h, (i, decode-encode_identity i h))
]

module _ (d : Bytes) (dev : IsDevice d) (sequence : ℕ) (pos : 0 < sequence) where
  call_state_valid :
      (flags : ℕ) (c : Call)
      → bit_and flags 1 ≡ 1
      → IsReported c
      → validate_state (call_message d sequence flags c) ≡ ok tt
  unfolding validate_state call_message
  call_state_valid flags c f r =
      let (short, (j, reads)) = payload_good c.identity in
      ground (
        arith,
        bit_and-seven c.flags (omega (arith, r.is_entry.flags_known)),
        r.is_entry.index_pos,
        r.is_entry.state_known,
        r.is_entry.flags_known,
      )

  call_message_valid :
      (flags : ℕ) (c : Call)
      → and_not flags 3 ≡ 0
      → bit_and flags 1 ≡ 1
      → IsReported c
      → validate (call_message d sequence flags c) ≡ ok tt
  unfolding validate_type call_message
  call_message_valid flags c k f r =
      validate-validate_type (call_message d sequence flags c) (record {
        type_low = omega arith;
        type_high = omega arith;
        flags_known = k;
        sequence_pos = pos;
        payload_fits = (payload_good c.identity).0;
        device = dev;
      })
      ∙ call_state_valid flags c f r

  empty_message_valid : validate (empty_message d sequence) ≡ ok tt
  unfolding validate_type validate_state empty_message
  empty_message_valid = validate-validate_type (empty_message d sequence) (record {
    type_low = omega arith;
    type_high = omega arith;
    flags_known = refl;
    sequence_pos = pos;
    payload_fits = omega arith;
    device = dev;
  })

-- The peer reads the message from what is sent for it.
abbrev pub Arrives : Message → Type 0
Arrives m = (p : Bytes) × (encode m ≡ ok p) × (decode p ≡ ok m)

pub Arrives-valid : (m : Message) → InRange m → IsDevice m.device → validate m ≡ ok tt → Arrives m
unfolding encode
Arrives-valid m r dev v =
    let (long, clean) = IsDevice-clean m.device dev in
    let e : encode m ≡ ok (layout m) = rw v in
    (layout m, e, (decode-encode m r (omega arith) clean e).0)

module _ (d : Bytes) (dev : IsDevice d) (sequence : ℕ) (pos : 0 < sequence)
    (u64 : sequence < 2 ^ 64) where
  call_messages-Arrives :
      (cs : List Call) → All IsReported cs → All Arrives (call_messages d sequence cs)
  unfolding call_messages call_message
  call_messages-Arrives [] r = tt
  call_messages-Arrives (c ∷ []) r = (
    Arrives-valid (call_message d sequence 3 c)
        (record { sequence_u64 = u64; token_u64 = r.0.token_u64 }) dev
        (call_message_valid d dev sequence pos 3 c refl refl r.0),
    tt,
  )
  call_messages-Arrives (c ∷ c' ∷ cs) r = (
    Arrives-valid (call_message d sequence 1 c)
        (record { sequence_u64 = u64; token_u64 = r.0.token_u64 }) dev
        (call_message_valid d dev sequence pos 1 c refl refl r.0),
    call_messages-Arrives (c' ∷ cs) r.1,
  )

  pub messages_of-Arrives :
      (cs : List Call) → All IsReported cs → All Arrives (messages_of d sequence cs)
  unfolding messages_of empty_message
  messages_of-Arrives [] r = (
    Arrives-valid (empty_message d sequence)
        (record { sequence_u64 = u64; token_u64 = omega arith }) dev
        (empty_message_valid d dev sequence pos),
    tt,
  )
  messages_of-Arrives (c ∷ cs) r = call_messages-Arrives (c ∷ cs) r
