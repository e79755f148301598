-- ===== src/Handoff/RoundTrip.antt =====
-- A descriptor reads back from its packet.
use callbridge_le_audio_serv.Prelude.{
  ◌+◌, ◌<◌, ◌≤◌, ◌^◌, ◌≡◌, refl, sym, subst, Bool, true, false, ◌||◌, ◌==◌, ◌!=◌, arith, Bytes,
  bytes_eq, slice, length, from_le, from_le-le16, from_le-le32, from_le-le64, bit_and, bit_or, ok,
  >>=-eq-ok, ok_inj, fail_if-passes, if◌then◌else◌,
}
use callbridge_le_audio_serv.Prelude.Bits.{and_not}
use callbridge_le_audio_serv.Handoff.{
  Descriptor, validate_descriptor, flags_of, write_descriptor, encode_descriptor,
  bad_descriptor_header, read_descriptor, decode_descriptor, handoff_header_size, maximum_transport,
  bad_length,
}

-- The fields fit the types that the source gives them.
pub record IsRepresentable (d : Descriptor) : Type 0 where
  pub generation : d.generation < 2 ^ 64
  pub bundle_id : d.bundle_id < 2 ^ 64
  pub token : d.call_control_token < 2 ^ 64
  pub rate : d.sample_rate < 2 ^ 32
  pub duration : d.frame_duration_us < 2 ^ 32
  pub channel : d.channel_allocation < 2 ^ 32
  pub interval : d.interval_us < 2 ^ 32
  pub delay : d.presentation_delay_us < 2 ^ 32
  pub octets : d.octets_per_frame < 2 ^ 16
  pub read_mtu : d.read_mtu < 2 ^ 16
  pub write_mtu : d.write_mtu < 2 ^ 16
  pub latency : d.latency_ms < 2 ^ 16

flags-correlated : (d : Descriptor) → (bit_and (flags_of d) 4 != 0) ≡ d.call_control_correlated
unfolding flags_of
flags-correlated d = by_flags d.call_control_correlated d.lifecycle_owned
  where
    by_flags :
        (c o : Bool)
        → (bit_and (bit_or 3 (bit_or (if c then 4 else 0) (if o then 8 else 0))) 4 != 0) ≡ c
    by_flags true true = refl
    by_flags true false = refl
    by_flags false true = refl
    by_flags false false = refl

flags-owned : (d : Descriptor) → (bit_and (flags_of d) 8 != 0) ≡ d.lifecycle_owned
unfolding flags_of
flags-owned d = by_flags d.call_control_correlated d.lifecycle_owned
  where
    by_flags :
        (c o : Bool)
        → (bit_and (bit_or 3 (bit_or (if c then 4 else 0) (if o then 8 else 0))) 8 != 0) ≡ o
    by_flags true true = refl
    by_flags true false = refl
    by_flags false true = refl
    by_flags false false = refl

flags-header :
    (d : Descriptor)
    → (and_not (flags_of d) 15 != 0 || bit_and (flags_of d) 1 == 0 || bit_and (flags_of d) 2 == 0)
      ≡ false
unfolding flags_of
flags-header d = by_flags d.call_control_correlated d.lifecycle_owned
  where
    by_flags :
        (c o : Bool)
        → let f = bit_or 3 (bit_or (if c then 4 else 0) (if o then 8 else 0)) in
          (and_not f 15 != 0 || bit_and f 1 == 0 || bit_and f 2 == 0) ≡ false
    by_flags true true = refl
    by_flags true false = refl
    by_flags false true = refl
    by_flags false false = refl

validated-flags :
    (d : Descriptor)
    → validate_descriptor d ≡ ok tt
    → (d.ownership_transferred ≡ true)
      × (d.linked ≡ true)
      × (1 ≤ length d.transport)
      × (length d.transport ≤ maximum_transport)
unfolding validate_descriptor
validated-flags d e = ground arith

read-write_descriptor :
    (d : Descriptor)
    → IsRepresentable d
    → d.ownership_transferred ≡ true
    → d.linked ≡ true
    → read_descriptor (write_descriptor d) ≡ d
unfolding read_descriptor write_descriptor
read-write_descriptor d r e1 e2 = λ i. record {
  direction = d.direction;
  generation = from_le-le64 d.generation r.generation i;
  bundle_id = from_le-le64 d.bundle_id r.bundle_id i;
  call_control_token = from_le-le64 d.call_control_token r.token i;
  call_control_correlated = flags-correlated d i;
  ownership_transferred = sym e1 i;
  linked = sym e2 i;
  lifecycle_owned = flags-owned d i;
  sample_rate = from_le-le32 d.sample_rate r.rate i;
  frame_duration_us = from_le-le32 d.frame_duration_us r.duration i;
  octets_per_frame = from_le-le16 d.octets_per_frame r.octets i;
  channel_allocation = from_le-le32 d.channel_allocation r.channel i;
  interval_us = from_le-le32 d.interval_us r.interval i;
  presentation_delay_us = from_le-le32 d.presentation_delay_us r.delay i;
  read_mtu = from_le-le16 d.read_mtu r.read_mtu i;
  write_mtu = from_le-le16 d.write_mtu r.write_mtu i;
  latency_ms = from_le-le16 d.latency_ms r.latency i;
  framing = d.framing;
  phy = d.phy;
  retransmissions = d.retransmissions;
  target_latency = d.target_latency;
  cig = d.cig;
  cis = d.cis;
  transport = d.transport;
}

length-write_descriptor :
    (d : Descriptor) → length (write_descriptor d) ≡ handoff_header_size + length d.transport
unfolding write_descriptor
length-write_descriptor d = omega arith

write_descriptor-header : (d : Descriptor) → bad_descriptor_header (write_descriptor d) ≡ false
unfolding bad_descriptor_header write_descriptor bytes_eq
write_descriptor-header d = ground (arith, flags-header d)

-- Every packet that is encoded decodes to the descriptor that it was encoded from.
pub decode-encode_descriptor :
    (d : Descriptor) {p : Bytes}
    → IsRepresentable d
    → encode_descriptor d ≡ ok p
    → decode_descriptor p ≡ ok d
unfolding encode_descriptor decode_descriptor write_descriptor
decode-encode_descriptor d {p} r e =
    let (_, valid, written) = >>=-eq-ok (validate_descriptor d) _ e in
    let (owned, linked, positive, bounded) = validated-flags d valid in
    let same : write_descriptor d ≡ p = ok_inj written in
    let size : from_le (slice (write_descriptor d) 66 68) ≡ length d.transport =
      from_le-le16 (length d.transport) (omega arith) in
    subst (λ q. decode_descriptor q ≡ ok d) same
      (rw
        (
          write_descriptor-header d,
          size,
          length-write_descriptor d,
          read-write_descriptor d r owned linked,
          valid,
        )
        (fail_if-passes _ bad_length (ground arith) refl))
