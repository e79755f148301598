-- ===== src/Protocol/Codec/RoundTrip.antt =====
-- `Decode` reads back what `Encode` wrote.
use callbridge_le_audio_serv.Prelude.{
  ℕ, zero, suc, ◌+◌, ◌-◌, ◌≤◌, ◌≡◌, ◌≢◌, refl, sym, ap, ◌∙◌, true, false, [], ◌∷◌, ◌++◌, ◌==◌,
  arith, Bytes, All, zeros, byte_at, slice, take, drop, length, length-append, length-replicate,
  take-append_eq, drop_add, drop-append, drop-suc-append_eq, get_or-append_eq, from_le,
  from_le-le16, from_le-le64, all, bytes_eq, le→ltb, ok, ◌>>=◌, >>=-eq-ok,
}
use callbridge_le_audio_serv.Protocol.Message.{Message, InRange, packet_size, payload_size}
use callbridge_le_audio_serv.Protocol.Validate.{validate}
use callbridge_le_audio_serv.Protocol.Codec.{
  layout, encode, decode, parse_fields, until_zero, bad_header, payload_length, nonzero_padding,
}
use callbridge_le_audio_serv.Protocol.Codec.Shape.{
  device_field, payload_field, shape, length-device_field, layout-shape,
}

abbrev pub NoZero : Bytes → Type 0
NoZero = All (λ b. b ≢ 0)

until_zero-append : (d : Bytes) (k : ℕ) → NoZero d → until_zero (d ++ zeros k) ≡ d
unfolding until_zero
until_zero-append [] zero h = refl
until_zero-append [] (suc k) h = refl
until_zero-append (b ∷ d) k h = ground (arith, until_zero-append d k h.1)

all_zero-zeros : (k : ℕ) → all (λ b. b == 0) (zeros k) ≡ true
all_zero-zeros zero = refl
all_zero-zeros (suc k) = all_zero-zeros k

module _ (m : Message) (r : InRange m) (fits : length m.device ≤ 17)
    (short : length m.payload ≤ 78) where
  device_at : slice (shape m) 32 49 ≡ device_field m.device
  device_at = take-append_eq 17 (device_field m.device) _ (sym (length-device_field m.device fits))

  payload_length_at : from_le (slice (shape m) 28 30) ≡ length m.payload
  payload_length_at = from_le-le16 (length m.payload) (omega arith)

  after_device : drop 50 (shape m) ≡ payload_field m.payload
  after_device =
      drop-suc-append_eq 17 (device_field m.device) 0 (payload_field m.payload)
        (sym (length-device_field m.device fits))

  payload_at : slice (shape m) 50 (50 + length m.payload) ≡ m.payload
  payload_at =
      ap (take (50 + length m.payload - 50)) after_device
      ∙ take-append_eq (50 + length m.payload - 50) m.payload _ (omega arith)

  parse_fields-shape : NoZero m.device → parse_fields (shape m) ≡ m
  unfolding parse_fields
  parse_fields-shape clean = λ i. record {
    type = m.type;
    flags = m.flags;
    sequence = from_le-le64 m.sequence r.sequence_u64 i;
    token = from_le-le64 m.token r.token_u64 i;
    device = device_read i;
    index = m.index;
    code = m.code;
    value = m.value;
    payload = payload_read i;
  }
    where
      device_read : until_zero (slice (shape m) 32 49) ≡ m.device
      device_read =
          ap until_zero device_at ∙ until_zero-append m.device (17 - length m.device) clean

      payload_read : slice (shape m) 50 (50 + from_le (slice (shape m) 28 30)) ≡ m.payload
      payload_read = ap (λ k. slice (shape m) 50 (50 + k)) payload_length_at ∙ payload_at

  gap_at : byte_at (shape m) 49 ≡ 0
  gap_at =
      get_or-append_eq 0 17 (device_field m.device) 0 _ (sym (length-device_field m.device fits))

  length-shape : length (shape m) ≡ packet_size
  length-shape = omega (
    arith,
    length-append {0} (device_field m.device) (0 ∷ payload_field m.payload),
    length-device_field m.device fits,
    length-append {0} m.payload (zeros (78 - length m.payload)),
    length-replicate {0} {A = ℕ} (78 - length m.payload) 0,
  )

  header_good : bad_header (shape m) ≡ false
  unfolding bad_header bytes_eq
  header_good = rw (length-shape, gap_at)

  length_good : payload_length (shape m) ≡ length m.payload
  unfolding payload_length
  length_good = payload_length_at

  padding_zero : nonzero_padding (shape m) ≡ false
  unfolding nonzero_padding
  padding_zero = rw payload_length_at (
      rw (drop_add 50 (length m.payload) (shape m))
        (rw (after_device, drop-append) (rw (all_zero-zeros (78 - length m.payload)))))

  decode-shape : NoZero m.device → decode (shape m) ≡ (validate m >>= λ _. ok m)
  unfolding decode
  decode-shape clean = rw (
    header_good,
    length_good,
    le→ltb payload_size (length m.payload) short,
    padding_zero,
    parse_fields-shape clean,
  )

-- A message that `Encode` accepts.
validated : (m : Message) {p : Bytes} → encode m ≡ ok p → (validate m ≡ ok tt) × (p ≡ layout m)
unfolding encode
validated m e = let (u, v, w) = >>=-eq-ok (validate m) (λ _. ok (layout m)) e in (v, ground arith)

validate-short : (m : Message) → validate m ≡ ok tt → length m.payload ≤ 78
unfolding validate
validate-short m v = ground arith

-- A message whose sequence and token fit 64 bits, and whose device text has at most 17 bytes and no zero byte,
-- comes back from what `Encode` writes for it, and the packet has 128 bytes.
pub decode-encode :
    (m : Message) {p : Bytes}
    → InRange m
    → length m.device ≤ 17
    → NoZero m.device
    → encode m ≡ ok p
    → (decode p ≡ ok m) × (length p ≡ packet_size)
decode-encode m r fits clean e =
    let (v, written) = validated m e in
    let short = validate-short m v in
    let packet = written ∙ layout-shape m fits short in
    (rw (packet, decode-shape m r fits short clean, v), rw packet (length-shape m r fits short))

-- What `Decode` returns has passed `validate`.
pub decode-validate : (p : Bytes) {m : Message} → decode p ≡ ok m → validate m ≡ ok tt
unfolding decode
decode-validate p e = ground arith
