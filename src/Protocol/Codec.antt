-- ===== src/Protocol/Codec.antt =====
-- protocol.go: `Message.Encode` and `Decode`.
pub mod Shape
pub mod RoundTrip
pub mod Range
use callbridge_le_audio_serv.Prelude.{
  ℕ, zero, suc, ◌+◌, ◌-◌, ◌%◌, Bool, true, false, ◌&&◌, ◌||◌, not, [], ◌∷◌, ◌++◌, ◌==◌, ◌!=◌, ltb,
  leb, Bytes, byte_at, slice, copy_into, zeros, length, drop, all, le16, le64, from_le, Result, ok,
  fail_if, ◌>>=◌, ◌>>◌, if◌then◌else◌, bytes_eq,
}
use callbridge_le_audio_serv.Protocol.Message
use callbridge_le_audio_serv.Protocol.Message.{
  Message, Error, version, packet_size, payload_size, magic,
}
use callbridge_le_audio_serv.Protocol.Validate.{validate}

-- `packet[i] = b`
abbrev put : ℕ → ℕ → Bytes → Bytes
put i b p = copy_into p i (i + 1) (b ∷ [])

-- The writes of `Encode`, in its order.
unfoldable pub layout : Message → Bytes
layout m =
    let p = copy_into (zeros packet_size) 0 4 magic in
    let p = put 4 version p in
    let p = put 5 m.type p in
    let p = put 6 m.flags p in
    let p = copy_into p 8 16 (le64 m.sequence) in
    let p = copy_into p 16 24 (le64 m.token) in
    let p = put 24 m.index p in
    let p = put 25 m.code p in
    let p = put 26 m.value p in
    let p = copy_into p 28 30 (le16 (length m.payload)) in
    let p = copy_into p 32 49 m.device in copy_into p 50 packet_size m.payload

unfoldable pub encode : Message → Result Error Bytes
unfolding layout
encode m = do validate m; ok (layout m)

-- `for deviceEnd < 49 && packet[deviceEnd] != 0 { deviceEnd++ }`, as the bytes passed
unfoldable pub until_zero : Bytes → Bytes
until_zero [] = []
until_zero (b ∷ bs) = let rest = until_zero bs in if b == 0 then [] else b ∷ rest

-- The message that a packet with a good header holds.
unfoldable pub parse_fields : Bytes → Message
unfolding until_zero
parse_fields p = record {
  type = byte_at p 5;
  flags = byte_at p 6;
  sequence = from_le (slice p 8 16);
  token = from_le (slice p 16 24);
  device = until_zero (slice p 32 49);
  index = byte_at p 24;
  code = byte_at p 25;
  value = byte_at p 26;
  payload = slice p 50 (50 + from_le (slice p 28 30));
}

-- The checks of `Decode` on the header, the length and the padding.
unfoldable pub bad_header : Bytes → Bool
bad_header p =
    length p != packet_size
    || not (bytes_eq (slice p 0 4) magic)
    || byte_at p 4 != version
    || byte_at p 7 != 0
    || byte_at p 27 != 0
    || from_le (slice p 30 32) != 0
    || byte_at p 49 != 0

unfoldable pub payload_length : Bytes → ℕ
payload_length p = from_le (slice p 28 30)

unfoldable pub nonzero_padding : Bytes → Bool
unfolding payload_length
nonzero_padding p = not (all (λ b. b == 0) (drop (50 + payload_length p) p))

unfoldable pub decode : Bytes → Result Error Message
decode p = do
  fail_if (bad_header p) Message.invalid_header
  fail_if (ltb payload_size (payload_length p)) Message.payload_exceeds
  fail_if (nonzero_padding p) Message.nonzero_padding
  validate (parse_fields p)
  ok (parse_fields p)
