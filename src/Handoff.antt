-- ===== src/Handoff.antt =====
-- handoff.go: the descriptors of the two audio transports, their checks and their packets.
pub mod Server
pub mod Lifecycle
pub mod Publish
pub mod RoundTrip
pub mod Runs
use callbridge_le_audio_serv.Prelude.{
  ℕ, ◌+◌, Bool, true, false, not, ◌&&◌, ◌||◌, List, [], ◌∷◌, ◌++◌, ◌==◌, ◌!=◌, ltb, leb,
  if◌then◌else◌, Bytes, byte_at, bytes_eq, length, drop, slice, all, from_le, le16, le32, le64,
  bit_and, bit_or, Result, ok, err, fail_if, Option, none, some, ◌>>=◌, ◌>>◌,
}
use callbridge_le_audio_serv.Prelude.Bits.{and_not}
use callbridge_le_audio_serv.Lc3.{Preset, conversational_presets, ones_count}

abbrev pub handoff_header_size : ℕ
handoff_header_size = 72

abbrev pub maximum_transport : ℕ
maximum_transport = 512

abbrev pub handoff_magic : Bytes
handoff_magic = b'G' ∷ b'G' ∷ b'L' ∷ b'E' ∷ []

abbrev pub lifecycle_magic : Bytes
lifecycle_magic = b'G' ∷ b'G' ∷ b'L' ∷ b'C' ∷ []

abbrev pub direction_sink : ℕ
direction_sink = 1

abbrev pub direction_source : ℕ
direction_source = 2

pub record Descriptor : Type 0 where
  pub direction : ℕ
  pub generation : ℕ  -- uint64
  pub bundle_id : ℕ  -- uint64
  pub call_control_token : ℕ  -- uint64
  pub call_control_correlated : Bool
  pub ownership_transferred : Bool
  pub linked : Bool
  pub lifecycle_owned : Bool
  pub sample_rate : ℕ  -- uint32
  pub frame_duration_us : ℕ  -- uint32
  pub octets_per_frame : ℕ  -- uint16
  pub channel_allocation : ℕ  -- uint32
  pub interval_us : ℕ  -- uint32
  pub presentation_delay_us : ℕ  -- uint32
  pub read_mtu : ℕ  -- uint16
  pub write_mtu : ℕ  -- uint16
  pub latency_ms : ℕ  -- uint16
  pub framing : ℕ
  pub phy : ℕ
  pub retransmissions : ℕ
  pub target_latency : ℕ
  pub cig : ℕ
  pub cis : ℕ
  pub transport : Bytes

pub data Error : Type 0 where
  bad_direction bad_generation not_owned bad_lifecycle bad_token bad_preset bad_channel : Error
  bad_parameters bad_latency bad_mtu bad_path incomplete_pair unequal_pair : Error
  bad_header bad_length bad_message bad_identity not_progress : Error
  bad_descriptors stale_generation not_connected short_handoff : Error

-- `a == b` on booleans
abbrev pub same : Bool → Bool → Bool
same true b = b
same false b = not b

unfoldable pub matches_preset : Descriptor → List Preset → Bool
matches_preset d [] = false
matches_preset d (p ∷ presets) =
    (d.sample_rate == p.sample_rate
      && d.frame_duration_us == p.frame_duration
      && d.octets_per_frame == p.octets)
    || matches_preset d presets

unfoldable pub validate_descriptor : Descriptor → Result Error (Unit {0})
validate_descriptor d = do
  fail_if (d.direction != direction_sink && d.direction != direction_source) bad_direction
  fail_if (d.generation == 0 || d.bundle_id == 0) bad_generation
  fail_if (not d.ownership_transferred || not d.linked) not_owned
  fail_if (not (same d.lifecycle_owned (d.direction == direction_sink))) bad_lifecycle
  fail_if (not (same d.call_control_correlated (d.call_control_token != 0))) bad_token
  fail_if (not (matches_preset d conversational_presets) || d.interval_us != d.frame_duration_us)
      bad_preset
  fail_if (d.channel_allocation == 0 || ones_count d.channel_allocation != 1) bad_channel
  fail_if
      (ltb 1 d.framing
        || bit_and d.phy 2 == 0
        || d.retransmissions == 0
        || ltb 13 d.retransmissions
        || ltb d.target_latency 1
        || ltb 3 d.target_latency
        || ltb 0xef d.cig
        || ltb 0xef d.cis)
      bad_parameters
  fail_if
      (d.latency_ms == 0
        || ltb 100 d.latency_ms
        || d.presentation_delay_us == 0
        || ltb 0x00ffffff d.presentation_delay_us)
      bad_latency
  fail_if
      (ltb 4096 d.read_mtu
        || ltb 4096 d.write_mtu
        || (d.direction == direction_sink && ltb d.read_mtu d.octets_per_frame)
        || (d.direction == direction_source && ltb d.write_mtu d.octets_per_frame))
      bad_mtu
  fail_if
      (length d.transport == 0
        || ltb maximum_transport (length d.transport)
        || byte_at d.transport 0 != b'/'
        || not (all (λ b. b != 0) d.transport))
      bad_path

unfoldable pub validate_descriptor_pair : Descriptor → Descriptor → Result Error (Unit {0})
validate_descriptor_pair sink source = do
  fail_if (sink.direction != direction_sink || source.direction != direction_source) incomplete_pair
  fail_if
      (sink.bundle_id != source.bundle_id
        || sink.sample_rate != source.sample_rate
        || sink.frame_duration_us != source.frame_duration_us
        || sink.octets_per_frame != source.octets_per_frame
        || sink.interval_us != source.interval_us
        || sink.framing != source.framing
        || sink.phy != source.phy
        || sink.cig != source.cig
        || sink.cis != source.cis
        || not (same sink.call_control_correlated source.call_control_correlated)
        || sink.call_control_token != source.call_control_token)
      unequal_pair

unfoldable pub flags_of : Descriptor → ℕ
flags_of d =
    bit_or 3
      (bit_or (if d.call_control_correlated then 4 else 0) (if d.lifecycle_owned then 8 else 0))

-- The packet: the fields stand one behind the other, up to the four zero bytes before the path.
unfoldable pub write_descriptor : Descriptor → Bytes
write_descriptor d =
    handoff_magic
    ++ ((3 ∷ d.direction ∷ 1 ∷ flags_of d ∷ [])
        ++ (le64 d.generation
            ++ (le64 d.bundle_id
                ++ (le64 d.call_control_token
                    ++ (le32 d.sample_rate
                        ++ (le32 d.frame_duration_us
                            ++ (le32 d.channel_allocation
                                ++ (le32 d.interval_us
                                    ++ (le32 d.presentation_delay_us
                                        ++ (le16 d.octets_per_frame
                                            ++ (le16 d.read_mtu
                                                ++ (le16 d.write_mtu
                                                    ++ (le16 d.latency_ms
                                                        ++ ((d.framing ∷ d.phy ∷ d.retransmissions
                                                            ∷ d.target_latency ∷ d.cig ∷ d.cis ∷ [])
                                                            ++ (le16 (length d.transport)
                                                            ++ ((0 ∷ 0 ∷ 0 ∷ 0 ∷ [])
                                                            ++ d.transport))))))))))))))))

unfoldable pub encode_descriptor : Descriptor → Result Error Bytes
encode_descriptor d = do validate_descriptor d; ok (write_descriptor d)

unfoldable pub bad_descriptor_header : Bytes → Bool
bad_descriptor_header p =
    ltb (length p) handoff_header_size
    || not (bytes_eq (slice p 0 4) handoff_magic)
    || byte_at p 4 != 3
    || byte_at p 6 != 1
    || and_not (byte_at p 7) 15 != 0
    || bit_and (byte_at p 7) 1 == 0
    || bit_and (byte_at p 7) 2 == 0
    || from_le (slice p 68 72) != 0

unfoldable pub read_descriptor : Bytes → Descriptor
read_descriptor p = record {
  direction = byte_at p 5;
  generation = from_le (slice p 8 16);
  bundle_id = from_le (slice p 16 24);
  call_control_token = from_le (slice p 24 32);
  call_control_correlated = bit_and (byte_at p 7) 4 != 0;
  ownership_transferred = true;
  linked = true;
  lifecycle_owned = bit_and (byte_at p 7) 8 != 0;
  sample_rate = from_le (slice p 32 36);
  frame_duration_us = from_le (slice p 36 40);
  channel_allocation = from_le (slice p 40 44);
  interval_us = from_le (slice p 44 48);
  presentation_delay_us = from_le (slice p 48 52);
  octets_per_frame = from_le (slice p 52 54);
  read_mtu = from_le (slice p 54 56);
  write_mtu = from_le (slice p 56 58);
  latency_ms = from_le (slice p 58 60);
  framing = byte_at p 60;
  phy = byte_at p 61;
  retransmissions = byte_at p 62;
  target_latency = byte_at p 63;
  cig = byte_at p 64;
  cis = byte_at p 65;
  transport = drop 72 p;
}

unfoldable pub decode_descriptor : Bytes → Result Error Descriptor
decode_descriptor p = do
  fail_if (bad_descriptor_header p) bad_header
  let size = from_le (slice p 66 68)
  fail_if (ltb size 1 || ltb maximum_transport size || length p != handoff_header_size + size)
      bad_length
  packet ← encode_descriptor (read_descriptor p)
  ok (read_descriptor p)
