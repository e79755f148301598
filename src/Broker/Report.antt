-- ===== src/Broker/Report.antt =====
-- broker.go: the quality of service that BlueZ reports for a stream, before and after it has
-- allocated the stream. Durations are in microseconds.
pub mod Sound
pub mod Offered
pub mod Deferred
use callbridge_le_audio_serv.Prelude.{
  ℕ, ◌%◌, ◌^◌, Bool, true, false, ◌&&◌, ◌||◌, List, [], ◌∷◌, ◌==◌, ◌!=◌, ltb, if◌then◌else◌, codes,
  bit_and, Option, none, some, Result, ok, err, fail_if, ◌>>=◌, ◌>>◌,
}
use callbridge_le_audio_serv.Prelude.Table.{Table, find, put}
use callbridge_le_audio_serv.Lc3.{CodecConfig, Preset, conversational_presets}
use callbridge_le_audio_serv.Broker.Variant.{
  Value, byte, uint16, uint32, variant_byte, variant_uint16, variant_uint32,
}
use callbridge_le_audio_serv.Broker.Qos.{
  TransportQos, Error, cig_invalid, cig_missing, cis_invalid, cis_missing, ids_unallocated,
  interval_mismatch, sdu_mismatch, framing_invalid, phy_not_le_2m, retransmissions_invalid,
  latency_invalid, presentation_delay_invalid, target_latency_invalid,
  target_latency_fallback_invalid, require, beyond_delay, select_qos, default_qos,
}

-- `CIG` and `CIS`, which only the final report must have
unfoldable pub read_identifier : Bool → Option Value → Error → Error → Result Error ℕ
read_identifier final none invalid missing = if final then err missing else ok 0xff
read_identifier final (some value) invalid missing =
    require (variant_byte (some value)) (λ n. false) invalid

unfoldable pub parse_configured_qos : Table Value → CodecConfig → Bool → Result Error TransportQos
parse_configured_qos q codec final = do
  cig ← read_identifier final (find (codes "CIG") q) cig_invalid cig_missing
  cis ← read_identifier final (find (codes "CIS") q) cis_invalid cis_missing
  fail_if (final && (ltb 0xef cig || ltb 0xef cis)) ids_unallocated
  interval ←
      require (variant_uint32 (find (codes "Interval") q)) (λ n. n != codec.frame_duration % 2 ^ 32)
        interval_mismatch
  sdu ←
      require (variant_uint16 (find (codes "SDU") q)) (λ n. n != codec.octets_per_frame)
        sdu_mismatch
  framing ← require (variant_byte (find (codes "Framing") q)) (ltb 1) framing_invalid
  phy ← require (variant_byte (find (codes "PHY") q)) (λ n. bit_and n 2 == 0) phy_not_le_2m
  retransmissions ←
      require (variant_byte (find (codes "Retransmissions") q)) (λ n. n == 0 || ltb 13 n)
        retransmissions_invalid
  latency ←
      require (variant_uint16 (find (codes "Latency") q)) (λ n. n == 0 || ltb 100 n) latency_invalid
  delay ←
      require (variant_uint32 (find (codes "PresentationDelay") q)) beyond_delay
        presentation_delay_invalid
  target ←
      require (variant_byte (find (codes "TargetLatency") q)) (λ n. ltb n 1 || ltb 3 n)
        target_latency_invalid
  ok (record {
    cig = cig;
    cis = cis;
    interval_us = interval;
    framing = framing;
    phy = phy;
    sdu = sdu;
    retransmissions = retransmissions;
    latency_ms = latency;
    presentation_delay_us = delay;
    target_latency = target;
  })

unfoldable pub parse_final_transport_qos :
    Table Value → CodecConfig → TransportQos → Result Error TransportQos
parse_final_transport_qos q codec selected = elim (find (codes "TargetLatency") q) [
  | some value ↦ parse_configured_qos q codec true
  | none ↦
      if ltb selected.target_latency 1 || ltb 3 selected.target_latency
      then err target_latency_fallback_invalid
      else parse_configured_qos (put (codes "TargetLatency") (byte selected.target_latency) q) codec
          true
]

unfoldable pub parse_preliminary_configured_qos :
    Table Value → CodecConfig → Result Error TransportQos
parse_preliminary_configured_qos q codec = elim (find (codes "TargetLatency") q) [
  | some value ↦ parse_configured_qos q codec false
  | none ↦ do
    selected ← select_qos [] codec
    parse_configured_qos (put (codes "TargetLatency") (byte selected.target_latency) q) codec false
]

-- `transportDetailReason(err) == "qos_sdu_mismatch"`
abbrev pub is_sdu_mismatch : Error → Bool
is_sdu_mismatch sdu_mismatch = true
is_sdu_mismatch _ = false

abbrev pub succeeds : {E A : Type 0} → Result E A → Bool
succeeds (err e) = false
succeeds (ok a) = true

unfoldable pub known_octets : List Preset → ℕ → ℕ → Bool
known_octets [] duration octets = false
known_octets (p ∷ presets) duration octets =
    (p.frame_duration == duration && p.octets == octets) || known_octets presets duration octets

unfoldable pub bounded_stale_configured_sdu : Table Value → CodecConfig → Error → Option ℕ
bounded_stale_configured_sdu q codec e = elim (variant_uint16 (find (codes "SDU") q)) [
  | none ↦ none
  | some stale ↦
      if is_sdu_mismatch e
        && stale != 0
        && stale != codec.octets_per_frame
        && known_octets conversational_presets codec.frame_duration stale
        && succeeds (parse_preliminary_configured_qos q (record codec { octets_per_frame = stale }))
      then some stale
      else none
]

abbrev pub holds_number : Option ℕ → ℕ → Bool
holds_number none n = false
holds_number (some m) n = m == n

-- The state in which BlueZ has not allocated the stream yet.
unfoldable pub bounded_unallocated_configured_qos : Table Value → CodecConfig → Error → Bool
bounded_unallocated_configured_qos q codec e =
    is_sdu_mismatch e
    && holds_number (variant_uint16 (find (codes "SDU") q)) 0
    && holds_number (variant_byte (find (codes "CIG") q)) 0xff
    && holds_number (variant_byte (find (codes "CIS") q)) 0xff
    && succeeds (
        parse_preliminary_configured_qos (put (codes "SDU") (uint16 (default_qos codec).sdu) q)
          codec)

-- The part of `SetConfiguration` that settles the provisional quality of service.
unfoldable pub provisional_qos : Table Value → CodecConfig → Result Error TransportQos
provisional_qos q codec = elim (parse_preliminary_configured_qos q codec) [
  | ok parsed ↦ ok parsed
  | err e ↦ elim (bounded_stale_configured_sdu q codec e) [
    | some stale ↦ select_qos [] codec
    | none ↦ if bounded_unallocated_configured_qos q codec e then select_qos [] codec else err e
  ]
]
