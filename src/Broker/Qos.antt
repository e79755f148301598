-- ===== src/Broker/Qos.antt =====
-- broker.go: the quality of service of a stream, chosen for a remote endpoint and checked when
-- BlueZ reports it. Durations are in microseconds.
pub mod Readers
pub mod Delay
use callbridge_le_audio_serv.Prelude.{
  ℕ, ◌+◌, ◌-◌, ◌%◌, ◌^◌, Bool, ◌&&◌, ◌||◌, [], ◌∷◌, ◌==◌, ◌!=◌, ltb, if◌then◌else◌, codes, bit_and,
  Option, none, some, Result, ok, err, fail_if, ◌>>=◌, ◌>>◌,
}
use callbridge_le_audio_serv.Prelude.Table.{Table, find}
use callbridge_le_audio_serv.Lc3.{CodecConfig, front_left_location}
use callbridge_le_audio_serv.Broker.Variant.{
  Value, byte, uint16, uint32, Property, plain, variant_dict, variant_byte, variant_uint16,
  variant_delay,
}

pub record TransportQos : Type 0 where
  pub cig : ℕ  -- byte
  pub cis : ℕ  -- byte
  pub interval_us : ℕ  -- uint32
  pub framing : ℕ  -- byte
  pub phy : ℕ  -- byte
  pub sdu : ℕ  -- uint16
  pub retransmissions : ℕ  -- byte
  pub latency_ms : ℕ  -- uint16
  pub presentation_delay_us : ℕ  -- uint32
  pub target_latency : ℕ  -- byte

-- `qosValidationError` by its reason, and the messages of the selection.
pub data Error : Type 0 where
  cig_invalid cig_missing cis_invalid cis_missing ids_unallocated interval_mismatch : Error
  sdu_mismatch framing_invalid phy_not_le_2m retransmissions_invalid latency_invalid : Error
  presentation_delay_invalid target_latency_invalid target_latency_fallback_invalid : Error
  bad_locations bad_capabilities bad_framing no_le_2m bad_latency bad_retransmissions : Error
  bad_minimum bad_maximum inverted bad_preferred_minimum bad_preferred_maximum no_overlap : Error

-- `value, ok := read(...); if !ok || bad(value) { return err }`
abbrev pub require : Option ℕ → (ℕ → Bool) → Error → Result Error ℕ
require none bad e = err e
require (some n) bad e = if bad n then err e else ok n

-- `if value, present := bounds[name]; present { ... }`, with what stands when it is not
abbrev pub when_present :
    Option Value → ℕ → (Option Value → Option ℕ) → (ℕ → Bool) → Error → Result Error ℕ
when_present none default read bad e = ok default
when_present (some value) default read bad e = require (read (some value)) bad e

unfoldable pub locations_of : Option Property → Result Error ℕ
locations_of (some (plain (uint32 locations))) =
    if locations == 0
    then err bad_locations
    else (if bit_and locations front_left_location != 0
        then ok front_left_location
        else ok (bit_and locations ((0xffffffff - locations + 1) % 2 ^ 32)))
locations_of _ = err bad_locations

unfoldable pub select_channel_allocation : Table Property → Result Error ℕ
select_channel_allocation properties = elim (find (codes "ChannelAllocation") properties) [
  | some value ↦ locations_of (some value)
  | none ↦ elim (find (codes "Locations") properties) [
    | some value ↦ locations_of (some value)
    | none ↦ ok front_left_location
  ]
]

abbrev pub beyond_delay : ℕ → Bool
beyond_delay n = n == 0 || ltb 0x00ffffff n

unfoldable pub clamp : ℕ → ℕ → ℕ → ℕ
clamp preferred minimum maximum =
    if ltb preferred minimum
    then minimum
    else (if ltb maximum preferred then maximum else preferred)

unfoldable pub select_presentation_delay : Table Value → ℕ → Result Error ℕ
select_presentation_delay bounds preferred = do
  lo ← when_present (find (codes "MinimumDelay") bounds) 1 variant_delay beyond_delay bad_minimum
  hi ←
      when_present (find (codes "MaximumDelay") bounds) 0x00ffffff variant_delay beyond_delay
        bad_maximum
  fail_if (ltb hi lo) inverted
  preferred_lo ←
      when_present (find (codes "PreferredMinimumDelay") bounds) 0 variant_delay (ltb 0x00ffffff)
        bad_preferred_minimum
  preferred_hi ←
      when_present (find (codes "PreferredMaximumDelay") bounds) 0 variant_delay (ltb 0x00ffffff)
        bad_preferred_maximum
  let minimum = if preferred_lo != 0 && ltb lo preferred_lo then preferred_lo else lo
  let maximum = if preferred_hi != 0 && ltb preferred_hi hi then preferred_hi else hi
  fail_if (ltb maximum minimum) no_overlap
  ok (clamp preferred minimum maximum)

unfoldable pub default_qos : CodecConfig → TransportQos
default_qos codec =
    let interval = codec.frame_duration % 2 ^ 32 in
    record {
      cig = 0xff;
      cis = 0xff;
      interval_us = interval;
      framing = 0;
      phy = 2;
      sdu = codec.octets_per_frame % 2 ^ 16;
      retransmissions = 2;
      latency_ms = if interval == 7500 then 8 else 10;
      presentation_delay_us = 40000;
      target_latency = 2;
    }

unfoldable pub select_bounded : Table Value → TransportQos → Result Error TransportQos
select_bounded bounds selected = do
  framing ←
      when_present (find (codes "Framing") bounds) selected.framing variant_byte (ltb 1) bad_framing
  phy ←
      when_present (find (codes "PHY") bounds) selected.phy variant_byte (λ n. bit_and n 2 == 0)
        no_le_2m
  latency ←
      when_present (find (codes "MaximumLatency") bounds) selected.latency_ms variant_uint16
        (λ n. ltb n selected.latency_ms) bad_latency
  retransmissions ←
      when_present (find (codes "Retransmissions") bounds) selected.retransmissions variant_byte
        (λ n. n == 0 || ltb 13 n) bad_retransmissions
  delay ← select_presentation_delay bounds selected.presentation_delay_us
  ok (record selected {
    framing = framing;
    retransmissions = retransmissions;
    presentation_delay_us = delay;
  })

-- `selectQoS`; `selectQoS(nil, codec)` has no properties.
unfoldable pub select_qos : Table Property → CodecConfig → Result Error TransportQos
select_qos properties codec = elim (find (codes "QoS") properties) [
  | none ↦ ok (default_qos codec)
  | some value ↦ elim (variant_dict (some value)) [
    | none ↦ err bad_capabilities
    | some bounds ↦ select_bounded bounds (default_qos codec)
  ]
]

unfoldable pub qos_variants : TransportQos → Table Value
qos_variants q =
    (codes "CIG", byte q.cig)
    ∷ (codes "CIS", byte q.cis)
    ∷ (codes "Interval", uint32 q.interval_us)
    ∷ (codes "Framing", byte q.framing)
    ∷ (codes "PHY", byte q.phy)
    ∷ (codes "SDU", uint16 q.sdu)
    ∷ (codes "Retransmissions", byte q.retransmissions)
    ∷ (codes "Latency", uint16 q.latency_ms)
    ∷ (codes "PresentationDelay", uint32 q.presentation_delay_us)
    ∷ (codes "TargetLatency", byte q.target_latency)
    ∷ []
