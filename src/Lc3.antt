-- ===== src/Lc3.antt =====
-- lc3.go: the LC3 capabilities and configurations of a conversational endpoint.
pub mod Select
pub mod Parsed
use callbridge_le_audio_serv.Prelude.{
  ℕ, zero, suc, ◌+◌, ◌-◌, ◌*◌, ◌/◌, ◌%◌, Bool, true, false, not, ◌&&◌, ◌||◌, List, [], ◌∷◌, ◌++◌,
  ◌==◌, ◌!=◌, ltb, leb, if◌then◌else◌, Bytes, byte_at, length, take, drop, slice, from_le, le16,
  le32, bit_and, Option, none, some, Result, ok, err, fail_if, ◌>>=◌, ◌>>◌,
}
use callbridge_le_audio_serv.Prelude.Dict.{Dict, lookup, insert}

abbrev pub front_left_location : ℕ
front_left_location = 1

abbrev pub ltv_frequency : ℕ
ltv_frequency = 1

abbrev pub ltv_duration : ℕ
ltv_duration = 2

abbrev pub ltv_channel_allocation : ℕ
ltv_channel_allocation = 3

abbrev pub ltv_frame_length : ℕ
ltv_frame_length = 4

abbrev pub ltv_frame_blocks_per_sdu : ℕ
ltv_frame_blocks_per_sdu = 5

abbrev pub lc3_capabilities : Bytes
lc3_capabilities =
    0x03 ∷ ltv_frequency ∷ 0x34 ∷ 0x00 ∷ 0x02 ∷ ltv_duration ∷ 0x23 ∷ 0x02 ∷ ltv_channel_allocation
    ∷ 0x01 ∷ 0x05 ∷ ltv_frame_length ∷ 30 ∷ 0 ∷ 80 ∷ 0 ∷ []

pub data Error : Type 0 where
  length_outside malformed duplicate : Error
  bad_allocation no_frequency no_duration no_mono no_frame_length bad_range no_preset : Error
  frequency_missing unsupported_duration length_missing frame_blocks bad_channels not_mono : Error
  wrong_octets unsupported_preset : Error

-- Durations are in microseconds.
pub record CodecConfig : Type 0 where
  pub sample_rate : ℕ
  pub frame_duration : ℕ
  pub octets_per_frame : ℕ
  pub channel_allocation : ℕ  -- uint32

pub record Preset : Type 0 where
  pub frequency_code : ℕ
  pub frequency_bit : ℕ
  pub duration_code : ℕ
  pub duration_bit : ℕ
  pub sample_rate : ℕ
  pub frame_duration : ℕ
  pub octets : ℕ

abbrev preset : ℕ → ℕ → ℕ → ℕ → ℕ → ℕ → ℕ → Preset
preset frequency_code frequency_bit duration_code duration_bit sample_rate frame_duration octets =
    record {
      frequency_code = frequency_code;
      frequency_bit = frequency_bit;
      duration_code = duration_code;
      duration_bit = duration_bit;
      sample_rate = sample_rate;
      frame_duration = frame_duration;
      octets = octets;
    }

-- 32_2, 32_1, 16_1, 24_2, 24_1 and 16_2
abbrev pub conversational_presets : List Preset
conversational_presets =
    preset 0x06 32 0x01 2 32000 10000 80
    ∷ preset 0x06 32 0x00 1 32000 7500 60
    ∷ preset 0x03 4 0x00 1 16000 7500 30
    ∷ preset 0x05 16 0x01 2 24000 10000 60
    ∷ preset 0x05 16 0x00 1 24000 7500 45
    ∷ preset 0x03 4 0x01 2 16000 10000 40
    ∷ []

-- `bits.OnesCount32`, with 32 for the fuel
abbrev ones_in : ℕ → ℕ → ℕ
ones_in zero n = 0
ones_in (suc bits) n = n % 2 + ones_in bits (n / 2)

unfoldable pub ones_count : ℕ → ℕ
ones_count n = ones_in 32 n

-- The loop of `parseLTV`: an entry is at least three bytes long, so the length is fuel enough.
unfoldable pub parse_entries : ℕ → Bytes → Dict Bytes → Result Error (Dict Bytes)
parse_entries _ [] values = ok values
parse_entries zero (length_byte ∷ rest) values = err malformed
parse_entries (suc fuel) (length_byte ∷ rest) values =
    let type = byte_at rest 0 in
    let value = take (length_byte - 1) (drop 1 rest) in
    let onward = parse_entries fuel (drop length_byte rest) (insert type value values) in
    if ltb length_byte 2 || ltb (length rest) length_byte
    then err malformed
    else elim (lookup type values) [ none ↦ onward | some old ↦ err duplicate ]

unfoldable pub parse_ltv : Bytes → Result Error (Dict Bytes)
parse_ltv raw =
    if length raw == 0 || ltb 64 (length raw)
    then err length_outside
    else parse_entries (length raw) raw []

-- `value, ok := values[type]; !ok || len(value) != size`
unfoldable pub value_of : ℕ → ℕ → Error → Dict Bytes → Result Error Bytes
value_of type size e values = elim (lookup type values) [
  | none ↦ err e
  | some value ↦ if length value != size then err e else ok value
]

pub record Capabilities : Type 0 where
  pub frequency_mask : ℕ
  pub duration : ℕ
  pub minimum : ℕ
  pub maximum : ℕ

unfoldable pub read_capabilities : Dict Bytes → Result Error Capabilities
read_capabilities values = do
  frequency ← value_of ltv_frequency 2 no_frequency values
  duration ← value_of ltv_duration 1 no_duration values
  fail_if (bit_and (byte_at duration 0) 0x03 == 0) no_duration
  channels ← value_of ltv_channel_allocation 1 no_mono values
  fail_if (bit_and (byte_at channels 0) 0x01 == 0) no_mono
  frame_length ← value_of ltv_frame_length 4 no_frame_length values
  fail_if
      (from_le (slice frame_length 0 2) == 0
        || ltb (from_le (slice frame_length 2 4)) (from_le (slice frame_length 0 2)))
      bad_range
  ok (record {
    frequency_mask = from_le frequency;
    duration = byte_at duration 0;
    minimum = from_le (slice frame_length 0 2);
    maximum = from_le (slice frame_length 2 4);
  })

unfoldable pub is_supported : Capabilities → Preset → Bool
is_supported c candidate =
    bit_and c.frequency_mask candidate.frequency_bit != 0
    && bit_and c.duration candidate.duration_bit != 0
    && leb c.minimum candidate.octets
    && leb candidate.octets c.maximum

unfoldable pub first_supported : Capabilities → List Preset → Option Preset
first_supported c [] = none
first_supported c (candidate ∷ presets) =
    let rest = first_supported c presets in
    if is_supported c candidate then some candidate else rest

unfoldable pub build_configuration : Preset → ℕ → Bytes
build_configuration candidate allocation =
    (0x02 ∷ ltv_frequency ∷ candidate.frequency_code ∷ 0x02 ∷ ltv_duration ∷ candidate.duration_code
      ∷ 0x05 ∷ ltv_channel_allocation ∷ [])
    ++ (le32 allocation ++ (0x03 ∷ ltv_frame_length ∷ le16 candidate.octets))

unfoldable pub build_selected : Option Preset → ℕ → Result Error Bytes
build_selected none allocation = err no_preset
build_selected (some candidate) allocation = ok (build_configuration candidate allocation)

unfoldable pub select_configuration_for_allocation : Bytes → ℕ → Result Error Bytes
select_configuration_for_allocation capabilities allocation = do
  fail_if (allocation == 0 || ones_count allocation != 1) bad_allocation
  values ← parse_ltv capabilities
  c ← read_capabilities values
  build_selected (first_supported c conversational_presets) allocation

unfoldable pub select_configuration : Bytes → Result Error Bytes
select_configuration capabilities =
    select_configuration_for_allocation capabilities front_left_location

unfoldable pub check_frame_blocks : Option Bytes → Result Error (Unit {0})
check_frame_blocks none = ok tt
check_frame_blocks (some blocks) =
    fail_if (length blocks != 1 || byte_at blocks 0 != 1) frame_blocks

unfoldable pub read_allocation : Option Bytes → Result Error ℕ
read_allocation none = ok front_left_location
read_allocation (some raw) = do
  fail_if (length raw != 4) bad_channels
  fail_if (from_le raw == 0 || ones_count (from_le raw) != 1) not_mono
  ok (from_le raw)

-- The loop over the presets: the first of these codes decides.
unfoldable pub find_preset : ℕ → ℕ → ℕ → ℕ → List Preset → Result Error CodecConfig
find_preset frequency duration octets allocation [] = err unsupported_preset
find_preset frequency duration octets allocation (candidate ∷ presets) =
    let rest = find_preset frequency duration octets allocation presets in
    if frequency == candidate.frequency_code && duration == candidate.duration_code
    then (if octets != candidate.octets
        then err wrong_octets
        else ok (record {
          sample_rate = candidate.sample_rate;
          frame_duration = candidate.frame_duration;
          octets_per_frame = octets;
          channel_allocation = allocation;
        }))
    else rest

unfoldable pub read_configuration : Dict Bytes → Result Error CodecConfig
read_configuration values = do
  frequency ← value_of ltv_frequency 1 frequency_missing values
  duration ← value_of ltv_duration 1 unsupported_duration values
  fail_if (ltb 0x01 (byte_at duration 0)) unsupported_duration
  frame_length ← value_of ltv_frame_length 2 length_missing values
  check_frame_blocks (lookup ltv_frame_blocks_per_sdu values)
  allocation ← read_allocation (lookup ltv_channel_allocation values)
  find_preset (byte_at frequency 0) (byte_at duration 0) (from_le frame_length) allocation
      conversational_presets

unfoldable pub parse_configuration : Bytes → Result Error CodecConfig
parse_configuration configuration = do values ← parse_ltv configuration; read_configuration values
