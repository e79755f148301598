-- ===== src/Lc3/Select.antt =====
-- A configuration that is selected is one that is understood.
use callbridge_le_audio_serv.Prelude.{
  ℕ, ◌<◌, ◌≤◌, ◌≡◌, bit_and, ◌≢◌, ◌^◌, ◌∙◌, refl, sym, ap, subst, inl, inr, true, List, [], ◌∷◌,
  arith, Bytes, Option, none, some, Bool-cases, ok, ◌==◌, ◌!=◌, ◌||◌, fail_if, >>=-eq-ok, ok_inj,
  le32, from_le-le32, All,
}
use callbridge_le_audio_serv.Prelude.Dict.{Dict, lookup, insert}
use mathlib.Core.List.{Memᴰ}
use callbridge_le_audio_serv.Lc3.{
  Preset, CodecConfig, Capabilities, conversational_presets, ones_count, parse_entries, parse_ltv,
  value_of, read_capabilities, is_supported, first_supported, build_configuration, build_selected,
  select_configuration_for_allocation, check_frame_blocks, read_allocation, find_preset,
  read_configuration, parse_configuration, bad_allocation,
}

-- What a preset says of the stream.
abbrev pub config_of : Preset → ℕ → CodecConfig
config_of p allocation = record {
  sample_rate = p.sample_rate;
  frame_duration = p.frame_duration;
  octets_per_frame = p.octets;
  channel_allocation = allocation;
}

mono_read : (a : ℕ) → a < 2 ^ 32 → a ≢ 0 → ones_count a ≡ 1 → read_allocation (some (le32 a)) ≡ ok a
unfolding read_allocation
mono_read a h pos one = rw (from_le-le32 a h) (ground arith)

-- Each preset's configuration is understood as that preset.
built-understood :
    (a : ℕ)
    → read_allocation (some (le32 a)) ≡ ok a
    → All
        (λ p. parse_configuration (build_configuration p a) ≡ ok (config_of p a))
        conversational_presets
unfolding build_configuration parse_configuration parse_ltv parse_entries read_configuration
    value_of check_frame_blocks find_preset lookup insert
built-understood a r =
    (rw r refl, (rw r refl, (rw r refl, (rw r refl, (rw r refl, (rw r refl, tt))))))

first_supported-All :
    (P : Preset → Type 0) (c : Capabilities) (ps : List Preset) {p : Preset}
    → first_supported c ps ≡ some p
    → All P ps
    → P p × (is_supported c p ≡ true)
unfolding first_supported
first_supported-All P c [] e h = absurd (cc)
first_supported-All P c (q ∷ ps) e h = elim (Bool-cases (is_supported c q)) [
  | inl offered ↦
      let same : q ≡ _ = some_inj (rw offered at e) in
      (subst P same h.0, subst (λ x. is_supported c x ≡ true) same offered)
  | inr missing ↦ first_supported-All P c ps (rw missing at e) h.1
]
  where
    some_inj : {a b : Preset} → some a ≡ some b → a ≡ b
    some_inj h = cc

-- The preset is one of the six, and the capabilities have its frequency, its duration and its frame.
pub record IsOffered (capabilities : Bytes) (p : Preset) : Type 0 where
  pub known : Memᴰ p conversational_presets
  pub values : Dict Bytes
  pub parsed : parse_ltv capabilities ≡ ok values
  pub limits : Capabilities
  pub read : read_capabilities values ≡ ok limits
  pub frequency : bit_and limits.frequency_mask p.frequency_bit ≢ 0
  pub duration : bit_and limits.duration p.duration_bit ≢ 0
  pub minimum : limits.minimum ≤ p.octets
  pub maximum : p.octets ≤ limits.maximum

is_supported_lem :
    (c : Capabilities) (p : Preset)
    → is_supported c p ≡ true
    → (bit_and c.frequency_mask p.frequency_bit ≢ 0)
      × (bit_and c.duration p.duration_bit ≢ 0)
      × (c.minimum ≤ p.octets)
      × (p.octets ≤ c.maximum)
unfolding is_supported
is_supported_lem c p e = (ground arith, ground arith, ground arith, ground arith)

presets-known : All (λ p. Memᴰ p conversational_presets) conversational_presets
presets-known = (
  here,
  (
    next here,
    (
      next (next here),
      (
        next (next (next here)),
        (next (next (next (next here))), (next (next (next (next (next here)))), tt)),
      ),
    ),
  ),
)
  where
    here : {p : Preset} {ps : List Preset} → Memᴰ p (p ∷ ps)
    here = Memᴰ.head refl

    next : {p q : Preset} {ps : List Preset} → Memᴰ p ps → Memᴰ p (q ∷ ps)
    next m = Memᴰ.tail m

build_selected-ok :
    (o : Option Preset) (a : ℕ) {b : Bytes}
    → build_selected o a ≡ ok b
    → (p : Preset) × (o ≡ some p) × (b ≡ build_configuration p a)
unfolding build_selected
build_selected-ok none a e = absurd (cc)
build_selected-ok (some p) a e = (p, refl, sym (ok_inj e))

-- A configuration that is selected for capabilities and a 32-bit allocation is that of one of the
-- presets, which they offer, and `ParseConfiguration` reads the preset and the channel back from it.
pub parse-select_configuration :
    (capabilities configuration : Bytes) (a : ℕ)
    → a < 2 ^ 32
    → select_configuration_for_allocation capabilities a ≡ ok configuration
    → (p : Preset) × IsOffered capabilities p
      × (parse_configuration configuration ≡ ok (config_of p a))
unfolding select_configuration_for_allocation
parse-select_configuration capabilities configuration a h e =
    let (checked, passed, e1) =
      >>=-eq-ok (fail_if (a == 0 || ones_count a != 1) bad_allocation) _ e in
    let (values, parsed, e2) = >>=-eq-ok (parse_ltv capabilities) _ e1 in
    let (limits, read, e3) = >>=-eq-ok (read_capabilities values) _ e2 in
    let (p, chosen, built) =
      build_selected-ok (first_supported limits conversational_presets) a e3 in
    let mono = mono_read a h (ground arith) (ground arith) in
    let (understood, supported) =
      first_supported-All (λ q. parse_configuration (build_configuration q a) ≡ ok (config_of q a))
        limits conversational_presets chosen (built-understood a mono) in
    let known =
      first_supported-All (λ q. Memᴰ q conversational_presets) limits conversational_presets chosen
        presets-known in
    let (frequency, duration, minimum, maximum) = is_supported_lem limits p supported in
    (
      p,
      record {
        known = known.0;
        values = values;
        parsed = parsed;
        limits = limits;
        read = read;
        frequency = frequency;
        duration = duration;
        minimum = minimum;
        maximum = maximum;
      },
      ap parse_configuration built ∙ understood,
    )
