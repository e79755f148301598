-- ===== src/Lc3/Parsed.antt =====
-- What a configuration that is understood is: one of the presets, on one channel.
use callbridge_le_audio_serv.Prelude.{
  ℕ, ◌≡◌, ◌≢◌, ◌==◌, ◌!=◌, ◌&&◌, ltb, subst, List, [], ◌∷◌, arith, Bytes, byte_at, Option, none,
  some, Bool-cases, inl, inr, ok, All, from_le, Ensures, Ensures-bind, Ensures-fail_if, Ensures-ok,
}
use callbridge_le_audio_serv.Prelude.Dict.{lookup}
use callbridge_le_audio_serv.Lc3.{
  Error, Preset, CodecConfig, conversational_presets, ones_count, parse_ltv, value_of,
  read_allocation, check_frame_blocks, find_preset, read_configuration, parse_configuration,
  ltv_frequency, ltv_duration, ltv_frame_length, ltv_frame_blocks_per_sdu, ltv_channel_allocation,
  frequency_missing, unsupported_duration, length_missing,
}

-- A codec of one of the presets, with one channel.
pub record IsParsed (Q : ℕ → ℕ → ℕ → Type 0) (c : CodecConfig) : Type 0 where
  pub preset : Q c.sample_rate c.frame_duration c.octets_per_frame
  pub channel : c.channel_allocation ≢ 0
  pub mono : ones_count c.channel_allocation ≡ 1

channel_read :
    (raw : Bytes) {a : ℕ} → read_allocation (some raw) ≡ ok a → (a ≢ 0) × (ones_count a ≡ 1)
unfolding read_allocation
channel_read raw e = ground arith

one_channel :
    (value : Option Bytes) {a : ℕ} → read_allocation value ≡ ok a → (a ≢ 0) × (ones_count a ≡ 1)
unfolding read_allocation ones_count
one_channel none e = ground arith
one_channel (some raw) e = channel_read raw e

module _ (Q : ℕ → ℕ → ℕ → Type 0) where
  find_preset-IsParsed :
      (frequency duration octets allocation : ℕ) (ps : List Preset)
      → All (λ p. Q p.sample_rate p.frame_duration p.octets) ps
      → allocation ≢ 0
      → ones_count allocation ≡ 1
      → Ensures (IsParsed Q) (find_preset frequency duration octets allocation ps)
  unfolding find_preset
  find_preset-IsParsed f d o a [] all nonzero one c e = absurd (cc)
  find_preset-IsParsed f d o a (p ∷ ps) all nonzero one c e =
      elim (Bool-cases (f == p.frequency_code && d == p.duration_code)) [
        | inr other ↦ find_preset-IsParsed f d o a ps all.1 nonzero one c (rw other at e)
        | inl same ↦ elim (Bool-cases (o != p.octets)) [
          | inl wrong ↦ absurd (let g = rw wrong at (rw same at e) in cc)
          | inr right ↦
              let octets : p.octets ≡ o = ground arith in
              Ensures-ok {E = Error} (IsParsed Q) _
                (record {
                  preset = subst (Q p.sample_rate p.frame_duration) octets all.0;
                  channel = nonzero;
                  mono = one;
                })
                c (rw right at (rw same at e))
        ]
      ]

  pub parse_configuration-IsParsed :
      (raw : Bytes)
      → All (λ p. Q p.sample_rate p.frame_duration p.octets) conversational_presets
      → Ensures (IsParsed Q) (parse_configuration raw)
  unfolding parse_configuration read_configuration
  parse_configuration-IsParsed raw all =
      Ensures-bind (IsParsed Q) (parse_ltv raw) _ (λ values parsed.
        Ensures-bind (IsParsed Q) (value_of ltv_frequency 1 frequency_missing values) _
          (λ frequency h1.
            Ensures-bind (IsParsed Q) (value_of ltv_duration 1 unsupported_duration values) _
              (λ duration h2.
                Ensures-fail_if (IsParsed Q) (ltb 0x01 (byte_at duration 0)) unsupported_duration _
                  (λ h3.
                    Ensures-bind (IsParsed Q) (value_of ltv_frame_length 2 length_missing values) _
                      (λ frame_length h4.
                        Ensures-bind (IsParsed Q)
                          (check_frame_blocks (lookup ltv_frame_blocks_per_sdu values)) _
                          (λ blocks h5.
                            Ensures-bind (IsParsed Q)
                              (read_allocation (lookup ltv_channel_allocation values)) _
                              (λ allocation h6.
                                find_preset-IsParsed (byte_at frequency 0) (byte_at duration 0)
                                  (from_le frame_length) allocation conversational_presets all
                                  (one_channel (lookup ltv_channel_allocation values) h6).0
                                  (one_channel (lookup ltv_channel_allocation values) h6).1)))))))
