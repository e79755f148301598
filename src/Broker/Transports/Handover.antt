-- ===== src/Broker/Transports/Handover.antt =====
-- Two transports that the broker has paired, as descriptors at the handoff.
use callbridge_le_audio_serv.Prelude.{
  ℕ, ◌<◌, ◌≤◌, ◌^◌, ◌≡◌, true, ◌!=◌, arith, byte_at, length, all, All,
}
use callbridge_le_audio_serv.Lc3.{conversational_presets}
use callbridge_le_audio_serv.Lc3.Parsed.{IsParsed}
use callbridge_le_audio_serv.Handoff.{
  Descriptor, matches_preset, direction_sink, direction_source, maximum_transport,
}
use callbridge_le_audio_serv.Broker.Report.Sound.{IsSound}
use callbridge_le_audio_serv.Broker.Transports.{PendingTransport}

-- The rate, the duration and the frame of one of the presets
pub record IsKnown (rate duration octets : ℕ) : Type 0 where
  pub rate_fits : rate < 2 ^ 32
  pub duration_fits : duration < 2 ^ 32
  pub octets_fit : octets < 2 ^ 16
  pub matches :
      (d : Descriptor)
      → d.sample_rate ≡ rate
      → d.frame_duration_us ≡ duration
      → d.octets_per_frame ≡ octets
      → matches_preset d conversational_presets ≡ true

known :
    (rate duration octets : ℕ)
    → rate < 2 ^ 32
    → duration < 2 ^ 32
    → octets < 2 ^ 16
    → ((d : Descriptor)
        → d.sample_rate ≡ rate
        → d.frame_duration_us ≡ duration
        → d.octets_per_frame ≡ octets
        → matches_preset d conversational_presets ≡ true)
    → IsKnown rate duration octets
known rate duration octets h1 h2 h3 h4 = record {
  rate_fits = h1;
  duration_fits = h2;
  octets_fit = h3;
  matches = h4;
}

-- Each preset is known to the handoff.
pub presets-IsKnown :
    All (λ p. IsKnown p.sample_rate p.frame_duration p.octets) conversational_presets
unfolding matches_preset
presets-IsKnown = (
  known _ _ _ (omega arith) (omega arith) (omega arith) (λ d a b c. ground arith),
  (
    known _ _ _ (omega arith) (omega arith) (omega arith) (λ d a b c. ground arith),
    (
      known _ _ _ (omega arith) (omega arith) (omega arith) (λ d a b c. ground arith),
      (
        known _ _ _ (omega arith) (omega arith) (omega arith) (λ d a b c. ground arith),
        (
          known _ _ _ (omega arith) (omega arith) (omega arith) (λ d a b c. ground arith),
          (known _ _ _ (omega arith) (omega arith) (omega arith) (λ d a b c. ground arith), tt),
        ),
      ),
    ),
  ),
)

-- A transport with a codec that was parsed and a final quality of service that was read, a path
-- that D-Bus allows, and an MTU that holds a frame.
pub record IsAllocated (t : PendingTransport) : Type 0 where
  pub sound : IsSound true t.config.codec t.qos
  pub parsed : IsParsed IsKnown t.config.codec
  pub read_bounded : t.read_mtu ≤ 4096
  pub write_bounded : t.write_mtu ≤ 4096
  pub reads : t.config.direction ≡ direction_sink → t.config.codec.octets_per_frame ≤ t.read_mtu
  pub writes : t.config.direction ≡ direction_source → t.config.codec.octets_per_frame ≤ t.write_mtu
  pub path_bounded : (1 ≤ length t.path) × (length t.path ≤ maximum_transport)
  pub rooted : byte_at t.path 0 ≡ b'/'
  pub terminated : all (λ b. b != 0) t.path ≡ true
