-- ===== src/Broker/Report/Sound.antt =====
-- The limits that a reported quality of service is held to.
use callbridge_le_audio_serv.Prelude.{
  Ensures, Ensures-bind, Ensures-fail_if, Ensures-ok, ℕ, ◌%◌, ◌^◌, ◌≤◌, ◌≡◌, ◌≢◌, Bool, true, false,
  ◌&&◌, ◌||◌, ◌==◌, ◌!=◌, ltb, arith, bit_and, codes, Option, none, some, ok,
}
use callbridge_le_audio_serv.Prelude.Table.{Table, find}
use callbridge_le_audio_serv.Lc3.{CodecConfig}
use callbridge_le_audio_serv.Broker.Variant.{Value, variant_byte, variant_uint16, variant_uint32}
use callbridge_le_audio_serv.Broker.Qos.{
  TransportQos, beyond_delay, ids_unallocated, cig_invalid, cig_missing, cis_invalid, cis_missing,
  interval_mismatch, sdu_mismatch, framing_invalid, phy_not_le_2m, retransmissions_invalid,
  latency_invalid, presentation_delay_invalid, target_latency_invalid,
}
use callbridge_le_audio_serv.Broker.Qos.Readers.{Ensures-require, require-ok}
use callbridge_le_audio_serv.Broker.Report.{read_identifier, parse_configured_qos}

pub record IsSound (final : Bool) (codec : CodecConfig) (q : TransportQos) : Type 0 where
  pub identifiers : final ≡ true → (q.cig ≤ 0xef) × (q.cis ≤ 0xef)
  pub interval : q.interval_us ≡ codec.frame_duration % 2 ^ 32
  pub sdu : q.sdu ≡ codec.octets_per_frame
  pub framing : q.framing ≤ 1
  pub phy : bit_and q.phy 2 ≢ 0
  pub retransmissions : (1 ≤ q.retransmissions) × (q.retransmissions ≤ 13)
  pub latency : (1 ≤ q.latency_ms) × (q.latency_ms ≤ 100)
  pub delay : (1 ≤ q.presentation_delay_us) × (q.presentation_delay_us ≤ 0x00ffffff)
  pub target : (1 ≤ q.target_latency) × (q.target_latency ≤ 3)

-- A sound quality of service that repeats what the dictionary says of the frame and of the group.
pub record IsReading (fields : Table Value) (final : Bool) (codec : CodecConfig) (q : TransportQos)
    : Type 0 where
  pub sound : IsSound final codec q
  pub reported_sdu : variant_uint16 (find (codes "SDU") fields) ≡ some q.sdu
  pub reported_cig : final ≡ true → variant_byte (find (codes "CIG") fields) ≡ some q.cig

final_cig :
    (final : Bool) (value : Option Value) {n : ℕ}
    → read_identifier final value cig_invalid cig_missing ≡ ok n
    → final ≡ true
    → variant_byte value ≡ some n
unfolding read_identifier
final_cig final none h e = absurd (ground arith)
final_cig final (some value) h e =
    (require-ok (variant_byte (some value)) (λ n. false) cig_invalid h).0

-- The tests that a reading has passed are the limits.
passed-IsSound :
    (codec : CodecConfig) (final : Bool) (q : TransportQos)
    → final && (ltb 0xef q.cig || ltb 0xef q.cis) ≡ false
    → (q.interval_us != codec.frame_duration % 2 ^ 32) ≡ false
    → (q.sdu != codec.octets_per_frame) ≡ false
    → ltb 1 q.framing ≡ false
    → (bit_and q.phy 2 == 0) ≡ false
    → (q.retransmissions == 0 || ltb 13 q.retransmissions) ≡ false
    → (q.latency_ms == 0 || ltb 100 q.latency_ms) ≡ false
    → beyond_delay q.presentation_delay_us ≡ false
    → (ltb q.target_latency 1 || ltb 3 q.target_latency) ≡ false
    → IsSound final codec q
passed-IsSound codec final q h1 h2 h3 h4 h5 h6 h7 h8 h9 = record {
  identifiers = λ e. ground arith;
  interval = ground arith;
  sdu = ground arith;
  framing = ground arith;
  phy = ground arith;
  retransmissions = ground arith;
  latency = ground arith;
  delay = ground arith;
  target = ground arith;
}

-- Whatever dictionary BlueZ reports, what is read from it keeps the limits.
pub parse_configured_qos-IsReading :
    (fields : Table Value) (codec : CodecConfig) (final : Bool)
    → Ensures (IsReading fields final codec) (parse_configured_qos fields codec final)
unfolding parse_configured_qos
parse_configured_qos-IsReading fields codec final =
    let P = IsReading fields final codec in
    Ensures-bind P (read_identifier final (find (codes "CIG") fields) cig_invalid cig_missing) _
      (λ cig read_cig.
        Ensures-bind P (read_identifier final (find (codes "CIS") fields) cis_invalid cis_missing) _
          (λ cis read_cis.
            Ensures-fail_if P (final && (ltb 0xef cig || ltb 0xef cis)) ids_unallocated _
              (λ allocated.
                Ensures-require P (variant_uint32 (find (codes "Interval") fields))
                  (λ n. n != codec.frame_duration % 2 ^ 32) interval_mismatch _
                  (λ interval h3 fits3.
                    Ensures-require P (variant_uint16 (find (codes "SDU") fields))
                      (λ n. n != codec.octets_per_frame) sdu_mismatch _
                      (λ sdu h4 fits4.
                        Ensures-require P (variant_byte (find (codes "Framing") fields)) (ltb 1)
                          framing_invalid _
                          (λ framing h5 fits5.
                            Ensures-require P (variant_byte (find (codes "PHY") fields))
                              (λ n. bit_and n 2 == 0) phy_not_le_2m _
                              (λ phy h6 fits6.
                                Ensures-require P
                                  (variant_byte (find (codes "Retransmissions") fields))
                                  (λ n. n == 0 || ltb 13 n) retransmissions_invalid _
                                  (λ retransmissions h7 fits7.
                                    Ensures-require P
                                      (variant_uint16 (find (codes "Latency") fields))
                                      (λ n. n == 0 || ltb 100 n) latency_invalid _
                                      (λ latency h8 fits8.
                                        Ensures-require P
                                          (variant_uint32 (find (codes "PresentationDelay") fields))
                                          beyond_delay presentation_delay_invalid _
                                          (λ delay h9 fits9.
                                            Ensures-require P
                                              (variant_byte (find (codes "TargetLatency") fields))
                                              (λ n. ltb n 1 || ltb 3 n) target_latency_invalid _
                                              (λ target h10 fits10.
                                                Ensures-ok P
                                                  (record {
                                                    cig = cig;
                                                    cis = cis;
                                                    interval_us = interval;
                                                    framing = framing;
                                                    phy = phy;
                                                    sdu = sdu;
                                                    retransmissions = retransmissions;
                                                    latency_ms = latency;
                                                    presentation_delay_us = delay;
                                                    target_latency = target;
                                                  })
                                                  (record {
                                                    sound =
                                                        passed-IsSound codec final _ allocated fits3
                                                          fits4 fits5 fits6 fits7 fits8 fits9
                                                          fits10;
                                                    reported_sdu = h4;
                                                    reported_cig = final_cig final _ read_cig;
                                                  }))))))))))))
