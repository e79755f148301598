-- ===== src/Broker/Report/Offered.antt =====
-- What the broker selects for a remote endpoint is a quality of service that it accepts itself.
use callbridge_le_audio_serv.Prelude.{
  ◌<◌, ◌^◌, ◌≡◌, ◌↔◌, refl, Bool, false, ◌||◌, ◌==◌, ltb, arith, bytes_eq, codes, bit_and, Option,
  none, some, ok, err, Ensures, Ensures-bind, Ensures-ok,
}
use callbridge_le_audio_serv.Prelude.Table.{Table, find}
use callbridge_le_audio_serv.Lc3.{CodecConfig}
use callbridge_le_audio_serv.Broker.Variant.{
  Value, Property, variant_byte, variant_uint16, variant_dict, plain, dict,
}
use callbridge_le_audio_serv.Broker.Qos.{
  TransportQos, when_present, select_presentation_delay, default_qos, select_bounded, select_qos,
  qos_variants, bad_capabilities, bad_framing, no_le_2m, bad_latency, bad_retransmissions,
}
use callbridge_le_audio_serv.Broker.Report.{read_identifier, parse_configured_qos}
use callbridge_le_audio_serv.Broker.Report.Sound.{IsSound, parse_configured_qos-IsReading}
use callbridge_le_audio_serv.Broker.Qos.Readers.{when_present-ok}
use callbridge_le_audio_serv.Broker.Qos.Delay.{select_presentation_delay-IsNearest}

sound_reads_back :
    (codec : CodecConfig) (final : Bool) (q : TransportQos)
    → IsSound final codec q
    → parse_configured_qos (qos_variants q) codec final ≡ ok q
unfolding parse_configured_qos read_identifier qos_variants find bytes_eq
sound_reads_back codec final q s = ground (
  arith, s.identifiers, s.interval, s.sdu, s.framing, s.phy, s.retransmissions, s.latency, s.delay,
  s.target,
)

-- A quality of service reads back from its own properties exactly when it keeps the limits.
pub parse-qos_variants :
    (codec : CodecConfig) (final : Bool) (q : TransportQos)
    → (parse_configured_qos (qos_variants q) codec final ≡ ok q) ↔ IsSound final codec q
parse-qos_variants codec final q = (
  λ e. (parse_configured_qos-IsReading (qos_variants q) codec final q e).sound,
  sound_reads_back codec final q,
)

default_qos-IsSound :
    (codec : CodecConfig)
    → codec.octets_per_frame < 2 ^ 16
    → IsSound false codec (default_qos codec)
unfolding default_qos
default_qos-IsSound codec h = record {
  identifiers = λ e. absurd (cc);
  interval = refl;
  sdu = omega arith;
  framing = ground arith;
  phy = ground arith;
  retransmissions = ground arith;
  latency = ground arith;
  delay = ground arith;
  target = ground arith;
}

select_bounded-IsSound :
    (bounds : Table Value) (codec : CodecConfig) (q : TransportQos)
    → IsSound false codec q
    → Ensures (IsSound false codec) (select_bounded bounds q)
unfolding select_bounded
select_bounded-IsSound bounds codec q s =
    let P = IsSound false codec in
    Ensures-bind P
      (when_present (find (codes "Framing") bounds) q.framing variant_byte (ltb 1) bad_framing) _
      (λ framing read1.
        Ensures-bind P
          (when_present (find (codes "PHY") bounds) q.phy variant_byte (λ n. bit_and n 2 == 0)
            no_le_2m)
          _
          (λ phy read2.
            Ensures-bind P
              (when_present (find (codes "MaximumLatency") bounds) q.latency_ms variant_uint16
                (λ n. ltb n q.latency_ms) bad_latency)
              _
              (λ latency read3.
                Ensures-bind P
                  (when_present (find (codes "Retransmissions") bounds) q.retransmissions
                    variant_byte (λ n. n == 0 || ltb 13 n) bad_retransmissions)
                  _
                  (λ retransmissions read4.
                    Ensures-bind P (select_presentation_delay bounds q.presentation_delay_us) _
                      (λ delay read5.
                        let near =
                          select_presentation_delay-IsNearest bounds q.presentation_delay_us delay
                            read5 in
                        let framing_facts =
                          when_present-ok (find (codes "Framing") bounds) q.framing variant_byte
                            (ltb 1) bad_framing read1 in
                        let retransmission_facts =
                          when_present-ok (find (codes "Retransmissions") bounds) q.retransmissions
                            variant_byte (λ n. n == 0 || ltb 13 n) bad_retransmissions read4 in
                        Ensures-ok P
                          (record q {
                            framing = framing;
                            retransmissions = retransmissions;
                            presentation_delay_us = delay;
                          })
                          (record {
                            identifiers = λ e. absurd (cc);
                            interval = s.interval;
                            sdu = s.sdu;
                            framing = ground (arith, framing_facts, s.framing);
                            phy = s.phy;
                            retransmissions =
                                ground (arith, retransmission_facts, s.retransmissions);
                            latency = s.latency;
                            delay = (near.positive, near.bounded);
                            target = s.target;
                          }))))))

-- A quality of service that is selected keeps the limits, whatever the remote endpoint asks for.
pub select_qos-IsSound :
    (properties : Table Property) (codec : CodecConfig)
    → codec.octets_per_frame < 2 ^ 16
    → Ensures (IsSound false codec) (select_qos properties codec)
unfolding select_qos
select_qos-IsSound properties codec h q e = chosen (find (codes "QoS") properties) q e
  where
    chosen :
        (value : Option Property)
        → Ensures (IsSound false codec) (elim value [
          | none ↦ ok (default_qos codec)
          | some value ↦ elim (variant_dict (some value)) [
            | none ↦ err bad_capabilities
            | some bounds ↦ select_bounded bounds (default_qos codec)
          ]
        ])
    chosen none q e =
        Ensures-ok (IsSound false codec) (default_qos codec) (default_qos-IsSound codec h) q e
    chosen (some (dict bounds)) q e =
        select_bounded-IsSound bounds codec (default_qos codec) (default_qos-IsSound codec h) q e
    chosen (some (plain value)) q e = absurd (cc)
