-- ===== src/Broker/Endpoint/Agreement.antt =====
-- The answer of `SelectProperties`, given back by BlueZ to `SetConfiguration`.
use callbridge_le_audio_serv.Prelude.{
  ◌<◌, ◌^◌, ◌≡◌, refl, ap, false, [], ◌∷◌, arith, Bytes, bytes_eq, codes, Result, ok, err, ok_inj,
  Ensures, Ensures-bind, Ensures-ok,
}
use callbridge_le_audio_serv.Prelude.Table.{Table, find}
use callbridge_le_audio_serv.Lc3.{
  CodecConfig, select_configuration_for_allocation, parse_configuration,
}
use callbridge_le_audio_serv.Lc3.Parsed.{IsParsed, parse_configuration-IsParsed}
use callbridge_le_audio_serv.Broker.Variant.{Property, plain, dict, octets, variant_bytes}
use callbridge_le_audio_serv.Broker.Qos.{
  TransportQos, select_channel_allocation, select_qos, qos_variants,
}
use callbridge_le_audio_serv.Broker.Report.{parse_preliminary_configured_qos, provisional_qos}
use callbridge_le_audio_serv.Broker.Report.Sound.{IsSound}
use callbridge_le_audio_serv.Broker.Report.Offered.{parse-qos_variants, select_qos-IsSound}
use callbridge_le_audio_serv.Broker.Endpoint.{
  Rejection, capabilities_missing, channel_allocation, configuration, codec, qos, stage, present,
  select_properties, configuration_bytes, read_qos, read_configuration,
}

stage-ok :
    {E A : Type 0} (reject : E → Rejection) (r : Result E A) {a : A}
    → stage reject r ≡ ok a
    → r ≡ ok a
stage-ok reject (err e) h = absurd (cc)
stage-ok reject (ok a) h = ap ok (ok_inj h)

parsed_small : (raw : Bytes) → Ensures (λ c. c.octets_per_frame < 2 ^ 16) (parse_configuration raw)
parsed_small raw c e =
    (parse_configuration-IsParsed (λ r d o. o < 2 ^ 16) raw (omega arith) c e).preset

preliminary_of_offer :
    (config : CodecConfig) (selected : TransportQos)
    → IsSound false config selected
    → parse_preliminary_configured_qos (qos_variants selected) config ≡ ok selected
unfolding parse_preliminary_configured_qos find qos_variants bytes_eq
preliminary_of_offer config selected s = (parse-qos_variants config false selected).1 s

provisional_of_offer :
    (config : CodecConfig) (selected : TransportQos)
    → IsSound false config selected
    → provisional_qos (qos_variants selected) config ≡ ok selected
unfolding provisional_qos
provisional_of_offer config selected s =
    rw (preliminary_of_offer config selected s, provisional_qos) refl

-- The dictionary that answers `SelectProperties`
abbrev offer : Bytes → TransportQos → Table Property
offer chosen selected =
    (codes "Capabilities", plain (octets chosen))
    ∷ (codes "Metadata", plain (octets (3 ∷ 2 ∷ 2 ∷ 0 ∷ [])))
    ∷ (codes "QoS", dict (qos_variants selected))
    ∷ []

offer_read :
    (chosen : Bytes) (config : CodecConfig) (selected : TransportQos)
    → parse_configuration chosen ≡ ok config
    → IsSound false config selected
    → read_configuration (offer chosen selected) ≡ ok (config, selected)
unfolding read_configuration configuration_bytes read_qos find bytes_eq
offer_read chosen config selected parsed s =
    rw (parsed, provisional_of_offer config selected s) refl

-- What `SetConfiguration` makes of an answer: a codec and a quality of service within the limits.
pub record IsAgreed (properties answer : Table Property) : Type 0 where
  pub config : CodecConfig
  pub selected : TransportQos
  pub chosen : select_qos properties config ≡ ok selected
  pub read : read_configuration answer ≡ ok (config, selected)
  pub sound : IsSound false config selected
  pub mono : IsParsed (λ r d o. o < 2 ^ 16) config

-- Every answer that the endpoint gives is one that it accepts when it is given back, and it reads
-- the codec and the quality of service from it that it chose.
pub select_properties-IsAgreed :
    (properties : Table Property) → Ensures (IsAgreed properties) (select_properties properties)
unfolding select_properties
select_properties-IsAgreed properties =
    let P = IsAgreed properties in
    Ensures-bind P
      (present capabilities_missing (variant_bytes (find (codes "Capabilities") properties))) _
      (λ capabilities h1.
        Ensures-bind P (stage channel_allocation (select_channel_allocation properties)) _
          (λ allocation h2.
            Ensures-bind P
              (stage configuration (select_configuration_for_allocation capabilities allocation)) _
              (λ chosen h3.
                Ensures-bind P (stage codec (parse_configuration chosen)) _ (λ config h4.
                  Ensures-bind P (stage qos (select_qos properties config)) _ (λ selected h5.
                    Ensures-ok P _ (
                      agreed properties chosen config selected (stage-ok codec _ h4)
                        (stage-ok qos _ h5)))))))
  where
    agreed :
        (properties : Table Property) (chosen : Bytes) (config : CodecConfig)
        (selected : TransportQos)
        → parse_configuration chosen ≡ ok config
        → select_qos properties config ≡ ok selected
        → IsAgreed properties (offer chosen selected)
    agreed properties chosen config selected parsed picked =
        let sound =
          select_qos-IsSound properties config (parsed_small chosen config parsed) selected
            picked in
        record {
          config = config;
          selected = selected;
          chosen = picked;
          read = offer_read chosen config selected parsed sound;
          sound = sound;
          mono =
              parse_configuration-IsParsed (λ r d o. o < 2 ^ 16) chosen (omega arith) config parsed;
        }
