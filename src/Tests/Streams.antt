-- ===== src/Tests/Streams.antt =====
-- broker.go and handoff.go: the agreement on a stream, its descriptors and its release.
use callbridge_le_audio_serv.Prelude.{
  ℕ, ◌≡◌, ◌≢◌, ◌↔◌, ◌≤◌, ◌+◌, ◌*◌, refl, Bool, true, false, List, [], ◌∷◌, arith, leb,
  if◌then◌else◌, all, Bytes, codes, length, Option, none, some, Result, ok, err,
}
use callbridge_le_audio_serv.Prelude.Table.{Table}
use callbridge_le_audio_serv.Lc3.{CodecConfig, lc3_capabilities, parse_configuration}
use callbridge_le_audio_serv.Handoff.{
  Descriptor, encode_descriptor, write_descriptor, decode_descriptor,
}
use callbridge_le_audio_serv.Handoff.Server.{HandoffServer, publish_pair, send_pair}
use callbridge_le_audio_serv.Handoff.RoundTrip.{decode-encode_descriptor}
use callbridge_le_audio_serv.Handoff.Runs.{
  Event, attempts, arrives, leaves, Attempt, published, IsRising, published-IsRising,
}
use callbridge_le_audio_serv.Broker.Variant.{Value, uint16, uint32, Property, plain, dict, octets}
use callbridge_le_audio_serv.Broker.Qos.{
  TransportQos, Error, sdu_mismatch, qos_variants, default_qos, select_presentation_delay,
}
use callbridge_le_audio_serv.Broker.Qos.Delay.{IsNearest, select_presentation_delay-IsNearest}
use callbridge_le_audio_serv.Broker.Report.{
  parse_configured_qos, parse_preliminary_configured_qos, parse_final_transport_qos,
  provisional_qos,
}
use callbridge_le_audio_serv.Broker.Report.Sound.{IsSound}
use callbridge_le_audio_serv.Broker.Report.Offered.{parse-qos_variants}
use callbridge_le_audio_serv.Broker.Report.Deferred.{deferred_refused}
use callbridge_le_audio_serv.Broker.Endpoint.{select_properties}
use callbridge_le_audio_serv.Broker.Endpoint.Agreement.{IsAgreed, select_properties-IsAgreed}
use callbridge_le_audio_serv.Broker.Transports.{TransportConfig, PendingTransport}
use callbridge_le_audio_serv.Broker.Transports.Links.{NoRepeat}
use callbridge_le_audio_serv.Broker.State.{Counters}
use callbridge_le_audio_serv.Broker.Release.{release_transport_paths}
use callbridge_le_audio_serv.Broker.Release.Calls.{
  calls_for, IsAnswered, successes, errors, released_in, IsOnce, release_transport_paths-IsOnce,
}

-- 32_2 on the front left channel
abbrev chosen : Bytes
chosen = 2 ∷ 1 ∷ 6 ∷ 2 ∷ 2 ∷ 1 ∷ 5 ∷ 3 ∷ 1 ∷ 0 ∷ 0 ∷ 0 ∷ 3 ∷ 4 ∷ 80 ∷ 0 ∷ []

abbrev pub codec_32_2 : CodecConfig
codec_32_2 = record {
  sample_rate = 32000;
  frame_duration = 10000;
  octets_per_frame = 80;
  channel_allocation = 1;
}

abbrev pub allocated : TransportQos
allocated = record {
  cig = 1;
  cis = 1;
  interval_us = 10000;
  framing = 0;
  phy = 2;
  sdu = 80;
  retransmissions = 2;
  latency_ms = 10;
  presentation_delay_us = 40000;
  target_latency = 2;
}

-- A remote endpoint that wants a delay of at least fifty milliseconds
abbrev delay_bounds : Table Value
delay_bounds =
    (codes "MinimumDelay", uint16 20000) ∷ (codes "PreferredMinimumDelay", uint32 50000) ∷ []

delay_selected : select_presentation_delay delay_bounds 40000 ≡ ok 50000
unfolding select_presentation_delay callbridge_le_audio_serv.Prelude.Table.find
    callbridge_le_audio_serv.Prelude.bytes_eq callbridge_le_audio_serv.Broker.Qos.clamp
delay_selected = refl

select_presentation_delay-IsNearest_example : IsNearest delay_bounds 40000 50000
select_presentation_delay-IsNearest_example =
    select_presentation_delay-IsNearest delay_bounds 40000 50000 delay_selected

abbrev remote : Table Property
remote =
    (codes "Capabilities", plain (octets lc3_capabilities)) ∷ (codes "QoS", dict delay_bounds) ∷ []

abbrev answer : Table Property
answer =
    (codes "Capabilities", plain (octets chosen))
    ∷ (codes "Metadata", plain (octets (3 ∷ 2 ∷ 2 ∷ 0 ∷ [])))
    ∷ (
      codes "QoS",
      dict (qos_variants (record (default_qos codec_32_2) { presentation_delay_us = 50000 })),
    )
    ∷ []

remote_answered : select_properties remote ≡ ok answer
unfolding select_properties callbridge_le_audio_serv.Prelude.Table.find
    callbridge_le_audio_serv.Prelude.bytes_eq
    callbridge_le_audio_serv.Broker.Qos.select_channel_allocation
    callbridge_le_audio_serv.Lc3.select_configuration_for_allocation
    callbridge_le_audio_serv.Lc3.ones_count callbridge_le_audio_serv.Lc3.parse_ltv
    callbridge_le_audio_serv.Lc3.parse_entries callbridge_le_audio_serv.Prelude.Dict.lookup
    callbridge_le_audio_serv.Prelude.Dict.insert callbridge_le_audio_serv.Lc3.read_capabilities
    callbridge_le_audio_serv.Lc3.value_of callbridge_le_audio_serv.Lc3.build_selected
    callbridge_le_audio_serv.Lc3.first_supported callbridge_le_audio_serv.Lc3.is_supported
    callbridge_le_audio_serv.Lc3.build_configuration callbridge_le_audio_serv.Lc3.read_configuration
    callbridge_le_audio_serv.Lc3.check_frame_blocks callbridge_le_audio_serv.Lc3.read_allocation
    callbridge_le_audio_serv.Lc3.find_preset callbridge_le_audio_serv.Broker.Qos.clamp
    callbridge_le_audio_serv.Broker.Qos.locations_of
    callbridge_le_audio_serv.Broker.Qos.select_bounded
    callbridge_le_audio_serv.Broker.Qos.select_qos parse_configuration default_qos qos_variants
    select_presentation_delay
remote_answered = refl

select_properties-IsAgreed_example : IsAgreed remote answer
select_properties-IsAgreed_example = select_properties-IsAgreed remote answer remote_answered

parse-qos_variants_example :
    (parse_configured_qos (qos_variants allocated) codec_32_2 true ≡ ok allocated)
    ↔ IsSound true codec_32_2 allocated
parse-qos_variants_example = parse-qos_variants codec_32_2 true allocated

-- The frame of 24_2, left over from the stream before
abbrev stale : Table Value
stale = qos_variants (record allocated { sdu = 60 })

stale_mismatch : parse_preliminary_configured_qos stale codec_32_2 ≡ err sdu_mismatch
unfolding parse_preliminary_configured_qos callbridge_le_audio_serv.Prelude.Table.find qos_variants
    callbridge_le_audio_serv.Prelude.bytes_eq parse_configured_qos
    callbridge_le_audio_serv.Broker.Report.read_identifier
stale_mismatch = refl

stale_deferred : provisional_qos stale codec_32_2 ≡ ok (default_qos codec_32_2)
unfolding provisional_qos parse_preliminary_configured_qos
    callbridge_le_audio_serv.Prelude.Table.find qos_variants
    callbridge_le_audio_serv.Prelude.bytes_eq parse_configured_qos
    callbridge_le_audio_serv.Broker.Report.read_identifier
    callbridge_le_audio_serv.Broker.Report.bounded_stale_configured_sdu
    callbridge_le_audio_serv.Broker.Report.known_octets
    callbridge_le_audio_serv.Broker.Qos.select_qos
stale_deferred = refl

deferred_refused_example : parse_final_transport_qos stale codec_32_2 allocated ≢ ok allocated
deferred_refused_example =
    deferred_refused stale codec_32_2 allocated stale_mismatch stale_deferred allocated

abbrev pub held : ℕ → Bytes → ℕ → PendingTransport
held direction path fd = record {
  path = path;
  release = [];
  config = record { direction = direction; generation = 1; codec = codec_32_2; qos = allocated };
  qos = allocated;
  links = [];
  fd = fd;
  read_mtu = 100;
  write_mtu = 100;
}

abbrev sink : PendingTransport
sink = held 1 (codes "/a") 5

abbrev source : PendingTransport
source = held 2 (codes "/b") 6

abbrev pub connected : HandoffServer
connected = record { client = some 9; last_sink = 3; last_source = 4; last_bundle = 3; sent = [] }

abbrev pub all_sent : ℕ → Bytes → Bool
all_sent n p = true

-- The second poll correlates the call.
abbrev two_polls : List (ℕ × Bool)
two_polls = (0, true) ∷ (77, true) ∷ []

abbrev described : Descriptor
described = record {
  direction = 1;
  generation = 7;
  bundle_id = 7;
  call_control_token = 300;
  call_control_correlated = true;
  ownership_transferred = true;
  linked = true;
  lifecycle_owned = true;
  sample_rate = 32000;
  frame_duration_us = 10000;
  octets_per_frame = 80;
  channel_allocation = 1;
  interval_us = 10000;
  presentation_delay_us = 40000;
  read_mtu = 100;
  write_mtu = 100;
  latency_ms = 10;
  framing = 0;
  phy = 2;
  retransmissions = 2;
  target_latency = 2;
  cig = 1;
  cis = 1;
  transport = codes "/a";
}

described-encodes : encode_descriptor described ≡ ok (write_descriptor described)
unfolding encode_descriptor callbridge_le_audio_serv.Handoff.validate_descriptor
    callbridge_le_audio_serv.Handoff.matches_preset callbridge_le_audio_serv.Lc3.ones_count
described-encodes = refl

decode-encode_descriptor_example : decode_descriptor (write_descriptor described) ≡ ok described
decode-encode_descriptor_example =
    decode-encode_descriptor described
      (record {
        generation = omega arith;
        bundle_id = omega arith;
        token = omega arith;
        rate = omega arith;
        duration = omega arith;
        channel = omega arith;
        interval = omega arith;
        delay = omega arith;
        octets = omega arith;
        read_mtu = omega arith;
        write_mtu = omega arith;
        latency = omega arith;
      })
      described-encodes

abbrev again : Attempt
again = record {
  deliver = all_sent;
  sink_fd = some 5;
  sink = described;
  source_fd = some 6;
  source = record described { direction = 2; generation = 8; lifecycle_owned = false };
  sockets = true;
}

abbrev later : Attempt
later = record again {
  sink = record described { generation = 9; bundle_id = 9 };
  source = record described {
    direction = 2;
    generation = 10;
    bundle_id = 9;
    lifecycle_owned = false;
  };
}

-- The second attempt repeats the numbers of the first; the third follows a peer that is gone, and the
-- last one has new numbers for the peer that came then.
abbrev happenings : List Event
happenings =
    attempts again
    ∷ attempts again
    ∷ leaves 9
    ∷ attempts later
    ∷ arrives 100 (some 100) 4
    ∷ attempts later
    ∷ []

published_twice : published happenings connected ≡ (7, 8, 7) ∷ (9, 10, 9) ∷ []
unfolding published publish_pair callbridge_le_audio_serv.Handoff.Server.check_pair
    callbridge_le_audio_serv.Handoff.Server.accept_peer
    callbridge_le_audio_serv.Handoff.Server.drop_peer
    callbridge_le_audio_serv.Handoff.validate_descriptor_pair
    callbridge_le_audio_serv.Handoff.validate_descriptor
    callbridge_le_audio_serv.Handoff.matches_preset callbridge_le_audio_serv.Lc3.ones_count
    send_pair callbridge_le_audio_serv.Handoff.Server.send_descriptor
published_twice = refl

published-IsRising_example : IsRising 3 4 3 (published happenings connected)
published-IsRising_example = published-IsRising happenings connected

abbrev pub no_counts : Counters
no_counts = record {
  release_attempts = 0;
  release_successes = 0;
  release_errors = 0;
  release_fallbacks = 0;
  lifecycle_progress = 0;
  lifecycle_stale = 0;
  lifecycle_hups = 0;
  lifecycle_timeouts = 0;
  lifecycle_start_timeouts = 0;
  lifecycle_normal_ends = 0;
  normal_release_waits = 0;
  normal_release_idle = 0;
  normal_release_timeouts = 0;
  transport_idle_complete = 0;
}

-- The first call fails, and the others succeed.
abbrev after_first : ℕ → Bytes → Bool
after_first n path = leb 1 n

release_retries :
    (release_transport_paths after_first false (codes "/a" ∷ codes "/b" ∷ []) no_counts).0.calls
    ≡ (codes "/a", true) ∷ (codes "/b", true) ∷ (codes "/a", false) ∷ []
unfolding release_transport_paths callbridge_le_audio_serv.Broker.Release.release_rounds
    callbridge_le_audio_serv.Broker.Release.release_round
    callbridge_le_audio_serv.Broker.Release.release_path callbridge_le_audio_serv.Prelude.Table.flag
    callbridge_le_audio_serv.Prelude.Table.find
    callbridge_le_audio_serv.Broker.Release.mark_released callbridge_le_audio_serv.Prelude.Table.put
    callbridge_le_audio_serv.Prelude.bytes_eq
release_retries = refl

two_paths-NoRepeat : NoRepeat (codes "/a" ∷ codes "/b" ∷ [])
unfolding callbridge_le_audio_serv.Broker.Transports.contains_object_path
    callbridge_le_audio_serv.Prelude.bytes_eq
two_paths-NoRepeat = (refl, (refl, tt))

release_transport_paths-IsOnce_example :
    let out = release_transport_paths after_first false (codes "/a" ∷ codes "/b" ∷ []) no_counts in
    let every = all (released_in out.0.calls) (codes "/a" ∷ codes "/b" ∷ []) in
    IsOnce out.0.calls
    × ((p : Bytes) → calls_for p out.0.calls ≤ 3)
    × (length out.0.calls ≤ 3 * 2)
    × IsAnswered after_first out.0.calls
    × (out.0.counters.release_attempts ≡ 0 + length out.0.calls)
    × (out.0.counters.release_successes ≡ 0 + successes out.0.calls)
    × (out.0.counters.release_errors ≡ 0 + errors out.0.calls)
    × (out.0.counters.release_fallbacks ≡ 0 + (if every then 0 else 1))
    × (out.1 ≡ (if every then true else false))
release_transport_paths-IsOnce_example =
    release_transport_paths-IsOnce after_first false (codes "/a" ∷ codes "/b" ∷ []) no_counts
      two_paths-NoRepeat
