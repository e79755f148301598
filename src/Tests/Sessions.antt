-- ===== src/Tests/Sessions.antt =====
-- broker.go: the life of a session, from its transports to its release.
use callbridge_le_audio_serv.Prelude.{
  ℕ, ◌≡◌, ◌||◌, refl, Bool, true, false, List, [], ◌∷◌, arith, Bytes, codes, Option, none, some, ok,
  err,
}
use callbridge_le_audio_serv.Handoff.Server.{HandoffServer}
use callbridge_le_audio_serv.Broker.Transports.{PendingTransport}
use callbridge_le_audio_serv.Broker.State.{Session, Broker, live}
use callbridge_le_audio_serv.Broker.Paths.{configure}
use callbridge_le_audio_serv.Broker.Lifecycle.{finish_release, request_specific_session_release}
use callbridge_le_audio_serv.Broker.Acquire.{hold_single}
use callbridge_le_audio_serv.Broker.Publish.{Kernel, publish}
use callbridge_le_audio_serv.Broker.Watch.{
  start_expired, progress_expired, watch_lease, count_start_timeout,
}
use callbridge_le_audio_serv.Broker.Watch.Expiry.{IsEnding, watch_lease-ends}
use callbridge_le_audio_serv.Broker.Steps.{
  start, then_step, configures, keeps_single, publishes, start_ends, requests, finishes,
}
use callbridge_le_audio_serv.Broker.Steps.Safety.{IsSafe}
use callbridge_le_audio_serv.Broker.Steps.Reach.{Reaches-IsSafe}
use callbridge_le_audio_serv.Tests.Streams.{
  no_counts, all_sent, codec_32_2, allocated, held, connected,
}

abbrev running : Broker
running = record {
  expected_device = codes "/d";
  connection = some 1;
  configured = [];
  acquiring = [];
  acquired = [];
  pairing = [];
  pending = [];
  registered = true;
  advertising = false;
  discoverable = false;
  advertisement_hold = false;
  rearm_request = false;
  next_config = 0;
  last_gen = 4;
  require_token = false;
  active_session = none;
  progress_start_lease = 60;
  progress_lease = 5;
  normal_release_wait = 2;
  handoff = connected;
  counters = no_counts;
  closed = [];
  next_session = 0;
  releases = [];
}

abbrev any_path : Bytes → Bool
any_path path = true

abbrev sink : PendingTransport
sink = held 1 (codes "/d/a") 5

abbrev source : PendingTransport
source = record (held 2 (codes "/d/b") 6) {
  config = record { direction = 2; generation = 2; codec = codec_32_2; qos = allocated };
}

abbrev kernel : Kernel
kernel = record {
  first_clock = some (0, 10);
  second_clock = some (0, 10);
  sockets = true;
  deliver = all_sent;
  now = 100;
}

abbrev configured : Broker
configured =
    (configure any_path (codes "/d/b") 2 codec_32_2 allocated
      (configure any_path (codes "/d/a") 1 codec_32_2 allocated running).0).0

abbrev paired : Broker
paired = (hold_single source (hold_single sink configured).0).0

abbrev handed_off : Broker
handed_off = (publish kernel 1 sink source 0 false paired).0

-- The session behind the handoff, and the generations that were given out
session_begun :
    (handed_off.last_gen ≡ 11) × (handed_off.closed ≡ 6 ∷ 5 ∷ []) × (handed_off.next_session ≡ 1)
unfolding callbridge_le_audio_serv.Prelude.Table.find callbridge_le_audio_serv.Prelude.Table.put
    callbridge_le_audio_serv.Prelude.Table.erase callbridge_le_audio_serv.Prelude.Table.flag
    callbridge_le_audio_serv.Broker.Acquire.is_current
    callbridge_le_audio_serv.Broker.Acquire.match_peer
    callbridge_le_audio_serv.Broker.Acquire.find_match hold_single
    callbridge_le_audio_serv.Broker.Publish.clear_pairing_one
    callbridge_le_audio_serv.Broker.Publish.clear_pairing
    callbridge_le_audio_serv.Broker.Publish.pair_current
    callbridge_le_audio_serv.Broker.Publish.active_session_for_handoff
    callbridge_le_audio_serv.Broker.Publish.publish_on
    callbridge_le_audio_serv.Broker.Publish.publish_with
    callbridge_le_audio_serv.Broker.Publish.return_pair
    callbridge_le_audio_serv.Broker.Publish.publish_second
    callbridge_le_audio_serv.Broker.Publish.publish_first
    callbridge_le_audio_serv.Broker.Publish.publish_current publish
    callbridge_le_audio_serv.Broker.Paths.has_prefix callbridge_le_audio_serv.Broker.Paths.drop_held
    configure callbridge_le_audio_serv.Broker.Transports.contains_object_path
    callbridge_le_audio_serv.Broker.Transports.pending_release_path
    callbridge_le_audio_serv.Broker.Transports.release_paths_from
    callbridge_le_audio_serv.Broker.Transports.pending_release_paths
    callbridge_le_audio_serv.Broker.Transports.validate_transport_pair
    callbridge_le_audio_serv.Broker.Transports.find_pending_peer
    callbridge_le_audio_serv.Broker.Transports.descriptor_for_pending
    callbridge_le_audio_serv.Broker.Transports.next_descriptor_generation
    callbridge_le_audio_serv.Broker.State.with_session
    callbridge_le_audio_serv.Broker.State.clear_active_session
    callbridge_le_audio_serv.Broker.State.current callbridge_le_audio_serv.Handoff.matches_preset
    callbridge_le_audio_serv.Handoff.validate_descriptor
    callbridge_le_audio_serv.Handoff.validate_descriptor_pair
    callbridge_le_audio_serv.Handoff.flags_of callbridge_le_audio_serv.Handoff.write_descriptor
    callbridge_le_audio_serv.Handoff.Server.send_descriptor
    callbridge_le_audio_serv.Handoff.Server.send_pair
    callbridge_le_audio_serv.Handoff.Server.check_pair
    callbridge_le_audio_serv.Handoff.Server.publish_pair callbridge_le_audio_serv.Prelude.bytes_eq
    callbridge_le_audio_serv.Lc3.ones_count
session_begun = (refl, refl, refl)

-- Sixty ticks without media: the release is begun, and it fails.
abbrev given_up : Broker
given_up =
    finish_release 0 false (request_specific_session_release 0 (count_start_timeout 0 handed_off)).0

given_up_once : given_up.releases ≡ 0 ∷ []
unfolding callbridge_le_audio_serv.Prelude.Table.find callbridge_le_audio_serv.Prelude.Table.put
    callbridge_le_audio_serv.Prelude.Table.erase callbridge_le_audio_serv.Prelude.Table.flag
    callbridge_le_audio_serv.Broker.Acquire.is_current
    callbridge_le_audio_serv.Broker.Acquire.match_peer
    callbridge_le_audio_serv.Broker.Acquire.find_match hold_single
    callbridge_le_audio_serv.Broker.Publish.clear_pairing_one
    callbridge_le_audio_serv.Broker.Publish.clear_pairing
    callbridge_le_audio_serv.Broker.Publish.pair_current
    callbridge_le_audio_serv.Broker.Publish.active_session_for_handoff
    callbridge_le_audio_serv.Broker.Publish.publish_on
    callbridge_le_audio_serv.Broker.Publish.publish_with
    callbridge_le_audio_serv.Broker.Publish.return_pair
    callbridge_le_audio_serv.Broker.Publish.publish_second
    callbridge_le_audio_serv.Broker.Publish.publish_first
    callbridge_le_audio_serv.Broker.Publish.publish_current publish
    callbridge_le_audio_serv.Broker.Paths.has_prefix callbridge_le_audio_serv.Broker.Paths.drop_held
    configure callbridge_le_audio_serv.Broker.Transports.contains_object_path
    callbridge_le_audio_serv.Broker.Transports.pending_release_path
    callbridge_le_audio_serv.Broker.Transports.release_paths_from
    callbridge_le_audio_serv.Broker.Transports.pending_release_paths
    callbridge_le_audio_serv.Broker.Transports.validate_transport_pair
    callbridge_le_audio_serv.Broker.Transports.find_pending_peer
    callbridge_le_audio_serv.Broker.Transports.descriptor_for_pending
    callbridge_le_audio_serv.Broker.Transports.next_descriptor_generation
    callbridge_le_audio_serv.Broker.State.with_session
    callbridge_le_audio_serv.Broker.State.clear_active_session
    callbridge_le_audio_serv.Broker.State.current callbridge_le_audio_serv.Handoff.matches_preset
    callbridge_le_audio_serv.Handoff.validate_descriptor
    callbridge_le_audio_serv.Handoff.validate_descriptor_pair
    callbridge_le_audio_serv.Handoff.flags_of callbridge_le_audio_serv.Handoff.write_descriptor
    callbridge_le_audio_serv.Handoff.Server.send_descriptor
    callbridge_le_audio_serv.Handoff.Server.send_pair
    callbridge_le_audio_serv.Handoff.Server.check_pair
    callbridge_le_audio_serv.Handoff.Server.publish_pair callbridge_le_audio_serv.Prelude.bytes_eq
    callbridge_le_audio_serv.Lc3.ones_count
    callbridge_le_audio_serv.Broker.Lifecycle.lifecycle_progress_matches
    callbridge_le_audio_serv.Broker.Lifecycle.count_stale
    callbridge_le_audio_serv.Broker.Lifecycle.progress_on
    callbridge_le_audio_serv.Broker.Lifecycle.record_lifecycle_progress
    callbridge_le_audio_serv.Broker.Lifecycle.normal_release_waiting
    callbridge_le_audio_serv.Broker.Lifecycle.normal_release_pending
    callbridge_le_audio_serv.Broker.Lifecycle.count_normal_end
    callbridge_le_audio_serv.Broker.Lifecycle.mark_on
    callbridge_le_audio_serv.Broker.Lifecycle.mark_normal_release_pending
    callbridge_le_audio_serv.Broker.Lifecycle.own_release
    callbridge_le_audio_serv.Broker.Lifecycle.release_on
    callbridge_le_audio_serv.Broker.Lifecycle.request_specific_session_release
    callbridge_le_audio_serv.Broker.Lifecycle.request_on
    callbridge_le_audio_serv.Broker.Lifecycle.request_active_session_release
    callbridge_le_audio_serv.Broker.Lifecycle.begin_wait_on
    callbridge_le_audio_serv.Broker.Lifecycle.begin_normal_release_wait
    callbridge_le_audio_serv.Broker.Lifecycle.normal_end_on
    callbridge_le_audio_serv.Broker.Lifecycle.record_lifecycle_normal_end
    callbridge_le_audio_serv.Broker.Lifecycle.timeout_on
    callbridge_le_audio_serv.Broker.Lifecycle.force_normal_release_timeout
    callbridge_le_audio_serv.Broker.Lifecycle.finish_on finish_release
    callbridge_le_audio_serv.Broker.Lifecycle.after_wait
    callbridge_le_audio_serv.Broker.Lifecycle.begin_wait_section
    callbridge_le_audio_serv.Broker.Watch.count_start_timeout
    callbridge_le_audio_serv.Broker.Lifecycle.release_call_token
    callbridge_le_audio_serv.Broker.Watch.apply_message callbridge_le_audio_serv.Broker.Watch.drain
    callbridge_le_audio_serv.Broker.Watch.end_with_release
    callbridge_le_audio_serv.Broker.Watch.count_hup callbridge_le_audio_serv.Broker.Watch.watch_hup
    callbridge_le_audio_serv.Broker.Watch.watch_drained
    callbridge_le_audio_serv.Broker.Watch.watch_poll callbridge_le_audio_serv.Broker.Watch.expire
    callbridge_le_audio_serv.Broker.Watch.token_lost callbridge_le_audio_serv.Broker.Watch.lease_on
    watch_lease live
given_up_once = refl

Reaches-IsSafe_example : IsSafe given_up
Reaches-IsSafe_example =
    Reaches-IsSafe
      (then_step
        (then_step
          (then_step
            (then_step
              (then_step
                (then_step
                  (then_step
                    (then_step start
                      (configures running any_path (codes "/d/a") 1 codec_32_2 allocated))
                    (configures _ any_path (codes "/d/b") 2 codec_32_2 allocated))
                  (keeps_single configured sink))
                (keeps_single _ source))
              (publishes paired kernel 1 sink source 0 false))
            (start_ends handed_off 0))
          (requests _ 0))
        (finishes _ 0 false))
      (record {
        owned = tt;
        single = tt;
        below = tt;
        last_gen = omega arith;
        sink = omega arith;
        source = omega arith;
        bundle = omega arith;
      })

abbrev session : Session
session = record {
  handle = 0;
  connection = 1;
  release_paths = codes "/d/a" ∷ codes "/d/b" ∷ [];
  sink_path = codes "/d/a";
  source_path = codes "/d/b";
  sink_generation = 10;
  source_generation = 11;
  bundle_id = 10;
  call_token = 0;
  started_at = 100;
  progress_armed = false;
  last_progress = 0;
  normal_end_seen = false;
  normal_wait_started = false;
  idle_paths = [];
  remote_idle_seen = false;
  releasing = false;
  release_exhausted = false;
}

abbrev watched : Broker
watched = record running { active_session = some session }

session_live : live 0 watched.active_session ≡ some session
unfolding live
session_live = refl

watch_lease-ends_example : IsEnding 0 (watch_lease 0 160 none watched).0
watch_lease-ends_example = watch_lease-ends 0 160 none watched session session_live refl refl
