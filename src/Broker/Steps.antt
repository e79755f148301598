-- ===== src/Broker/Steps.antt =====
-- broker.go: the sections of the broker's goroutines, in any order that the lock allows.
pub mod Sessions
pub mod Kept
pub mod Reserved
pub mod Counted
pub mod Safety
pub mod Publishing
pub mod Watching
pub mod Serving
pub mod Reach
use callbridge_le_audio_serv.Prelude.{ℕ, ◌+◌, ◌≡◌, Bool, Bytes, Option, some}
use callbridge_le_audio_serv.Lc3.{CodecConfig}
use callbridge_le_audio_serv.Broker.Qos.{TransportQos}
use callbridge_le_audio_serv.Broker.Transports.{PendingTransport, Plan, TransportConfig}
use callbridge_le_audio_serv.Broker.State.{Broker, Counters}
use callbridge_le_audio_serv.Broker.Paths.{configure, clear, idle}
use callbridge_le_audio_serv.Handoff.Lifecycle.{LifecycleProgress}
use callbridge_le_audio_serv.Handoff.Server.{accept_peer, drop_peer}
use callbridge_le_audio_serv.Broker.Lifecycle.{
  request_specific_session_release, force_normal_release_timeout, finish_release,
  record_lifecycle_progress, check_normal_end, mark_normal_release_pending, begin_wait_section,
}
use callbridge_le_audio_serv.Broker.Release.{count_attempt, count_outcome}
use callbridge_le_audio_serv.Broker.Acquire.{
  reserve, unreserve, hold_single, hold_linked, expire_pending,
}
use callbridge_le_audio_serv.Broker.Publish.{Kernel, publish, return_pair}
use callbridge_le_audio_serv.Broker.Settings.{
  configure_media_leases, configure_normal_release_wait, configure_call_control, set_hold,
  request_rearm, set_advertising, release_advertisement, begin_run, register, set_advertising,
  unregister, end_run,
}
use callbridge_le_audio_serv.Broker.Serve.{take_rearm}
use callbridge_le_audio_serv.Broker.Watch.{count_hup, count_start_timeout, count_timeout}

-- One section under a lock, of any goroutine. The arguments are what the caller, the peer or the kernel
-- chooses, and what the goroutine read before in a section of its own: a step takes any, so that
-- whatever happened since is allowed for. A section that only reads is no step.
pub data Step : Broker → Broker → Type 0 where
  leases : (b : Broker) (startup active : ℕ) → Step b (configure_media_leases startup active b).0
  waits : (b : Broker) (wait : ℕ) → Step b (configure_normal_release_wait wait b).0
  controls :
      (b : Broker) (provided required : Bool)
      → Step b (configure_call_control provided required b).0
  begins : (b : Broker) (device : Bytes) (conn : ℕ) → Step b (begin_run device conn b)
  registers : (b : Broker) → Step b (register b)
  advertises : (b : Broker) (enable : Bool) → Step b (set_advertising enable b)
  withdraws : (b : Broker) → Step b (release_advertisement b)
  holds : (b : Broker) (hold : Bool) → Step b (set_hold hold b)
  requests_rearm : (b : Broker) → Step b (request_rearm b)
  takes_rearm : (b : Broker) → Step b (take_rearm b)
  unregisters : (b : Broker) → Step b (unregister b)
  ends : (b : Broker) → Step b (end_run b)
  configures :
      (b : Broker) (valid : Bytes → Bool) (path : Bytes) (direction : ℕ) (codec : CodecConfig)
      (qos : TransportQos)
      → Step b (configure valid path direction codec qos b).0
  clears : (b : Broker) (path : Bytes) → Step b (clear path b)
  idles : (b : Broker) (path : Bytes) → Step b (idle path b)
  reserves :
      (b c : Broker) (path : Bytes) (plan : Plan) (config : TransportConfig)
      (peer : Option TransportConfig)
      → reserve path plan b ≡ some (config, peer, c)
      → Step b c
  unreserves : (b : Broker) (path : Bytes) (plan : Plan) → Step b (unreserve path plan b)
  keeps_single : (b : Broker) (held : PendingTransport) → Step b (hold_single held b).0
  keeps_linked : (b : Broker) (held peer : PendingTransport) → Step b (hold_linked held peer b).0
  publishes :
      (b : Broker) (kernel : Kernel) (conn : ℕ) (sink source : PendingTransport) (token : ℕ)
      (correlated : Bool)
      → Step b (publish kernel conn sink source token correlated b).0
  expires :
      (b : Broker) (path : Bytes) (generation : ℕ) → Step b (expire_pending path generation b).0
  progresses :
      (b : Broker) (handle : ℕ) (progress : LifecycleProgress) (now : ℕ)
      → Step b (record_lifecycle_progress handle progress now b).0
  checks_end :
      (b : Broker) (handle : ℕ) (identity : LifecycleProgress)
      → Step b (check_normal_end handle identity b).0
  marks :
      (b : Broker) (handle : ℕ) (event : Bool)
      → Step b (mark_normal_release_pending handle event b).0
  begins_wait :
      (b : Broker) (handle : ℕ) (event : Bool) → Step b (begin_wait_section handle event b).0
  hangs_up : (b : Broker) (handle : ℕ) → Step b (count_hup handle b)
  start_ends : (b : Broker) (handle : ℕ) → Step b (count_start_timeout handle b)
  lease_ends : (b : Broker) (handle : ℕ) → Step b (count_timeout handle b)
  requests : (b : Broker) (handle : ℕ) → Step b (request_specific_session_release handle b).0
  times_out : (b : Broker) (handle : ℕ) → Step b (force_normal_release_timeout handle b).0
  peer_arrives :
      (b : Broker) (peer_uid : ℕ) (credential : Option ℕ) (fd : ℕ)
      → Step b (record b { handoff = accept_peer peer_uid credential fd b.handoff })
  peer_leaves : (b : Broker) (fd : ℕ) → Step b (record b { handoff = drop_peer fd b.handoff })
  calls_release : (b : Broker) → Step b (record b { counters = count_attempt b.counters })
  answers_release :
      (b : Broker) (released : Bool)
      → Step b (record b { counters = count_outcome released b.counters })
  falls_back :
      (b : Broker)
      → Step b (record b {
        counters = record b.counters { release_fallbacks = b.counters.release_fallbacks + 1 };
      })
  finishes : (b : Broker) (handle : ℕ) (released : Bool) → Step b (finish_release handle released b)

-- What the broker can come to from `b`
pub data Reaches (b : Broker) : Broker → Type 0 where
  start : Reaches b b
  then_step : {c d : Broker} → Reaches b c → Step c d → Reaches b d
