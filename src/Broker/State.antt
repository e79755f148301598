-- ===== src/Broker/State.antt =====
-- broker.go: what the broker keeps under its lock, and the sections in which it changes it.
use callbridge_le_audio_serv.Prelude.{
  ℕ, Bool, not, ◌&&◌, List, ◌==◌, if◌then◌else◌, Bytes, Option, none, some,
}
use callbridge_le_audio_serv.Prelude.Table.{Table, erase}
use callbridge_le_audio_serv.Handoff.Server.{HandoffServer}
use callbridge_le_audio_serv.Broker.Transports.{TransportConfig, PendingTransport}

-- `activeTransportSession`; `handle` is its address, times are in nanoseconds, the zero time is 0.
pub record Session : Type 0 where
  pub handle : ℕ
  pub connection : ℕ
  pub release_paths : List Bytes
  pub sink_path : Bytes
  pub source_path : Bytes
  pub sink_generation : ℕ
  pub source_generation : ℕ
  pub bundle_id : ℕ
  pub call_token : ℕ
  pub started_at : ℕ
  pub progress_armed : Bool
  pub last_progress : ℕ
  pub normal_end_seen : Bool
  pub normal_wait_started : Bool
  pub idle_paths : Table Bool
  pub remote_idle_seen : Bool
  pub releasing : Bool
  pub release_exhausted : Bool

-- The counters of `Broker`
pub record Counters : Type 0 where
  pub release_attempts : ℕ
  pub release_successes : ℕ
  pub release_errors : ℕ
  pub release_fallbacks : ℕ
  pub lifecycle_progress : ℕ
  pub lifecycle_stale : ℕ
  pub lifecycle_hups : ℕ
  pub lifecycle_timeouts : ℕ
  pub lifecycle_start_timeouts : ℕ
  pub lifecycle_normal_ends : ℕ
  pub normal_release_waits : ℕ
  pub normal_release_idle : ℕ
  pub normal_release_timeouts : ℕ
  pub transport_idle_complete : ℕ

-- `Broker`. `closed` are the descriptors of files it has closed, `next_session` is the next address
-- of a session, and `releases` are the sessions whose release was begun, the last one first.
pub record Broker : Type 0 where
  pub expected_device : Bytes
  pub connection : Option ℕ
  pub configured : Table TransportConfig
  pub acquiring : Table Bool
  pub acquired : Table Bool
  pub pairing : Table Bool
  pub pending : Table PendingTransport
  pub registered : Bool
  pub advertising : Bool
  pub discoverable : Bool
  pub advertisement_hold : Bool
  pub rearm_request : Bool
  pub next_config : ℕ  -- uint64
  pub last_gen : ℕ  -- uint64
  pub require_token : Bool
  pub active_session : Option Session
  pub progress_start_lease : ℕ
  pub progress_lease : ℕ
  pub normal_release_wait : ℕ
  pub handoff : HandoffServer
  pub counters : Counters
  pub closed : List ℕ
  pub next_session : ℕ
  pub releases : List ℕ

pub data Error : Type 0 where
  unexpected_transport generations_exhausted bad_lease lease_changed bad_wait wait_changed : Error
  no_provider provider_changed : Error

unfoldable pub with_session : Broker → Session → Broker
with_session b s = record b { active_session = some s }

unfoldable pub clear_active_session : Session → Broker → Broker
clear_active_session s b = record b {
  acquired = erase s.source_path (erase s.sink_path b.acquired);
  active_session = none;
}

-- `b.activeSession == session && !session.releasing && !session.releaseExhausted`
unfoldable pub live : ℕ → Option Session → Option Session
live handle none = none
live handle (some s) =
    if s.handle == handle && not s.releasing && not s.release_exhausted then some s else none

-- `b.activeSession == session`
unfoldable pub current : ℕ → Option Session → Option Session
current handle none = none
current handle (some s) = if s.handle == handle then some s else none
