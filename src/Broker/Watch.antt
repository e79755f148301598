-- ===== src/Broker/Watch.antt =====
-- broker.go: `watchActiveSession`. Each function that changes the broker is one section under its
-- lock, but for those that put sections together: `drain`, `watch_hup`, `watch_poll`, `expire`,
-- `watch_lease` and what these are made of are parts of a turn of the loop in which nothing else
-- happens between the sections.
pub mod Expiry
use callbridge_le_audio_serv.Prelude.{
  ℕ, ◌+◌, ◌-◌, Bool, true, false, not, ◌&&◌, ◌||◌, List, [], ◌∷◌, ◌==◌, ◌!=◌, ltb, leb,
  if◌then◌else◌, Bytes, Option, none, some, Result, ok, err,
}
use callbridge_le_audio_serv.Handoff.Lifecycle.{LifecycleProgress, decode_lifecycle_message}
use callbridge_le_audio_serv.Broker.State.{Session, Broker, current, live}
use callbridge_le_audio_serv.Broker.Lifecycle.{
  record_lifecycle_progress, record_lifecycle_normal_end, normal_release_pending,
  normal_release_waiting, mark_normal_release_pending, begin_normal_release_wait,
  request_specific_session_release,
}

-- What one receive on the lifecycle socket gives; nothing more to read is the end of the list.
pub data Received : Type 0 where
  closed failed : Received
  packet : Bytes → Received

pub data Drained : Type 0 where
  still_open peer_closed receive_failed protocol_failed : Drained

-- A message by its type, which is checked to be 1 or 2
unfoldable pub apply_message : ℕ → ℕ → ℕ × LifecycleProgress → Broker → Broker
apply_message handle now (type, identity) b =
    if type == 1
    then (record_lifecycle_progress handle identity now b).0
    else (record_lifecycle_normal_end handle identity b).0

-- Every queued packet is read before the close of the socket is looked at.
unfoldable pub drain : ℕ → ℕ → List Received → Broker → Broker × Drained
drain handle now [] b = (b, still_open)
drain handle now (closed ∷ rest) b = (b, peer_closed)
drain handle now (failed ∷ rest) b = (b, receive_failed)
drain handle now (packet p ∷ rest) b = elim (decode_lifecycle_message p) [
  | err e ↦ (b, protocol_failed)
  | ok message ↦ drain handle now rest (apply_message handle now message b)
]

-- What `Poll` reports: an error, nothing, or events with `POLLERR` or `POLLNVAL`, with a hang-up,
-- and with what can be received.
pub data Polled : Type 0 where
  poll_failed quiet : Polled
  events : Bool → Bool → List Received → Polled

-- How a turn goes on: the watcher returns, or it goes on with the socket open or not.
pub data Turn : Type 0 where
  ended : Turn
  goes_on : Bool → Turn

unfoldable pub end_with_release : ℕ → Broker → Broker × Turn
end_with_release handle b = ((request_specific_session_release handle b).0, ended)

unfoldable pub count_hup : ℕ → Broker → Broker
count_hup handle b = elim (current handle b.active_session) [
  | none ↦ b
  | some s ↦ record b {
    counters = record b.counters { lifecycle_hups = b.counters.lifecycle_hups + 1 };
  }
]

unfoldable pub watch_hup : ℕ → Broker → Broker × Turn
watch_hup handle b =
    let counted = count_hup handle b in
    if normal_release_pending handle counted
    then (counted, goes_on false)
    else end_with_release handle counted

unfoldable pub watch_drained : ℕ → Bool → Bool → Broker → Drained → Broker × Turn
watch_drained handle terminal hup b receive_failed = end_with_release handle b
watch_drained handle terminal hup b protocol_failed = end_with_release handle b
watch_drained handle terminal hup b peer_closed =
    if terminal then end_with_release handle b else watch_hup handle b
watch_drained handle terminal hup b still_open =
    if terminal
    then end_with_release handle b
    else (if hup then watch_hup handle b else (b, goes_on true))

unfoldable pub watch_poll : ℕ → ℕ → Polled → Broker → Broker × Turn
watch_poll handle now poll_failed b = end_with_release handle b
watch_poll handle now quiet b = (b, goes_on true)
watch_poll handle now (events terminal hup received) b =
    let (read, drained) = drain handle now received b in
    watch_drained handle terminal hup read drained

-- The sections that count the end of a lease of a live session
unfoldable pub count_start_timeout : ℕ → Broker → Broker
count_start_timeout handle b = elim (live handle b.active_session) [
  | none ↦ b
  | some s ↦ record b {
    counters = record b.counters {
      lifecycle_start_timeouts = b.counters.lifecycle_start_timeouts + 1;
    };
  }
]

unfoldable pub count_timeout : ℕ → Broker → Broker
count_timeout handle b = elim (live handle b.active_session) [
  | none ↦ b
  | some s ↦ record b {
    counters = record b.counters { lifecycle_timeouts = b.counters.lifecycle_timeouts + 1 };
  }
]

-- An expired lease: a normal end that was announced is waited for, else the end is counted and the
-- release is requested. `counted` is the broker behind the count.
unfoldable pub expire : ℕ → Broker → Broker → Broker × Turn
expire handle counted b =
    if normal_release_pending handle b
    then ((begin_normal_release_wait handle false b).0, goes_on true)
    else end_with_release handle counted

abbrev pub start_expired : ℕ → Session → Broker → Bool
start_expired now s b =
    not s.progress_armed
    && b.progress_start_lease != 0
    && s.started_at != 0
    && leb b.progress_start_lease (now - s.started_at)

abbrev pub progress_expired : ℕ → Session → Broker → Bool
progress_expired now s b =
    s.progress_armed && b.progress_lease != 0 && leb b.progress_lease (now - s.last_progress)

-- `provider` is the answer of the provider of call tokens, none where there is no provider.
unfoldable pub token_lost : Option (ℕ × Bool) → Session → Bool
token_lost none s = s.call_token != 0
token_lost (some (token, present)) s = s.call_token != 0 && (not present || token != s.call_token)

unfoldable pub lease_on : Option Session → ℕ → ℕ → Option (ℕ × Bool) → Broker → Broker × Turn
lease_on none handle now provider b = (b, ended)
lease_on (some s) handle now provider b =
    if s.release_exhausted
    then (b, ended)
    else (if normal_release_waiting handle b
        then (b, goes_on true)
        else (if start_expired now s b
            then expire handle (count_start_timeout handle b) b
            else (if progress_expired now s b
                then expire handle (count_timeout handle b) b
                else (if token_lost provider s
                    then ((mark_normal_release_pending handle false b).0, goes_on true)
                    else (b, goes_on true)))))

-- The second half of a turn: the leases and the call token
unfoldable pub watch_lease : ℕ → ℕ → Option (ℕ × Bool) → Broker → Broker × Turn
watch_lease handle now provider b = lease_on (current handle b.active_session) handle now provider b
