-- ===== src/Broker/Lifecycle.antt =====
-- broker.go: the life of a session behind its handoff, up to its release.
use callbridge_le_audio_serv.Prelude.{
  ℕ, ◌+◌, Bool, true, false, ◌&&◌, ◌||◌, ◌∷◌, ◌==◌, ◌!=◌, if◌then◌else◌, Option, none, some,
}
use callbridge_le_audio_serv.Handoff.Lifecycle.{LifecycleProgress}
use callbridge_le_audio_serv.Broker.State.{
  Session, Broker, with_session, clear_active_session, live, current,
}

unfoldable pub lifecycle_progress_matches : Session → LifecycleProgress → Bool
lifecycle_progress_matches s progress =
    progress.bundle_id == s.bundle_id
    && progress.sink_generation == s.sink_generation
    && progress.source_generation == s.source_generation

unfoldable pub count_stale : Broker → Broker
count_stale b = record b {
  counters = record b.counters { lifecycle_stale = b.counters.lifecycle_stale + 1 };
}

unfoldable pub progress_on : Option Session → LifecycleProgress → ℕ → Broker → Broker × Bool
progress_on none progress now b = (count_stale b, false)
progress_on (some s) progress now b =
    if lifecycle_progress_matches s progress
    then (
      with_session
          (record b {
            counters = record b.counters { lifecycle_progress = b.counters.lifecycle_progress + 1 };
          })
          (record s { progress_armed = true; last_progress = now }),
      true,
    )
    else (count_stale b, false)

unfoldable pub record_lifecycle_progress : ℕ → LifecycleProgress → ℕ → Broker → Broker × Bool
record_lifecycle_progress handle progress now b =
    progress_on (live handle b.active_session) progress now b

unfoldable pub normal_release_waiting : ℕ → Broker → Bool
normal_release_waiting handle b = elim (live handle b.active_session) [
  | none ↦ false
  | some s ↦ s.normal_wait_started
]

unfoldable pub normal_release_pending : ℕ → Broker → Bool
normal_release_pending handle b = elim (live handle b.active_session) [
  | none ↦ false
  | some s ↦ s.normal_end_seen
]

-- `if normalEndEvent { b.lifecycleNormalEnds++ }`
unfoldable pub count_normal_end : Bool → Broker → Broker
count_normal_end event b = record b {
  counters = record b.counters {
    lifecycle_normal_ends = b.counters.lifecycle_normal_ends + (if event then 1 else 0);
  };
}

unfoldable pub mark_on : Option Session → Bool → Broker → Broker × Bool
mark_on none event b = (b, false)
mark_on (some s) event b =
    if s.normal_end_seen
    then (count_normal_end event b, false)
    else (with_session (count_normal_end event b) (record s { normal_end_seen = true }), true)

unfoldable pub mark_normal_release_pending : ℕ → Bool → Broker → Broker × Bool
mark_normal_release_pending handle event b = mark_on (live handle b.active_session) event b

-- The release of a session is begun: from here one owner ends it.
unfoldable pub own_release : Session → Broker → Broker
own_release s b = record b {
  active_session = some (record s { releasing = true });
  releases = s.handle ∷ b.releases;
}

unfoldable pub release_on : Option Session → Broker → Broker × Bool
release_on none b = (b, false)
release_on (some s) b = (own_release s b, true)

unfoldable pub request_specific_session_release : ℕ → Broker → Broker × Bool
request_specific_session_release handle b = release_on (live handle b.active_session) b

unfoldable pub request_on : Option ℕ → Broker → Broker × Bool
request_on none b = (b, false)
request_on (some handle) b = request_specific_session_release handle b

-- `session := b.activeSession` under the lock
unfoldable pub active_handle : Broker → Option ℕ
active_handle b = elim b.active_session [ none ↦ none | some s ↦ some s.handle ]

-- Two sections: the session is read, and its release is requested.
unfoldable pub request_active_session_release : Broker → Broker × Bool
request_active_session_release b = request_on (active_handle b) b

-- What the section of `beginNormalReleaseWait` finds
pub data Wait : Type 0 where
  started stopped unconfigured : Wait

unfoldable pub begin_wait_on : Option Session → Bool → Broker → Broker × Wait
begin_wait_on none event b = (b, stopped)
begin_wait_on (some s) event b =
    let counted = count_normal_end event b in
    let seen = record s { normal_end_seen = s.normal_end_seen || event } in
    if s.normal_wait_started
    then (counted, stopped)
    else (if b.normal_release_wait == 0 then (with_session counted seen, unconfigured) else (
      with_session
          (record counted {
            counters = record counted.counters {
              normal_release_waits = counted.counters.normal_release_waits + 1;
            };
          })
          (record seen { normal_wait_started = true }),
      started,
    ))

-- The section of `beginNormalReleaseWait`
unfoldable pub begin_wait_section : ℕ → Bool → Broker → Broker × Wait
begin_wait_section handle event b = begin_wait_on (live handle b.active_session) event b

-- Behind it the lock is free; without a configured wait the release is requested then.
unfoldable pub after_wait : ℕ → Wait → Broker → Broker × Bool
after_wait handle started b = (b, true)
after_wait handle stopped b = (b, false)
after_wait handle unconfigured b = ((request_specific_session_release handle b).0, false)

-- `beginNormalReleaseWait`, its two sections with nothing between
unfoldable pub begin_normal_release_wait : ℕ → Bool → Broker → Broker × Bool
begin_normal_release_wait handle event b =
    let (after, wait) = begin_wait_section handle event b in after_wait handle wait after

-- The first section of `recordLifecycleNormalEnd`: whether the message is for the session
unfoldable pub normal_end_on : Option Session → LifecycleProgress → Broker → Broker × Bool
normal_end_on none identity b = (count_stale b, false)
normal_end_on (some s) identity b =
    if lifecycle_progress_matches s identity then (b, true) else (count_stale b, false)

unfoldable pub check_normal_end : ℕ → LifecycleProgress → Broker → Broker × Bool
check_normal_end handle identity b = normal_end_on (live handle b.active_session) identity b

-- `recordLifecycleNormalEnd`, its two sections with nothing between
unfoldable pub record_lifecycle_normal_end : ℕ → LifecycleProgress → Broker → Broker × Bool
record_lifecycle_normal_end handle identity b =
    let (checked, matches) = check_normal_end handle identity b in
    if matches then mark_normal_release_pending handle true checked else (checked, false)

unfoldable pub timeout_on : Option Session → Broker → Broker × Bool
timeout_on none b = (b, false)
timeout_on (some s) b =
    if s.normal_wait_started
    then (
      own_release s (record b {
        counters = record b.counters {
          normal_release_timeouts = b.counters.normal_release_timeouts + 1;
        };
      }),
      true,
    )
    else (b, false)

-- `forceNormalReleaseTimeout` up to its call of `releaseActiveSession`
unfoldable pub force_normal_release_timeout : ℕ → Broker → Broker × Bool
force_normal_release_timeout handle b = timeout_on (live handle b.active_session) b

unfoldable pub finish_on : Option Session → Bool → Broker → Broker
finish_on none released b = b
finish_on (some s) true b = clear_active_session s b
finish_on (some s) false b =
    if s.remote_idle_seen
    then clear_active_session s (record b {
      counters = record b.counters {
        transport_idle_complete = b.counters.transport_idle_complete + 1;
      };
    })
    else with_session b (record s { releasing = false; release_exhausted = true })

-- `releaseActiveSession` behind its call of `releaseTransportPaths`, and `completeActiveSession`
unfoldable pub finish_release : ℕ → Bool → Broker → Broker
finish_release handle released b = finish_on (current handle b.active_session) released b

-- The first section of `ReleaseCallToken`: the session, if it has the token
unfoldable pub session_with_token : ℕ → Broker → Option ℕ
session_with_token token b = elim b.active_session [
  | none ↦ none
  | some s ↦ if s.call_token != token then none else some s.handle
]

unfoldable pub mark_on_token : Option ℕ → Broker → Broker × Bool
mark_on_token none b = (b, false)
mark_on_token (some handle) b = mark_normal_release_pending handle false b

-- `ReleaseCallToken`, its two sections with nothing between
unfoldable pub release_call_token : ℕ → Broker → Broker × Bool
release_call_token token b =
    if token == 0 then (b, false) else mark_on_token (session_with_token token b) b
