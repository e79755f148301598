-- ===== src/Broker/Steps/Watching.antt =====
-- A turn of the watcher in which nothing else happens is a sequence of sections.
use callbridge_le_audio_serv.Prelude.{
  ℕ, Bool, true, false, ◌==◌, if◌then◌else◌, List, [], ◌∷◌, Option, none, some, Result-cases, inl,
  inr,
}
use callbridge_le_audio_serv.Handoff.Lifecycle.{LifecycleProgress, decode_lifecycle_message}
use callbridge_le_audio_serv.Broker.State.{Session, Broker, current}
use callbridge_le_audio_serv.Broker.Lifecycle.{
  Wait, started, stopped, unconfigured, after_wait, begin_wait_section, begin_normal_release_wait,
  check_normal_end, record_lifecycle_normal_end, normal_release_pending, normal_release_waiting,
}
use callbridge_le_audio_serv.Broker.Watch.{
  Received, closed, failed, packet, Drained, still_open, peer_closed, receive_failed,
  protocol_failed, Polled, poll_failed, quiet, events, apply_message, drain, end_with_release,
  count_hup, watch_hup, watch_drained, watch_poll, expire, start_expired, progress_expired,
  token_lost, lease_on, watch_lease, count_start_timeout, count_timeout,
}
use callbridge_le_audio_serv.Broker.Steps
use callbridge_le_audio_serv.Broker.Steps.{Reaches, start, then_step}

pub Reaches-if_first :
    {A : Type 0} {b : Broker} (t : Bool) (x y : Broker × A)
    → Reaches b x.0
    → Reaches b y.0
    → Reaches b (if t then x else y).0
Reaches-if_first true x y r q = r
Reaches-if_first false x y r q = q

module _ {o : Broker} (handle : ℕ) where
  waited : (wait : Wait) (b : Broker) → Reaches o b → Reaches o (after_wait handle wait b).0
  unfolding after_wait
  waited started b r = r
  waited stopped b r = r
  waited unconfigured b r = then_step r (Steps.requests b handle)

  wait_begun :
      (event : Bool) (b : Broker)
      → Reaches o b
      → Reaches o (begin_normal_release_wait handle event b).0
  unfolding begin_normal_release_wait
  wait_begun event b r =
      waited (begin_wait_section handle event b).1 (begin_wait_section handle event b).0
        (then_step r (Steps.begins_wait b handle event))

  end_recorded :
      (identity : LifecycleProgress) (b : Broker)
      → Reaches o b
      → Reaches o (record_lifecycle_normal_end handle identity b).0
  unfolding record_lifecycle_normal_end
  end_recorded identity b r =
      let checked = then_step r (Steps.checks_end b handle identity) in
      Reaches-if_first (check_normal_end handle identity b).1 _ _
        (then_step checked (Steps.marks (check_normal_end handle identity b).0 handle true)) checked

  Reaches-if :
      {b c : Broker} (t : Bool) → Reaches o b → Reaches o c → Reaches o (if t then b else c)
  Reaches-if true r q = r
  Reaches-if false r q = q

  applied :
      (now : ℕ) (message : ℕ × LifecycleProgress) (b : Broker)
      → Reaches o b
      → Reaches o (apply_message handle now message b)
  unfolding apply_message
  applied now (type, identity) b r =
      Reaches-if (type == 1) (then_step r (Steps.progresses b handle identity now))
        (end_recorded identity b r)

  drain-Reaches :
      (now : ℕ) (received : List Received) (b : Broker)
      → Reaches o b
      → Reaches o (drain handle now received b).0
  unfolding drain
  drain-Reaches now [] b r = r
  drain-Reaches now (closed ∷ rest) b r = r
  drain-Reaches now (failed ∷ rest) b r = r
  drain-Reaches now (packet p ∷ rest) b r = elim (Result-cases (decode_lifecycle_message p)) [
    | inl (e, bad) ↦ rw (bad, drain) r
    | inr (message, read) ↦
        rw (read, drain)
          (drain-Reaches now rest (apply_message handle now message b) (applied now message b r))
  ]

  ended : (b : Broker) → Reaches o b → Reaches o (end_with_release handle b).0
  unfolding end_with_release
  ended b r = then_step r (Steps.requests b handle)

  hung_up : (b : Broker) → Reaches o b → Reaches o (watch_hup handle b).0
  unfolding watch_hup
  hung_up b r =
      let counted = then_step r (Steps.hangs_up b handle) in
      Reaches-if_first (normal_release_pending handle (count_hup handle b)) _ _ counted
        (ended (count_hup handle b) counted)

  drained :
      (terminal hup : Bool) (b : Broker) (d : Drained)
      → Reaches o b
      → Reaches o (watch_drained handle terminal hup b d).0
  unfolding watch_drained
  drained terminal hup b receive_failed r = ended b r
  drained terminal hup b protocol_failed r = ended b r
  drained terminal hup b peer_closed r = Reaches-if_first terminal _ _ (ended b r) (hung_up b r)
  drained terminal hup b still_open r =
      Reaches-if_first terminal _ _ (ended b r) (Reaches-if_first hup _ _ (hung_up b r) r)

  pub watch_poll-Reaches :
      (now : ℕ) (polled : Polled) (b : Broker)
      → Reaches o b
      → Reaches o (watch_poll handle now polled b).0
  unfolding watch_poll
  watch_poll-Reaches now poll_failed b r = ended b r
  watch_poll-Reaches now quiet b r = r
  watch_poll-Reaches now (events terminal hup received) b r =
      drained terminal hup (drain handle now received b).0 (drain handle now received b).1
        (drain-Reaches now received b r)

  lease_over :
      (counted b : Broker) → Reaches o counted → Reaches o b → Reaches o (expire handle counted b).0
  unfolding expire
  lease_over counted b k r =
      Reaches-if_first (normal_release_pending handle b) _ _ (wait_begun false b r)
        (ended counted k)

  leased :
      (active : Option Session) (now : ℕ) (provider : Option (ℕ × Bool)) (b : Broker)
      → Reaches o b
      → Reaches o (lease_on active handle now provider b).0
  unfolding lease_on
  leased none now provider b r = r
  leased (some s) now provider b r = Reaches-if_first s.release_exhausted _ _ r (
      Reaches-if_first (normal_release_waiting handle b) _ _ r (
        Reaches-if_first (start_expired now s b) _ _
          (lease_over (count_start_timeout handle b) b (then_step r (Steps.start_ends b handle)) r)
          (Reaches-if_first (progress_expired now s b) _ _
            (lease_over (count_timeout handle b) b (then_step r (Steps.lease_ends b handle)) r)
            (Reaches-if_first (token_lost provider s) _ _ (then_step r (Steps.marks b handle false))
              r))))

  pub watch_lease-Reaches :
      (now : ℕ) (provider : Option (ℕ × Bool)) (b : Broker)
      → Reaches o b
      → Reaches o (watch_lease handle now provider b).0
  unfolding watch_lease
  watch_lease-Reaches now provider b r = leased (current handle b.active_session) now provider b r
