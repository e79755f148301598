-- ===== src/Broker/Watch/Expiry.antt =====
-- A session without media does not stay: what a turn of the watcher does about the leases.
use callbridge_le_audio_serv.Prelude.{
  ℕ, ◌≡◌, ◌∙◌, refl, Bool, true, false, ◌||◌, ◌==◌, arith, Option, some, Bool-cases, inl, inr,
  if◌then◌else◌,
}
use callbridge_le_audio_serv.Broker.State.{Session, Broker, live, current, with_session}
use callbridge_le_audio_serv.Broker.Lifecycle.{
  own_release, release_on, request_specific_session_release, normal_release_pending,
  normal_release_waiting, count_normal_end, begin_wait_on, begin_normal_release_wait, Wait,
  after_wait, begin_wait_section,
}
use callbridge_le_audio_serv.Broker.Watch.{
  count_start_timeout, count_timeout, end_with_release, expire, start_expired, progress_expired,
  lease_on, watch_lease,
}
use callbridge_le_audio_serv.Broker.Steps.Sessions.{live-some, is_owned}

-- The session is on its way out: its release is begun, or a bounded wait for the phone is.
pub record IsEnding (handle : ℕ) (b : Broker) : Type 0 where
  pub session : Session
  pub active : b.active_session ≡ some session
  pub same : session.handle ≡ handle
  pub ending : session.releasing || session.normal_wait_started ≡ true

live_of :
    (handle : ℕ) (s : Session)
    → s.handle ≡ handle
    → is_owned s ≡ false
    → live handle (some s) ≡ some s
unfolding live
live_of handle s same free = ground arith

current_of :
    (handle : ℕ) (o : Option Session) (s : Session)
    → o ≡ some s
    → s.handle ≡ handle
    → current handle o ≡ some s
unfolding current
current_of handle o s e same = rw e (ground arith)

waiting_of :
    (handle : ℕ) (b : Broker) (s : Session)
    → live handle b.active_session ≡ some s
    → normal_release_waiting handle b ≡ s.normal_wait_started
unfolding normal_release_waiting
waiting_of handle b s alive = rw (alive, normal_release_waiting) refl

requested :
    (handle : ℕ) (s : Session) (b : Broker)
    → live handle b.active_session ≡ some s
    → s.handle ≡ handle
    → IsEnding handle (request_specific_session_release handle b).0
unfolding request_specific_session_release release_on own_release
requested handle s b alive same =
    rw (alive, request_specific_session_release)
      (record {
        session = record s { releasing = true };
        active = refl;
        same = same;
        ending = refl;
      })

IsEnding-if_first :
    {A : Type 0} {handle : ℕ} (t : Bool) (x y : Broker × A)
    → IsEnding handle x.0
    → IsEnding handle y.0
    → IsEnding handle (if t then x else y).0
IsEnding-if_first true x y v w = v
IsEnding-if_first false x y v w = w

IsEnding-when :
    {A : Type 0} {handle : ℕ} (t : Bool) (x y : Broker × A)
    → t ≡ true
    → IsEnding handle x.0
    → IsEnding handle (if t then x else y).0
IsEnding-when true x y e w = w
IsEnding-when false x y e w = absurd (cc)

IsEnding-unless :
    {A : Type 0} {handle : ℕ} (t : Bool) (x y : Broker × A)
    → t ≡ false
    → IsEnding handle y.0
    → IsEnding handle (if t then x else y).0
IsEnding-unless true x y e w = absurd (cc)
IsEnding-unless false x y e w = w

-- What follows the section of `beginNormalReleaseWait` ends the session.
abbrev Ends : ℕ → Broker × Wait → Type 0
Ends handle x = IsEnding handle (after_wait handle x.1 x.0).0

Ends-if_first :
    (handle : ℕ) (t : Bool) (x y : Broker × Wait)
    → Ends handle x
    → Ends handle y
    → Ends handle (if t then x else y)
Ends-if_first handle true x y v w = v
Ends-if_first handle false x y v w = w

Ends-unless :
    (handle : ℕ) (t : Bool) (x y : Broker × Wait)
    → t ≡ false
    → Ends handle y
    → Ends handle (if t then x else y)
Ends-unless handle true x y e w = absurd (cc)
Ends-unless handle false x y e w = w

wait_begun :
    (handle : ℕ) (s : Session) (b : Broker)
    → live handle b.active_session ≡ some s
    → s.handle ≡ handle
    → is_owned s ≡ false
    → s.normal_wait_started ≡ false
    → IsEnding handle (begin_normal_release_wait handle false b).0
unfolding begin_normal_release_wait begin_wait_section begin_wait_on with_session after_wait
wait_begun handle s b alive same free first =
    let seen = record s { normal_end_seen = s.normal_end_seen || false } in
    let counted = with_session (count_normal_end false b) seen in
    rw (alive, begin_normal_release_wait, begin_wait_section)
      (Ends-unless handle s.normal_wait_started _ _ first (
        Ends-if_first handle (b.normal_release_wait == 0) _ _
          (requested handle seen counted (live_of handle seen same free) same)
          (record {
            session = record s {
              normal_end_seen = s.normal_end_seen || false;
              normal_wait_started = true;
            };
            active = refl;
            same = same;
            ending = ground arith;
          })))

counted_active :
    (handle : ℕ) (b : Broker) (s : Session)
    → live handle b.active_session ≡ some s
    → ((count_start_timeout handle b).active_session ≡ b.active_session)
      × ((count_timeout handle b).active_session ≡ b.active_session)
unfolding count_start_timeout count_timeout
counted_active handle b s alive =
    (rw (alive, count_start_timeout) refl, rw (alive, count_timeout) refl)

lease_over :
    (handle : ℕ) (s : Session) (counted b : Broker)
    → live handle b.active_session ≡ some s
    → counted.active_session ≡ b.active_session
    → s.handle ≡ handle
    → is_owned s ≡ false
    → s.normal_wait_started ≡ false
    → IsEnding handle (expire handle counted b).0
unfolding expire end_with_release
lease_over handle s counted b alive kept same free first =
    IsEnding-if_first (normal_release_pending handle b) _ _
      (wait_begun handle s b alive same free first)
      (requested handle s counted (rw kept alive) same)

-- Where a lease of a live session has run out and no wait for its end was begun, the turn of the
-- watcher either begins the release of that session or begins the bounded wait for the phone to end
-- it; it does so whatever the provider of call tokens says.
pub watch_lease-ends :
    (handle now : ℕ) (provider : Option (ℕ × Bool)) (b : Broker) (s : Session)
    → live handle b.active_session ≡ some s
    → s.normal_wait_started ≡ false
    → start_expired now s b || progress_expired now s b ≡ true
    → IsEnding handle (watch_lease handle now provider b).0
unfolding watch_lease lease_on
watch_lease-ends handle now provider b s alive first expired =
    let (active, same, free) = live-some handle b.active_session alive in
    let counted = counted_active handle b s alive in
    let free_twice : (s.releasing ≡ false) × (s.release_exhausted ≡ false) =
      (ground arith, ground arith) in
    rw (current_of handle b.active_session s active same, watch_lease)
      (IsEnding-unless s.release_exhausted _ _ free_twice.1 (
        IsEnding-unless (normal_release_waiting handle b) _ _ (waiting_of handle b s alive ∙ first)
          (elim (Bool-cases (start_expired now s b)) [
            | inl start ↦
                IsEnding-when (start_expired now s b) _ _ start
                  (lease_over handle s _ b alive counted.0 same free first)
            | inr running ↦ IsEnding-unless (start_expired now s b) _ _ running (
                IsEnding-when (progress_expired now s b) _ _ (ground arith)
                  (lease_over handle s _ b alive counted.1 same free first))
          ])))
