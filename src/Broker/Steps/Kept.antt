-- ===== src/Broker/Steps/Kept.antt =====
-- The sections that begin no release and give out no number.
use callbridge_le_audio_serv.Prelude.{
  ℕ, ◌≡◌, refl, sym, Bool, true, false, not, ◌||◌, ◌==◌, ◌++◌, Bytes, Option, none, some,
  Bool-cases, inl, inr, if◌then◌else◌, codes,
}
use callbridge_le_audio_serv.Prelude.Table.{find, put}
use callbridge_le_audio_serv.Lc3.{CodecConfig}
use callbridge_le_audio_serv.Handoff.Lifecycle.{LifecycleProgress}
use callbridge_le_audio_serv.Broker.Qos.{TransportQos}
use callbridge_le_audio_serv.Broker.Transports.{PendingTransport}
use callbridge_le_audio_serv.Broker.State.{
  Session, Broker, with_session, clear_active_session, live, current,
}
use callbridge_le_audio_serv.Broker.Paths.{
  has_prefix, drop_held, configure, concerns, clear_session_of, clear, all_remote_idle, idle_end,
  idle_session, idle,
}
use callbridge_le_audio_serv.Broker.Lifecycle.{
  lifecycle_progress_matches, count_stale, progress_on, record_lifecycle_progress, count_normal_end,
  mark_on, mark_normal_release_pending, normal_end_on, check_normal_end, begin_wait_on,
  begin_wait_section, finish_on, finish_release,
}
use callbridge_le_audio_serv.Broker.Steps.Sessions.{
  Keeps, Keeps-refl, Keeps-trans, is_owned, live-some, current-some,
}

pub Keeps-if : {b c d : Broker} (t : Bool) → Keeps b c → Keeps b d → Keeps b (if t then c else d)
Keeps-if true k l = k
Keeps-if false k l = l

pub Keeps-if_first :
    {A : Type 0} {b : Broker} (t : Bool) (x y : Broker × A)
    → Keeps b x.0
    → Keeps b y.0
    → Keeps b (if t then x else y).0
Keeps-if_first true x y k l = k
Keeps-if_first false x y k l = l

-- The session and the numbers stand as they are.
pub same :
    (b c : Broker)
    → c.active_session ≡ b.active_session
    → c.releases ≡ b.releases
    → c.next_session ≡ b.next_session
    → c.last_gen ≡ b.last_gen
    → c.handoff ≡ b.handoff
    → Keeps b c
same b c e1 e2 e3 e4 e5 = record {
  session = rw e1 (Keeps-refl b).session;
  releases = e2;
  next_session = e3;
  last_gen = e4;
  handoff = e5;
}

-- The active session goes on as `s'`, which is the same and keeps its owner.
pub replaced :
    (b : Broker) (s s' : Session)
    → b.active_session ≡ some s
    → s'.handle ≡ s.handle
    → (is_owned s ≡ true → is_owned s' ≡ true)
    → Keeps b (with_session b s')
unfolding with_session
replaced b s s' e same_handle owned = record {
  session = rw e (sym same_handle, owned);
  releases = refl;
  next_session = refl;
  last_gen = refl;
  handoff = refl;
}

pub cleared : (s : Session) (b : Broker) → Keeps b (clear_active_session s b)
unfolding clear_active_session
cleared s b = record {
  session = tt;
  releases = refl;
  next_session = refl;
  last_gen = refl;
  handoff = refl;
}

dropped : (path : Bytes) (o : Option PendingTransport) (b : Broker) → Keeps b (drop_held path o b)
unfolding drop_held
dropped path none b = Keeps-refl b
dropped path (some held) b = same b _ refl refl refl refl refl

pub configure-Keeps :
    (valid : Bytes → Bool) (path : Bytes) (direction : ℕ) (codec : CodecConfig) (qos : TransportQos)
    (b : Broker)
    → Keeps b (configure valid path direction codec qos b).0
unfolding configure
configure-Keeps valid path direction codec qos b =
    elim (Bool-cases (not (valid path) || not (has_prefix (b.expected_device ++ codes "/") path))) [
      | inl foreign ↦ rw foreign (Keeps-refl b)
      | inr known ↦ elim (Bool-cases (b.next_config == 0xffffffffffffffff)) [
        | inl exhausted ↦ rw known (rw exhausted (Keeps-refl b))
        | inr left ↦ rw known (
            rw left (
              Keeps-trans (dropped path (find path b.pending) b)
                (same _ _ refl refl refl refl refl)))
      ]
    ]

session_cleared :
    (path : Bytes) (o : Option Session) (b : Broker) → Keeps b (clear_session_of path o b)
unfolding clear_session_of
session_cleared path none b = Keeps-refl b
session_cleared path (some s) b = elim (Bool-cases (concerns path s)) [
  | inl mine ↦ rw mine (cleared s b)
  | inr other ↦ rw other (Keeps-refl b)
]

pub clear-Keeps : (path : Bytes) (b : Broker) → Keeps b (clear path b)
unfolding clear
clear-Keeps path b =
    Keeps-trans (dropped path (find path b.pending) b)
      (Keeps-trans (same _ _ refl refl refl refl refl) (session_cleared path b.active_session _))

idle_ended :
    (s s' : Session) (b : Broker)
    → b.active_session ≡ some s
    → s'.handle ≡ s.handle
    → (is_owned s ≡ true → is_owned s' ≡ true)
    → Keeps b (idle_end s' b)
unfolding idle_end
idle_ended s s' b e same_handle owned =
    Keeps-if s'.releasing (replaced b s (record s' { remote_idle_seen = true }) e same_handle owned)
      (Keeps-trans (same b _ refl refl refl refl refl) (cleared s' _))

idle_marked :
    (path : Bytes) (o : Option Session) (b : Broker)
    → b.active_session ≡ o
    → Keeps b (idle_session path o b)
unfolding idle_session
idle_marked path none b e = Keeps-refl b
idle_marked path (some s) b e =
    let s' = record s { idle_paths = put path true s.idle_paths } in
    Keeps-if (concerns path s)
      (Keeps-if (all_remote_idle s') (idle_ended s s' b e refl (λ h. h))
        (replaced b s s' e refl (λ h. h)))
      (Keeps-refl b)

pub idle-Keeps : (path : Bytes) (b : Broker) → Keeps b (idle path b)
unfolding idle
idle-Keeps path b =
    Keeps-trans (same b _ refl refl refl refl refl) (idle_marked path b.active_session _ refl)

progressed :
    (o : Option Session) (progress : LifecycleProgress) (now : ℕ) (b : Broker)
    → ((s : Session) → o ≡ some s → b.active_session ≡ some s)
    → Keeps b (progress_on o progress now b).0
unfolding progress_on count_stale
progressed none progress now b h = same b _ refl refl refl refl refl
progressed (some s) progress now b h = elim (Bool-cases (lifecycle_progress_matches s progress)) [
  | inl matches ↦ rw matches (
      Keeps-trans (same b _ refl refl refl refl refl) (
        replaced _ s (record s { progress_armed = true; last_progress = now }) (h s refl) refl
          (λ e. e)))
  | inr foreign ↦ rw foreign (same b _ refl refl refl refl refl)
]

pub live_active :
    (handle : ℕ) (b : Broker) (s : Session)
    → live handle b.active_session ≡ some s
    → b.active_session ≡ some s
live_active handle b s e = (live-some handle b.active_session e).0

pub record_lifecycle_progress-Keeps :
    (handle : ℕ) (progress : LifecycleProgress) (now : ℕ) (b : Broker)
    → Keeps b (record_lifecycle_progress handle progress now b).0
unfolding record_lifecycle_progress
record_lifecycle_progress-Keeps handle progress now b =
    progressed (live handle b.active_session) progress now b (live_active handle b)

marked :
    (o : Option Session) (event : Bool) (b : Broker)
    → ((s : Session) → o ≡ some s → b.active_session ≡ some s)
    → Keeps b (mark_on o event b).0
unfolding mark_on count_normal_end
marked none event b h = Keeps-refl b
marked (some s) event b h = elim (Bool-cases s.normal_end_seen) [
  | inl seen ↦ rw seen (same b _ refl refl refl refl refl)
  | inr first ↦ rw first (
      Keeps-trans (same b _ refl refl refl refl refl)
        (replaced _ s (record s { normal_end_seen = true }) (h s refl) refl (λ e. e)))
]

pub mark_normal_release_pending-Keeps :
    (handle : ℕ) (event : Bool) (b : Broker)
    → Keeps b (mark_normal_release_pending handle event b).0
unfolding mark_normal_release_pending
mark_normal_release_pending-Keeps handle event b =
    marked (live handle b.active_session) event b (live_active handle b)

normal_ended :
    (o : Option Session) (identity : LifecycleProgress) (b : Broker)
    → Keeps b (normal_end_on o identity b).0
unfolding normal_end_on count_stale
normal_ended none identity b = same b _ refl refl refl refl refl
normal_ended (some s) identity b = elim (Bool-cases (lifecycle_progress_matches s identity)) [
  | inl matches ↦ rw matches (Keeps-refl b)
  | inr foreign ↦ rw foreign (same b _ refl refl refl refl refl)
]

pub check_normal_end-Keeps :
    (handle : ℕ) (identity : LifecycleProgress) (b : Broker)
    → Keeps b (check_normal_end handle identity b).0
unfolding check_normal_end
check_normal_end-Keeps handle identity b = normal_ended (live handle b.active_session) identity b

-- The section of `beginNormalReleaseWait` keeps the session, with its wait.
wait_begun :
    (o : Option Session) (event : Bool) (b : Broker)
    → ((s : Session) → o ≡ some s → b.active_session ≡ some s)
    → Keeps b (begin_wait_on o event b).0
unfolding begin_wait_on count_normal_end
wait_begun none event b active = Keeps-refl b
wait_begun (some s) event b active =
    let counting = same b (count_normal_end event b) refl refl refl refl refl in
    let seen = record s { normal_end_seen = s.normal_end_seen || event } in
    Keeps-if_first s.normal_wait_started _ _ (same b _ refl refl refl refl refl) (
      Keeps-if_first (b.normal_release_wait == 0) _ _
        (Keeps-trans counting (replaced _ s seen (active s refl) refl (λ e. e)))
        (Keeps-trans (same b _ refl refl refl refl refl) (
          replaced _ s (record seen { normal_wait_started = true }) (active s refl) refl (λ e. e))))

pub begin_wait_section-Keeps :
    (handle : ℕ) (event : Bool) (b : Broker) → Keeps b (begin_wait_section handle event b).0
unfolding begin_wait_section
begin_wait_section-Keeps handle event b =
    wait_begun (live handle b.active_session) event b (live_active handle b)

finished :
    (o : Option Session) (released : Bool) (b : Broker)
    → ((s : Session) → o ≡ some s → b.active_session ≡ some s)
    → Keeps b (finish_on o released b)
unfolding finish_on
finished none released b h = Keeps-refl b
finished (some s) true b h = cleared s b
finished (some s) false b h =
    Keeps-if s.remote_idle_seen (Keeps-trans (same b _ refl refl refl refl refl) (cleared s _)) (
      replaced b s (record s { releasing = false; release_exhausted = true }) (h s refl) refl
        (λ e. refl))

pub finish_release-Keeps :
    (handle : ℕ) (released : Bool) (b : Broker) → Keeps b (finish_release handle released b)
unfolding finish_release
finish_release-Keeps handle released b =
    finished (current handle b.active_session) released b
      (λ s. current-some handle b.active_session)
