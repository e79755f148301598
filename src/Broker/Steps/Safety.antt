-- ===== src/Broker/Steps/Safety.antt =====
-- Every state that the broker can come to: one owner for each release, and numbers that only rise.
use callbridge_le_audio_serv.Prelude.{
  ℕ, ◌<◌, ◌≤◌, ◌^◌, ◌≡◌, ◌∙◌, refl, sym, subst, Bool, true, false, List, [], ◌∷◌, All, arith,
  Option, none, some, Option-cases, inl, inr, if◌then◌else◌,
}
use callbridge_le_audio_serv.Broker.State.{Session, Broker, live}
use callbridge_le_audio_serv.Broker.Lifecycle.{
  own_release, release_on, request_specific_session_release, timeout_on,
  force_normal_release_timeout,
}
use callbridge_le_audio_serv.Broker.Steps.Sessions.{member, is_owned, IsKept, Keeps, live-some}
use callbridge_le_audio_serv.Broker.Steps.Kept.{same}

-- A list in which no session stands twice
abbrev pub IsSingle : List ℕ → Type 0
IsSingle [] = Unit
IsSingle (h ∷ hs) = (member hs h ≡ false) × IsSingle hs

-- The active session was made before, and where its release was begun it has an owner or is over.
abbrev pub IsOwned : List ℕ → ℕ → Option Session → Type 0
IsOwned releases next none = Unit
IsOwned releases next (some s) =
    (s.handle < next) × (member releases s.handle ≡ true → is_owned s ≡ true)

pub record IsSafe (b : Broker) : Type 0 where
  pub owned : IsOwned b.releases b.next_session b.active_session
  pub single : IsSingle b.releases
  pub below : All (λ h. h < b.next_session) b.releases
  pub last_gen : b.last_gen < 2 ^ 64
  pub sink : b.handoff.last_sink ≤ b.last_gen
  pub source : b.handoff.last_source ≤ b.last_gen
  pub bundle : b.handoff.last_bundle ≤ b.last_gen

kept_owned :
    (releases : List ℕ) (next : ℕ) (o o' : Option Session)
    → IsKept o o'
    → IsOwned releases next o
    → IsOwned releases next o'
kept_owned releases next o none k w = tt
kept_owned releases next none (some s') k w = elim k [ ]
kept_owned releases next (some s) (some s') k w = (rw (sym k.0) w.0, λ m. k.1 (w.1 (rw k.0 m)))

pub Keeps-IsSafe : (b c : Broker) → Keeps b c → IsSafe b → IsSafe c
Keeps-IsSafe b c k w = record {
  owned =
      rw (k.releases, k.next_session)
        (kept_owned b.releases b.next_session b.active_session c.active_session k.session w.owned);
  single = rw k.releases w.single;
  below = rw (k.releases, k.next_session) w.below;
  last_gen = rw k.last_gen w.last_gen;
  sink = rw (k.last_gen, k.handoff) w.sink;
  source = rw (k.last_gen, k.handoff) w.source;
  bundle = rw (k.last_gen, k.handoff) w.bundle;
}

-- Where nobody releases the active session, its release was never begun: one begins now.
own_release-IsSafe :
    (s : Session) (b : Broker)
    → b.active_session ≡ some s
    → is_owned s ≡ false
    → IsSafe b
    → IsSafe (own_release s b)
unfolding own_release
own_release-IsSafe s b active free w =
    let owned : IsOwned b.releases b.next_session (some s) =
      subst (IsOwned b.releases b.next_session) active w.owned in
    record {
      owned = (owned.0, λ m. refl);
      single = (ground (arith, owned.1), w.single);
      below = (owned.0, w.below);
      last_gen = w.last_gen;
      sink = w.sink;
      source = w.source;
      bundle = w.bundle;
    }

requested :
    (handle : ℕ) (o : Option Session) (b : Broker)
    → b.active_session ≡ o
    → IsSafe b
    → IsSafe (release_on (live handle o) b).0
unfolding release_on
requested handle o b active w = elim (Option-cases (live handle o)) [
  | inl none_live ↦ rw none_live w
  | inr (s, found) ↦
      let facts = live-some handle o found in
      rw found (own_release-IsSafe s b (active ∙ facts.0) facts.2 w)
]

pub request_specific-IsSafe :
    (handle : ℕ) (b : Broker) → IsSafe b → IsSafe (request_specific_session_release handle b).0
unfolding request_specific_session_release
request_specific-IsSafe handle b w = requested handle b.active_session b refl w

pub IsSafe-if_first :
    {A : Type 0} (t : Bool) (x y : Broker × A)
    → IsSafe x.0
    → IsSafe y.0
    → IsSafe (if t then x else y).0
IsSafe-if_first true x y v w = v
IsSafe-if_first false x y v w = w

timed_out :
    (handle : ℕ) (o : Option Session) (b : Broker)
    → ((s : Session) → o ≡ some s → (b.active_session ≡ some s) × (is_owned s ≡ false))
    → IsSafe b
    → IsSafe (timeout_on o b).0
unfolding timeout_on
timed_out handle none b facts w = w
timed_out handle (some s) b facts w =
    IsSafe-if_first s.normal_wait_started _ _
      (own_release-IsSafe s _ (facts s refl).0 (facts s refl).1
        (Keeps-IsSafe b _ (same b _ refl refl refl refl refl) w))
      w

live_free :
    (handle : ℕ) (b : Broker) (s : Session)
    → live handle b.active_session ≡ some s
    → (b.active_session ≡ some s) × (is_owned s ≡ false)
live_free handle b s e = let facts = live-some handle b.active_session e in (facts.0, facts.2)

pub force_timeout-IsSafe :
    (handle : ℕ) (b : Broker) → IsSafe b → IsSafe (force_normal_release_timeout handle b).0
unfolding force_normal_release_timeout
force_timeout-IsSafe handle b w =
    timed_out handle (live handle b.active_session) b (live_free handle b) w
