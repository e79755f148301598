-- ===== src/Broker/Steps/Sessions.antt =====
-- What the sections do to the session, and to the numbers that are given out.
use callbridge_le_audio_serv.Prelude.{
  ℕ, ◌≡◌, ◌∙◌, refl, subst, Bool, true, false, not, ◌&&◌, ◌||◌, ◌==◌, List, [], ◌∷◌, arith, Option,
  none, some, Bool-cases, inl, inr,
}
use callbridge_le_audio_serv.Broker.State.{Session, Broker, live, current}

abbrev pub member : List ℕ → ℕ → Bool
member [] h = false
member (x ∷ xs) h = x == h || member xs h

-- The release of the session has an owner, or is over.
abbrev pub is_owned : Session → Bool
is_owned s = s.releasing || s.release_exhausted

-- The session that a section leaves: none, or the same one, which keeps the owner of its release.
abbrev pub IsKept : Option Session → Option Session → Type 0
IsKept before none = Unit
IsKept none (some s') = ⊥
IsKept (some s) (some s') = (s.handle ≡ s'.handle) × (is_owned s ≡ true → is_owned s' ≡ true)

-- A section that begins no release and gives out no number
pub record Keeps (b c : Broker) : Type 0 where
  pub session : IsKept b.active_session c.active_session
  pub releases : c.releases ≡ b.releases
  pub next_session : c.next_session ≡ b.next_session
  pub last_gen : c.last_gen ≡ b.last_gen
  pub handoff : c.handoff ≡ b.handoff

IsKept-refl : (o : Option Session) → IsKept o o
IsKept-refl none = tt
IsKept-refl (some s) = (refl, λ h. h)

IsKept-trans : (o p q : Option Session) → IsKept o p → IsKept p q → IsKept o q
IsKept-trans o p none h k = tt
IsKept-trans o none (some s) h k = elim k [ ]
IsKept-trans none (some r) (some s) h k = elim h [ ]
IsKept-trans (some q) (some r) (some s) h k = (h.0 ∙ k.0, λ e. k.1 (h.1 e))

pub Keeps-refl : (b : Broker) → Keeps b b
Keeps-refl b = record {
  session = IsKept-refl b.active_session;
  releases = refl;
  next_session = refl;
  last_gen = refl;
  handoff = refl;
}

pub Keeps-trans : {b c d : Broker} → Keeps b c → Keeps c d → Keeps b d
Keeps-trans {b} {c} {d} k l = record {
  session = IsKept-trans b.active_session c.active_session d.active_session k.session l.session;
  releases = l.releases ∙ k.releases;
  next_session = l.next_session ∙ k.next_session;
  last_gen = l.last_gen ∙ k.last_gen;
  handoff = l.handoff ∙ k.handoff;
}

-- What is known of a session that is live: it is the active one, and nobody releases it.
pub live-some :
    (handle : ℕ) (o : Option Session) {s : Session}
    → live handle o ≡ some s
    → (o ≡ some s) × (s.handle ≡ handle) × (is_owned s ≡ false)
unfolding live
live-some handle none e = absurd (cc)
live-some handle (some r) {s} e =
    elim (Bool-cases (r.handle == handle && not r.releasing && not r.release_exhausted)) [
      | inr dead ↦ absurd (let g = rw dead at e in cc)
      | inl alive ↦
          let same : r ≡ s = some_inj (rw alive at e) in
          subst (λ x. (some r ≡ some x) × (x.handle ≡ handle) × (is_owned x ≡ false)) same
            (refl, ground arith, ground arith)
    ]
  where
    some_inj : {a b : Session} → some a ≡ some b → a ≡ b
    some_inj h = cc

pub current-some :
    (handle : ℕ) (o : Option Session) {s : Session} → current handle o ≡ some s → o ≡ some s
unfolding current
current-some handle none e = absurd (cc)
current-some handle (some r) e = ground arith
