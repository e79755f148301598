-- ===== src/Handoff/Runs.antt =====
-- Attempts to publish, and media processes that come and go, one behind the other.
use callbridge_le_audio_serv.Prelude.{
  ℕ, ◌<◌, ◌≡◌, refl, arith, ap, Bool, List, [], ◌∷◌, ◌++◌, Bytes, Option, Result, ok, err,
  Result-cases, Option-cases, none, some, inl, inr,
}
use callbridge_le_audio_serv.Handoff.{Descriptor, Error}
use callbridge_le_audio_serv.Handoff.Server.{HandoffServer, publish_pair, accept_peer, drop_peer}
use callbridge_le_audio_serv.Handoff.Publish.{publish_pair-outcome}

-- A call of `PublishPair`, with what the sockets do in it.
pub record Attempt : Type 0 where
  pub deliver : ℕ → Bytes → Bool
  pub sink_fd : Option ℕ
  pub sink : Descriptor
  pub source_fd : Option ℕ
  pub source : Descriptor
  pub sockets : Bool

-- What happens to the handoff: a call of `PublishPair`, a process that connects with the user that is
-- expected, its credential and its socket, or the end of one.
pub data Event : Type 0 where
  attempts : Attempt → Event
  arrives : ℕ → Option ℕ → ℕ → Event
  leaves : ℕ → Event

abbrev pub attempt : Attempt → HandoffServer → HandoffServer × Result Error (Unit {0})
attempt a s = publish_pair a.deliver a.sink_fd a.sink a.source_fd a.source a.sockets s

-- The pairs that are published, with the sink's generation, the source's and the bundle
abbrev pub record_of : Attempt → Result Error (Unit {0}) → List (ℕ × ℕ × ℕ)
record_of a (err e) = []
record_of a (ok _) = (a.sink.generation, a.source.generation, a.sink.bundle_id) ∷ []

unfoldable pub published : List Event → HandoffServer → List (ℕ × ℕ × ℕ)
published [] s = []
published (attempts a ∷ events) s = record_of a (attempt a s).1 ++ published events (attempt a s).0
published (arrives peer_uid credential fd ∷ events) s =
    published events (accept_peer peer_uid credential fd s)
published (leaves fd ∷ events) s = published events (drop_peer fd s)

-- Each entry is above the one before it in all three numbers.
abbrev pub IsRising : ℕ → ℕ → ℕ → List (ℕ × ℕ × ℕ) → Type 0
IsRising sink source bundle [] = Unit
IsRising sink source bundle ((g, g', b) ∷ rest) =
    (sink < g) × (source < g') × (bundle < b) × IsRising g g' b rest

numbers_kept :
    (a : Attempt) (s : HandoffServer) {e : Error}
    → (attempt a s).1 ≡ err e
    → ((attempt a s).0.last_sink ≡ s.last_sink)
      × ((attempt a s).0.last_source ≡ s.last_source)
      × ((attempt a s).0.last_bundle ≡ s.last_bundle)
numbers_kept a s {e} failed =
    let outcome =
      publish_pair-outcome a.deliver a.sink_fd a.sink a.source_fd a.source a.sockets s in
    elim (outcome.1 e failed) [
      | inl same ↦ rw same (refl, refl, refl)
      | inr rest ↦ elim rest [
        | inl gone ↦ rw gone (refl, refl, refl)
        | inr half ↦ rw half (refl, refl, refl)
      ]
    ]

-- The numbers of the handoff
abbrev pub SameNumbers : HandoffServer → HandoffServer → Type 0
SameNumbers s t =
    (t.last_sink ≡ s.last_sink) × (t.last_source ≡ s.last_source) × (t.last_bundle ≡ s.last_bundle)

-- A process that comes or goes leaves the numbers.
pub accept_peer-SameNumbers :
    (peer_uid : ℕ) (credential : Option ℕ) (fd : ℕ) (s : HandoffServer)
    → SameNumbers s (accept_peer peer_uid credential fd s)
unfolding accept_peer
accept_peer-SameNumbers peer_uid none fd s = (refl, refl, refl)
accept_peer-SameNumbers peer_uid (some uid) fd s = (ground arith, ground arith, ground arith)

pub drop_peer-SameNumbers : (fd : ℕ) (s : HandoffServer) → SameNumbers s (drop_peer fd s)
unfolding drop_peer
drop_peer-SameNumbers fd s = elim (Option-cases s.client) [
  | inl none_kept ↦ rw (none_kept, drop_peer) (refl, refl, refl)
  | inr (kept, there) ↦ rw (there, drop_peer) (ground arith, ground arith, ground arith)
]

IsRising-on :
    (s t : HandoffServer) (l : List (ℕ × ℕ × ℕ))
    → SameNumbers s t
    → IsRising t.last_sink t.last_source t.last_bundle l
    → IsRising s.last_sink s.last_source s.last_bundle l
IsRising-on s t l (k1, k2, k3) rising = rw (k1, k2, k3) at rising

-- Whatever is asked of the handoff, whichever processes come and go and whatever fails: each pair
-- that is published is above the one published before it in both generations and in its bundle.
pub published-IsRising :
    (events : List Event) (s : HandoffServer)
    → IsRising s.last_sink s.last_source s.last_bundle (published events s)
unfolding published
published-IsRising [] s = tt
published-IsRising (arrives peer_uid credential fd ∷ events) s =
    let next = accept_peer peer_uid credential fd s in
    IsRising-on s next (published events next) (accept_peer-SameNumbers peer_uid credential fd s)
      (published-IsRising events next)
published-IsRising (leaves fd ∷ events) s =
    let next = drop_peer fd s in
    IsRising-on s next (published events next) (drop_peer-SameNumbers fd s)
      (published-IsRising events next)
published-IsRising (attempts a ∷ events) s =
    let next = published-IsRising events (attempt a s).0 in
    let outcome =
      publish_pair-outcome a.deliver a.sink_fd a.sink a.source_fd a.source a.sockets s in
    elim (Result-cases (attempt a s).1) [
      | inl (e, failed) ↦
          let (k1, k2, k3) = numbers_kept a s failed in rw failed (rw (k1, k2, k3) at next)
      | inr (_, passed) ↦
          let (h1, h2, h3, s') = outcome.0 passed in
          let k1 : (attempt a s).0.last_sink ≡ a.sink.generation = ap (λ t. t.last_sink) s' in
          let k2 : (attempt a s).0.last_source ≡ a.source.generation = ap (λ t. t.last_source) s' in
          let k3 : (attempt a s).0.last_bundle ≡ a.sink.bundle_id = ap (λ t. t.last_bundle) s' in
          rw passed (h1, h2, h3, rw (k1, k2, k3) at next)
    ]
