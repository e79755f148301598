-- ===== src/Broker/Steps/Publishing.antt =====
-- A pair that is published keeps the broker's numbers and sessions in order.
use callbridge_le_audio_serv.Prelude.{
  ℕ, ◌+◌, ◌<◌, ◌≤◌, ◌^◌, ◌≡◌, refl, sym, subst, Bool, false, not, ◌&&◌, ◌||◌, List, [], ◌∷◌, All,
  arith, Bytes, Option, some, Result-cases, inl, inr, ok, err, Result,
}
use callbridge_le_audio_serv.Handoff.{Descriptor, Error as HandoffError}
use callbridge_le_audio_serv.Handoff.Server.{HandoffServer, publish_pair}
use callbridge_le_audio_serv.Handoff.Publish.{publish_pair-outcome}
use callbridge_le_audio_serv.Broker.Transports.{
  PendingTransport, descriptor_for_pending, next_descriptor_generation, Error as PairError,
}
use callbridge_le_audio_serv.Broker.Transports.Links.{next_descriptor_generation-rises}
use callbridge_le_audio_serv.Broker.State.{Session, Broker}
use callbridge_le_audio_serv.Broker.Publish.{
  Kernel, active_session_for_handoff, publish_on, publish_with, publish_second, publish_first,
  publish_current, publish, pair_current,
}
use callbridge_le_audio_serv.Broker.Steps.Sessions.{member}
use callbridge_le_audio_serv.Broker.Steps.Reserved.{return_pair-Keeps}
use callbridge_le_audio_serv.Broker.Steps.Safety.{IsSafe, Keeps-IsSafe, IsSafe-if_first}

member_below : (next : ℕ) (hs : List ℕ) → All (λ h. h < next) hs → member hs next ≡ false
member_below next [] all = refl
member_below next (h ∷ hs) all = ground (arith, all.0, member_below next hs all.1)

below_next : (next : ℕ) (hs : List ℕ) → All (λ h. h < next) hs → All (λ h. h < next + 1) hs
below_next next [] all = tt
below_next next (h ∷ hs) all = (omega (arith, all.0), below_next next hs all.1)

-- The state behind a publication: the numbers of the handoff are at most the last one given out.
published_on :
    (r : Result HandoffError (Unit {0})) (conn : ℕ) (s : Session) (handoff : HandoffServer)
    (b : Broker)
    → IsSafe b
    → s.handle ≡ b.next_session
    → (handoff.last_sink ≤ b.last_gen)
      × (handoff.last_source ≤ b.last_gen)
      × (handoff.last_bundle ≤ b.last_gen)
    → IsSafe (publish_on r conn s handoff b).0
unfolding publish_on
published_on (err e) conn s handoff b w fresh (h1, h2, h3) = record {
  owned = w.owned;
  single = w.single;
  below = w.below;
  last_gen = w.last_gen;
  sink = h1;
  source = h2;
  bundle = h3;
}
published_on (ok u) conn s handoff b w fresh (h1, h2, h3) = record {
  owned = (
    omega (arith, fresh),
    λ m. absurd (
        let none_yet = member_below b.next_session b.releases w.below in
        let h = rw fresh at m in cc),
  );
  single = w.single;
  below = below_next b.next_session b.releases w.below;
  last_gen = w.last_gen;
  sink = h1;
  source = h2;
  bundle = h3;
}

-- The numbers of the handoff behind an attempt
attempted :
    (deliver : ℕ → Bytes → Bool) (sink_fd : Option ℕ) (sink : Descriptor) (source_fd : Option ℕ)
    (source : Descriptor) (sockets : Bool) (s : HandoffServer) (limit : ℕ)
    → (sink.generation ≤ limit) × (source.generation ≤ limit) × (sink.bundle_id ≤ limit)
    → (s.last_sink ≤ limit) × (s.last_source ≤ limit) × (s.last_bundle ≤ limit)
    → let t = (publish_pair deliver sink_fd sink source_fd source sockets s).0 in
      (t.last_sink ≤ limit) × (t.last_source ≤ limit) × (t.last_bundle ≤ limit)
attempted deliver sink_fd sink source_fd source sockets s limit new old =
    let outcome = publish_pair-outcome deliver sink_fd sink source_fd source sockets s in
    elim (Result-cases (publish_pair deliver sink_fd sink source_fd source sockets s).1) [
      | inr (u, passed) ↦ let (h1, h2, h3, t) = outcome.0 passed in bounded t new
      | inl (e, failed) ↦ elim (outcome.1 e failed) [
        | inl kept ↦ bounded kept old
        | inr rest ↦ elim rest [ inl gone ↦ bounded gone old | inr half ↦ bounded half old ]
      ]
    ]
  where
    bounded :
        {t u : HandoffServer} {limit : ℕ}
        → t ≡ u
        → (u.last_sink ≤ limit) × (u.last_source ≤ limit) × (u.last_bundle ≤ limit)
        → (t.last_sink ≤ limit) × (t.last_source ≤ limit) × (t.last_bundle ≤ limit)
    bounded {limit = limit} e h =
        subst (λ x. (x.last_sink ≤ limit) × (x.last_source ≤ limit) × (x.last_bundle ≤ limit))
          (sym e) h

generation_given :
    (b : Broker) (g : ℕ)
    → b.last_gen ≤ g
    → g < 2 ^ 64
    → IsSafe b
    → IsSafe (record b { last_gen = g })
generation_given b g h fits w = record {
  owned = w.owned;
  single = w.single;
  below = w.below;
  last_gen = fits;
  sink = omega (arith, w.sink);
  source = omega (arith, w.source);
  bundle = omega (arith, w.bundle);
}

module _ (kernel : Kernel) (conn : ℕ) (sink source : PendingTransport) (token : ℕ)
    (correlated : Bool) where
  with_numbers :
      (g g' : ℕ) (b : Broker)
      → g ≤ b.last_gen
      → g' ≤ b.last_gen
      → IsSafe b
      → IsSafe (publish_with kernel conn sink source token correlated g g' b).0
  unfolding publish_with active_session_for_handoff descriptor_for_pending
  with_numbers g g' b h h' w =
      let first = descriptor_for_pending sink g g token correlated in
      let second = descriptor_for_pending source g' g token correlated in
      published_on
        (publish_pair kernel.deliver (some sink.fd) first (some source.fd) second kernel.sockets
          b.handoff).1
        conn (active_session_for_handoff b.next_session conn sink source first second kernel.now)
        (publish_pair kernel.deliver (some sink.fd) first (some source.fd) second kernel.sockets
          b.handoff).0
        b w refl
        (attempted kernel.deliver (some sink.fd) first (some source.fd) second kernel.sockets
          b.handoff b.last_gen (h, h', h) (w.sink, w.source, w.bundle))

  second_given :
      (r : Result PairError ℕ) (g : ℕ) (b : Broker)
      → b.last_gen < g
      → g < 2 ^ 64
      → ((g' : ℕ) → r ≡ ok g' → (g < g') × (g' < 2 ^ 64))
      → IsSafe b
      → IsSafe (publish_second r kernel conn sink source token correlated g b).0
  unfolding publish_second
  second_given (err e) g b h fits rises w = generation_given b g (omega arith) fits w
  second_given (ok g') g b h fits rises w =
      let (above, bounded) = rises g' refl in
      with_numbers g g' (record b { last_gen = g' }) (omega arith) (omega arith)
        (generation_given b g' (omega arith) bounded w)

  first_given :
      (r : Result PairError ℕ) (b : Broker)
      → ((g : ℕ) → r ≡ ok g → (b.last_gen < g) × (g < 2 ^ 64))
      → IsSafe b
      → IsSafe (publish_first r kernel conn sink source token correlated b).0
  unfolding publish_first
  first_given (err e) b rises w = w
  first_given (ok g) b rises w =
      let (above, bounded) = rises g refl in
      second_given (next_descriptor_generation kernel.second_clock g) g b above bounded
        (next_descriptor_generation-rises kernel.second_clock g bounded) w

  pub publish-IsSafe :
      (b : Broker) → IsSafe b → IsSafe (publish kernel conn sink source token correlated b).0
  unfolding publish publish_current
  publish-IsSafe b w = Keeps-IsSafe _ _ (return_pair-Keeps sink source _) (
      IsSafe-if_first ((b.require_token && not correlated) || not (pair_current conn sink source b))
        _ _ w
        (first_given (next_descriptor_generation kernel.first_clock b.last_gen) b
          (next_descriptor_generation-rises kernel.first_clock b.last_gen w.last_gen) w))
