-- ===== src/Handoff/Publish.antt =====
-- What `PublishPair` sends, and when.
use callbridge_le_audio_serv.Prelude.{
  ℕ, ◌<◌, ◌≡◌, ◌≢◌, ◌⊎◌, refl, Bool, true, false, not, ◌||◌, ◌==◌, leb, [], ◌∷◌, ◌++◌, arith, Bytes,
  length, Option, none, some, Bool-cases, Result-cases, inl, inr, ok, err, >>=-eq-ok, fail_if,
  fail_if-passes,
}
use callbridge_le_audio_serv.Handoff.{
  Descriptor, Error, validate_descriptor, validate_descriptor_pair, write_descriptor,
  bad_descriptors, stale_generation,
}
use callbridge_le_audio_serv.Handoff.Server.{
  HandoffServer, check_pair, publish_pair, send_pair, send_descriptor, bad_fds,
}

pub check_pair-passes :
    (sink source : Descriptor) (fd fd' peer : ℕ) (s : HandoffServer)
    → validate_descriptor_pair sink source ≡ ok tt
    → validate_descriptor sink ≡ ok tt
    → validate_descriptor source ≡ ok tt
    → fd ≢ fd'
    → s.last_sink < sink.generation
    → s.last_source < source.generation
    → s.last_bundle < sink.bundle_id
    → s.client ≡ some peer
    → check_pair (some fd) sink (some fd') source true s ≡ ok tt
unfolding check_pair
check_pair-passes sink source fd fd' peer s pair first second distinct h1 h2 h3 client =
    rw (pair, first, second)
      (fail_if-passes (fd == fd') bad_descriptors (ground arith) (
        fail_if-passes false bad_descriptors refl (
          fail_if-passes
            (leb sink.generation s.last_sink
              || leb source.generation s.last_source
              || leb sink.bundle_id s.last_bundle)
            stale_generation (ground arith) (ground (arith, client)))))

-- Without the lifecycle sockets a pair that is valid is refused.
pub check_pair-sockets :
    (sink source : Descriptor) (fd fd' : ℕ) (s : HandoffServer)
    → validate_descriptor_pair sink source ≡ ok tt
    → validate_descriptor sink ≡ ok tt
    → validate_descriptor source ≡ ok tt
    → fd ≢ fd'
    → check_pair (some fd) sink (some fd') source false s ≡ err bad_descriptors
unfolding check_pair
check_pair-sockets sink source fd fd' s pair first second distinct =
    let other : (fd == fd') ≡ false = ground arith in rw (pair, first, second, other) refl

check_pair-fresh :
    (sink_fd source_fd : Option ℕ) (sink source : Descriptor) (sockets : Bool) (s : HandoffServer)
    → check_pair sink_fd sink source_fd source sockets s ≡ ok tt
    → (s.last_sink < sink.generation)
      × (s.last_source < source.generation)
      × (s.last_bundle < sink.bundle_id)
unfolding check_pair
check_pair-fresh sink_fd source_fd sink source sockets s e =
    let (_, _, e1) = >>=-eq-ok (validate_descriptor_pair sink source) _ e in
    let (_, _, e2) = >>=-eq-ok (validate_descriptor sink) _ e1 in
    let (_, _, e3) = >>=-eq-ok (validate_descriptor source) _ e2 in
    let (_, _, e4) = >>=-eq-ok (fail_if (bad_fds sink_fd source_fd) bad_descriptors) _ e3 in
    let (_, _, e5) = >>=-eq-ok (fail_if (not sockets) bad_descriptors) _ e4 in
    (ground arith, ground arith, ground arith)

-- The rest of `PublishPair` behind its checks
module _ (deliver : ℕ → Bytes → Bool) (sink_fd : Option ℕ) (sink : Descriptor)
    (source_fd : Option ℕ) (source : Descriptor) (sockets : Bool) (s : HandoffServer) where
  abbrev owned : Descriptor
  owned = record sink { lifecycle_owned = true }

  abbrev plain : Descriptor
  plain = record source { lifecycle_owned = false }

  pub publish_pair-stops :
      {e : Error}
      → check_pair sink_fd owned source_fd plain sockets s ≡ err e
      → publish_pair deliver sink_fd sink source_fd source sockets s ≡ (s, err e)
  unfolding publish_pair
  publish_pair-stops failed = rw (failed, publish_pair) refl

  pub publish_pair-sends :
      check_pair sink_fd owned source_fd plain sockets s ≡ ok tt
      → publish_pair deliver sink_fd sink source_fd source sockets s
        ≡ send_pair deliver owned plain s
  unfolding publish_pair
  publish_pair-sends passed = rw (passed, publish_pair) refl

send_pair-outcome :
    (deliver : ℕ → Bytes → Bool) (sink source : Descriptor) (s : HandoffServer)
    → (s.last_sink < sink.generation)
      × (s.last_source < source.generation)
      × (s.last_bundle < sink.bundle_id)
    → let r = send_pair deliver sink source s in
      (r.1 ≡ ok tt
        → (s.last_sink < sink.generation)
          × (s.last_source < source.generation)
          × (s.last_bundle < sink.bundle_id)
          × (r.0 ≡ record s {
            sent = (s.sent ++ (write_descriptor sink ∷ [])) ++ (write_descriptor source ∷ []);
            last_sink = sink.generation;
            last_source = source.generation;
            last_bundle = sink.bundle_id;
          }))
      × ((e : Error)
          → r.1 ≡ err e
          → (r.0 ≡ s)
            ⊎ (r.0 ≡ record s { client = none })
            ⊎ (r.0 ≡ record s { client = none; sent = s.sent ++ (write_descriptor sink ∷ []) }))
unfolding send_pair send_descriptor
send_pair-outcome deliver sink source s h =
    elim (Bool-cases (deliver (length s.sent) (write_descriptor sink))) [
      | inl first ↦
          elim (Bool-cases
            (deliver (length (s.sent ++ (write_descriptor sink ∷ []))) (write_descriptor source))) [
              | inl second ↦ (ground (arith, h), ground arith)
              | inr short ↦ (ground arith, ground arith)
            ]
      | inr short ↦ (ground arith, ground arith)
    ]

-- A pair that is published is new in all its numbers, both packets went out in order and whole, and
-- the numbers are kept. A pair that is not published leaves the numbers, and at most one packet of
-- it went out, after which the peer is disconnected.
pub publish_pair-outcome :
    (deliver : ℕ → Bytes → Bool) (sink_fd : Option ℕ) (sink : Descriptor) (source_fd : Option ℕ)
    (source : Descriptor) (sockets : Bool) (s : HandoffServer)
    → let a = record sink { lifecycle_owned = true } in
      let b = record source { lifecycle_owned = false } in
      let r = publish_pair deliver sink_fd sink source_fd source sockets s in
      (r.1 ≡ ok tt
        → (s.last_sink < sink.generation)
          × (s.last_source < source.generation)
          × (s.last_bundle < sink.bundle_id)
          × (r.0 ≡ record s {
            sent = (s.sent ++ (write_descriptor a ∷ [])) ++ (write_descriptor b ∷ []);
            last_sink = sink.generation;
            last_source = source.generation;
            last_bundle = sink.bundle_id;
          }))
      × ((e : Error)
          → r.1 ≡ err e
          → (r.0 ≡ s)
            ⊎ (r.0 ≡ record s { client = none })
            ⊎ (r.0 ≡ record s { client = none; sent = s.sent ++ (write_descriptor a ∷ []) }))
publish_pair-outcome deliver sink_fd sink source_fd source sockets s =
    let a = record sink { lifecycle_owned = true } in
    let b = record source { lifecycle_owned = false } in
    elim (Result-cases (check_pair sink_fd a source_fd b sockets s)) [
      | inl (e, failed) ↦
          rw (publish_pair-stops deliver sink_fd sink source_fd source sockets s failed)
            (λ h. absurd (cc), λ e' h. inl refl)
      | inr (_, passed) ↦
          rw (publish_pair-sends deliver sink_fd sink source_fd source sockets s passed) (
            send_pair-outcome deliver a b s
              (check_pair-fresh sink_fd source_fd a b sockets s passed))
    ]
