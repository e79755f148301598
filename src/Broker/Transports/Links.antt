-- ===== src/Broker/Transports/Links.antt =====
-- Which of two linked transports acquires both, and which paths are released.
use callbridge_le_audio_serv.Prelude.{
  ℕ, ◌<◌, ◌^◌, ◌≡◌, ◌≢◌, refl, Bool, true, false, not, ◌||◌, ◌==◌, List, [], ◌∷◌, arith, Bytes,
  bytes_eq_iff, length, All, Option, none, some, Bool-cases, inl, inr, ok, Ensures,
}
use callbridge_le_audio_serv.Broker.Transports.{
  PendingTransport, bytes_lt, linked_acquire_plan, contains_object_path, pending_release_path,
  release_paths_from, pending_release_paths, next_descriptor_generation,
}

bytes_lt-flip : (xs ys : Bytes) → xs ≢ ys → bytes_lt ys xs ≡ not (bytes_lt xs ys)
unfolding bytes_lt
bytes_lt-flip [] [] h = absurd (h refl)
bytes_lt-flip [] (y ∷ ys) h = refl
bytes_lt-flip (x ∷ xs) [] h = refl
bytes_lt-flip (x ∷ xs) (y ∷ ys) h = elim (Bool-cases (x == y)) [
  | inl same ↦
      let heads : x ≡ y = ground arith in
      ground (arith, bytes_lt-flip xs ys (λ tails. h (λ i. heads i ∷ tails i)))
  | inr other ↦ ground arith
]

-- Of two transports that link each other exactly one is the leader, which acquires both.
pub linked_acquire_plan-leader :
    (path peer : Bytes)
    → length path ≢ 0
    → length peer ≢ 0
    → path ≢ peer
    → (leads : Bool) × (linked_acquire_plan path (peer ∷ [])
        ≡ ok (record { peer = peer; linked = true; leader = leads }))
      × (linked_acquire_plan peer (path ∷ [])
          ≡ ok (record { peer = path; linked = true; leader = not leads }))
unfolding linked_acquire_plan
linked_acquire_plan-leader path peer h1 h2 differs = (
  bytes_lt path peer,
  ground (arith, bytes_eq_iff peer path),
  ground (arith, bytes_eq_iff path peer, bytes_lt-flip path peer differs),
)

-- A list in which no path stands twice.
abbrev pub NoRepeat : List Bytes → Type 0
NoRepeat [] = Unit
NoRepeat (path ∷ paths) = (contains_object_path paths path ≡ false) × NoRepeat paths

-- A path can be released, and is not among those listed before.
record IsFresh (seen : List Bytes) (path : Bytes) : Type 0 where
  named : length path ≢ 0
  unseen : contains_object_path seen path ≡ false

IsFresh-tail :
    (seen : List Bytes) (path : Bytes) (paths : List Bytes)
    → All (IsFresh (path ∷ seen)) paths
    → All (IsFresh seen) paths × (contains_object_path paths path ≡ false)
unfolding contains_object_path
IsFresh-tail seen path [] h = (tt, refl)
IsFresh-tail seen path (p ∷ paths) h =
    let (rest, absent) = IsFresh-tail seen path paths h.1 in
    let unseen = h.0.unseen in
    (
      (record { named = h.0.named; unseen = ground arith }, rest),
      ground (arith, absent, bytes_eq_iff path p, bytes_eq_iff p path),
    )

release_paths_from-NoRepeat :
    (seen : List Bytes) (ts : List (Option PendingTransport))
    → All (IsFresh seen) (release_paths_from seen ts) × NoRepeat (release_paths_from seen ts)
unfolding release_paths_from
release_paths_from-NoRepeat seen [] = (tt, tt)
release_paths_from-NoRepeat seen (none ∷ ts) = release_paths_from-NoRepeat seen ts
release_paths_from-NoRepeat seen (some held ∷ ts) =
    let path = pending_release_path held in
    elim (Bool-cases (length path == 0 || contains_object_path seen path)) [
      | inl skipped ↦ rw skipped (release_paths_from-NoRepeat seen ts)
      | inr listed ↦
          let (fresh, distinct) = release_paths_from-NoRepeat (path ∷ seen) ts in
          let (rest, absent) = IsFresh-tail seen path _ fresh in
          rw listed
            ((record { named = ground arith; unseen = ground arith }, rest), (absent, distinct))
    ]

-- The paths that are released for a pair have no repetition: two directions that share one
-- descriptor are released once. None of them is empty.
pub pending_release_paths-NoRepeat :
    (ts : List (Option PendingTransport))
    → NoRepeat (pending_release_paths ts) × All (λ path. length path ≢ 0) (pending_release_paths ts)
unfolding pending_release_paths
pending_release_paths-NoRepeat ts =
    let (fresh, distinct) = release_paths_from-NoRepeat [] ts in (distinct, named _ fresh)
  where
    named : (paths : List Bytes) → All (IsFresh []) paths → All (λ path. length path ≢ 0) paths
    named [] h = tt
    named (p ∷ paths) h = (h.0.named, named paths h.1)

-- A generation that is given out is above the last one and fits 64 bits.
pub next_descriptor_generation-rises :
    (clock : Option (ℕ × ℕ)) (last : ℕ)
    → last < 2 ^ 64
    → Ensures
        (λ generation. (last < generation) × (generation < 2 ^ 64))
        (next_descriptor_generation clock last)
unfolding next_descriptor_generation
next_descriptor_generation-rises none last h g e = absurd (cc)
next_descriptor_generation-rises (some (seconds, nanoseconds)) last h g e = ground arith
