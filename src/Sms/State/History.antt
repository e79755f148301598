-- ===== src/Sms/State/History.antt =====
-- The operations on the state, and sequences of them.
use callbridge_le_audio_serv.Prelude.{
  ◌+◌, ◌≤◌, ◌<◌, ◌≡◌, refl, ap, inl, inr, ◌⊎◌, Bool, true, false, List, [], ◌∷◌, ◌++◌, arith, All,
  All-append, Bytes, length, length-append, all, some,
}
use callbridge_le_audio_serv.Sms.State.{
  Outbound, DiskState, Store, valid_handle, valid_outbound, rebuild_loop, rebuild_seen, open_loaded,
  save_locked, set_initialized, mark_loop, evict, mark_seen_many, add_outbound, take_from,
  take_outbound,
}
use callbridge_le_audio_serv.Sms.State.Undo.{
  unmark-save_locked, unqueue-save_locked, requeue-save_locked,
}
use callbridge_le_audio_serv.Sms.State.Invariant.{
  Handles, rebuild_loop-Handles, mark_loop-Handles, evict-Handles,
}

-- What holds of the state between two operations.
pub record WellFormed (s : Store) : Type 0 where
  pub handles : Handles s.state.seen_handles s.seen
  pub bounded : length s.state.seen_handles ≤ 4096
  pub queue_bounded : length s.state.outbound ≤ 128
  pub queue_valid : All (λ item. valid_outbound item ≡ true) s.state.outbound

-- The operations, each with whether its save goes through.
pub data Op : Type 0 where
  initialize : Bool → Op
  mark : Bool → List Bytes → Op
  add : Bool → Outbound → Op
  take_first : Bool → Op

unfoldable pub step : Op → Store → Store
step (initialize saves) s = (set_initialized saves s).0
step (mark saves handles) s = (mark_seen_many saves handles s).0
step (add saves item) s = (add_outbound saves item s).0
step (take_first saves) s = (take_outbound saves s).0

unfoldable pub run : List Op → Store → Store
run [] s = s
run (op ∷ ops) s = run ops (step op s)

marked_store : Store → List Bytes → List Bytes → Store
marked_store s handles seen = record s {
  state = record s.state { seen_handles = handles };
  seen = seen;
  disk = record s.state { seen_handles = handles };
}

-- `MarkSeenMany` leaves the store as it is, or it saves what it marked.
mark_seen_many-cases :
    (saves : Bool) (handles : List Bytes) (s : Store)
    → let m = mark_loop handles s.state.seen_handles s.seen false in
      let r = evict m.0 m.1 in
      ((mark_seen_many saves handles s).0 ≡ s)
      ⊎ ((all valid_handle handles ≡ true)
          × ((mark_seen_many saves handles s).0 ≡ marked_store s r.0 r.1))
unfolding mark_seen_many marked_store save_locked
mark_seen_many-cases true handles s = ground arith
mark_seen_many-cases false handles s =
    let m = mark_loop handles s.state.seen_handles s.seen false in
    let r = evict m.0 m.1 in ground (arith, unmark-save_locked s r.0 r.1)

add_outbound-cases :
    (saves : Bool) (item : Outbound) (s : Store)
    → ((add_outbound saves item s).0 ≡ s)
      ⊎ ((valid_outbound item ≡ true)
          × (length s.state.outbound < 128)
          × ((add_outbound saves item s).0.state
              ≡ record s.state { outbound = s.state.outbound ++ (item ∷ []) })
          × ((add_outbound saves item s).0.seen ≡ s.seen))
unfolding add_outbound save_locked
add_outbound-cases true item s = ground arith
add_outbound-cases false item s = ground (arith, unqueue-save_locked s item)

set_initialized-same :
    (saves : Bool) (s : Store)
    → let s' = (set_initialized saves s).0 in
      (s'.state.seen_handles ≡ s.state.seen_handles)
      × (s'.state.outbound ≡ s.state.outbound)
      × (s'.seen ≡ s.seen)
unfolding set_initialized save_locked
set_initialized-same saves s = ground arith

take_from-cases :
    (saves : Bool) (items : List Outbound) (s : Store)
    → s.state.outbound ≡ items
    → ((take_from saves items s).0 ≡ s)
      ⊎ ((item : Outbound) × (rest : List Outbound) × (items ≡ item ∷ rest)
          × ((take_from saves items s).0.state ≡ record s.state { outbound = rest })
          × ((take_from saves items s).0.seen ≡ s.seen))
unfolding take_from save_locked
take_from-cases saves [] s e = inl refl
take_from-cases true (item ∷ rest) s e = inr (item, rest, refl, refl, refl)
take_from-cases false (item ∷ rest) s e = inl (requeue-save_locked s (item ∷ rest) rest e)

-- The parts that the invariant is about.
parts-WellFormed :
    (s : Store) (handles seen : List Bytes) (outbound : List Outbound)
    → s.state.seen_handles ≡ handles
    → s.seen ≡ seen
    → s.state.outbound ≡ outbound
    → Handles handles seen
    → length handles ≤ 4096
    → length outbound ≤ 128
    → All (λ item. valid_outbound item ≡ true) outbound
    → WellFormed s
parts-WellFormed s handles seen outbound h n o w b q v = record {
  handles = rw (h, n) w;
  bounded = rw h b;
  queue_bounded = rw o q;
  queue_valid = rw o v;
}

set_initialized-WellFormed :
    (saves : Bool) (s : Store) → WellFormed s → WellFormed (set_initialized saves s).0
set_initialized-WellFormed saves s w =
    let (handles, outbound, seen) = set_initialized-same saves s in
    parts-WellFormed (set_initialized saves s).0 s.state.seen_handles s.seen s.state.outbound
      handles seen outbound w.handles w.bounded w.queue_bounded w.queue_valid

mark_seen_many-WellFormed :
    (saves : Bool) (handles : List Bytes) (s : Store)
    → WellFormed s
    → WellFormed (mark_seen_many saves handles s).0
unfolding marked_store
mark_seen_many-WellFormed saves handles s w =
    let m = mark_loop handles s.state.seen_handles s.seen false in
    elim (mark_seen_many-cases saves handles s) [
      | inl same ↦ rw same w
      | inr (valid, marked) ↦
          let grown = mark_loop-Handles handles s.state.seen_handles s.seen false valid w.handles in
          let (kept, bounded) = evict-Handles m.0 m.1 grown in
          parts-WellFormed (mark_seen_many saves handles s).0 (evict m.0 m.1).0 (evict m.0 m.1).1
            s.state.outbound (ap (λ (x : Store). x.state.seen_handles) marked)
            (ap (λ (x : Store). x.seen) marked) (ap (λ (x : Store). x.state.outbound) marked) kept
            bounded w.queue_bounded w.queue_valid
    ]

add_outbound-WellFormed :
    (saves : Bool) (item : Outbound) (s : Store)
    → WellFormed s
    → WellFormed (add_outbound saves item s).0
add_outbound-WellFormed saves item s w = elim (add_outbound-cases saves item s) [
  | inl same ↦ rw same w
  | inr (valid, room, state, seen) ↦
      parts-WellFormed (add_outbound saves item s).0 s.state.seen_handles s.seen
        (s.state.outbound ++ (item ∷ [])) (ap (λ (x : DiskState). x.seen_handles) state) seen
        (ap (λ (x : DiskState). x.outbound) state) w.handles w.bounded
        (omega (arith, length-append {0} s.state.outbound (item ∷ [])))
        (All-append (λ i. valid_outbound i ≡ true) s.state.outbound (item ∷ []) w.queue_valid
          (valid, tt))
]

take_outbound-WellFormed :
    (saves : Bool) (s : Store) → WellFormed s → WellFormed (take_outbound saves s).0
unfolding take_outbound
take_outbound-WellFormed saves s w = elim (take_from-cases saves s.state.outbound s refl) [
  | inl same ↦ rw same w
  | inr (item, rest, queue, state, seen) ↦
      let whole = rw queue at w.queue_bounded in
      let valid = rw queue at w.queue_valid in
      parts-WellFormed (take_outbound saves s).0 s.state.seen_handles s.seen rest
        (ap (λ (x : DiskState). x.seen_handles) state) seen
        (ap (λ (x : DiskState). x.outbound) state) w.handles w.bounded (omega arith) valid.1
]

step-WellFormed : (op : Op) (s : Store) → WellFormed s → WellFormed (step op s)
unfolding step
step-WellFormed (initialize saves) s w = set_initialized-WellFormed saves s w
step-WellFormed (mark saves handles) s w = mark_seen_many-WellFormed saves handles s w
step-WellFormed (add saves item) s w = add_outbound-WellFormed saves item s w
step-WellFormed (take_first saves) s w = take_outbound-WellFormed saves s w

run-WellFormed_from : (ops : List Op) (s : Store) → WellFormed s → WellFormed (run ops s)
unfolding run
run-WellFormed_from [] s w = w
run-WellFormed_from (op ∷ ops) s w = run-WellFormed_from ops (step op s) (step-WellFormed op s w)

all_valid :
    (items : List Outbound)
    → all valid_outbound items ≡ true
    → All (λ item. valid_outbound item ≡ true) items
all_valid [] e = tt
all_valid (item ∷ items) e = (ground arith, all_valid items (ground arith))

rebuild_loop-length :
    (hs clean seen : List Bytes) → length (rebuild_loop hs clean seen).0 ≤ length clean + length hs
unfolding rebuild_loop
rebuild_loop-length [] clean seen = omega arith
rebuild_loop-length (h ∷ hs) clean seen = ground (
  arith,
  rebuild_loop-length hs clean seen,
  rebuild_loop-length hs (clean ++ (h ∷ [])) (h ∷ seen),
  length-append {0} clean (h ∷ []),
)

open_loaded-ok :
    (disk : DiskState) {s : Store}
    → open_loaded disk ≡ some s
    → (length disk.seen_handles ≤ 4096)
      × (length disk.outbound ≤ 128)
      × (all valid_outbound disk.outbound ≡ true)
      × (s.state ≡ record disk { seen_handles = (rebuild_seen disk.seen_handles).0 })
      × (s.seen ≡ (rebuild_seen disk.seen_handles).1)
unfolding open_loaded
open_loaded-ok disk e = ground arith

open_loaded-WellFormed : (disk : DiskState) {s : Store} → open_loaded disk ≡ some s → WellFormed s
unfolding rebuild_seen
open_loaded-WellFormed disk {s} e =
    let (few, short, valid, state, seen) = open_loaded-ok disk e in
    let (clean, set) = rebuild_seen disk.seen_handles in
    parts-WellFormed s clean set disk.outbound (ap (λ (x : DiskState). x.seen_handles) state) seen
      (ap (λ (x : DiskState). x.outbound) state)
      (rebuild_loop-Handles disk.seen_handles [] []
        (record { agree = λ h. refl; distinct = tt; valid = tt }))
      (omega (arith, rebuild_loop-length disk.seen_handles [] [])) short
      (all_valid disk.outbound valid)

-- A file that is read, and then whatever is marked, queued and taken, in any order and with any
-- saves that fail: the set has the handles of the list, each of them valid and there once, at most
-- 4096; at most 128 items wait, all of them valid.
pub run-open_loaded :
    (disk : DiskState) (ops : List Op) {s : Store}
    → open_loaded disk ≡ some s
    → WellFormed (run ops s)
run-open_loaded disk ops {s} e = run-WellFormed_from ops s (open_loaded-WellFormed disk e)
