-- ===== src/Sms/State/Effects.antt =====
-- What the operations do to the memory and to the file.
use callbridge_le_audio_serv.Prelude.{
  ℕ, zero, suc, ◌-◌, ◌≤◌, ◌≡◌, refl, ◌∙◌, inl, inr, Bool, true, false, List, [], ◌∷◌, ◌++◌, arith,
  Bytes, length, length-append, drop, Bool-cases, ltb, some, ok,
}
use callbridge_le_audio_serv.Sms.State.{
  Outbound, Store, valid_handle, has, save_locked, has_seen, mark_loop, evict, mark_seen_many,
  mark_seen, take_from, take_outbound,
}
use callbridge_le_audio_serv.Sms.State.Invariant.{
  evict-Handles, has-append, bytes_eq_refl, add_handle,
}
use callbridge_le_audio_serv.Sms.State.History.{WellFormed}

-- An item is handed out only when the file no longer holds it, and the one that waited longest is
-- handed out first.
pub take_outbound-persisted :
    (saves : Bool) (s : Store) {item : Outbound}
    → (take_outbound saves s).1 ≡ ok (some item)
    → let s' = (take_outbound saves s).0 in
      (rest : List Outbound) × (s.state.outbound ≡ item ∷ rest)
      × (s'.state.outbound ≡ rest)
      × (s'.disk ≡ s'.state)
unfolding take_outbound take_from save_locked
take_outbound-persisted saves s e = taken saves s.state.outbound s e
  where
    taken :
        (saves : Bool) (items : List Outbound) (s : Store) {item : Outbound}
        → (take_from saves items s).1 ≡ ok (some item)
        → let s' = (take_from saves items s).0 in
          (rest : List Outbound) × (items ≡ item ∷ rest)
          × (s'.state.outbound ≡ rest)
          × (s'.disk ≡ s'.state)
    taken saves [] s e = absurd (cc)
    taken true (i ∷ rest) s e = (rest, cc, refl, refl)
    taken false (i ∷ rest) s e = absurd (cc)

has-drop_last :
    (n : ℕ) (h : Bytes) (hs : List Bytes) → n ≤ length hs → has h (drop n (hs ++ (h ∷ []))) ≡ true
unfolding has
has-drop_last zero h hs l = ground (arith, has-append h hs (h ∷ []), bytes_eq_refl h)
has-drop_last (suc n) h [] l = absurd (omega arith)
has-drop_last (suc n) h (x ∷ hs) l = has-drop_last n h hs (omega arith)

evict-newest :
    (h : Bytes) (handles seen : List Bytes)
    → length handles ≤ 4096
    → has h (evict (handles ++ (h ∷ [])) seen).0 ≡ true
unfolding evict
evict-newest h handles seen l =
    let n = length (handles ++ (h ∷ [])) - 4096 in
    let size = length-append {0} handles (h ∷ []) in
    elim (Bool-cases (ltb 0 n)) [
      | inl many ↦ rw many (has-drop_last n h handles (omega (arith, size)))
      | inr few ↦ rw few (has-drop_last 0 h handles (omega arith))
    ]

evicted_newest :
    (h : Bytes) (s : Store)
    → WellFormed s
    → valid_handle h ≡ true
    → has h s.seen ≡ false
    → has h (evict (s.state.seen_handles ++ (h ∷ [])) (h ∷ s.seen)).1 ≡ true
evicted_newest h s w valid new =
    let grown = add_handle h s.state.seen_handles s.seen w.handles valid new in
    let (kept, bounded) = evict-Handles (s.state.seen_handles ++ (h ∷ [])) (h ∷ s.seen) grown in
    kept.agree h ∙ evict-newest h s.state.seen_handles (h ∷ s.seen) w.bounded

-- A handle that was marked without an error is seen then, whatever had to go for it.
pub mark_seen-has_seen :
    (saves : Bool) (h : Bytes) (s : Store)
    → WellFormed s
    → (mark_seen saves h s).1 ≡ ok tt
    → has_seen h (mark_seen saves h s).0 ≡ true
unfolding mark_seen mark_seen_many mark_loop has_seen save_locked
mark_seen-has_seen saves h s w e = elim (Bool-cases (valid_handle h)) [
  | inr bad ↦ absurd (ground arith)
  | inl valid ↦ elim (Bool-cases (has h s.seen)) [
    | inl again ↦ ground arith
    | inr new ↦ let here = evicted_newest h s w valid new in ground arith
  ]
]
