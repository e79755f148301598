-- ===== src/Sms/State/Invariant.antt =====
-- What holds of the handles between two operations.
use callbridge_le_audio_serv.Prelude.{
  ℕ, zero, suc, ◌-◌, ◌≤◌, ◌≡◌, refl, sym, ap, ◌∙◌, subst, inl, inr, Bool, true, false, not, ◌&&◌,
  ◌||◌, List, [], ◌∷◌, ◌++◌, arith, All, All-append, All-drop, Bytes, bytes_eq, bytes_eq_iff,
  length, length-drop, take, drop, take-append-drop, all, Bool-cases, ltb,
}
use callbridge_le_audio_serv.Sms.State.{
  valid_handle, has, delete, delete_all, rebuild_loop, mark_loop, evict,
}

-- No handle stands twice.
abbrev pub Distinct : List Bytes → Type 0
Distinct [] = Unit
Distinct (h ∷ hs) = (has h hs ≡ false) × Distinct hs

-- The set has the members of the list.
abbrev pub Agree : List Bytes → List Bytes → Type 0
Agree handles seen = (h : Bytes) → has h seen ≡ has h handles

pub record Handles (handles seen : List Bytes) : Type 0 where
  pub agree : Agree handles seen
  pub distinct : Distinct handles
  pub valid : All (λ h. valid_handle h ≡ true) handles

pub bytes_eq_refl : (h : Bytes) → bytes_eq h h ≡ true
bytes_eq_refl h = (bytes_eq_iff h h).1 refl

bytes_eq_sym : (a b : Bytes) → bytes_eq a b ≡ bytes_eq b a
unfolding bytes_eq
bytes_eq_sym [] [] = refl
bytes_eq_sym [] (y ∷ ys) = refl
bytes_eq_sym (x ∷ xs) [] = refl
bytes_eq_sym (x ∷ xs) (y ∷ ys) = ground (arith, bytes_eq_sym xs ys)

pub has-append : (h : Bytes) (xs ys : List Bytes) → has h (xs ++ ys) ≡ (has h xs || has h ys)
unfolding has
has-append h [] ys = refl
has-append h (x ∷ xs) ys = ground (arith, has-append h xs ys)

has-delete :
    (h old : Bytes) (seen : List Bytes)
    → has h (delete old seen) ≡ (has h seen && not (bytes_eq old h))
unfolding has delete
has-delete h old [] = refl
has-delete h old (x ∷ seen) = elim (Bool-cases (bytes_eq x old)) [
  | inl same ↦
      let e : x ≡ old = (bytes_eq_iff x old).0 same in
      ground (arith, has-delete h old seen, ap (λ y. bytes_eq y h) e)
  | inr other ↦ elim (Bool-cases (bytes_eq x h)) [
    | inr off ↦ ground (arith, has-delete h old seen)
    | inl here ↦
        let e : x ≡ h = (bytes_eq_iff x h).0 here in
        let f : bytes_eq old h ≡ false =
          bytes_eq_sym old h ∙ ap (λ y. bytes_eq y old) (sym e) ∙ other in
        ground (arith, has-delete h old seen)
  ]
]

has-delete_all :
    (h : Bytes) (olds seen : List Bytes)
    → has h (delete_all olds seen) ≡ (has h seen && not (has h olds))
unfolding has delete_all
has-delete_all h [] seen = ground arith
has-delete_all h (old ∷ olds) seen =
    ground (arith, has-delete_all h olds (delete old seen), has-delete h old seen)

Distinct-apart :
    (h : Bytes) (xs ys : List Bytes) → Distinct (xs ++ ys) → has h xs ≡ true → has h ys ≡ false
unfolding has
Distinct-apart h [] ys d e = absurd (cc)
Distinct-apart h (x ∷ xs) ys d e = elim (Bool-cases (bytes_eq x h)) [
  | inl here ↦
      let same : x ≡ h = (bytes_eq_iff x h).0 here in
      ground (arith, has-append h xs ys, subst (λ y. has y (xs ++ ys) ≡ false) same d.0)
  | inr off ↦ Distinct-apart h xs ys d.1 (rw off at e)
]

Distinct-drop : (n : ℕ) (hs : List Bytes) → Distinct hs → Distinct (drop n hs)
Distinct-drop zero hs d = d
Distinct-drop (suc n) [] d = tt
Distinct-drop (suc n) (h ∷ hs) d = Distinct-drop n hs d.1

Distinct-add :
    (h : Bytes) (hs : List Bytes) → has h hs ≡ false → Distinct hs → Distinct (hs ++ (h ∷ []))
unfolding has
Distinct-add h [] e d = (refl, tt)
Distinct-add h (x ∷ hs) e d = (
  ground (arith, has-append x hs (h ∷ []), bytes_eq_sym x h),
  Distinct-add h hs (ground arith) d.1,
)

-- One more handle.
pub add_handle :
    (h : Bytes) (handles seen : List Bytes)
    → Handles handles seen
    → valid_handle h ≡ true
    → has h seen ≡ false
    → Handles (handles ++ (h ∷ [])) (h ∷ seen)
unfolding has
add_handle h handles seen w v new = record {
  agree = λ x. ground (arith, has-append x handles (h ∷ []), w.agree x);
  distinct = Distinct-add h handles (sym (w.agree h) ∙ new) w.distinct;
  valid = All-append (λ y. valid_handle y ≡ true) handles (h ∷ []) w.valid (v, tt);
}

pub rebuild_loop-Handles :
    (hs clean seen : List Bytes)
    → Handles clean seen
    → let r = rebuild_loop hs clean seen in Handles r.0 r.1
unfolding rebuild_loop
rebuild_loop-Handles [] clean seen w = w
rebuild_loop-Handles (h ∷ hs) clean seen w = elim (Bool-cases (valid_handle h)) [
  | inr bad ↦ rw bad (rebuild_loop-Handles hs clean seen w)
  | inl good ↦ elim (Bool-cases (has h seen)) [
    | inl again ↦ rw (good, again) (rebuild_loop-Handles hs clean seen w)
    | inr new ↦
        rw (good, new)
          (rebuild_loop-Handles hs (clean ++ (h ∷ [])) (h ∷ seen)
            (add_handle h clean seen w good new))
  ]
]

pub mark_loop-Handles :
    (hs handles seen : List Bytes) (changed : Bool)
    → all valid_handle hs ≡ true
    → Handles handles seen
    → let r = mark_loop hs handles seen changed in Handles r.0 r.1
unfolding mark_loop
mark_loop-Handles [] handles seen changed v w = w
mark_loop-Handles (h ∷ hs) handles seen changed v w = elim (Bool-cases (has h seen)) [
  | inl again ↦ rw again (mark_loop-Handles hs handles seen changed (ground arith) w)
  | inr new ↦ rw new (
      mark_loop-Handles hs (handles ++ (h ∷ [])) (h ∷ seen) true (ground arith)
        (add_handle h handles seen w (ground arith) new))
]

-- What is evicted leaves the set, and nothing else does.
evicted-Agree :
    (olds handles seen : List Bytes)
    → Agree (olds ++ handles) seen
    → Distinct (olds ++ handles)
    → Agree handles (delete_all olds seen)
evicted-Agree olds handles seen a d x = elim (Bool-cases (has x olds)) [
  | inl old ↦ ground (arith, has-delete_all x olds seen, Distinct-apart x olds handles d old)
  | inr kept ↦ ground (arith, has-delete_all x olds seen, a x, has-append x olds handles)
]

pub evict-Handles :
    (handles seen : List Bytes)
    → Handles handles seen
    → let r = evict handles seen in Handles r.0 r.1 × (length r.0 ≤ 4096)
unfolding evict
evict-Handles handles seen w =
    let extra = length handles - 4096 in
    let parts = take-append-drop extra handles in
    elim (Bool-cases (ltb 0 extra)) [
      | inr few ↦ rw few (w, ground arith)
      | inl many ↦ rw many (
        record {
          agree =
              evicted-Agree (take extra handles) (drop extra handles) seen
                (subst (λ hs. Agree hs seen) (sym parts) w.agree)
                (subst Distinct (sym parts) w.distinct);
          distinct = Distinct-drop extra handles w.distinct;
          valid = All-drop (λ h. valid_handle h ≡ true) extra handles w.valid;
        },
        omega (arith, length-drop extra handles),
      )
    ]
