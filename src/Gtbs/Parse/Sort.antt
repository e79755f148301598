-- ===== src/Gtbs/Parse/Sort.antt =====
-- Sorting calls by their index.
use callbridge_le_audio_serv.Prelude.{
  ℕ, ◌<◌, ◌≢◌, inl, inr, [], ◌∷◌, List, arith, All, leb, leb→le, Bool-cases,
}
use mathlib.Core.List.{Perm}
use mathlib.Core.List.Perm
use callbridge_le_audio_serv.Gtbs.Call.{Call}
use callbridge_le_audio_serv.Gtbs.Parse.{insert_call, sort_calls}

-- The indices rise, so no index stands twice.
abbrev pub Rising : List Call → Type 0
Rising [] = Unit
Rising (c ∷ cs) = All (λ (d : Call). c.index < d.index) cs × Rising cs

-- No index stands twice, in a list in any order.
abbrev pub Distinct : List Call → Type 0
Distinct [] = Unit
Distinct (c ∷ cs) = All (λ (d : Call). c.index ≢ d.index) cs × Distinct cs

pub insert_call-perm : (c : Call) (ds : List Call) → Perm (insert_call c ds) (c ∷ ds)
unfolding insert_call
insert_call-perm c [] = Perm.refl (c ∷ [])
insert_call-perm c (d ∷ ds) = elim (Bool-cases (leb c.index d.index)) [
  | inl le ↦ rw le (Perm.refl (c ∷ d ∷ ds))
  | inr gt ↦ rw gt (Perm.trans (Perm.cons d (insert_call-perm c ds)) (Perm.swap c d ds))
]

-- Sorting keeps the calls.
pub sort_calls-perm : (cs : List Call) → Perm (sort_calls cs) cs
unfolding sort_calls
sort_calls-perm [] = Perm.refl []
sort_calls-perm (c ∷ cs) =
    Perm.trans (insert_call-perm c (sort_calls cs)) (Perm.cons c (sort_calls-perm cs))

module _ (P : Call → Type 0) where
  All-insert_call : (c : Call) (ds : List Call) → P c → All P ds → All P (insert_call c ds)
  unfolding insert_call
  All-insert_call c [] p ps = (p, tt)
  All-insert_call c (d ∷ ds) p ps = elim (Bool-cases (leb c.index d.index)) [
    | inl le ↦ rw le (p, ps)
    | inr gt ↦ rw gt (ps.0, All-insert_call c ds p ps.1)
  ]

  pub All-sort_calls : (cs : List Call) → All P cs → All P (sort_calls cs)
  unfolding sort_calls
  All-sort_calls [] ps = tt
  All-sort_calls (c ∷ cs) ps = All-insert_call c (sort_calls cs) ps.0 (All-sort_calls cs ps.1)

above :
    (a b : ℕ) (ds : List Call)
    → a < b
    → All (λ (d : Call). b < d.index) ds
    → All (λ (d : Call). a < d.index) ds
above a b [] h ps = tt
above a b (d ∷ ds) h ps = (omega arith, above a b ds h ps.1)

insert_call-Rising :
    (c : Call) (ds : List Call)
    → All (λ (d : Call). c.index ≢ d.index) ds
    → Rising ds
    → Rising (insert_call c ds)
unfolding insert_call
insert_call-Rising c [] ne r = (tt, tt)
insert_call-Rising c (d ∷ ds) ne r = elim (Bool-cases (leb c.index d.index)) [
  | inl le ↦
      let lt : c.index < d.index = omega (arith, leb→le c.index d.index le) in
      rw le ((lt, above c.index d.index ds lt r.0), r)
  | inr gt ↦
      let lt : d.index < c.index = ground arith in
      rw gt (
        All-insert_call (λ (e : Call). d.index < e.index) c ds lt r.0,
        insert_call-Rising c ds ne.1 r.1,
      )
]

-- Calls with different indices are sorted strictly.
pub sort_calls-Rising : (cs : List Call) → Distinct cs → Rising (sort_calls cs)
unfolding sort_calls
sort_calls-Rising [] d = tt
sort_calls-Rising (c ∷ cs) d =
    insert_call-Rising c (sort_calls cs) (All-sort_calls (λ (e : Call). c.index ≢ e.index) cs d.0)
      (sort_calls-Rising cs d.1)
