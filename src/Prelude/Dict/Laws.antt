-- ===== src/Prelude/Dict/Laws.antt =====
-- Lookups behind the writes and deletions of a map.
use Prim.Native.Nat.{ℕ}
use mathlib.Core.Path.{◌≡◌, refl, subst}
use mathlib.Core.Logic.{◌≢◌, ◌⊎◌, inl, inr}
use mathlib.Core.Bool.{Bool, true}
use mathlib.Core.Option.{Option, none, some}
use mathlib.Core.List.{[], ◌∷◌}
use native.Mathlib.Omega.{arith}
use callbridge_le_audio_serv.Prelude.Tests.{◌==◌, if◌then◌else◌, Bool-cases}
use callbridge_le_audio_serv.Prelude.Lists.{All}
use callbridge_le_audio_serv.Prelude.Dict.{Dict, lookup, insert, remove, retain}

-- No key stands twice.
abbrev pub DistinctKeys : {V : Type 0} → Dict V → Type 0
DistinctKeys [] = Unit
DistinctKeys ((k, v) ∷ m) = All (λ e. k ≢ e.0) m × DistinctKeys m

-- A value is kept if it passes a test on its key and itself.
abbrev pub kept {ℓ} : {V : Type ℓ} → (V → Bool) → Option V → Option V
kept keep none = none
kept keep (some v) = if keep v then some v else none

module _ {V : Type 0} where
  pub lookup-insert :
      (key other : ℕ) (new : V) (m : Dict V)
      → lookup other (insert key new m) ≡ (if key == other then some new else lookup other m)
  unfolding lookup insert
  lookup-insert key other new [] = refl
  lookup-insert key other new ((i, value) ∷ rest) = ground (arith, lookup-insert key other new rest)

  pub lookup-insert_self : (k : ℕ) (v : V) (m : Dict V) → lookup k (insert k v m) ≡ some v
  lookup-insert_self k v m = ground (arith, lookup-insert k k v m)

  -- What a map holds behind a write is what was written, or what was there.
  pub lookup-insert_inv :
      (k i : ℕ) (v : V) (m : Dict V) {x : V}
      → lookup i (insert k v m) ≡ some x
      → ((k ≡ i) × (v ≡ x)) ⊎ (lookup i m ≡ some x)
  lookup-insert_inv k i v m e = elim (Bool-cases (k == i)) [
    | inl same ↦ inl (ground arith, ground (arith, lookup-insert k i v m))
    | inr other ↦ inr (ground (arith, lookup-insert k i v m))
  ]

  pub lookup-remove :
      (k j : ℕ) (m : Dict V) → lookup j (remove k m) ≡ (if k == j then none else lookup j m)
  unfolding lookup remove
  lookup-remove k j [] = ground arith
  lookup-remove k j ((i, w) ∷ m) = ground (arith, lookup-remove k j m)

  lookup_absent : (j : ℕ) (m : Dict V) → All (λ e. j ≢ e.0) m → lookup j m ≡ none
  unfolding lookup
  lookup_absent j [] h = refl
  lookup_absent j ((i, w) ∷ m) h = ground (arith, h.0, lookup_absent j m h.1)

  pub lookup-retain :
      (keep : ℕ → V → Bool) (j : ℕ) (m : Dict V)
      → DistinctKeys m
      → lookup j (retain keep m) ≡ kept (keep j) (lookup j m)
  unfolding lookup retain
  lookup-retain keep j [] d = refl
  lookup-retain keep j ((i, w) ∷ m) d = elim (Bool-cases (i == j)) [
    | inl same ↦
        let here : i ≡ j = ground arith in
        let gone : lookup j m ≡ none =
          lookup_absent j m (subst (λ k. All (λ e. k ≢ e.0) m) here d.0) in
        ground (arith, lookup-retain keep j m d.1)
    | inr other ↦ ground (arith, lookup-retain keep j m d.1)
  ]

  module _ (P : ℕ × V → Type 0) where
    pub All-insert : (k : ℕ) (v : V) (m : Dict V) → P (k, v) → All P m → All P (insert k v m)
    unfolding insert
    All-insert k v [] p ps = (p, tt)
    All-insert k v ((i, w) ∷ m) p ps = elim (Bool-cases (i == k)) [
      | inl same ↦ rw same (p, ps.1)
      | inr other ↦ rw other (ps.0, All-insert k v m p ps.1)
    ]

    pub All-remove : (k : ℕ) (m : Dict V) → All P m → All P (remove k m)
    unfolding remove
    All-remove k [] ps = tt
    All-remove k ((i, w) ∷ m) ps = elim (Bool-cases (i == k)) [
      | inl same ↦ rw same (All-remove k m ps.1)
      | inr other ↦ rw other (ps.0, All-remove k m ps.1)
    ]

    pub All-retain : (keep : ℕ → V → Bool) (m : Dict V) → All P m → All P (retain keep m)
    unfolding retain
    All-retain keep [] ps = tt
    All-retain keep ((i, w) ∷ m) ps = elim (Bool-cases (keep i w)) [
      | inl good ↦ rw good (ps.0, All-retain keep m ps.1)
      | inr bad ↦ rw bad (All-retain keep m ps.1)
    ]

    pub All-lookup : (k : ℕ) (m : Dict V) {v : V} → lookup k m ≡ some v → All P m → P (k, v)
    unfolding lookup
    All-lookup k [] e ps = cc
    All-lookup k ((i, w) ∷ m) {v} e ps = elim (Bool-cases (i == k)) [
      | inl same ↦
          let here : i ≡ k = ground arith in
          let value : w ≡ v = ground arith in subst P (λ n. (here n, value n)) ps.0
      | inr other ↦ All-lookup k m (rw other at e) ps.1
    ]

  pub retain_passes :
      (keep : ℕ → V → Bool) (m : Dict V) → All (λ e. keep e.0 e.1 ≡ true) (retain keep m)
  unfolding retain
  retain_passes keep [] = tt
  retain_passes keep ((i, w) ∷ m) = elim (Bool-cases (keep i w)) [
    | inl good ↦ rw good (good, retain_passes keep m)
    | inr bad ↦ rw bad (retain_passes keep m)
  ]

  pub insert-DistinctKeys :
      (k : ℕ) (v : V) (m : Dict V) → DistinctKeys m → DistinctKeys (insert k v m)
  unfolding insert
  insert-DistinctKeys k v [] d = (tt, tt)
  insert-DistinctKeys k v ((i, w) ∷ m) d = elim (Bool-cases (i == k)) [
    | inl same ↦
        let here : i ≡ k = ground arith in rw same (subst (λ x. All (λ e. x ≢ e.0) m) here d.0, d.1)
    | inr other ↦
        rw other (All-insert (λ e. i ≢ e.0) k v m (ground arith) d.0, insert-DistinctKeys k v m d.1)
  ]

  pub remove-DistinctKeys : (k : ℕ) (m : Dict V) → DistinctKeys m → DistinctKeys (remove k m)
  unfolding remove
  remove-DistinctKeys k [] d = tt
  remove-DistinctKeys k ((i, w) ∷ m) d = elim (Bool-cases (i == k)) [
    | inl same ↦ rw same (remove-DistinctKeys k m d.1)
    | inr other ↦ rw other (All-remove (λ e. i ≢ e.0) k m d.0, remove-DistinctKeys k m d.1)
  ]

  pub retain-DistinctKeys :
      (keep : ℕ → V → Bool) (m : Dict V) → DistinctKeys m → DistinctKeys (retain keep m)
  unfolding retain
  retain-DistinctKeys keep [] d = tt
  retain-DistinctKeys keep ((i, w) ∷ m) d = elim (Bool-cases (keep i w)) [
    | inl good ↦ rw good (All-retain (λ e. i ≢ e.0) keep m d.0, retain-DistinctKeys keep m d.1)
    | inr bad ↦ rw bad (retain-DistinctKeys keep m d.1)
  ]
