-- ===== src/Go/Strings/Trim.antt =====
-- `strings.TrimSpace` leaves a text that neither begins nor ends with a byte of white space.
use callbridge_le_audio_serv.Prelude.{
  ℕ, ◌≡◌, ◌<◌, ◌++◌, All, All-append, subst, refl, [], ◌∷◌, arith, Bytes, sym, ap, ◌∙◌,
}
use mathlib.Core.List.{reverse, reverse-reverse, reverse-cons}
use callbridge_le_audio_serv.Go.Strings.{front_space, back_space, skip_space, trim_space}

-- A printing ASCII byte is no part of white space, whatever stands behind it.
abbrev pub IsPlain : ℕ → Type 0
IsPlain c = (32 < c) × (c < 127)

front_space-plain : (a : ℕ) (s : Bytes) → IsPlain a → front_space (a ∷ s) ≡ 0
front_space-plain a [] h = ground arith
front_space-plain a (b ∷ []) h = ground arith
front_space-plain a (b ∷ c ∷ s) h = ground arith

back_space-plain : (a : ℕ) (s : Bytes) → IsPlain a → back_space (a ∷ s) ≡ 0
back_space-plain a [] h = ground arith
back_space-plain a (b ∷ []) h = ground arith
back_space-plain a (b ∷ c ∷ s) h = ground arith

skip_space-front : (a : ℕ) (s : Bytes) → IsPlain a → skip_space front_space 0 (a ∷ s) ≡ a ∷ s
unfolding skip_space
skip_space-front a s h = rw (front_space-plain a s h, skip_space)

skip_space-back : (a : ℕ) (s : Bytes) → IsPlain a → skip_space back_space 0 (a ∷ s) ≡ a ∷ s
unfolding skip_space
skip_space-back a s h = rw (back_space-plain a s h, skip_space)

pub trim_space-plain :
    (a : ℕ) (s : Bytes) (z : ℕ) (t : Bytes)
    → reverse (a ∷ s) ≡ z ∷ t
    → IsPlain a
    → IsPlain z
    → trim_space (a ∷ s) ≡ a ∷ s
unfolding trim_space
trim_space-plain a s z t e ha hz =
    ap (λ u. reverse (skip_space back_space 0 (reverse u))) (skip_space-front a s ha)
    ∙ ap (λ u. reverse (skip_space back_space 0 u)) e
    ∙ ap reverse (skip_space-back z t hz)
    ∙ ap reverse (sym e)
    ∙ reverse-reverse (a ∷ s)

All-reverse : (P : ℕ → Type 0) (s : Bytes) → All P s → All P (reverse s)
All-reverse P [] h = tt
All-reverse P (a ∷ s) h =
    subst (All P) (sym (reverse-cons a s))
      (All-append P (reverse s) (a ∷ []) (All-reverse P s h.1) (h.0, tt))

trimmed :
    (a : ℕ) (s r : Bytes)
    → reverse (a ∷ s) ≡ r ++ (a ∷ [])
    → IsPlain a
    → All IsPlain r
    → trim_space (a ∷ s) ≡ a ∷ s
trimmed a s [] e plain rest = trim_space-plain a s a [] e plain plain
trimmed a s (z ∷ t) e plain rest = trim_space-plain a s z (t ++ (a ∷ [])) e plain rest.0

-- A text of printing ASCII bytes is left as it is.
pub trim_space-All : (s : Bytes) → All IsPlain s → trim_space s ≡ s
unfolding trim_space
trim_space-All [] h = refl
trim_space-All (a ∷ s) h =
    trimmed a s (reverse s) (reverse-cons a s) h.0 (All-reverse IsPlain s h.1)
