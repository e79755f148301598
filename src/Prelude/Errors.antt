-- ===== src/Prelude/Errors.antt =====
-- A Go function with an error result: `err e` is a non-nil error, `ok a` a nil one.
use mathlib.Core.Path.{◌≡◌, refl, subst}
use mathlib.Core.Logic.{◌⊎◌, inl, inr}
use mathlib.Core.Bool.{Bool, true, false}

pub data Result (E A : Type 0) : Type 0 where
  err : E → Result E A
  ok : A → Result E A

-- `a, err := first(); if err != nil { return err }`
infixl 5 ◌>>=◌
abbrev pub ◌>>=◌ : {E A B : Type 0} → Result E A → (A → Result E B) → Result E B
err problem >>= rest = err problem
ok value >>= rest = rest value

infixl 5 ◌>>◌
abbrev pub ◌>>◌ : {E B : Type 0} → Result E (Unit {0}) → Result E B → Result E B
check >> rest = check >>= λ nothing. rest

-- `if b { return e }`
abbrev pub fail_if : {E : Type 0} → Bool → E → Result E (Unit {0})
fail_if false problem = ok tt
fail_if true problem = err problem

-- A chain that succeeds has succeeded at its first step.
pub >>=-eq-ok :
    {E A B : Type 0} (first : Result E A) (rest : A → Result E B) {out : B}
    → (first >>= rest) ≡ ok out
    → (value : A) × (first ≡ ok value) × (rest value ≡ ok out)
>>=-eq-ok (err problem) rest succeeds = cc
>>=-eq-ok (ok value) rest succeeds = (value, refl, succeeds)

pub ok_inj : {E A : Type 0} {a b : A} → ◌≡◌ {A = Result E A} (ok a) (ok b) → a ≡ b
ok_inj h = cc

pub Result-cases :
    {E A : Type 0} (r : Result E A) → ((e : E) × (r ≡ err e)) ⊎ ((a : A) × (r ≡ ok a))
Result-cases (err e) = inl (e, refl)
Result-cases (ok a) = inr (a, refl)

-- What holds of the value whenever a call succeeds.
abbrev pub Ensures : {E A : Type 0} → (A → Type 0) → Result E A → Type 0
Ensures {E} {A} P r = (a : A) → r ≡ ok a → P a

module _ {E A B : Type 0} (P : B → Type 0) where
  pub Ensures-bind :
      (first : Result E A) (rest : A → Result E B)
      → ((a : A) → first ≡ ok a → Ensures P (rest a))
      → Ensures P (first >>= rest)
  Ensures-bind (err problem) rest h b e = absurd (cc)
  Ensures-bind (ok value) rest h b e = h value refl b e

module _ {E B : Type 0} (P : B → Type 0) where
  pub Ensures-fail_if :
      (b : Bool) (problem : E) (rest : Result E B)
      → (b ≡ false → Ensures P rest)
      → Ensures P (fail_if b problem >> rest)
  Ensures-fail_if true problem rest h out e = absurd (cc)
  Ensures-fail_if false problem rest h out e = h refl out e

  pub Ensures-ok : (value : B) → P value → Ensures {E = E} P (ok value)
  Ensures-ok value p b e = subst P (ok_inj e) p

-- A check that passes is no step of the chain.
pub fail_if-passes :
    {E A : Type 0} (b : Bool) (problem : E) {rest : Result E A} {out : A}
    → b ≡ false
    → rest ≡ ok out
    → (fail_if b problem >> rest) ≡ ok out
fail_if-passes true problem e h = absurd (cc)
fail_if-passes false problem e h = h
