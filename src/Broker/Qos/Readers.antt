-- ===== src/Broker/Qos/Readers.antt =====
-- What a property that passes its checks holds.
use callbridge_le_audio_serv.Prelude.{
  ℕ, ◌≡◌, ◌⊎◌, refl, ap, subst, Bool, false, arith, Option, none, some, Bool-cases, inl, inr,
  Result, ok, ok_inj, ◌>>=◌, Ensures, Ensures-bind,
}
use callbridge_le_audio_serv.Broker.Variant.{Value}
use callbridge_le_audio_serv.Broker.Qos.{Error, require, when_present}

pub require-ok :
    (o : Option ℕ) (bad : ℕ → Bool) (e : Error) {n : ℕ}
    → require o bad e ≡ ok n
    → (o ≡ some n) × (bad n ≡ false)
require-ok none bad e h = absurd (cc)
require-ok (some m) bad e {n} h = elim (Bool-cases (bad m)) [
  | inl refused ↦ absurd (let g = rw refused at h in cc)
  | inr fits ↦
      let same : m ≡ n = ok_inj (rw fits at h) in
      (ap some same, subst (λ k. bad k ≡ false) same fits)
]

module _ {A : Type 0} (P : A → Type 0) where
  pub Ensures-require :
      (o : Option ℕ) (bad : ℕ → Bool) (e : Error) (rest : ℕ → Result Error A)
      → ((n : ℕ) → o ≡ some n → bad n ≡ false → Ensures P (rest n))
      → Ensures P (require o bad e >>= rest)
  Ensures-require o bad e rest h =
      Ensures-bind P (require o bad e) rest
        (λ n read. h n (require-ok o bad e read).0 (require-ok o bad e read).1)

pub when_present-ok :
    (value : Option Value) (default : ℕ) (read : Option Value → Option ℕ) (bad : ℕ → Bool)
    (e : Error) {n : ℕ}
    → when_present value default read bad e ≡ ok n
    → ((value ≡ none) × (n ≡ default)) ⊎ ((read value ≡ some n) × (bad n ≡ false))
when_present-ok none default read bad e h = inl (refl, ground arith)
when_present-ok (some value) default read bad e h = inr (require-ok (read (some value)) bad e h)
