-- ===== src/Gtbs/Store/Answered.antt =====
-- Calls that were answered on the phone.
use callbridge_le_audio_serv.Prelude.{
  ℕ, ◌≡◌, ◌≢◌, refl, sym, inl, inr, true, false, [], ◌∷◌, arith, some, Bool-cases, if◌then◌else◌,
  subst, Option-cases, bit_and, ◌!=◌, ◌↔◌,
}
use mathlib.Core.List.{Memᴰ}
use callbridge_le_audio_serv.Prelude.Dict.{Dict, lookup}
use callbridge_le_audio_serv.Gtbs.Call.{Call}
use callbridge_le_audio_serv.Gtbs.Store.{
  Store, answered_elsewhere, unclaimed, first_answered, handset_answered, single_token,
  current_call_token,
}

-- The phone took the call: it has a token and came in, it is not ringing any more, and no Accept was
-- sent for it with this token.
pub record IsAnswered (claimed : Dict ℕ) (call : Call) : Type 0 where
  pub token_pos : call.token ≢ 0
  pub came_in : bit_and call.flags 1 ≡ 0
  pub not_ringing : call.state ≢ 0
  pub not_ours : lookup call.index claimed ≢ some call.token

unclaimed_lem :
    (claimed : Dict ℕ) (index token : ℕ)
    → token ≢ 0
    → (unclaimed claimed index token ≡ true) ↔ (lookup index claimed ≢ some token)
unfolding unclaimed
unclaimed_lem claimed index token pos = elim (Option-cases (lookup index claimed)) [
  | inl free ↦ rw (free, unclaimed) (λ _ e. absurd (cc), λ _. ground arith)
  | inr (t, claim) ↦ rw (claim, unclaimed) (λ h e. differ t token h (some_inj e), λ n. ground arith)
]
  where
    some_inj : {a b : ℕ} → some a ≡ some b → a ≡ b
    some_inj e = cc

    differ : (t token : ℕ) → (t != token) ≡ true → t ≢ token
    differ t token h e = absurd (ground (arith, h, e))

answered_elsewhere-IsAnswered :
    (claimed : Dict ℕ) (call : Call)
    → answered_elsewhere claimed call ≡ true
    → IsAnswered claimed call
unfolding answered_elsewhere
answered_elsewhere-IsAnswered claimed call e =
    let pos : call.token ≢ 0 = ground arith in
    record {
      token_pos = pos;
      came_in = ground arith;
      not_ringing = ground arith;
      not_ours = (unclaimed_lem claimed call.index call.token pos).0 (ground arith);
    }

IsAnswered-answered_elsewhere :
    (claimed : Dict ℕ) (call : Call)
    → IsAnswered claimed call
    → answered_elsewhere claimed call ≡ true
unfolding answered_elsewhere
IsAnswered-answered_elsewhere claimed call a =
    let free = (unclaimed_lem claimed call.index call.token a.token_pos).1 a.not_ours in
    ground (arith, free, a.token_pos, a.came_in, a.not_ringing)

first_answered_finds :
    (claimed : Dict ℕ) (calls : Dict Call)
    → first_answered claimed calls ≢ 0
    → (e : ℕ × Call) × Memᴰ e calls
      × (answered_elsewhere claimed e.1 ≡ true)
      × (e.1.token ≡ first_answered claimed calls)
unfolding first_answered
first_answered_finds claimed [] ne = absurd (ne refl)
first_answered_finds claimed ((i, c) ∷ calls) ne =
    elim (Bool-cases (answered_elsewhere claimed c)) [
      | inl here ↦ ((i, c), Memᴰ.head refl, here, rw here)
      | inr other ↦
          let (e, m, a, t) = first_answered_finds claimed calls (rw other at ne) in
          (e, Memᴰ.tail m, a, rw other t)
    ]

not_first :
    (claimed : Dict ℕ) (c : Call) (rest : ℕ)
    → (if answered_elsewhere claimed c then c.token else rest) ≡ 0
    → answered_elsewhere claimed c ≡ false
unfolding answered_elsewhere
not_first claimed c rest z = ground arith

first_answered_all :
    (claimed : Dict ℕ) (calls : Dict Call) (e : ℕ × Call)
    → first_answered claimed calls ≡ 0
    → Memᴰ e calls
    → answered_elsewhere claimed e.1 ≡ false
unfolding first_answered
first_answered_all claimed [] e z m = elim m [ ]
first_answered_all claimed ((i, c) ∷ calls) e z (Memᴰ.head p) =
    subst (λ (d : ℕ × Call). answered_elsewhere claimed d.1 ≡ false) (sym p)
      (not_first claimed c _ z)
first_answered_all claimed ((i, c) ∷ calls) e z (Memᴰ.tail m) =
    first_answered_all claimed calls e (rw (not_first claimed c _ z) at z) m

-- `HandsetAnswered` gives the token of a call that was answered on the phone, whichever the map
-- yields first, and it gives 0 only where no call was.
pub handset_answered_lem :
    (s : Store)
    → (handset_answered s ≢ 0
        → (e : ℕ × Call) × Memᴰ e s.calls
          × IsAnswered s.claimed e.1
          × (e.1.token ≡ handset_answered s))
      × (handset_answered s ≡ 0 → (e : ℕ × Call) → Memᴰ e s.calls → ¬ IsAnswered s.claimed e.1)
unfolding handset_answered
handset_answered_lem s = (
  λ ne.
      let (e, m, a, t) = first_answered_finds s.claimed s.calls ne in
      (e, m, answered_elsewhere-IsAnswered s.claimed e.1 a, t),
  λ z e m a.
      let no = first_answered_all s.claimed s.calls e z m in
      let yes = IsAnswered-answered_elsewhere s.claimed e.1 a in absurd (cc),
)

single_or_answered :
    (claimed : Dict ℕ) (calls : Dict Call) (t : ℕ)
    → single_token claimed calls ≡ some t
    → first_answered claimed calls ≡ 0
unfolding single_token first_answered answered_elsewhere
single_or_answered claimed [] t e = absurd (cc)
single_or_answered claimed ((i, c) ∷ []) t e = ground arith
single_or_answered claimed ((i, c) ∷ d ∷ calls) t e = absurd (cc)

-- While the media path has a call to carry, no call counts as answered on the handset.
pub current_call-not_answered :
    (s : Store) (t : ℕ) → current_call_token s ≡ some t → handset_answered s ≡ 0
unfolding current_call_token handset_answered
current_call-not_answered s t e = single_or_answered s.claimed s.calls t e
