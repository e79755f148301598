-- ===== src/Gtbs/Store/Reported.antt =====
-- What a Call State value reports, and what `Apply` stores of it.
use callbridge_le_audio_serv.Prelude.{
  ℕ, ◌≡◌, refl, ◌==◌, Bool, true, false, List, [], ◌∷◌, Option, none, some, Bool-cases, inl, inr,
  if◌then◌else◌,
}
use callbridge_le_audio_serv.Prelude.Dict.{Dict, lookup, insert}
use callbridge_le_audio_serv.Prelude.Dict.Laws.{lookup-insert}
use callbridge_le_audio_serv.Gtbs.Call.{Call}
use callbridge_le_audio_serv.Gtbs.Store.{assign, token_of, is_present}

-- The call that is reported under the index; the last one counts.
abbrev pub reported_over : Option Call → ℕ → Call → Option Call
reported_over (some later) i c = some later
reported_over none i c = if c.index == i then some c else none

abbrev pub reported : List Call → ℕ → Option Call
reported [] i = none
reported (c ∷ cs) i = reported_over (reported cs i) i c

abbrev pub is_some : Option Call → Bool
is_some none = false
is_some (some c) = true

-- Nothing is stored, or a call with what was reported of it.
abbrev pub SameEntry : Option Call → Option Call → Type 0
SameEntry none none = Unit
SameEntry none (some d) = ⊥
SameEntry (some c) none = ⊥
SameEntry (some c) (some d) = (d.index ≡ c.index) × (d.state ≡ c.state) × (d.flags ≡ c.flags)

abbrev over : Option Call → Option Call → Option Call
over (some c) before = some c
over none before = before

SameEntry-refl : (o : Option Call) → SameEntry o o
SameEntry-refl none = tt
SameEntry-refl (some c) = (refl, refl, refl)

SameEntry-token :
    (token : ℕ) (c : Call) (stored : Option Call)
    → SameEntry (some (record c { token = token })) stored
    → SameEntry (some c) stored
SameEntry-token token c none same = same
SameEntry-token token c (some d) same = same

inserted :
    (later : Option Call) (i token : ℕ) (c : Call) (next : Dict Call) (stored : Option Call)
    → SameEntry (over later (lookup i (insert c.index (record c { token = token }) next))) stored
    → SameEntry (over (reported_over later i c) (lookup i next)) stored
inserted (some d) i token c next stored same = same
inserted none i token c next stored same =
    let before = rw (lookup-insert c.index i (record c { token = token }) next) at same in
    elim (Bool-cases (c.index == i)) [
      | inl here ↦ rw here (SameEntry-token token c stored (rw here at before))
      | inr other ↦ rw other (rw other at before)
    ]

assign-over :
    (seed : ℕ) (prior : Dict Call) (cs : List Call) (next : Dict Call) (tokens i : ℕ)
    → SameEntry
        (over (reported cs i) (lookup i next))
        (lookup i (assign seed prior cs next tokens).0)
unfolding assign
assign-over seed prior [] next tokens i = SameEntry-refl (lookup i next)
assign-over seed prior (c ∷ cs) next tokens i =
    let (token, tokens') = token_of seed (lookup c.index prior) tokens in
    let next' = insert c.index (record c { token = token }) next in
    inserted (reported cs i) i token c next (lookup i (assign seed prior cs next' tokens').0)
      (assign-over seed prior cs next' tokens' i)

over_nothing : (o stored : Option Call) → SameEntry (over o none) stored → SameEntry o stored
over_nothing none stored same = same
over_nothing (some c) stored same = same

-- Exactly the reported calls are stored, each under its index.
pub assign-reported :
    (seed : ℕ) (prior : Dict Call) (cs : List Call) (tokens i : ℕ)
    → SameEntry (reported cs i) (lookup i (assign seed prior cs [] tokens).0)
unfolding lookup
assign-reported seed prior cs tokens i =
    over_nothing (reported cs i) (lookup i (assign seed prior cs [] tokens).0)
      (assign-over seed prior cs [] tokens i)

SameEntry-is_some : (o stored : Option Call) → SameEntry o stored → is_some stored ≡ is_some o
SameEntry-is_some none none same = refl
SameEntry-is_some (some c) (some d) same = refl
SameEntry-is_some none (some d) same = elim same [ ]
SameEntry-is_some (some c) none same = elim same [ ]

pub is_present-reported :
    (seed : ℕ) (prior : Dict Call) (cs : List Call) (tokens i : ℕ)
    → is_present (assign seed prior cs [] tokens).0 i ≡ is_some (reported cs i)
unfolding is_present
is_present-reported seed prior cs tokens i =
    SameEntry-is_some (reported cs i) (lookup i (assign seed prior cs [] tokens).0)
      (assign-reported seed prior cs tokens i)
