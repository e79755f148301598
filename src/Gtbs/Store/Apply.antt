-- ===== src/Gtbs/Store/Apply.antt =====
-- What one `Apply` does to a store.
use callbridge_le_audio_serv.Prelude.{
  ℕ, ◌+◌, ◌^◌, ◌≤◌, ◌<◌, ◌≡◌, refl, inl, inr, List, [], ◌==◌, Bool, false, ◌∙◌, Option-cases,
  if◌then◌else◌, arith, Bytes, length, Option, none, some, ok, err,
}
use callbridge_le_audio_serv.Prelude.Dict.{Dict, lookup}
use callbridge_le_audio_serv.Prelude.Dict.Laws.{kept, lookup-retain}
use callbridge_le_audio_serv.Gtbs.Call.{Call, Error}
use callbridge_le_audio_serv.Gtbs.Parse.{parse_call_state}
use callbridge_le_audio_serv.Gtbs.Store.{
  Store, assign, bump, holds_token, snapshot, apply_parsed, apply_result, apply,
}
use callbridge_le_audio_serv.Gtbs.Store.Tokens.{TokenRule, UniqueTokens}
use callbridge_le_audio_serv.Gtbs.Store.Reported.{
  reported, is_some, SameEntry, assign-reported, is_present-reported,
}
use callbridge_le_audio_serv.Gtbs.Store.Fresh.{assign-IsAssigned}
use callbridge_le_audio_serv.Gtbs.Store.Invariant.{WellFormed}

-- The tokens of a store whose counter has not wrapped since it was made.
pub record IsFresh (s : Store) : Type 0 where
  pub below : (i : ℕ) (c : Call) → lookup i s.calls ≡ some c → c.token ≤ s.tokens
  pub unique : UniqueTokens s.calls
  pub seeded : s.seed ≤ s.tokens

TokenRule-le :
    (low high token : ℕ) (o : Option Call)
    → ((p : Call) → o ≡ some p → p.token ≤ low)
    → low ≤ high
    → TokenRule low high token o
    → token ≤ high
TokenRule-le low high token none b h r = r.1
TokenRule-le low high token (some p) b h r = omega (arith, b p refl)

-- As long as the counter does not wrap, a reported call that was in the store keeps its token, a
-- new one gets a token above every token given out before, and no two calls have one token.
pub apply_parsed_tokens :
    (cs : List Call) (s : Store)
    → IsFresh s
    → s.tokens + length cs < 2 ^ 64
    → let s' = apply_parsed cs s in
      IsFresh s'
      × (s.tokens ≤ s'.tokens)
      × ((i : ℕ) (c : Call)
          → lookup i s'.calls ≡ some c
          → TokenRule s.tokens s'.tokens c.token (lookup i s.calls))
unfolding apply_parsed
apply_parsed_tokens cs s f h =
    let (a, up, room) = assign-IsAssigned s.seed s.tokens s.calls f.below f.unique cs f.seeded h in
    (
      record {
        below = λ i c e.
            TokenRule-le s.tokens _ c.token (lookup i s.calls) (λ p. f.below i p) up (a.rule i c e);
        unique = a.unique;
        seeded = omega (arith, f.seeded);
      },
      up,
      a.rule,
    )

pub apply_parsed_counter :
    (cs : List Call) (s : Store)
    → IsFresh s
    → s.tokens + length cs < 2 ^ 64
    → (apply_parsed cs s).tokens ≤ s.tokens + length cs
unfolding apply_parsed
apply_parsed_counter cs s f h =
    (assign-IsAssigned s.seed s.tokens s.calls f.below f.unique cs f.seeded h).2

-- The call still has the claimed token.
abbrev pub has_token : ℕ → Option Call → Bool
has_token token none = false
has_token token (some call) = call.token == token

-- What `Apply` makes of a value that reports these calls.
pub record IsApplied (cs : List Call) (s s' : Store) : Type 0 where
  pub sequence : s'.sequence ≡ (if s.sequence == 0xffffffffffffffff then 1 else s.sequence + 1)
  pub calls : (i : ℕ) → SameEntry (reported cs i) (lookup i s'.calls)
  pub claims :
      (i : ℕ)
      → lookup i s'.claimed
        ≡ kept (λ token. has_token token (lookup i s'.calls)) (lookup i s.claimed)
  pub identities :
      (i : ℕ) → lookup i s'.identities ≡ kept (λ _. is_some (reported cs i)) (lookup i s.identities)

holds_token-has_token :
    (calls : Dict Call) (i token : ℕ) → holds_token calls i token ≡ has_token token (lookup i calls)
unfolding holds_token
holds_token-has_token calls i token = elim (Option-cases (lookup i calls)) [
  | inl gone ↦ rw (gone, holds_token) refl
  | inr (call, there) ↦ rw (there, holds_token) refl
]

kept-same :
    {V : Type 0} (keep keep' : V → Bool) (o : Option V)
    → ((v : V) → keep v ≡ keep' v)
    → kept keep o ≡ kept keep' o
kept-same keep keep' none same = refl
kept-same keep keep' (some v) same = rw (same v) refl

apply_parsed-IsApplied :
    (cs : List Call) (s : Store) → WellFormed s → IsApplied cs s (apply_parsed cs s)
unfolding apply_parsed bump
apply_parsed-IsApplied cs s w =
    let next = (assign s.seed s.calls cs [] s.tokens).0 in
    record {
      sequence = ground (arith, w.sequence_u64);
      calls = assign-reported s.seed s.calls cs s.tokens;
      claims = λ i.
          lookup-retain _ i s.claimed w.claims_distinct
          ∙ kept-same _ _ (lookup i s.claimed) (λ token. holds_token-has_token next i token);
      identities = λ i.
          lookup-retain _ i s.identities w.identities_distinct
          ∙ kept-same _ _ (lookup i s.identities)
              (λ _. is_present-reported s.seed s.calls cs s.tokens i);
    }

-- In a well-formed store, a Call State value that does not parse changes nothing, and its error is
-- returned. Any other moves the sequence on, from the last one to 1; it stores exactly the calls that
-- it reports; it keeps a claim exactly where the call still has the claimed token, and an identity
-- exactly where its call is reported; the snapshot of the new store is returned.
pub apply_effect :
    (value : Bytes) (s : Store)
    → WellFormed s
    → ((e : Error) → parse_call_state value ≡ err e → apply value s ≡ (s, err e))
      × ((cs : List Call)
          → parse_call_state value ≡ ok cs
          → let r = apply value s in (r.1 ≡ ok (snapshot r.0)) × IsApplied cs s r.0)
unfolding apply apply_result
apply_effect value s w = (
  λ e bad. rw (bad, apply) refl,
  λ cs read. rw (read, apply) (refl, apply_parsed-IsApplied cs s w),
)
