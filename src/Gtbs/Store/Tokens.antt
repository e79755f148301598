-- ===== src/Gtbs/Store/Tokens.antt =====
-- The tokens that `Apply` gives out.
use callbridge_le_audio_serv.Prelude.{
  ℕ, ◌+◌, ◌^◌, ◌≤◌, ◌<◌, ◌≡◌, ◌≢◌, refl, inl, inr, [], ◌∷◌, List, arith, All, Option, none, some,
  Option-cases,
}
use callbridge_le_audio_serv.Prelude.Dict.{Dict, lookup, insert}
use callbridge_le_audio_serv.Prelude.Dict.Laws.{
  DistinctKeys, All-insert, All-lookup, insert-DistinctKeys,
}
use callbridge_le_audio_serv.Gtbs.Call.{Call}
use callbridge_le_audio_serv.Gtbs.Parse.Sound.{IsEntry}
use callbridge_le_audio_serv.Gtbs.Store.{next_token_in, next_token, token_of, assign}

-- Whatever the counter stands at, wrapped round or not, the loop ends within its three rounds at a
-- token that is neither 0 nor the seed.
pub next_token_good :
    (seed tokens : ℕ) → let t = next_token seed tokens in (t ≢ 0) × (t ≢ seed) × (t < 2 ^ 64)
unfolding next_token next_token_in
next_token_good seed tokens = ground arith

pub next_token_step :
    (seed tokens : ℕ) → seed ≤ tokens → tokens + 1 < 2 ^ 64 → next_token seed tokens ≡ tokens + 1
unfolding next_token next_token_in
next_token_step seed tokens h k = ground arith

-- What a call of the store satisfies, under its key.
pub record IsStored (entry : ℕ × Call) : Type 0 where
  pub keyed : entry.0 ≡ entry.1.index
  pub is_entry : IsEntry entry.1
  pub token_pos : 0 < entry.1.token
  pub token_u64 : entry.1.token < 2 ^ 64

-- The token of a call that was there before stays; a new one is above `low`, the counter before.
abbrev pub TokenRule : ℕ → ℕ → ℕ → Option Call → Type 0
TokenRule low high token none = (low < token) × (token ≤ high)
TokenRule low high token (some prior) = token ≡ prior.token

-- Two calls with one token are one call.
abbrev pub UniqueTokens : Dict Call → Type 0
UniqueTokens calls =
    (i j : ℕ) (c d : Call)
    → lookup i calls ≡ some c
    → lookup j calls ≡ some d
    → c.token ≡ d.token
    → i ≡ j

module _ (seed : ℕ) (prior : Dict Call) (stored : All IsStored prior) where
  token_of_good :
      (i t : ℕ)
      → t < 2 ^ 64
      → let r = token_of seed (lookup i prior) t in (0 < r.0) × (r.0 < 2 ^ 64) × (r.1 < 2 ^ 64)
  unfolding token_of
  token_of_good i t h = elim (Option-cases (lookup i prior)) [
    | inl new ↦ rw new (ground (arith, next_token_good seed t))
    | inr (p, old) ↦
        let s = All-lookup IsStored i prior old stored in rw old (s.token_pos, s.token_u64, h)
  ]

  -- `Apply` keeps the calls well formed, whether or not the counter wraps.
  pub assign-IsStored :
      (cs : List Call) (next : Dict Call) (t : ℕ)
      → All IsEntry cs
      → All IsStored next
      → DistinctKeys next
      → t < 2 ^ 64
      → let r = assign seed prior cs next t in All IsStored r.0 × DistinctKeys r.0 × (r.1 < 2 ^ 64)
  unfolding assign
  assign-IsStored [] next t es ss d h = (ss, d, h)
  assign-IsStored (c ∷ cs) next t es ss d h =
      let r = token_of seed (lookup c.index prior) t in
      let c' = record c { token = r.0 } in
      let (pos, u64, counter) = token_of_good c.index t h in
      assign-IsStored cs (insert c.index c' next) r.1 es.1
        (All-insert IsStored c.index c' next
          (record {
            keyed = refl;
            is_entry = entry_with c r.0 es.0;
            token_pos = pos;
            token_u64 = u64;
          })
          ss)
        (insert-DistinctKeys c.index c' next d) counter
    where
      entry_with : (c : Call) (t : ℕ) → IsEntry c → IsEntry (record c { token = t })
      entry_with c t e = record {
        index_pos = e.index_pos;
        index_byte = e.index_byte;
        state_known = e.state_known;
        flags_known = e.flags_known;
      }
