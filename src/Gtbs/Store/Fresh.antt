-- ===== src/Gtbs/Store/Fresh.antt =====
-- As long as the token counter has not wrapped, `Apply` gives no token twice.
use callbridge_le_audio_serv.Prelude.{
  ℕ, ◌+◌, ◌^◌, ◌≤◌, ◌<◌, ◌≡◌, refl, sym, ap, ◌∙◌, inl, inr, [], ◌∷◌, List, arith, length, Option,
  none, some, Option-cases, subst,
}
use callbridge_le_audio_serv.Prelude.Dict.{Dict, lookup, insert}
use callbridge_le_audio_serv.Prelude.Dict.Laws.{lookup-insert_inv}
use callbridge_le_audio_serv.Gtbs.Call.{Call}
use callbridge_le_audio_serv.Gtbs.Store.{token_of, assign}
use callbridge_le_audio_serv.Gtbs.Store.Tokens.{next_token_step, TokenRule, UniqueTokens}

-- The token of the next entry: the one after the counter, or the one that the call had.
abbrev NextRule : ℕ → ℕ → Option Call → Type 0
NextRule t token none = token ≡ t + 1
NextRule t token (some prior) = token ≡ prior.token

token_of_step :
    (seed t : ℕ) (o : Option Call)
    → seed ≤ t
    → t + 1 < 2 ^ 64
    → let r = token_of seed o t in
      NextRule t r.0 o × (t ≤ r.1) × (r.1 ≤ t + 1) × ((low : ℕ) → low ≤ t → TokenRule low r.1 r.0 o)
unfolding token_of
token_of_step seed t none h k =
    rw (next_token_step seed t h k) (refl, omega arith, omega arith, λ low l. omega arith)
token_of_step seed t (some p) h k = (refl, omega arith, omega arith, λ low l. refl)

TokenRule-mono :
    (low t t' token : ℕ) (o : Option Call)
    → t ≤ t'
    → TokenRule low t token o
    → TokenRule low t' token o
TokenRule-mono low t t' token none h r = omega arith
TokenRule-mono low t t' token (some p) h r = r

-- The calls that have their tokens, with the counter at `t`.
pub record IsAssigned (low : ℕ) (prior : Dict Call) (t : ℕ) (next : Dict Call) : Type 0 where
  pub rule : (i : ℕ) (c : Call) → lookup i next ≡ some c → TokenRule low t c.token (lookup i prior)
  pub unique : UniqueTokens next

module _ (seed low : ℕ) (prior : Dict Call)
    (below : (i : ℕ) (p : Call) → lookup i prior ≡ some p → p.token ≤ low)
    (unique : UniqueTokens prior) where
  clash :
      (k j t token other : ℕ)
      → low ≤ t
      → NextRule t token (lookup k prior)
      → TokenRule low t other (lookup j prior)
      → token ≡ other
      → k ≡ j
  clash k j t token other lt new rule e = elim (Option-cases (lookup k prior)) [
    | inl k_new ↦ elim (Option-cases (lookup j prior)) [
      | inl j_new ↦ absurd (omega (arith, rw k_new at new, rw j_new at rule))
      | inr (q, j_old) ↦ absurd (omega (arith, rw k_new at new, rw j_old at rule, below j q j_old))
    ]
    | inr (p, k_old) ↦ elim (Option-cases (lookup j prior)) [
      | inl j_new ↦ absurd (omega (arith, rw k_old at new, rw j_new at rule, below k p k_old))
      | inr (q, j_old) ↦
          unique k j p q k_old j_old (omega (arith, rw k_old at new, rw j_old at rule))
    ]
  ]

  insert-IsAssigned :
      (c : Call) (t t' : ℕ) (next : Dict Call)
      → low ≤ t
      → t ≤ t'
      → NextRule t c.token (lookup c.index prior)
      → TokenRule low t' c.token (lookup c.index prior)
      → IsAssigned low prior t next
      → IsAssigned low prior t' (insert c.index c next)
  insert-IsAssigned c t t' next lt le new rule a = record { rule = rule'; unique = unique' }
    where
      rule' :
          (i : ℕ) (x : Call)
          → lookup i (insert c.index c next) ≡ some x
          → TokenRule low t' x.token (lookup i prior)
      rule' i x e = elim (lookup-insert_inv c.index i c next e) [
        | inl (at, is) ↦
            subst {A = ℕ × Call} (λ n. TokenRule low t' n.1.token (lookup n.0 prior))
              (λ d. (at d, is d)) rule
        | inr old ↦ TokenRule-mono low t t' x.token (lookup i prior) le (a.rule i x old)
      ]

      unique' : UniqueTokens (insert c.index c next)
      unique' i j x y ex ey same = elim (lookup-insert_inv c.index i c next ex) [
        | inl (at, is) ↦ elim (lookup-insert_inv c.index j c next ey) [
          | inl (at', is') ↦ omega arith
          | inr old ↦
              sym at
              ∙ clash c.index j t c.token y.token lt new (a.rule j y old)
                  (ap (λ (d : Call). d.token) is ∙ same)
        ]
        | inr old ↦ elim (lookup-insert_inv c.index j c next ey) [
          | inl (at, is) ↦
              sym (
                clash c.index i t c.token x.token lt new (a.rule i x old)
                  (ap (λ (d : Call). d.token) is ∙ sym same))
              ∙ at
          | inr old' ↦ a.unique i j x y old old' same
        ]
      ]

  assign-IsAssigned_from :
      (cs : List Call) (next : Dict Call) (t : ℕ)
      → seed ≤ low
      → low ≤ t
      → t + length cs < 2 ^ 64
      → IsAssigned low prior t next
      → let r = assign seed prior cs next t in
        IsAssigned low prior r.1 r.0 × (t ≤ r.1) × (r.1 ≤ t + length cs)
  unfolding assign
  assign-IsAssigned_from [] next t hs hl hw a = (a, omega arith, omega arith)
  assign-IsAssigned_from (c ∷ cs) next t hs hl hw a =
      let r = token_of seed (lookup c.index prior) t in
      let c' = record c { token = r.0 } in
      let (new, up, by_one, rule) =
        token_of_step seed t (lookup c.index prior) (omega arith) (omega arith) in
      let (a', lo, hi) =
        assign-IsAssigned_from cs (insert c.index c' next) r.1 hs (omega arith) (omega arith)
          (insert-IsAssigned c' t r.1 next hl up new (rule low hl) a) in
      (a', omega arith, omega arith)

  -- From the empty map on.
  pub assign-IsAssigned :
      (cs : List Call)
      → seed ≤ low
      → low + length cs < 2 ^ 64
      → let r = assign seed prior cs [] low in
        IsAssigned low prior r.1 r.0 × (low ≤ r.1) × (r.1 ≤ low + length cs)
  unfolding lookup
  assign-IsAssigned cs hs hw =
      assign-IsAssigned_from cs [] low hs (omega arith) hw
        (record { rule = λ i c e. cc; unique = λ i j c d e. cc })
