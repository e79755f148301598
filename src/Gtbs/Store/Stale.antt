-- ===== src/Gtbs/Store/Stale.antt =====
-- The token of a call that has ended is never accepted again.
use callbridge_le_audio_serv.Prelude.{
  ℕ, suc, ◌+◌, ◌*◌, ◌^◌, ◌≤◌, ◌<◌, ◌≡◌, ◌≢◌, refl, sym, ap, ◌∙◌, inl, inr, false, [], ◌∷◌, List,
  arith, All, Bytes, IsBytes, length, Option, none, some, ok, ok_inj, Result-cases, Option-cases,
  subst,
}
use callbridge_le_audio_serv.Prelude.Dict.{lookup}
use callbridge_le_audio_serv.Gtbs.Call.{Call}
use callbridge_le_audio_serv.Gtbs.Parse.{parse_call_state, sort_calls, insert_call}
use callbridge_le_audio_serv.Gtbs.Parse.Sound.{
  triples, parse_call_state_sound, parse_call_state_complete,
}
use callbridge_le_audio_serv.Gtbs.Store.{
  Store, apply, apply_result, apply_parsed, claim_call, validate_indexed_command,
}
use callbridge_le_audio_serv.Gtbs.Store.Tokens.{TokenRule}
use callbridge_le_audio_serv.Gtbs.Store.Apply.{IsFresh, apply_parsed_tokens, apply_parsed_counter}
use callbridge_le_audio_serv.Gtbs.Store.History.{
  Op, call_state, incoming_call, claim, step, run, InBytes, incoming_call-unchanged,
}

-- The token was given out, and no call of the store has it.
pub record IsDead (t : ℕ) (s : Store) : Type 0 where
  pub given : t ≤ s.tokens
  pub absent : (i : ℕ) (c : Call) → lookup i s.calls ≡ some c → c.token ≢ t

-- An identifier of at most 765 bytes lists at most 765 calls, so this many operations leave the
-- counter below its wrap.
abbrev pub Room : List Op → Store → Type 0
Room ops s = s.tokens + 765 * length ops < 2 ^ 64

rule_dead :
    (low high token t : ℕ) (o : Option Call)
    → t ≤ low
    → ((p : Call) → o ≡ some p → p.token ≢ t)
    → TokenRule low high token o
    → token ≢ t
rule_dead low high token t none h d r = omega arith
rule_dead low high token t (some p) h d r = omega (arith, d p refl)

apply_parsed-IsDead :
    (cs : List Call) (s : Store) (t : ℕ)
    → IsFresh s
    → s.tokens + length cs < 2 ^ 64
    → IsDead t s
    → IsDead t (apply_parsed cs s)
apply_parsed-IsDead cs s t f room d =
    let (fresh, up, rule) = apply_parsed_tokens cs s f room in
    record {
      given = omega (arith, d.given);
      absent = λ i c e.
          rule_dead s.tokens _ c.token t (lookup i s.calls) d.given (d.absent i) (rule i c e);
    }

length-triples : (v : Bytes) → length (triples v) ≤ length v
length-triples [] = omega arith
length-triples (i ∷ []) = omega arith
length-triples (i ∷ s ∷ []) = omega arith
length-triples (i ∷ s ∷ f ∷ rest) = omega (arith, length-triples rest)

length-insert_call : (c : Call) (ds : List Call) → length (insert_call c ds) ≡ suc (length ds)
unfolding insert_call
length-insert_call c [] = refl
length-insert_call c (d ∷ ds) = ground (arith, length-insert_call c ds)

length-sort_calls : (cs : List Call) → length (sort_calls cs) ≡ length cs
unfolding sort_calls
length-sort_calls [] = refl
length-sort_calls (c ∷ cs) = length-insert_call c (sort_calls cs) ∙ ap suc (length-sort_calls cs)

parsed_few : (v : Bytes) (cs : List Call) → IsBytes v → parse_call_state v ≡ ok cs → length cs ≤ 765
parsed_few v cs b e =
    let valid = (parse_call_state_sound v b e).0 in
    let same : sort_calls (triples v) ≡ cs = ok_inj (sym (parse_call_state_complete v valid) ∙ e) in
    subst (λ ds. length ds ≤ 765) same
      (omega (arith, length-sort_calls (triples v), length-triples v, valid.bounded))

-- What every operation keeps of a dead token, and how far it moves the counter.
record Later (t : ℕ) (s s' : Store) : Type 0 where
  fresh : IsFresh s'
  dead : IsDead t s'
  counter : s'.tokens ≤ s.tokens + 765

same-Later :
    (t : ℕ) (s s' : Store)
    → (s'.calls ≡ s.calls)
    → (s'.tokens ≡ s.tokens)
    → (s'.seed ≡ s.seed)
    → IsFresh s
    → IsDead t s
    → Later t s s'
same-Later t s s' ec et es f d = record {
  fresh = record {
    below = λ i c e. omega (arith, f.below i c (rw ec at e));
    unique = λ i j x y ex ey. f.unique i j x y (rw ec at ex) (rw ec at ey);
    seeded = omega (arith, f.seeded);
  };
  dead = record { given = omega (arith, d.given); absent = λ i c e. d.absent i c (rw ec at e) };
  counter = omega arith;
}

apply-Later :
    (t : ℕ) (v : Bytes) (s : Store)
    → IsBytes v
    → s.tokens + 765 < 2 ^ 64
    → IsFresh s
    → IsDead t s
    → Later t s (apply v s).0
unfolding apply apply_result
apply-Later t v s b room f d = elim (Result-cases (parse_call_state v)) [
  | inl (e, h) ↦ rw h (same-Later t s s refl refl refl f d)
  | inr (cs, h) ↦
      let few = parsed_few v cs b h in
      let fits : s.tokens + length cs < 2 ^ 64 = omega arith in
      rw h (record {
        fresh = (apply_parsed_tokens cs s f fits).0;
        dead = apply_parsed-IsDead cs s t f fits d;
        counter = omega (arith, apply_parsed_counter cs s f fits);
      })
]

claim_call-unchanged :
    (index token : ℕ) (s : Store)
    → let s' = claim_call index token s in
      (s'.calls ≡ s.calls) × (s'.tokens ≡ s.tokens) × (s'.seed ≡ s.seed)
unfolding claim_call
claim_call-unchanged index token s = ground arith

step-Later :
    (t : ℕ) (op : Op) (s : Store)
    → InBytes op
    → s.tokens + 765 < 2 ^ 64
    → IsFresh s
    → IsDead t s
    → Later t s (step op s)
unfolding step
step-Later t (call_state v) s b room f d = apply-Later t v s b room f d
step-Later t (incoming_call v) s b room f d =
    let (_, ec, et, es) = incoming_call-unchanged v s in same-Later t s _ ec et es f d
step-Later t (claim index token) s b room f d =
    let (ec, et, es) = claim_call-unchanged index token s in same-Later t s _ ec et es f d

run-IsDead :
    (ops : List Op) (t : ℕ) (s : Store)
    → All InBytes ops
    → Room ops s
    → IsFresh s
    → IsDead t s
    → IsDead t (run ops s)
unfolding run
run-IsDead [] t s b room f d = d
run-IsDead (op ∷ ops) t s b room f d =
    let l = step-Later t op s b.0 (omega arith) f d in
    run-IsDead ops t (step op s) b.1 (omega (arith, l.counter)) l.fresh l.dead

-- Once a token that was given out belongs to no call, no later command with it is accepted, at any
-- index and for any opcode, as long as the token counter does not wrap.
pub ended_token_stays_stale :
    (ops : List Op) (t : ℕ) (s : Store)
    → All InBytes ops
    → Room ops s
    → IsFresh s
    → IsDead t s
    → (index opcode : ℕ) → validate_indexed_command index t opcode (run ops s) ≡ false
unfolding validate_indexed_command
ended_token_stays_stale ops t s b room f d index opcode =
    let s' = run ops s in
    elim (Option-cases (lookup index s'.calls)) [
      | inl absent ↦ rw (absent, validate_indexed_command)
      | inr (c, present) ↦
          let other = (run-IsDead ops t s b room f d).absent index c present in
          rw (present, validate_indexed_command) (ground arith)
    ]
