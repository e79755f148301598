-- ===== src/Gtbs/Store/History.antt =====
-- Sequences of operations on a store, and what the claims of its life allow.
use callbridge_le_audio_serv.Prelude.{
  ℕ, ◌^◌, ◌<◌, ◌≡◌, ◌≢◌, refl, ◌⊎◌, inl, inr, subst, sym, true, [], ◌∷◌, List, arith, All, Bytes,
  IsBytes, Option, none, some, bit_and, ◌==◌, Bool-cases, Option-cases, Result-cases,
}
use callbridge_le_audio_serv.Prelude.Dict.{Dict, lookup}
use callbridge_le_audio_serv.Prelude.Dict.Laws.{All-insert, All-retain, All-lookup}
use callbridge_le_audio_serv.Gtbs.Call.{Call, state_incoming, call_flag_outgoing}
use callbridge_le_audio_serv.Protocol.Identity.{Identity}
use callbridge_le_audio_serv.Gtbs.Parse.{parse_call_state, parse_call_identifier}
use callbridge_le_audio_serv.Gtbs.Store.{
  Store, new_store, apply, apply_result, apply_parsed, apply_incoming_call, incoming_result,
  claim_call, current_call_token, single_token, unclaimed, set_identity_locked, set_identity_over,
  store_identity, delete_identity, holds_token,
}
use callbridge_le_audio_serv.Gtbs.Store.Invariant.{
  WellFormed, new_store-WellFormed, apply-WellFormed, apply_incoming_call-WellFormed,
  claim_call-WellFormed,
}

-- What reaches the store from outside: notifications of the phone, and Accept commands.
pub data Op : Type 0 where
  call_state : Bytes → Op
  incoming_call : Bytes → Op
  claim : ℕ → ℕ → Op

unfoldable pub step : Op → Store → Store
step (call_state value) s = (apply value s).0
step (incoming_call value) s = (apply_incoming_call value s).0
step (claim index token) s = claim_call index token s

unfoldable pub run : List Op → Store → Store
run [] s = s
run (op ∷ ops) s = run ops (step op s)

-- The values of notifications are bytes.
abbrev pub InBytes : Op → Type 0
InBytes (call_state value) = IsBytes value
InBytes (incoming_call value) = IsBytes value
InBytes (claim index token) = Unit

step-WellFormed : (op : Op) (s : Store) → InBytes op → WellFormed s → WellFormed (step op s)
unfolding step
step-WellFormed (call_state value) s b w = apply-WellFormed value s b w
step-WellFormed (incoming_call value) s b w = apply_incoming_call-WellFormed value s w
step-WellFormed (claim index token) s b w = claim_call-WellFormed index token s w

run-WellFormed_from :
    (ops : List Op) (s : Store) → All InBytes ops → WellFormed s → WellFormed (run ops s)
unfolding run
run-WellFormed_from [] s b w = w
run-WellFormed_from (op ∷ ops) s b w =
    run-WellFormed_from ops (step op s) b.1 (step-WellFormed op s b.0 w)

-- Whatever is notified and claimed, in any order, a store that begins empty stays well formed.
pub run-WellFormed :
    (now : ℕ) (ops : List Op)
    → now < 2 ^ 64
    → All InBytes ops
    → WellFormed (run ops (new_store now))
run-WellFormed now ops h b = run-WellFormed_from ops (new_store now) b (new_store-WellFormed now h)

-- The operation is no claim of this token.
abbrev pub NoClaim : ℕ → Op → Type 0
NoClaim t (claim index token) = token ≢ t
NoClaim t _ = Unit

abbrev ClaimsNot : ℕ → Dict ℕ → Type 0
ClaimsNot t = All (λ e. e.1 ≢ t)

apply-ClaimsNot :
    (t : ℕ) (value : Bytes) (s : Store)
    → ClaimsNot t s.claimed
    → ClaimsNot t (apply value s).0.claimed
unfolding apply apply_result apply_parsed
apply-ClaimsNot t value s c = elim (Result-cases (parse_call_state value)) [
  | inl (e, h) ↦ rw h c
  | inr (cs, h) ↦ rw h (All-retain (λ e. e.1 ≢ t) _ s.claimed c)
]

set_identity-unchanged :
    (old : Option Identity) (index : ℕ) (identity : Identity) (s : Store)
    → let s' = (set_identity_over old index identity s).0 in
      (s'.claimed ≡ s.claimed) × (s'.calls ≡ s.calls) × (s'.tokens ≡ s.tokens) × (s'.seed ≡ s.seed)
unfolding set_identity_over store_identity delete_identity
set_identity-unchanged none index identity s = ground arith
set_identity-unchanged (some old) index identity s = ground arith

-- The identity of a caller touches neither calls nor claims nor tokens.
pub incoming_call-unchanged :
    (value : Bytes) (s : Store)
    → let s' = (apply_incoming_call value s).0 in
      (s'.claimed ≡ s.claimed) × (s'.calls ≡ s.calls) × (s'.tokens ≡ s.tokens) × (s'.seed ≡ s.seed)
unfolding apply_incoming_call incoming_result set_identity_locked
incoming_call-unchanged value s = elim (Result-cases (parse_call_identifier value)) [
  | inl (e, h) ↦ rw h (refl, refl, refl, refl)
  | inr ((index, raw), h) ↦ rw h (set_identity-unchanged (lookup index s.identities) index _ s)
]

claim_call-ClaimsNot :
    (t index token : ℕ) (s : Store)
    → token ≢ t
    → ClaimsNot t s.claimed
    → ClaimsNot t (claim_call index token s).claimed
unfolding claim_call
claim_call-ClaimsNot t index token s n c = elim (Bool-cases (token == 0)) [
  | inl empty ↦ rw empty c
  | inr good ↦ elim (Bool-cases (holds_token s.calls index token)) [
    | inl holds ↦ rw (good, holds) (All-insert (λ e. e.1 ≢ t) index token s.claimed n c)
    | inr stale ↦ rw (good, stale) c
  ]
]

step-ClaimsNot :
    (t : ℕ) (op : Op) (s : Store)
    → NoClaim t op
    → ClaimsNot t s.claimed
    → ClaimsNot t (step op s).claimed
unfolding step
step-ClaimsNot t (call_state value) s n c = apply-ClaimsNot t value s c
step-ClaimsNot t (incoming_call value) s n c =
    subst (ClaimsNot t) (sym (incoming_call-unchanged value s).0) c
step-ClaimsNot t (claim index token) s n c = claim_call-ClaimsNot t index token s n c

run-ClaimsNot :
    (t : ℕ) (ops : List Op) (s : Store)
    → All (NoClaim t) ops
    → ClaimsNot t s.claimed
    → ClaimsNot t (run ops s).claimed
unfolding run
run-ClaimsNot t [] s n c = c
run-ClaimsNot t (op ∷ ops) s n c = run-ClaimsNot t ops (step op s) n.1 (step-ClaimsNot t op s n.0 c)

unclaimed_never :
    (t index : ℕ) (claimed : Dict ℕ)
    → t ≢ 0
    → ClaimsNot t claimed
    → unclaimed claimed index t ≡ true
unfolding unclaimed
unclaimed_never t index claimed ne c = elim (Option-cases (lookup index claimed)) [
  | inl missing ↦ rw (missing, unclaimed) (ground arith)
  | inr (u, found) ↦
      let other : u ≢ t = All-lookup (λ e. e.1 ≢ t) index claimed found c in
      rw (found, unclaimed) (ground arith)
]

-- The call is this side's own, or it is still ringing.
abbrev pub IsOwnOrRinging : Call → Type 0
IsOwnOrRinging c = (bit_and c.flags call_flag_outgoing ≢ 0) ⊎ (c.state ≡ state_incoming)

carried_unclaimed :
    (t : ℕ) (claimed : Dict ℕ) (calls : Dict Call)
    → single_token claimed calls ≡ some t
    → ClaimsNot t claimed
    → (i : ℕ) × (c : Call) × (calls ≡ (i, c) ∷ []) × (c.token ≡ t) × IsOwnOrRinging c
unfolding single_token
carried_unclaimed t claimed [] e n = absurd (cc)
carried_unclaimed t claimed ((i, c) ∷ []) e n =
    let same : c.token ≡ t = ground arith in
    let ne : t ≢ 0 = ground arith in
    (i, c, refl, same, ground (arith, unclaimed_never t c.index claimed ne n))
carried_unclaimed t claimed ((i, c) ∷ d ∷ calls) e n = absurd (cc)

-- Media is correlated with a call that never was claimed by an Accept from this side only if the
-- call is outgoing or still in the Incoming state: a call answered on the handset is left to it.
pub carried_needs_claim :
    (now : ℕ) (ops : List Op) (t : ℕ)
    → All (NoClaim t) ops
    → let s = run ops (new_store now) in
      current_call_token s ≡ some t
      → (i : ℕ) × (c : Call) × (s.calls ≡ (i, c) ∷ []) × (c.token ≡ t) × IsOwnOrRinging c
unfolding current_call_token
carried_needs_claim now ops t n e =
    let s = run ops (new_store now) in
    carried_unclaimed t s.claimed s.calls e
      (run-ClaimsNot t ops (new_store now) n (unfold new_store in tt))
