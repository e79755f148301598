-- ===== src/Gtbs/Store/Invariant.antt =====
-- What holds of a store between two operations.
use callbridge_le_audio_serv.Prelude.{
  ℕ, ◌^◌, ◌≤◌, ◌<◌, ◌≡◌, inl, inr, true, [], List, arith, All, Bytes, IsBytes, length, Option, none,
  some, Option-cases, Bool-cases, Result-cases, ◌==◌,
}
use callbridge_le_audio_serv.Prelude.Dict.{lookup}
use callbridge_le_audio_serv.Prelude.Dict.Laws.{
  DistinctKeys, All-insert, All-remove, All-retain, All-lookup, retain_passes, insert-DistinctKeys,
  remove-DistinctKeys, retain-DistinctKeys,
}
use callbridge_le_audio_serv.Protocol.Identity.{Identity, identity_eq, is_empty}
use callbridge_le_audio_serv.Gtbs.Call.{Call}
use callbridge_le_audio_serv.Gtbs.Parse.{parse_call_identifier, parse_call_state}
use callbridge_le_audio_serv.Gtbs.Parse.Sound.{IsEntry, parse_call_state_sound}
use callbridge_le_audio_serv.Gtbs.Parse.Uri.{length-strip_uri_scheme}
use callbridge_le_audio_serv.Gtbs.Store.{
  Store, new_store, assign, bump, holds_token, identity_at, apply_parsed, apply,
  set_identity_locked, apply_incoming_call, claim_call, apply_result, store_identity,
  delete_identity, set_identity_over, incoming_result,
}
use callbridge_le_audio_serv.Gtbs.Store.Tokens.{IsStored, assign-IsStored}

-- A caller number of at most 32 bytes, and never a name.
abbrev pub IsShort : ℕ × Identity → Type 0
IsShort e = (length e.1.uri ≤ 32) × (e.1.name ≡ [])

pub record WellFormed (s : Store) : Type 0 where
  pub stored : All IsStored s.calls
  pub distinct : DistinctKeys s.calls
  pub claims_distinct : DistinctKeys s.claimed
  pub claims_hold : All (λ e. holds_token s.calls e.0 e.1 ≡ true) s.claimed
  pub identities_distinct : DistinctKeys s.identities
  pub identities_short : All IsShort s.identities
  pub sequence_pos : 0 < s.sequence
  pub sequence_u64 : s.sequence < 2 ^ 64
  pub tokens_u64 : s.tokens < 2 ^ 64

pub bump_good : (sequence : ℕ) → (0 < bump sequence) × (bump sequence < 2 ^ 64)
unfolding bump
bump_good sequence = ground arith

pub new_store-WellFormed : (now : ℕ) → now < 2 ^ 64 → WellFormed (new_store now)
unfolding new_store
new_store-WellFormed now h = ground arith

pub apply_parsed-WellFormed :
    (cs : List Call) (s : Store) → All IsEntry cs → WellFormed s → WellFormed (apply_parsed cs s)
unfolding apply_parsed
apply_parsed-WellFormed cs s es w =
    let r = assign s.seed s.calls cs [] s.tokens in
    let (stored, distinct, u64) =
      assign-IsStored s.seed s.calls w.stored cs [] s.tokens es tt tt w.tokens_u64 in
    record {
      stored = stored;
      distinct = distinct;
      claims_distinct = retain-DistinctKeys _ s.claimed w.claims_distinct;
      claims_hold = retain_passes (λ index token. holds_token r.0 index token) s.claimed;
      identities_distinct = retain-DistinctKeys _ s.identities w.identities_distinct;
      identities_short = All-retain IsShort _ s.identities w.identities_short;
      sequence_pos = (bump_good s.sequence).0;
      sequence_u64 = (bump_good s.sequence).1;
      tokens_u64 = u64;
    }

pub apply-WellFormed :
    (value : Bytes) (s : Store) → IsBytes value → WellFormed s → WellFormed (apply value s).0
unfolding apply apply_result
apply-WellFormed value s b w = elim (Result-cases (parse_call_state value)) [
  | inl (e, h) ↦ rw h w
  | inr (cs, h) ↦ rw h (apply_parsed-WellFormed cs s (parse_call_state_sound value b h).3 w)
]

store_identity-WellFormed :
    (index : ℕ) (identity : Identity) (s : Store)
    → IsShort (index, identity)
    → WellFormed s
    → WellFormed (store_identity index identity s).0
unfolding store_identity
store_identity-WellFormed index identity s short w = record {
  stored = w.stored;
  distinct = w.distinct;
  claims_distinct = w.claims_distinct;
  claims_hold = w.claims_hold;
  identities_distinct = insert-DistinctKeys index identity s.identities w.identities_distinct;
  identities_short = All-insert IsShort index identity s.identities short w.identities_short;
  sequence_pos = (bump_good s.sequence).0;
  sequence_u64 = (bump_good s.sequence).1;
  tokens_u64 = w.tokens_u64;
}

delete_identity-WellFormed :
    (index : ℕ) (s : Store) → WellFormed s → WellFormed (delete_identity index s).0
unfolding delete_identity
delete_identity-WellFormed index s w = record {
  stored = w.stored;
  distinct = w.distinct;
  claims_distinct = w.claims_distinct;
  claims_hold = w.claims_hold;
  identities_distinct = remove-DistinctKeys index s.identities w.identities_distinct;
  identities_short = All-remove IsShort index s.identities w.identities_short;
  sequence_pos = (bump_good s.sequence).0;
  sequence_u64 = (bump_good s.sequence).1;
  tokens_u64 = w.tokens_u64;
}

set_identity-WellFormed :
    (old : Option Identity) (index : ℕ) (identity : Identity) (s : Store)
    → IsShort (index, identity)
    → WellFormed s
    → WellFormed (set_identity_over old index identity s).0
unfolding set_identity_over
set_identity-WellFormed none index identity s short w = elim (Bool-cases (is_empty identity)) [
  | inl e ↦ rw e w
  | inr f ↦ rw f (store_identity-WellFormed index identity s short w)
]
set_identity-WellFormed (some old) index identity s short w =
    elim (Bool-cases (is_empty identity)) [
      | inl e ↦ rw e (delete_identity-WellFormed index s w)
      | inr f ↦ elim (Bool-cases (identity_eq old identity)) [
        | inl same ↦ rw (f, same) w
        | inr new ↦ rw (f, new) (store_identity-WellFormed index identity s short w)
      ]
    ]

no_name : (s : Store) (index : ℕ) → WellFormed s → (identity_at s.identities index).name ≡ []
unfolding identity_at
no_name s index w = elim (Option-cases (lookup index s.identities)) [
  | inl absent ↦ rw (absent, identity_at)
  | inr (old, present) ↦
      rw (present, identity_at) (All-lookup IsShort index s.identities present w.identities_short).1
]

pub apply_incoming_call-WellFormed :
    (value : Bytes) (s : Store) → WellFormed s → WellFormed (apply_incoming_call value s).0
unfolding apply_incoming_call incoming_result set_identity_locked
apply_incoming_call-WellFormed value s w = elim (Result-cases (parse_call_identifier value)) [
  | inl (e, h) ↦ rw h w
  | inr ((index, raw), h) ↦ rw h (
      set_identity-WellFormed (lookup index s.identities) index _ s
        (length-strip_uri_scheme raw, no_name s index w) w)
]

pub claim_call-WellFormed :
    (index token : ℕ) (s : Store) → WellFormed s → WellFormed (claim_call index token s)
unfolding claim_call
claim_call-WellFormed index token s w = elim (Bool-cases (token == 0)) [
  | inl zero_token ↦ rw zero_token w
  | inr good ↦ elim (Bool-cases (holds_token s.calls index token)) [
    | inr stale ↦ rw (good, stale) w
    | inl holds ↦
        rw (good, holds)
          (record {
            stored = w.stored;
            distinct = w.distinct;
            claims_distinct = insert-DistinctKeys index token s.claimed w.claims_distinct;
            claims_hold =
                All-insert (λ e. holds_token s.calls e.0 e.1 ≡ true) index token s.claimed holds
                  w.claims_hold;
            identities_distinct = w.identities_distinct;
            identities_short = w.identities_short;
            sequence_pos = w.sequence_pos;
            sequence_u64 = w.sequence_u64;
            tokens_u64 = w.tokens_u64;
          })
  ]
]
