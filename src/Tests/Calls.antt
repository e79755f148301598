-- ===== src/Tests/Calls.antt =====
-- The calls of state.go and the commands of client.go.
use callbridge_le_audio_serv.Prelude.{
  ℕ, ◌-◌, ◌≡◌, ◌≢◌, inl, ◌^◌, ◌<◌, ◌≤◌, refl, false, List, [], ◌∷◌, arith, All, Bytes, codes,
  length, some, ok, err,
}
use mathlib.Core.List.{Memᴰ, Perm}
use callbridge_le_audio_serv.Prelude.Dict.{lookup, insert, retain}
use callbridge_le_audio_serv.Protocol.Identity.{no_identity}
use callbridge_le_audio_serv.Gtbs.Call.{Call, Error}
use callbridge_le_audio_serv.Gtbs.Parse.{
  parse_call_state, parse_entries, bad_entry, insert_call, sort_calls, strip_uri_scheme, uri_body,
  is_dial_byte,
}
use callbridge_le_audio_serv.Gtbs.Parse.Sort.{Rising}
use callbridge_le_audio_serv.Gtbs.Parse.Sound.{
  IsEntry, IsCallState, triples, parse_call_state_sound, parse_call_state_complete,
}
use callbridge_le_audio_serv.Gtbs.Parse.Uri.{IsDial, strip_uri_scheme_sound}
use callbridge_le_audio_serv.Gtbs.Store.{
  Store, new_store, next_token, bump, holds_token, is_present, snapshot, apply_parsed, apply,
  answered_elsewhere, handset_answered, current_call_token, validate_indexed_command, apply_result,
  assign, token_of, next_token_in, first_answered, unclaimed, single_token, claim_call,
}
use callbridge_le_audio_serv.Gtbs.Store.Tokens.{TokenRule, next_token_good}
use callbridge_le_audio_serv.Gtbs.Store.Invariant.{WellFormed, new_store-WellFormed}
use callbridge_le_audio_serv.Gtbs.Store.Apply.{
  IsApplied, IsFresh, apply_parsed_tokens, apply_effect,
}
use callbridge_le_audio_serv.Gtbs.Store.History.{
  Op, call_state, claim, step, run, run-WellFormed, IsOwnOrRinging, carried_needs_claim,
}
use callbridge_le_audio_serv.Gtbs.Store.Answered.{
  IsAnswered, handset_answered_lem, current_call-not_answered,
}
use callbridge_le_audio_serv.Gtbs.Store.Stale.{IsDead, ended_token_stays_stale}

abbrev call_at : ℕ → ℕ → ℕ → Call
call_at index state token = record {
  index = index;
  state = state;
  flags = 0;
  token = token;
  identity = no_identity;
}

abbrev two_calls : Bytes
two_calls = 2 ∷ 3 ∷ 0 ∷ 1 ∷ 0 ∷ 1 ∷ []

abbrev ringing : Bytes
ringing = 1 ∷ 0 ∷ 0 ∷ []

abbrev active : Bytes
active = 1 ∷ 3 ∷ 0 ∷ []

abbrev ringing_calls : List Call
ringing_calls = call_at 1 0 0 ∷ []

ringing-parses : parse_call_state ringing ≡ ok ringing_calls
unfolding parse_call_state callbridge_le_audio_serv.Gtbs.Parse.parse_entries
    callbridge_le_audio_serv.Gtbs.Parse.bad_entry sort_calls
ringing-parses = refl

parse_call_state_sound_example :
    IsCallState ringing
    × Perm ringing_calls (triples ringing)
    × Rising ringing_calls
    × All IsEntry ringing_calls
parse_call_state_sound_example =
    parse_call_state_sound ringing (omega arith, (omega arith, (omega arith, tt))) ringing-parses

ringing-IsCallState : IsCallState ringing
ringing-IsCallState = record {
  whole = refl;
  bounded = omega arith;
  entries = (
    record {
      index_pos = omega arith;
      index_byte = omega arith;
      state_known = omega arith;
      flags_known = omega arith;
    },
    tt,
  );
  distinct = (tt, tt);
}

parse_call_state_complete_example : parse_call_state ringing ≡ ok (sort_calls (triples ringing))
parse_call_state_complete_example = parse_call_state_complete ringing ringing-IsCallState

strip_uri_scheme_sound_example :
    (length (strip_uri_scheme (codes "x")) ≤ 32)
    × All IsDial (strip_uri_scheme (codes "x"))
    × (strip_uri_scheme (codes "tel:55;x") ≡ codes "55")
strip_uri_scheme_sound_example =
    strip_uri_scheme_sound (codes "x") (codes "tel") (codes "55") (codes ";x")
      ((omega arith, omega arith), ((omega arith, omega arith), ((omega arith, omega arith), tt)))
      (
        (λ e. absurd (omega arith)),
        ((λ e. absurd (omega arith)), ((λ e. absurd (omega arith)), tt)),
      )
      (ground arith, (ground arith, tt)) (omega arith) (omega arith)
      ((omega arith, omega arith), ((omega arith, omega arith), tt)) (inl refl)

-- The counter before its wrap: 0 and the seed are passed over.
next_token_good_example : let t = next_token 0 (2 ^ 64 - 1) in (t ≢ 0) × (t ≢ 0) × (t < 2 ^ 64)
next_token_good_example = next_token_good 0 (2 ^ 64 - 1)

abbrev empty_store : ℕ → Store
empty_store tokens = record {
  calls = [];
  claimed = [];
  identities = [];
  sequence = 100;
  seed = 100;
  tokens = tokens;
}

empty_store-IsFresh : IsFresh (empty_store 101)
unfolding lookup
empty_store-IsFresh = record {
  below = λ i c e. absurd (cc);
  unique = λ i j c d e f p. absurd (cc);
  seeded = omega arith;
}

apply_parsed_tokens_example :
    let s = empty_store 101 in
    let s' = apply_parsed ringing_calls s in
    IsFresh s'
    × (s.tokens ≤ s'.tokens)
    × ((i : ℕ) (c : Call)
        → lookup i s'.calls ≡ some c
        → TokenRule s.tokens s'.tokens c.token (lookup i s.calls))
apply_parsed_tokens_example =
    apply_parsed_tokens ringing_calls (empty_store 101) empty_store-IsFresh (omega arith)

apply_effect_example :
    let s = new_store 100 in
    ((e : Error) → parse_call_state ringing ≡ err e → apply ringing s ≡ (s, err e))
    × ((cs : List Call)
        → parse_call_state ringing ≡ ok cs
        → let r = apply ringing s in (r.1 ≡ ok (snapshot r.0)) × IsApplied cs s r.0)
apply_effect_example = apply_effect ringing (new_store 100) (new_store-WellFormed 100 (omega arith))

-- The phone answers the call.
abbrev answered_store : Store
answered_store = record {
  calls = (1, call_at 1 3 101) ∷ [];
  claimed = [];
  identities = [];
  sequence = 102;
  seed = 100;
  tokens = 101;
}

handset_answered_lem_example :
    let s = answered_store in
    (handset_answered s ≢ 0
      → (e : ℕ × Call) × Memᴰ e s.calls
        × IsAnswered s.claimed e.1
        × (e.1.token ≡ handset_answered s))
    × (handset_answered s ≡ 0 → (e : ℕ × Call) → Memᴰ e s.calls → ¬ IsAnswered s.claimed e.1)
handset_answered_lem_example = handset_answered_lem answered_store

handset_answered-run :
    handset_answered (run (call_state ringing ∷ call_state active ∷ []) (new_store 100)) ≡ 101
unfolding run step apply apply_result parse_call_state parse_entries bad_entry insert_call
    sort_calls apply_parsed assign token_of next_token next_token_in bump holds_token is_present
    insert retain lookup new_store claim_call handset_answered first_answered answered_elsewhere
    unclaimed current_call_token single_token
handset_answered-run = refl

-- The peer answers it.
abbrev claimed_store : Store
claimed_store = record answered_store { claimed = (1, 101) ∷ [] }

claimed_store-carried : current_call_token claimed_store ≡ some 101
unfolding current_call_token callbridge_le_audio_serv.Gtbs.Store.single_token
    callbridge_le_audio_serv.Gtbs.Store.unclaimed lookup
claimed_store-carried = refl

current_call-not_answered_example : handset_answered claimed_store ≡ 0
current_call-not_answered_example =
    current_call-not_answered claimed_store 101 claimed_store-carried

abbrev history : List Op
history = call_state ringing ∷ claim 1 101 ∷ call_state active ∷ []

run-WellFormed_example : WellFormed (run (call_state ringing ∷ claim 1 101 ∷ []) (new_store 100))
run-WellFormed_example =
    run-WellFormed 100 (call_state ringing ∷ claim 1 101 ∷ []) (omega arith)
      ((omega arith, (omega arith, (omega arith, tt))), (tt, tt))

history-carried : current_call_token (run history (new_store 100)) ≡ some 101
unfolding run step apply apply_result parse_call_state parse_entries bad_entry insert_call
    sort_calls apply_parsed assign token_of next_token next_token_in bump holds_token is_present
    insert retain lookup new_store claim_call handset_answered first_answered answered_elsewhere
    unclaimed current_call_token single_token
history-carried = refl

ringing-carried : current_call_token (run (call_state ringing ∷ []) (new_store 100)) ≡ some 101
unfolding run step apply apply_result parse_call_state parse_entries bad_entry insert_call
    sort_calls apply_parsed assign token_of next_token next_token_in bump holds_token is_present
    insert retain lookup new_store claim_call handset_answered first_answered answered_elsewhere
    unclaimed current_call_token single_token
ringing-carried = refl

carried_needs_claim_example :
    (i : ℕ) × (c : Call) × ((run (call_state ringing ∷ []) (new_store 100)).calls ≡ (i, c) ∷ [])
    × (c.token ≡ 101)
    × IsOwnOrRinging c
carried_needs_claim_example =
    carried_needs_claim 100 (call_state ringing ∷ []) 101 (tt, tt) ringing-carried

-- The call with token 101 ended; another rings at the same index.
ended-IsDead : IsDead 101 (empty_store 101)
unfolding lookup
ended-IsDead = record { given = omega arith; absent = λ i c e. absurd (cc) }

ended_token_stays_stale_example :
    validate_indexed_command 1 101 1 (run (call_state ringing ∷ claim 1 101 ∷ []) (empty_store 101))
    ≡ false
ended_token_stays_stale_example =
    ended_token_stays_stale (call_state ringing ∷ claim 1 101 ∷ []) 101 (empty_store 101)
      ((omega arith, (omega arith, (omega arith, tt))), (tt, tt)) (omega arith) empty_store-IsFresh
      ended-IsDead 1 1
