-- ===== src/Gtbs/Store.antt =====
-- state.go: `Store` and its methods. A Go map is an association list; where a method ranges over a
-- map, the order of that list is the order of the walk, and what is proved holds in any order.
pub mod Tokens
pub mod Fresh
pub mod Invariant
pub mod Reported
pub mod Apply
pub mod History
pub mod Answered
pub mod Stale
use callbridge_le_audio_serv.Prelude.{
  ℕ, zero, suc, ◌+◌, ◌%◌, ◌^◌, Bool, true, false, not, ◌&&◌, ◌||◌, List, [], ◌∷◌, map, ◌==◌, ◌!=◌,
  if◌then◌else◌, Bytes, length, bytes_eq, bit_and, Option, none, some, Result, ok, err, fail_if,
  ◌>>=◌,
}
use callbridge_le_audio_serv.Prelude.Dict.{Dict, lookup, insert, remove, retain}
use callbridge_le_audio_serv.Protocol.Message.{
  opcode_accept, opcode_terminate, opcode_local_hold, opcode_local_retrieve,
}
use callbridge_le_audio_serv.Protocol.Identity.{Identity, no_identity, identity_eq, is_empty}
use callbridge_le_audio_serv.Gtbs.Call.{
  Call, Snapshot, Error, no_call_identity, identity_unchanged, state_incoming, state_active,
  state_locally_held, state_remotely_held, state_locally_remotely_held, call_flag_outgoing,
}
use callbridge_le_audio_serv.Gtbs.Parse.{
  parse_call_identifier, strip_uri_scheme, parse_call_state, sort_calls,
}

pub record Store : Type 0 where
  pub calls : Dict Call
  pub claimed : Dict ℕ
  pub identities : Dict Identity
  pub sequence : ℕ  -- uint64
  pub seed : ℕ  -- uint64
  pub tokens : ℕ  -- uint64

-- `now` is `uint64(time.Now().UnixNano())`.
unfoldable pub new_store : ℕ → Store
new_store now =
    let seed = if now == 0 then 1 else now in
    record {
      calls = [];
      claimed = [];
      identities = [];
      sequence = seed;
      seed = seed;
      tokens = seed;
    }

-- The value of the counter after `nextToken`, which is the token. Of three values in a row one is
-- neither 0 nor the seed, so the loop ends within three rounds.
unfoldable pub next_token_in : ℕ → ℕ → ℕ → ℕ
next_token_in zero seed tokens = tokens
next_token_in (suc rounds) seed tokens =
    let token = (tokens + 1) % 2 ^ 64 in
    let rest = next_token_in rounds seed token in
    if token != 0 && token != seed then token else rest

unfoldable pub next_token : ℕ → ℕ → ℕ
next_token seed tokens = next_token_in 3 seed tokens

-- The token of an entry, and the counter behind it.
unfoldable pub token_of : ℕ → Option Call → ℕ → ℕ × ℕ
token_of seed (some prior) tokens = (prior.token, tokens)
token_of seed none tokens = let token = next_token seed tokens in (token, token)

-- The loop of `Apply` that gives each reported call its token.
unfoldable pub assign : ℕ → Dict Call → List Call → Dict Call → ℕ → Dict Call × ℕ
assign seed prior [] next tokens = (next, tokens)
assign seed prior (c ∷ cs) next tokens =
    let (token, tokens') = token_of seed (lookup c.index prior) tokens in
    assign seed prior cs (insert c.index (record c { token = token }) next) tokens'

-- `s.sequence++; if s.sequence == 0 { s.sequence = 1 }`
unfoldable pub bump : ℕ → ℕ
bump sequence = let next = (sequence + 1) % 2 ^ 64 in if next == 0 then 1 else next

-- `call, present := next[index]; present && call.Token == token`
unfoldable pub holds_token : Dict Call → ℕ → ℕ → Bool
holds_token calls index token = elim (lookup index calls) [
  | none ↦ false
  | some call ↦ call.token == token
]

unfoldable pub is_present : Dict Call → ℕ → Bool
is_present calls index = elim (lookup index calls) [ none ↦ false | some call ↦ true ]

-- The zero `Identity` stands for a missing one.
unfoldable pub identity_at : Dict Identity → ℕ → Identity
identity_at identities index = elim (lookup index identities) [
  | none ↦ no_identity
  | some identity ↦ identity
]

abbrev pub with_identity : Dict Identity → ℕ × Call → Call
with_identity identities (_, call) = record call { identity = identity_at identities call.index }

unfoldable pub snapshot_locked : ℕ → Dict Call → Dict Identity → Snapshot
snapshot_locked sequence calls identities = record {
  sequence = sequence;
  calls = sort_calls (map (with_identity identities) calls);
}

unfoldable pub snapshot : Store → Snapshot
snapshot s = snapshot_locked s.sequence s.calls s.identities

-- `Apply` on a value that parses.
unfoldable pub apply_parsed : List Call → Store → Store
apply_parsed parsed s =
    let (next, tokens') = assign seed calls parsed [] tokens in
    record s {
      calls = next;
      claimed = retain (λ index token. holds_token next index token) claimed;
      identities = retain (λ index _. is_present next index) identities;
      sequence = bump sequence;
      tokens = tokens';
    }
  where
    open s use {calls, claimed, identities, sequence, seed, tokens}

-- `Apply` behind the call of `ParseCallState`.
unfoldable pub apply_result : Result Error (List Call) → Store → Store × Result Error Snapshot
apply_result (err e) s = (s, err e)
apply_result (ok parsed) s = let s' = apply_parsed parsed s in (s', ok (snapshot s'))

unfoldable pub apply : Bytes → Store → Store × Result Error Snapshot
apply value s = apply_result (parse_call_state value) s

unfoldable pub store_identity : ℕ → Identity → Store → Store × Bool
store_identity index identity s =
    (record s { identities = insert index identity s.identities; sequence = bump s.sequence }, true)

unfoldable pub delete_identity : ℕ → Store → Store × Bool
delete_identity index s =
    (record s { identities = remove index s.identities; sequence = bump s.sequence }, true)

-- The cases of `setIdentityLocked` on the identity that was there.
unfoldable pub set_identity_over : Option Identity → ℕ → Identity → Store → Store × Bool
set_identity_over none index identity s =
    if is_empty identity then (s, false) else store_identity index identity s
set_identity_over (some previous) index identity s =
    if is_empty identity
    then delete_identity index s
    else if identity_eq previous identity
    then (s, false)
    else store_identity index identity s

-- The new store, and whether anything changed.
unfoldable pub set_identity_locked : ℕ → Identity → Store → Store × Bool
set_identity_locked index identity s =
    set_identity_over (lookup index s.identities) index identity s

-- `ApplyIncomingCall` behind the call of `ParseCallIdentifier`.
unfoldable pub incoming_result : Result Error (ℕ × Bytes) → Store → Store × Result Error (Unit {0})
incoming_result (err e) s = (s, err e)
incoming_result (ok (index, raw)) s =
    let identity = record (identity_at s.identities index) { uri = strip_uri_scheme raw } in
    let r = set_identity_locked index identity s in (r.0, fail_if (not r.1) identity_unchanged)

unfoldable pub apply_incoming_call : Bytes → Store → Store × Result Error (Unit {0})
apply_incoming_call value s = incoming_result (parse_call_identifier value) s

unfoldable pub claim_call : ℕ → ℕ → Store → Store
claim_call index token s =
    if token == 0
    then s
    else if holds_token s.calls index token
    then record s { claimed = insert index token s.claimed }
    else s

-- `s.claimed[index] != token`: a missing claim reads as 0.
unfoldable pub unclaimed : Dict ℕ → ℕ → ℕ → Bool
unclaimed claimed index token = elim (lookup index claimed) [
  | none ↦ token != 0
  | some t ↦ t != token
]

-- The phone took this incoming call off the Incoming state, and no Accept was sent from here.
unfoldable pub answered_elsewhere : Dict ℕ → Call → Bool
answered_elsewhere claimed call =
    not (
      call.token == 0 || bit_and call.flags call_flag_outgoing != 0 || call.state == state_incoming)
    && unclaimed claimed call.index call.token

unfoldable pub first_answered : Dict ℕ → Dict Call → ℕ
first_answered claimed [] = 0
first_answered claimed ((_, call) ∷ calls) =
    let rest = first_answered claimed calls in
    if answered_elsewhere claimed call then call.token else rest

unfoldable pub handset_answered : Store → ℕ
handset_answered s = first_answered s.claimed s.calls

-- The result `(token, true)` is `some token`, and `(0, false)` is `none`.
unfoldable pub single_token : Dict ℕ → Dict Call → Option ℕ
single_token claimed ((_, call) ∷ []) =
    if call.token == 0
    then none
    else if bit_and call.flags call_flag_outgoing == 0
        && call.state != state_incoming
        && unclaimed claimed call.index call.token
    then none
    else some call.token
single_token claimed _ = none

-- The result `(token, true)` is `some token`, and `(0, false)` is `none`.
unfoldable pub current_call_token : Store → Option ℕ
current_call_token s = single_token s.claimed s.calls

unfoldable pub allows : ℕ → ℕ → Bool
allows state opcode =
    if opcode == opcode_accept
    then state == state_incoming
    else if opcode == opcode_terminate
    then true
    else if opcode == opcode_local_hold
    then state == state_incoming || state == state_active || state == state_remotely_held
    else if opcode == opcode_local_retrieve
    then state == state_locally_held || state == state_locally_remotely_held
    else false

unfoldable pub validate_indexed_command : ℕ → ℕ → ℕ → Store → Bool
validate_indexed_command index token opcode s = elim (lookup index s.calls) [
  | none ↦ false
  | some call ↦ if token == 0 || call.token != token then false else allows call.state opcode
]

unfoldable pub token_for_index : ℕ → Store → ℕ × Bool
token_for_index index s = elim (lookup index s.calls) [
  | none ↦ (0, false)
  | some call ↦ (call.token, call.token != 0)
]
