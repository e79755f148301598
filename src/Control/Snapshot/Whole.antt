-- ===== src/Control/Snapshot/Whole.antt =====
-- What the messages of a snapshot have to say of the calls of a store.
use callbridge_le_audio_serv.Prelude.{
  ℕ, ◌≡◌, ◌≢◌, refl, List, [], ◌∷◌, map, All, Bytes, arith, length, if◌then◌else◌, ◌==◌,
}
use callbridge_le_audio_serv.Prelude.Dict.{Dict}
use callbridge_le_audio_serv.Prelude.Dict.Laws.{DistinctKeys}
use mathlib.Core.List.{Perm}
use callbridge_le_audio_serv.Protocol.Message.{Message}
use callbridge_le_audio_serv.Protocol.Identity.{Identity, encode_identity}
use callbridge_le_audio_serv.Gtbs.Call.{Call}
use callbridge_le_audio_serv.Gtbs.Parse.Sort.{sort_calls-perm, sort_calls-Rising, Rising, Distinct}
use callbridge_le_audio_serv.Gtbs.Store.{Store, with_identity, snapshot, snapshot_locked}
use callbridge_le_audio_serv.Gtbs.Store.Tokens.{IsStored}
use callbridge_le_audio_serv.Gtbs.Store.Invariant.{WellFormed}
use callbridge_le_audio_serv.Control.Snapshot.{
  payload_or_nil, call_message, call_messages, empty_message, messages_of, snapshot_messages,
}

-- A State message for each call, in order: of a snapshot (1), and the last one marked so (3).
abbrev pub IsTold : Bytes → ℕ → List Call → List Message → Type 0
IsTold device sequence [] [] = Unit
IsTold device sequence [] (m ∷ ms) = ⊥
IsTold device sequence (call ∷ calls) [] = ⊥
IsTold device sequence (call ∷ calls) (m ∷ ms) =
    (m ≡ record {
      type = 1;
      flags = if length calls == 0 then 3 else 1;
      sequence = sequence;
      token = call.token;
      device = device;
      index = call.index;
      code = call.state;
      value = call.flags;
      payload = payload_or_nil (encode_identity call.identity);
    })
    × IsTold device sequence calls ms

-- Where there is no call, one message says so with the state 255.
abbrev pub IsWhole : Bytes → ℕ → List Call → List Message → Type 0
IsWhole device sequence [] ms =
    ms
    ≡ record {
      type = 1;
      flags = 3;
      sequence = sequence;
      token = 0;
      device = device;
      index = 0;
      code = 255;
      value = 0;
      payload = [];
    }
      ∷ []
IsWhole device sequence (call ∷ calls) ms = IsTold device sequence (call ∷ calls) ms

call_messages-IsTold :
    (device : Bytes) (sequence : ℕ) (calls : List Call)
    → IsTold device sequence calls (call_messages device sequence calls)
unfolding call_messages call_message
call_messages-IsTold device sequence [] = tt
call_messages-IsTold device sequence (call ∷ []) = (refl, tt)
call_messages-IsTold device sequence (call ∷ next ∷ calls) =
    (ground arith, call_messages-IsTold device sequence (next ∷ calls))

messages_of-IsWhole :
    (device : Bytes) (sequence : ℕ) (calls : List Call)
    → IsWhole device sequence calls (messages_of device sequence calls)
unfolding messages_of empty_message
messages_of-IsWhole device sequence [] = refl
messages_of-IsWhole device sequence (call ∷ calls) =
    call_messages-IsTold device sequence (call ∷ calls)

pub snapshot_messages-IsWhole :
    (device : Bytes) (s : Store)
    → IsWhole device s.sequence (snapshot s).calls (snapshot_messages device (snapshot s))
unfolding snapshot_messages snapshot snapshot_locked
snapshot_messages-IsWhole device s = messages_of-IsWhole device s.sequence (snapshot s).calls

differs :
    (identities : Dict Identity) (index : ℕ) (call : Call) (calls : Dict Call)
    → call.index ≡ index
    → All (λ e. index ≢ e.0) calls
    → All IsStored calls
    → All (λ (d : Call). call.index ≢ d.index) (map (with_identity identities) calls)
differs identities index call [] same other s = tt
differs identities index call ((i, c) ∷ calls) same other s =
    (ground (arith, other.0, s.0.keyed), differs identities index call calls same other.1 s.1)

stored-Distinct :
    (identities : Dict Identity) (calls : Dict Call)
    → DistinctKeys calls
    → All IsStored calls
    → Distinct (map (with_identity identities) calls)
stored-Distinct identities [] d s = tt
stored-Distinct identities ((i, c) ∷ calls) d s = (
  differs identities i c calls (ground (arith, s.0.keyed)) d.0 s.1,
  stored-Distinct identities calls d.1 s.1,
)

-- A snapshot has each call of the store once, with its identity, by rising index.
pub snapshot-calls :
    (s : Store)
    → WellFormed s
    → Perm (snapshot s).calls (map (with_identity s.identities) s.calls) × Rising (snapshot s).calls
unfolding snapshot snapshot_locked
snapshot-calls s w = (
  sort_calls-perm (map (with_identity s.identities) s.calls),
  sort_calls-Rising (map (with_identity s.identities) s.calls)
      (stored-Distinct s.identities s.calls w.distinct w.stored),
)
