-- ===== src/Control/Snapshot/Reports.antt =====
-- The messages of a snapshot of a well-formed store.
use callbridge_le_audio_serv.Prelude.{[], ◌∷◌, map, All, Bytes}
use callbridge_le_audio_serv.Prelude.Dict.{Dict}
use callbridge_le_audio_serv.Protocol.Identity.{Identity}
use callbridge_le_audio_serv.Protocol.Device.Canonical.{IsDevice}
use callbridge_le_audio_serv.Gtbs.Call.{Call}
use callbridge_le_audio_serv.Gtbs.Parse.Sort.{All-sort_calls}
use callbridge_le_audio_serv.Gtbs.Store.{Store, with_identity, snapshot, snapshot_locked}
use callbridge_le_audio_serv.Gtbs.Store.Tokens.{IsStored}
use callbridge_le_audio_serv.Gtbs.Store.Invariant.{WellFormed}
use callbridge_le_audio_serv.Control.Snapshot.{snapshot_messages}
use callbridge_le_audio_serv.Control.Snapshot.Encodes.{IsReported, Arrives, messages_of-Arrives}

All-IsReported :
    (identities : Dict Identity) (calls : Dict Call)
    → All IsStored calls
    → All IsReported (map (with_identity identities) calls)
All-IsReported identities [] s = tt
All-IsReported identities ((index, call) ∷ calls) s = (
  record {
    is_entry = record {
      index_pos = s.0.is_entry.index_pos;
      index_byte = s.0.is_entry.index_byte;
      state_known = s.0.is_entry.state_known;
      flags_known = s.0.is_entry.flags_known;
    };
    token_pos = s.0.token_pos;
    token_u64 = s.0.token_u64;
  },
  All-IsReported identities calls s.1,
)

-- Every call that a well-formed store reports is one that the protocol carries.
pub snapshot-IsReported : (s : Store) → WellFormed s → All IsReported (snapshot s).calls
unfolding snapshot snapshot_locked
snapshot-IsReported s w =
    All-sort_calls IsReported (map (with_identity s.identities) s.calls)
      (All-IsReported s.identities s.calls w.stored)

-- Each message of the snapshot of a well-formed store encodes, and its packet decodes to it.
pub snapshot_messages-Arrives :
    (device : Bytes) (s : Store)
    → IsDevice device
    → WellFormed s
    → All Arrives (snapshot_messages device (snapshot s))
unfolding snapshot_messages
snapshot_messages-Arrives device s dev w =
    messages_of-Arrives device dev (snapshot s).sequence
      (unfold snapshot snapshot_locked in w.sequence_pos)
      (unfold snapshot snapshot_locked in w.sequence_u64) (snapshot s).calls
      (snapshot-IsReported s w)
