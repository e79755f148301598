-- ===== src/Broker/Acquire.antt =====
-- broker.go: the first sections of `acquire`: a transport is reserved, and held until its other
-- direction is there.
use callbridge_le_audio_serv.Prelude.{
  ℕ, Bool, true, false, not, ◌||◌, List, [], ◌∷◌, ◌==◌, ◌!=◌, if◌then◌else◌, Bytes, Option, none,
  some, Result, ok, err,
}
use callbridge_le_audio_serv.Prelude.Table.{Table, find, put, erase, flag}
use callbridge_le_audio_serv.Handoff.{direction_sink}
use callbridge_le_audio_serv.Broker.Transports.{
  TransportConfig, PendingTransport, Plan, Error as PairError, find_pending_peer,
}
use callbridge_le_audio_serv.Broker.State.{Broker}

-- `b.acquiring[path] || b.acquired[path] || b.pairing[path]`
unfoldable pub is_busy : Bytes → Broker → Bool
is_busy path b = flag path b.acquiring || flag path b.acquired || flag path b.pairing

-- The configuration of a transport that may be acquired
unfoldable pub free_config : Bytes → Broker → Option TransportConfig
free_config path b = elim b.connection [
  | none ↦ none
  | some conn ↦ if is_busy path b then none else find path b.configured
]

unfoldable pub reserve_on :
    Option TransportConfig
    → Option TransportConfig
    → Bytes
    → Plan
    → Broker
    → Option (TransportConfig × Option TransportConfig × Broker)
reserve_on none peer_config path plan b = none
reserve_on (some config) none path plan b =
    if plan.linked
    then none
    else some (config, none, record b { acquiring = put path true b.acquiring })
reserve_on (some config) (some peer_config) path plan b =
    if plan.linked
    then (if is_busy plan.peer b
        then none
        else some (
          config,
          some peer_config,
          record b { acquiring = put path true (put plan.peer true b.acquiring) },
        ))
    else some (config, none, record b { acquiring = put path true b.acquiring })

-- The section behind the reading of the links: the configuration, and that of a linked peer
unfoldable pub reserve :
    Bytes → Plan → Broker → Option (TransportConfig × Option TransportConfig × Broker)
reserve path plan b = reserve_on (free_config path b) (find plan.peer b.configured) path plan b

-- The deferred function of `acquire`
unfoldable pub unreserve : Bytes → Plan → Broker → Broker
unreserve path plan b = record b {
  acquiring =
      let rest = erase path b.acquiring in if plan.linked then erase plan.peer rest else rest;
}

-- `configuration, present := b.configured[path]; present && configuration.generation == ...`
unfoldable pub is_current : PendingTransport → Broker → Bool
is_current held b = elim (find held.path b.configured) [
  | none ↦ false
  | some config ↦ config.generation == held.config.generation
]

abbrev pub is_present : {V : Type 0} → Option V → Bool
is_present none = false
is_present (some value) = true

-- What becomes of a transport that was acquired
pub data Held : Type 0 where
  reconfigured duplicate : Held
  waiting : Held
  mismatched : PendingTransport → Held
  paired : PendingTransport → PendingTransport → Held

-- `sink, source := held, peer; if sink is not the sink { swap }`
abbrev pub sort_pair : PendingTransport → PendingTransport → PendingTransport × PendingTransport
sort_pair held peer = if held.config.direction != direction_sink then (peer, held) else (held, peer)

unfoldable pub match_peer :
    Option (PendingTransport × Result PairError (Unit {0}))
    → PendingTransport
    → Broker
    → Broker × Held
match_peer none held b = (b, waiting)
match_peer (some (peer, err e)) held b = (
  record b {
    pending = erase peer.path (erase held.path b.pending);
    closed = peer.fd ∷ held.fd ∷ b.closed;
  },
  mismatched peer,
)
match_peer (some (peer, ok _)) held b =
    let (sink, source) = sort_pair held peer in
    (
      record b {
        pending = erase peer.path (erase held.path b.pending);
        pairing = put source.path true (put sink.path true b.pairing);
      },
      paired sink source,
    )

unfoldable pub find_match : PendingTransport → Broker → Broker × Held
find_match held b = match_peer (find_pending_peer b.pending held) held b

-- The second section for a transport without a link: its descriptor is closed when it is not kept.
unfoldable pub hold_single : PendingTransport → Broker → Broker × Held
hold_single held b =
    let refuse = record b { closed = held.fd ∷ b.closed } in
    let kept = record b { pending = put held.path held b.pending } in
    if not (is_current held b)
    then (refuse, reconfigured)
    else (if is_present (find held.path b.pending)
        then (refuse, duplicate)
        else find_match held kept)

-- The same for a transport with its linked peer, which has a duplicate of the descriptor.
unfoldable pub hold_linked : PendingTransport → PendingTransport → Broker → Broker × Held
hold_linked held peer b =
    let refuse = record b { closed = held.fd ∷ peer.fd ∷ b.closed } in
    let first = put held.path held b.pending in
    let kept = record b { pending = put peer.path peer first } in
    if not (is_current held b) || not (is_current peer b)
    then (refuse, reconfigured)
    else (if is_present (find held.path b.pending) || is_present (find peer.path first)
        then (refuse, duplicate)
        else find_match held kept)

unfoldable pub expire_on :
    Option PendingTransport → Bytes → ℕ → Broker → Broker × Option PendingTransport
expire_on none path generation b = (b, none)
expire_on (some held) path generation b =
    if held.config.generation != generation
    then (b, none)
    else (record b { pending = erase path b.pending; closed = held.fd ∷ b.closed }, some held)

-- `expirePending` behind its timer: the transport that is given back
unfoldable pub expire_pending : Bytes → ℕ → Broker → Broker × Option PendingTransport
expire_pending path generation b = expire_on (find path b.pending) path generation b

unfoldable pub close_held : Table PendingTransport → List ℕ → List ℕ
close_held [] closed = closed
close_held ((path, held) ∷ pending) closed = close_held pending (held.fd ∷ closed)

unfoldable pub close_pending : Broker → Broker
close_pending b = record b { closed = close_held b.pending b.closed; pending = [] }
