-- ===== src/Broker/Steps/Reserved.antt =====
-- The sections that reserve, hold and give back transports begin no release and give out no number.
use callbridge_le_audio_serv.Prelude.{
  ℕ, ◌≡◌, refl, subst, not, ◌||◌, ◌!=◌, Bytes, Option, none, some, Bool-cases, inl, inr, ok, err,
  Result,
}
use callbridge_le_audio_serv.Prelude.Table.{find, put}
use callbridge_le_audio_serv.Broker.Transports.{
  PendingTransport, Plan, TransportConfig, find_pending_peer, Error as PairError,
}
use callbridge_le_audio_serv.Broker.State.{Broker}
use callbridge_le_audio_serv.Broker.Acquire.{
  is_busy, free_config, reserve_on, reserve, unreserve, is_current, is_present, match_peer,
  find_match, hold_single, hold_linked, expire_on, expire_pending,
}
use callbridge_le_audio_serv.Broker.Publish.{clear_pairing_one, clear_pairing, return_pair}
use callbridge_le_audio_serv.Broker.Steps.Sessions.{Keeps, Keeps-refl, Keeps-trans}
use callbridge_le_audio_serv.Broker.Steps.Kept.{same, Keeps-if, Keeps-if_first}

matched :
    (o : Option (PendingTransport × Result PairError (Unit {0}))) (held : PendingTransport)
    (b : Broker)
    → Keeps b (match_peer o held b).0
unfolding match_peer
matched none held b = Keeps-refl b
matched (some (peer, err e)) held b = same b _ refl refl refl refl refl
matched (some (peer, ok u)) held b = same b _ refl refl refl refl refl

found : (held : PendingTransport) (b : Broker) → Keeps b (find_match held b).0
unfolding find_match
found held b = matched (find_pending_peer b.pending held) held b

pub hold_single-Keeps : (held : PendingTransport) (b : Broker) → Keeps b (hold_single held b).0
unfolding hold_single
hold_single-Keeps held b =
    Keeps-if_first (not (is_current held b)) _ _ (same b _ refl refl refl refl refl) (
      Keeps-if_first (is_present (find held.path b.pending)) _ _ (same b _ refl refl refl refl refl)
        (Keeps-trans (same b _ refl refl refl refl refl) (found held _)))

pub hold_linked-Keeps :
    (held peer : PendingTransport) (b : Broker) → Keeps b (hold_linked held peer b).0
unfolding hold_linked
hold_linked-Keeps held peer b =
    Keeps-if_first (not (is_current held b) || not (is_current peer b)) _ _
      (same b _ refl refl refl refl refl)
      (Keeps-if_first
        (is_present (find held.path b.pending)
          || is_present (find peer.path (put held.path held b.pending)))
        _ _ (same b _ refl refl refl refl refl)
        (Keeps-trans (same b _ refl refl refl refl refl) (found held _)))

pairing_cleared : (held : PendingTransport) (b : Broker) → Keeps b (clear_pairing_one held b)
unfolding clear_pairing_one
pairing_cleared held b =
    Keeps-if (is_current held b) (same b _ refl refl refl refl refl) (Keeps-refl b)

pub return_pair-Keeps :
    (sink source : PendingTransport) (b : Broker) → Keeps b (return_pair sink source b)
unfolding return_pair clear_pairing
return_pair-Keeps sink source b =
    Keeps-trans (pairing_cleared sink b)
      (Keeps-trans (pairing_cleared source _) (same _ _ refl refl refl refl refl))

expired :
    (o : Option PendingTransport) (path : Bytes) (generation : ℕ) (b : Broker)
    → Keeps b (expire_on o path generation b).0
unfolding expire_on
expired none path generation b = Keeps-refl b
expired (some held) path generation b =
    Keeps-if_first (held.config.generation != generation) _ _ (Keeps-refl b)
      (same b _ refl refl refl refl refl)

pub expire_pending-Keeps :
    (path : Bytes) (generation : ℕ) (b : Broker) → Keeps b (expire_pending path generation b).0
unfolding expire_pending
expire_pending-Keeps path generation b = expired (find path b.pending) path generation b

pub unreserve-Keeps : (path : Bytes) (plan : Plan) (b : Broker) → Keeps b (unreserve path plan b)
unfolding unreserve
unreserve-Keeps path plan b = same b _ refl refl refl refl refl

taken :
    (b c : Broker) {x x' : TransportConfig} {y y' : Option TransportConfig} {d : Broker}
    → ◌≡◌ {A = Option (TransportConfig × Option TransportConfig × Broker)}
        (some (x, y, d))
        (some (x', y', c))
    → Keeps b d
    → Keeps b c
taken b c {d = d} e k = let same_state : d ≡ c = cc in subst (Keeps b) same_state k

reserved :
    (o o' : Option TransportConfig) (path : Bytes) (plan : Plan) (b c : Broker)
    {config : TransportConfig} {peer : Option TransportConfig}
    → reserve_on o o' path plan b ≡ some (config, peer, c)
    → Keeps b c
unfolding reserve_on
reserved none o' path plan b c e = absurd (cc)
reserved (some config) none path plan b c e = elim (Bool-cases plan.linked) [
  | inl linked ↦ absurd (let h = rw linked at e in cc)
  | inr single ↦ taken b c (rw single at e) (same b _ refl refl refl refl refl)
]
reserved (some config) (some peer) path plan b c e = elim (Bool-cases plan.linked) [
  | inr single ↦ taken b c (rw single at e) (same b _ refl refl refl refl refl)
  | inl linked ↦ elim (Bool-cases (is_busy plan.peer b)) [
    | inl busy ↦ absurd (let h = rw busy at (rw linked at e) in cc)
    | inr idle ↦ taken b c (rw idle at (rw linked at e)) (same b _ refl refl refl refl refl)
  ]
]

pub reserve-Keeps :
    (path : Bytes) (plan : Plan) (b c : Broker) (config : TransportConfig)
    (peer : Option TransportConfig)
    → reserve path plan b ≡ some (config, peer, c)
    → Keeps b c
unfolding reserve
reserve-Keeps path plan b c config peer e =
    reserved (free_config path b) (find plan.peer b.configured) path plan b c e
