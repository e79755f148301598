-- ===== src/Broker/Transports.antt =====
-- broker.go: the transports of a stream that are acquired and wait for their other direction.
pub mod Links
pub mod Handover
use callbridge_le_audio_serv.Prelude.{
  ℕ, zero, suc, ◌+◌, ◌*◌, ◌%◌, ◌^◌, Bool, true, false, not, ◌&&◌, ◌||◌, List, [], ◌∷◌, ◌==◌, ◌!=◌,
  ltb, leb, if◌then◌else◌, Bytes, bytes_eq, length, Option, none, some, Result, ok, err, fail_if,
  ◌>>◌,
}
use callbridge_le_audio_serv.Prelude.Table.{Table}
use callbridge_le_audio_serv.Lc3.{CodecConfig}
use callbridge_le_audio_serv.Handoff.{Descriptor, direction_sink}
use callbridge_le_audio_serv.Broker.Qos.{TransportQos}

pub record TransportConfig : Type 0 where
  pub direction : ℕ
  pub generation : ℕ  -- uint64
  pub codec : CodecConfig
  pub qos : TransportQos

pub record PendingTransport : Type 0 where
  pub path : Bytes
  pub release : Bytes
  pub config : TransportConfig
  pub qos : TransportQos
  pub links : List Bytes
  pub fd : ℕ
  pub read_mtu : ℕ  -- uint16
  pub write_mtu : ℕ  -- uint16

pub data Error : Type 0 where
  invalid_links no_pair codec_mismatch not_one_cis first_not_linked second_not_linked : Error
  no_clock exhausted : Error

-- `a < b` on strings
unfoldable pub bytes_lt : Bytes → Bytes → Bool
bytes_lt _ [] = false
bytes_lt [] (y ∷ ys) = true
bytes_lt (x ∷ xs) (y ∷ ys) = ltb x y || (x == y && bytes_lt xs ys)

pub record Plan : Type 0 where
  pub peer : Bytes
  pub linked : Bool
  pub leader : Bool

unfoldable pub linked_acquire_plan : Bytes → List Bytes → Result Error Plan
linked_acquire_plan path [] = ok (record { peer = []; linked = false; leader = true })
linked_acquire_plan path (peer ∷ []) =
    if length peer == 0 || bytes_eq peer path
    then err invalid_links
    else ok (record { peer = peer; linked = true; leader = bytes_lt path peer })
linked_acquire_plan path (peer ∷ other ∷ links) = err invalid_links

unfoldable pub contains_object_path : List Bytes → Bytes → Bool
contains_object_path [] want = false
contains_object_path (path ∷ paths) want = bytes_eq path want || contains_object_path paths want

-- `held.release != ""`
unfoldable pub pending_release_path : PendingTransport → Bytes
pending_release_path held = if length held.release != 0 then held.release else held.path

-- A nil transport is `none`; `seen` are the paths that are listed so far.
unfoldable pub release_paths_from : List Bytes → List (Option PendingTransport) → List Bytes
release_paths_from seen [] = []
release_paths_from seen (none ∷ transports) = release_paths_from seen transports
release_paths_from seen (some held ∷ transports) =
    let path = pending_release_path held in
    let skipped = release_paths_from seen transports in
    let listed = path ∷ release_paths_from (path ∷ seen) transports in
    if length path == 0 || contains_object_path seen path then skipped else listed

unfoldable pub pending_release_paths : List (Option PendingTransport) → List Bytes
pending_release_paths transports = release_paths_from [] transports

unfoldable pub validate_transport_pair :
    PendingTransport → PendingTransport → Result Error (Unit {0})
validate_transport_pair first second = do
  fail_if (first.config.direction == second.config.direction) no_pair
  fail_if
      (first.config.codec.sample_rate != second.config.codec.sample_rate
        || first.config.codec.frame_duration != second.config.codec.frame_duration
        || first.config.codec.octets_per_frame != second.config.codec.octets_per_frame)
      codec_mismatch
  fail_if
      (first.qos.cig != second.qos.cig
        || first.qos.cis != second.qos.cis
        || first.qos.interval_us != second.qos.interval_us
        || first.qos.framing != second.qos.framing
        || first.qos.phy != second.qos.phy)
      not_one_cis
  fail_if (length first.links != 0 && not (contains_object_path first.links second.path))
      first_not_linked
  fail_if (length second.links != 0 && not (contains_object_path second.links first.path))
      second_not_linked

-- `findPendingPeerLocked`: the candidate, and what its check says.
unfoldable pub find_pending_peer :
    Table PendingTransport → PendingTransport → Option (PendingTransport × Result Error (Unit {0}))
find_pending_peer [] current = none
find_pending_peer ((name, candidate) ∷ pending) current =
    let rest = find_pending_peer pending current in
    if bytes_eq candidate.path current.path
      || candidate.config.direction == current.config.direction
    then rest
    else some (candidate, validate_transport_pair current candidate)

unfoldable pub descriptor_for_pending : PendingTransport → ℕ → ℕ → ℕ → Bool → Descriptor
descriptor_for_pending transport generation bundle_id call_token call_correlated = record {
  direction = transport.config.direction;
  generation = generation;
  bundle_id = bundle_id;
  call_control_token = call_token;
  call_control_correlated = call_correlated;
  ownership_transferred = true;
  linked = true;
  lifecycle_owned = transport.config.direction == direction_sink;
  sample_rate = transport.config.codec.sample_rate % 2 ^ 32;
  frame_duration_us = transport.config.codec.frame_duration % 2 ^ 32;
  octets_per_frame = transport.config.codec.octets_per_frame % 2 ^ 16;
  channel_allocation = transport.config.codec.channel_allocation;
  interval_us = transport.qos.interval_us;
  presentation_delay_us = transport.qos.presentation_delay_us;
  read_mtu = transport.read_mtu;
  write_mtu = transport.write_mtu;
  latency_ms = transport.qos.latency_ms;
  framing = transport.qos.framing;
  phy = transport.qos.phy;
  retransmissions = transport.qos.retransmissions;
  target_latency = transport.qos.target_latency;
  cig = transport.qos.cig;
  cis = transport.qos.cis;
  transport = transport.path;
}

-- The clock since boot: seconds and nanoseconds, or none where it fails or is negative.
unfoldable pub next_descriptor_generation : Option (ℕ × ℕ) → ℕ → Result Error ℕ
next_descriptor_generation none last = err no_clock
next_descriptor_generation (some (seconds, nanoseconds)) last =
    let generation = (seconds * 1000000000 + nanoseconds) % 2 ^ 64 in
    if leb generation last
    then (if last == 0xffffffffffffffff then err exhausted else ok (last + 1))
    else ok generation
