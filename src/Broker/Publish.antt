-- ===== src/Broker/Publish.antt =====
-- broker.go: the last sections of `acquire`: a pair is handed off, and its session begins.
use callbridge_le_audio_serv.Prelude.{
  ℕ, ◌+◌, Bool, true, false, not, ◌&&◌, ◌||◌, List, [], ◌∷◌, ◌==◌, ◌!=◌, if◌then◌else◌, Bytes,
  Option, none, some, Result, ok, err,
}
use callbridge_le_audio_serv.Prelude.Table.{put, erase, flag}
use callbridge_le_audio_serv.Handoff.{Descriptor, Error as HandoffError}
use callbridge_le_audio_serv.Handoff.Server.{HandoffServer, publish_pair}
use callbridge_le_audio_serv.Broker.Transports.{
  PendingTransport, Error as PairError, pending_release_paths, descriptor_for_pending,
  next_descriptor_generation,
}
use callbridge_le_audio_serv.Broker.State.{Session, Broker}
use callbridge_le_audio_serv.Broker.Acquire.{is_current}

-- `provider()` at each poll before the deadline
unfoldable pub wait_for_call_token : List (ℕ × Bool) → ℕ × Bool
wait_for_call_token [] = (0, false)
wait_for_call_token ((token, correlated) ∷ polls) =
    let rest = wait_for_call_token polls in if correlated && token != 0 then (token, true) else rest

unfoldable pub clear_pairing_one : PendingTransport → Broker → Broker
clear_pairing_one held b =
    if is_current held b then record b { pairing = erase held.path b.pairing } else b

unfoldable pub clear_pairing : PendingTransport → PendingTransport → Broker → Broker
clear_pairing first second b = clear_pairing_one second (clear_pairing_one first b)

abbrev pub same_connection : ℕ → Option ℕ → Bool
same_connection conn none = false
same_connection conn (some c) = c == conn

unfoldable pub pair_current : ℕ → PendingTransport → PendingTransport → Broker → Bool
pair_current conn first second b =
    same_connection conn b.connection
    && flag first.path b.pairing
    && flag second.path b.pairing
    && is_current first b
    && is_current second b

-- `activeSessionForHandoff`
unfoldable pub active_session_for_handoff :
    ℕ → ℕ → PendingTransport → PendingTransport → Descriptor → Descriptor → ℕ → Session
active_session_for_handoff handle conn sink source sink_descriptor source_descriptor now = record {
  handle = handle;
  connection = conn;
  release_paths = pending_release_paths (some sink ∷ some source ∷ []);
  sink_path = sink.path;
  source_path = source.path;
  sink_generation = sink_descriptor.generation;
  source_generation = source_descriptor.generation;
  bundle_id = sink_descriptor.bundle_id;
  call_token = sink_descriptor.call_control_token;
  started_at = now;
  progress_armed = false;
  last_progress = 0;
  normal_end_seen = false;
  normal_wait_started = false;
  idle_paths = [];
  remote_idle_seen = false;
  releasing = false;
  release_exhausted = false;
}

-- What the kernel does in the last section: two readings of the clock, the lifecycle sockets, the
-- sends, and the time.
pub record Kernel : Type 0 where
  pub first_clock : Option (ℕ × ℕ)
  pub second_clock : Option (ℕ × ℕ)
  pub sockets : Bool
  pub deliver : ℕ → Bytes → Bool
  pub now : ℕ

unfoldable pub publish_on :
    Result HandoffError (Unit {0}) → ℕ → Session → HandoffServer → Broker → Broker × Bool
publish_on (err e) conn s handoff b = (record b { handoff = handoff }, false)
publish_on (ok _) conn s handoff b = (
  record b {
    handoff = handoff;
    acquired = put s.source_path true (put s.sink_path true b.acquired);
    active_session = some s;
    next_session = b.next_session + 1;
  },
  true,
)

-- The two generations are there: the pair is published.
unfoldable pub publish_with :
    Kernel → ℕ → PendingTransport → PendingTransport → ℕ → Bool → ℕ → ℕ → Broker → Broker × Bool
publish_with kernel conn sink source token correlated sink_generation source_generation b =
    let first = descriptor_for_pending sink sink_generation sink_generation token correlated in
    let second = descriptor_for_pending source source_generation sink_generation token correlated in
    let (handoff, result) =
      publish_pair kernel.deliver (some sink.fd) first (some source.fd) second kernel.sockets
        b.handoff in
    let s = active_session_for_handoff b.next_session conn sink source first second kernel.now in
    publish_on result conn s handoff b

-- The reservation of a pair ends, and its two descriptors are closed.
unfoldable pub return_pair : PendingTransport → PendingTransport → Broker → Broker
return_pair sink source b =
    let cleared = clear_pairing sink source b in
    record cleared { closed = source.fd ∷ sink.fd ∷ cleared.closed }

unfoldable pub publish_second :
    Result PairError ℕ
    → Kernel
    → ℕ
    → PendingTransport
    → PendingTransport
    → ℕ
    → Bool
    → ℕ
    → Broker
    → Broker × Bool
publish_second (err e) kernel conn sink source token correlated g b =
    (record b { last_gen = g }, false)
publish_second (ok g') kernel conn sink source token correlated g b =
    publish_with kernel conn sink source token correlated g g' (record b { last_gen = g' })

unfoldable pub publish_first :
    Result PairError ℕ
    → Kernel
    → ℕ
    → PendingTransport
    → PendingTransport
    → ℕ
    → Bool
    → Broker
    → Broker × Bool
publish_first (err e) kernel conn sink source token correlated b = (b, false)
publish_first (ok g) kernel conn sink source token correlated b =
    publish_second (next_descriptor_generation kernel.second_clock g) kernel conn sink source token
      correlated g b

-- The last section of `acquire` up to `clearPairingLocked`
unfoldable pub publish_current :
    Kernel → ℕ → PendingTransport → PendingTransport → ℕ → Bool → Broker → Broker × Bool
publish_current kernel conn sink source token correlated b =
    publish_first (next_descriptor_generation kernel.first_clock b.last_gen) kernel conn sink source
      token correlated b

-- `acquire` from the answer of `waitForCallToken` on
unfoldable pub publish :
    Kernel → ℕ → PendingTransport → PendingTransport → ℕ → Bool → Broker → Broker × Bool
publish kernel conn sink source token correlated b =
    let (after, published) =
      if (b.require_token && not correlated) || not (pair_current conn sink source b)
      then (b, false)
      else publish_current kernel conn sink source token correlated b in
    (return_pair sink source after, published)
