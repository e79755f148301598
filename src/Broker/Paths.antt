-- ===== src/Broker/Paths.antt =====
-- broker.go: the transports that BlueZ configures, takes away and reports idle.
use callbridge_le_audio_serv.Prelude.{
  ℕ, ◌+◌, Bool, true, false, not, ◌&&◌, ◌||◌, [], ◌∷◌, ◌++◌, ◌==◌, if◌then◌else◌, Bytes, bytes_eq,
  codes, Option, none, some, Result, ok, err,
}
use callbridge_le_audio_serv.Prelude.Table.{find, put, erase, flag}
use callbridge_le_audio_serv.Lc3.{CodecConfig}
use callbridge_le_audio_serv.Broker.Qos.{TransportQos}
use callbridge_le_audio_serv.Broker.Transports.{
  TransportConfig, PendingTransport, contains_object_path,
}
use callbridge_le_audio_serv.Broker.State.{
  Session, Broker, Error, with_session, clear_active_session, unexpected_transport,
  generations_exhausted,
}

-- `strings.HasPrefix`
unfoldable pub has_prefix : Bytes → Bytes → Bool
has_prefix [] _ = true
has_prefix (x ∷ xs) [] = false
has_prefix (x ∷ xs) (y ∷ ys) = x == y && has_prefix xs ys

-- `if held := b.pending[path]; held != nil { close; delete }`
unfoldable pub drop_held : Bytes → Option PendingTransport → Broker → Broker
drop_held path none b = b
drop_held path (some held) b = record b {
  closed = held.fd ∷ b.closed;
  pending = erase path b.pending;
}

-- `path.IsValid()` of the D-Bus library is `valid`.
unfoldable pub configure :
    (Bytes → Bool)
    → Bytes
    → ℕ
    → CodecConfig
    → TransportQos
    → Broker
    → Broker × Result Error (Unit {0})
configure valid path direction codec qos b =
    let dropped = drop_held path (find path b.pending) b in
    let entry : TransportConfig = record {
      direction = direction;
      generation = b.next_config + 1;
      codec = codec;
      qos = qos;
    } in
    let configured = record dropped {
      next_config = b.next_config + 1;
      configured = put path entry b.configured;
      acquiring = erase path b.acquiring;
      acquired = erase path b.acquired;
      pairing = erase path b.pairing;
    } in
    if not (valid path) || not (has_prefix (b.expected_device ++ codes "/") path)
    then (b, err unexpected_transport)
    else (if b.next_config == 0xffffffffffffffff
        then (b, err generations_exhausted)
        else (configured, ok tt))

-- The path is one of the session's.
unfoldable pub concerns : Bytes → Session → Bool
concerns path s =
    bytes_eq path s.sink_path
    || bytes_eq path s.source_path
    || contains_object_path s.release_paths path

unfoldable pub clear_session_of : Bytes → Option Session → Broker → Broker
clear_session_of path none b = b
clear_session_of path (some s) b = if concerns path s then clear_active_session s b else b

unfoldable pub clear : Bytes → Broker → Broker
clear path b =
    let dropped = drop_held path (find path b.pending) b in
    clear_session_of path b.active_session (record dropped {
      configured = erase path b.configured;
      acquiring = erase path b.acquiring;
      acquired = erase path b.acquired;
      pairing = erase path b.pairing;
    })

abbrev pub all_remote_idle : Session → Bool
all_remote_idle s = flag s.sink_path s.idle_paths && flag s.source_path s.idle_paths

-- The end of a session whose two paths are idle
unfoldable pub idle_end : Session → Broker → Broker
idle_end s b =
    if s.releasing
    then with_session b (record s { remote_idle_seen = true })
    else clear_active_session s (record b {
      counters = record b.counters {
        transport_idle_complete = b.counters.transport_idle_complete + 1;
        normal_release_idle = b.counters.normal_release_idle + (if s.normal_end_seen then 1 else 0);
      };
    })

unfoldable pub idle_session : Bytes → Option Session → Broker → Broker
idle_session path none b = b
idle_session path (some s) b =
    let marked = record s { idle_paths = put path true s.idle_paths } in
    if concerns path s
    then (if all_remote_idle marked then idle_end marked b else with_session b marked)
    else b

-- `handleSignal` at the state `idle`
unfoldable pub idle : Bytes → Broker → Broker
idle path b = idle_session path b.active_session (record b {
  acquiring = erase path b.acquiring;
  acquired = erase path b.acquired;
  pairing = erase path b.pairing;
})
