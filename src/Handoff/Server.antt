-- ===== src/Handoff/Server.antt =====
-- handoff.go: `PublishPair`, the server's checks, sends and last numbers, and the peer that `Run`
-- accepts and drops.
use callbridge_le_audio_serv.Prelude.{
  ℕ, Bool, true, false, not, ◌&&◌, ◌||◌, List, [], ◌∷◌, ◌++◌, ◌==◌, leb, if◌then◌else◌, Bytes,
  length, Result, ok, err, fail_if, Option, none, some, ◌>>◌,
}
use callbridge_le_audio_serv.Handoff.{
  Descriptor, Error, validate_descriptor, validate_descriptor_pair, write_descriptor,
  bad_descriptors, stale_generation, not_connected, short_handoff,
}

-- `HandoffServer`, and the packets that went out whole.
pub record HandoffServer : Type 0 where
  pub client : Option ℕ
  pub last_sink : ℕ
  pub last_source : ℕ
  pub last_bundle : ℕ
  pub sent : List Bytes

-- `deliver n p`: `SendmsgN`, called with `p` after `n` packets went out, wrote `len(p)` bytes.
unfoldable pub send_descriptor :
    (ℕ → Bytes → Bool) → Bytes → HandoffServer → HandoffServer × Result Error (Unit {0})
send_descriptor deliver p s =
    if deliver (length s.sent) p
    then (record s { sent = s.sent ++ (p ∷ []) }, ok tt)
    else (record s { client = none }, err short_handoff)

-- The two sends of `PublishPair`, and the generations behind them.
unfoldable pub send_pair :
    (ℕ → Bytes → Bool)
    → Descriptor
    → Descriptor
    → HandoffServer
    → HandoffServer × Result Error (Unit {0})
send_pair deliver sink source s =
    let (s1, first) = send_descriptor deliver (write_descriptor sink) s in
    let (s2, second) = send_descriptor deliver (write_descriptor source) s1 in
    let s3 = record s2 {
      last_sink = sink.generation;
      last_source = source.generation;
      last_bundle = sink.bundle_id;
    } in
    elim first [
      | err e ↦ (s1, err e)
      | ok _ ↦ elim second [ err e ↦ (s2, err e) | ok _ ↦ (s3, ok tt) ]
    ]

-- `sinkFD < 0 || sourceFD < 0 || sinkFD == sourceFD`
abbrev pub bad_fds : Option ℕ → Option ℕ → Bool
bad_fds none b = true
bad_fds (some a) none = true
bad_fds (some a) (some b) = a == b

abbrev pub is_none : Option ℕ → Bool
is_none none = true
is_none (some a) = false

-- The checks of `PublishPair`; a negative file descriptor is `none`, and `sockets` is whether the
-- lifecycle sockets open.
unfoldable pub check_pair :
    Option ℕ → Descriptor → Option ℕ → Descriptor → Bool → HandoffServer → Result Error (Unit {0})
check_pair sink_fd sink source_fd source sockets s = do
  validate_descriptor_pair sink source
  validate_descriptor sink
  validate_descriptor source
  fail_if (bad_fds sink_fd source_fd) bad_descriptors
  fail_if (not sockets) bad_descriptors
  fail_if
      (leb sink.generation s.last_sink
        || leb source.generation s.last_source
        || leb sink.bundle_id s.last_bundle)
      stale_generation
  fail_if (is_none s.client) not_connected

unfoldable pub publish_pair :
    (ℕ → Bytes → Bool)
    → Option ℕ
    → Descriptor
    → Option ℕ
    → Descriptor
    → Bool
    → HandoffServer
    → HandoffServer × Result Error (Unit {0})
publish_pair deliver sink_fd sink source_fd source sockets s =
    let owned = record sink { lifecycle_owned = true } in
    let other = record source { lifecycle_owned = false } in
    elim (check_pair sink_fd owned source_fd other sockets s) [
      | err e ↦ (s, err e)
      | ok _ ↦ send_pair deliver owned other s
    ]

-- `Run` behind `Accept4`: a peer with the user that is expected is kept where there is none; the
-- credential is `none` where it cannot be read.
unfoldable pub accept_peer : ℕ → Option ℕ → ℕ → HandoffServer → HandoffServer
accept_peer peer_uid credential fd s = elim credential [
  | none ↦ s
  | some uid ↦ if uid == peer_uid && is_none s.client then record s { client = some fd } else s
]

-- `Run` on the end of the peer that it polled: it is dropped if it is still the one that is kept.
unfoldable pub drop_peer : ℕ → HandoffServer → HandoffServer
drop_peer fd s = elim s.client [
  | none ↦ s
  | some kept ↦ if kept == fd then record s { client = none } else s
]
