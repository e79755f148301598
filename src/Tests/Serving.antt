-- ===== src/Tests/Serving.antt =====
-- The commands of client.go, and server.go.
use callbridge_le_audio_serv.Prelude.{
  ℕ, ◌+◌, ◌≡◌, ◌≢◌, ◌∙◌, ◌^◌, ◌<◌, ◌≤◌, refl, inl, inr, Bool, true, false, List, [], ◌∷◌, ◌++◌, map,
  arith, All, Bytes, IsBytes, all, ltb, length, Option, none, some, Result, ok, err,
}
use callbridge_le_audio_serv.Prelude.Dict.{lookup, insert}
use callbridge_le_audio_serv.Protocol.Message.{Message, packet_size, opcode_originate}
use callbridge_le_audio_serv.Protocol.Identity.{no_identity}
use callbridge_le_audio_serv.Protocol.Device.{normalized_device}
use callbridge_le_audio_serv.Protocol.Codec.{layout, decode}
use callbridge_le_audio_serv.Protocol.Codec.RoundTrip.{decode-encode}
use callbridge_le_audio_serv.Protocol.Device.Canonical.{IsDevice-clean}
use callbridge_le_audio_serv.Gtbs.Call.{Call}
use callbridge_le_audio_serv.Gtbs.Store.{Store, snapshot, with_identity, validate_indexed_command}
use callbridge_le_audio_serv.Gtbs.Store.Invariant.{WellFormed}
use callbridge_le_audio_serv.Gtbs.Client.{
  Client, CommandError, Outcome, unexpected_indexed, pending_key, begin_command, abort_command,
  handle_control_result, pending_token,
}
use callbridge_le_audio_serv.Gtbs.Client.Commands.{
  command_answered_once, abort_command-begin_command,
}
use callbridge_le_audio_serv.Control.Snapshot.{snapshot_messages}
use callbridge_le_audio_serv.Control.Snapshot.Encodes.{Arrives}
use callbridge_le_audio_serv.Control.Snapshot.Reports.{snapshot_messages-Arrives}
use callbridge_le_audio_serv.Control.Server.{
  Server, packet, next_sequence, accept, receive, broadcast_result,
}
use callbridge_le_audio_serv.Control.Server.Sent.{Sound}
use callbridge_le_audio_serv.Control.Server.Events.{
  Event, connection, received, readiness, run, run-Sound,
}
use callbridge_le_audio_serv.Control.Server.Ack.{receive_acknowledges, acknowledgement}
use callbridge_le_audio_serv.Control.Server.Greeting.{readings, accept_greets}
use callbridge_le_audio_serv.Control.Server.Greeting
use mathlib.Core.List.{Perm}
use callbridge_le_audio_serv.Gtbs.Parse.Sort.{Rising}
use callbridge_le_audio_serv.Control.Snapshot.Whole.{IsWhole}
use callbridge_le_audio_serv.Control.Server.Results.{originate_result_identified, identified}
use callbridge_le_audio_serv.Tests.Samples.{
  phone, accept_command, phone-IsDevice, accept_command-encodes,
}

abbrev incoming : Call
incoming = record { index = 1; state = 0; flags = 0; token = 7; identity = no_identity }

abbrev store : Store
store = record {
  calls = (1, incoming) ∷ [];
  claimed = [];
  identities = [];
  sequence = 6;
  seed = 5;
  tokens = 7;
}

store-WellFormed : WellFormed store
store-WellFormed = record {
  stored = (
    record {
      keyed = refl;
      is_entry = record {
        index_pos = omega arith;
        index_byte = omega arith;
        state_known = omega arith;
        flags_known = omega arith;
      };
      token_pos = omega arith;
      token_u64 = omega arith;
    },
    tt,
  );
  distinct = (tt, tt);
  claims_distinct = tt;
  claims_hold = tt;
  identities_distinct = tt;
  identities_short = tt;
  sequence_pos = omega arith;
  sequence_u64 = omega arith;
  tokens_u64 = omega arith;
}

abbrev client : Client
client = record {
  device = phone;
  store = store;
  connected = true;
  control = true;
  ready = true;
  pending = [];
  pending_originate = true;
}

abbrev pending_client : Client
pending_client = record client { pending = insert (pending_key 0 1) 7 [] }

abbrev accept_value : Bytes
accept_value = 0 ∷ 1 ∷ []

accept-begins :
    begin_command client client client accept_command ≡ (pending_client, ok accept_value)
unfolding begin_command callbridge_le_audio_serv.Gtbs.Client.refusal
    callbridge_le_audio_serv.Prelude.bytes_eq normalized_device
    callbridge_le_audio_serv.Go.Mac.parse_mac6 callbridge_le_audio_serv.Go.Strings.trim_space
    callbridge_le_audio_serv.Go.Mac.upper_mac validate_indexed_command lookup
    callbridge_le_audio_serv.Gtbs.Store.allows callbridge_le_audio_serv.Gtbs.Client.register_command
    callbridge_le_audio_serv.Gtbs.Client.control_value
    callbridge_le_audio_serv.Gtbs.Client.link_refusal
accept-begins = refl

command_answered_once_example :
    let value : Bytes = 0 ∷ 1 ∷ 0 ∷ [] in
    let first = handle_control_result pending_client value in
    (first.1 ≡ ok (record { opcode = 0; index = 1; result = 0; token = 7 }))
    × ((handle_control_result first.0 value).1 ≡ err unexpected_indexed)
unfolding callbridge_le_audio_serv.Protocol.Validate.valid_result
command_answered_once_example =
    command_answered_once client client client pending_client accept_command accept_value 0
      store-WellFormed (λ e. absurd (omega arith)) accept-begins refl

abort_command-begin_command_example :
    let after = abort_command pending_client accept_command in
    (pending_token after.pending (pending_key 0 1) ≡ 0)
    × ((k : ℕ) → k ≢ pending_key 0 1 → lookup k after.pending ≡ lookup k client.pending)
    × (after.store ≡ client.store)
    × (after.pending_originate ≡ client.pending_originate)
abort_command-begin_command_example =
    abort_command-begin_command client client client pending_client accept_command accept_value
      (λ e. absurd (omega arith)) accept-begins

abbrev server : Server
server = record {
  peer_uid = 1000;
  device = phone;
  client = none;
  ready = true;
  sequence = 9;
  sent = [];
  handled = [];
}

server-Sound : Sound phone server
server-Sound = record { device = refl; reads = tt; commands = tt }

abbrev takes_all : ℕ → Bytes → Bool
takes_all n p = true

abbrev accepts : Message → Option CommandError
accepts m = none

abbrev events : List Event
events =
    connection 4 (some 1000) (record { sequence = 6; calls = incoming ∷ [] })
    ∷ readiness false
    ∷ received 4 (packet false (1 ∷ 2 ∷ []))
    ∷ []

run-Sound_example : Sound phone (run takes_all accepts events server)
run-Sound_example =
    run-Sound takes_all accepts phone events server phone-IsDevice
      ((omega arith, (omega arith, tt)), (tt, ((omega arith, (omega arith, tt)), tt))) server-Sound

accept_greets_example :
    let after = accept takes_all 4 (some 1000) (snapshot store) server in
    (out : List (ℕ × Bytes)) × (told : List Message) × (after.sent ≡ [] ++ out)
    × (readings out ≡ map ok (told ++ (Greeting.readiness server ∷ [])))
    × IsWhole phone 6 (snapshot store).calls told
    × Perm (snapshot store).calls (map (with_identity store.identities) store.calls)
    × Rising (snapshot store).calls
    × All (λ e. e.0 ≡ 4) out
    × (after.client ≡ some 4)
accept_greets_example =
    accept_greets takes_all (λ n p. refl) 4 store server phone-IsDevice store-WellFormed refl

accept_command-reads :
    (decode (layout accept_command) ≡ ok accept_command)
    × (length (layout accept_command) ≡ packet_size)
accept_command-reads =
    decode-encode accept_command (record { sequence_u64 = omega arith; token_u64 = omega arith })
      (omega arith) (IsDevice-clean phone phone-IsDevice).1 accept_command-encodes

bytes_checked : (p : Bytes) → all (λ b. ltb b 256) p ≡ true → IsBytes p
bytes_checked [] e = tt
bytes_checked (b ∷ p) e = (ground arith, bytes_checked p (ground arith))

accept_command-IsBytes : IsBytes (layout accept_command)
unfolding layout
accept_command-IsBytes = bytes_checked (layout accept_command) refl

abbrev connected_server : Server
connected_server = record server { client = some 4 }

receive_acknowledges_example :
    (q : Bytes) × (decode q ≡ ok (acknowledgement phone accept_command 0))
    × (receive takes_all accepts 4 (packet false (layout accept_command)) connected_server
        ≡ record connected_server {
          handled = accept_command ∷ connected_server.handled;
          sent = connected_server.sent ++ ((4, q) ∷ []);
        })
receive_acknowledges_example =
    receive_acknowledges takes_all accepts 4 4 (layout accept_command) accept_command
      connected_server accept_command-IsBytes accept_command-reads.1 accept_command-reads.0 refl
      refl phone-IsDevice refl (λ n q. refl)

snapshot_messages-Arrives_example : All Arrives (snapshot_messages phone (snapshot store))
snapshot_messages-Arrives_example =
    snapshot_messages-Arrives phone store phone-IsDevice store-WellFormed

originate_result_identified_example :
    let o : Outcome = record { opcode = 4; index = 1; result = 2; token = 7 } in
    ((handle_control_result client (opcode_originate ∷ 1 ∷ 2 ∷ [])).1 ≡ ok o)
    × (q : Bytes) × (decode q ≡ ok (identified phone 10 1 2 7))
    × (broadcast_result takes_all o.opcode o.index o.result o.token connected_server
        ≡ record connected_server { sequence = 10; sent = [] ++ ((4, q) ∷ []) })
unfolding callbridge_le_audio_serv.Protocol.Validate.valid_result lookup next_sequence
originate_result_identified_example =
    originate_result_identified takes_all 4 client connected_server 1 2 phone-IsDevice
      store-WellFormed refl refl refl (λ n q. refl) incoming refl
