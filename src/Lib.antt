-- ===== src/Lib.antt =====
-- Verification of the callbridge LE Audio services, written in Go.
--
-- The repository has two programs. callbridge-le-call-go lets a local process control the calls of
-- a phone over LE: its GTBS client follows the Call State and Incoming Call characteristics of the
-- phone in a store, and its server tells a local peer of the calls in packets of 128 bytes and takes
-- commands from it, which the client writes to the Call Control Point. callbridge-sms-go bridges
-- messages, and brokers LE audio streams with LC3. Modelled here:
--
-- Go        the functions of Go's packages strings and net (`ParseMAC`) that the code calls
-- Protocol  callbridge-le-call-go/internal/protocol/protocol.go: messages, identities, device
--           addresses, `validate` (a function for each message type), `Encode` and `Decode`
-- Gtbs      callbridge-le-call-go/internal/gtbs: Call and Store are state.go (`Store` as a record,
--           each method a function that returns the new store), Parse its parsers, Client the
--           commands, results and signals (Client/Signals) of client.go
-- Control   callbridge-le-call-go/internal/control/server.go: Snapshot is `snapshotMessages`, Server
--           the methods of `Server`, Server/Events sequences of what happens to it
-- Lc3       callbridge-sms-go/internal/bluez/lc3.go
-- Handoff   callbridge-sms-go/internal/bluez/handoff.go: the descriptors of audio transports,
--           Lifecycle the messages of the lifecycle socket, Server `PublishPair` and the process
--           that connects and leaves, and Runs sequences of these
-- Broker    callbridge-sms-go/internal/bluez/broker.go. Endpoint, with Variant, Qos and Report, is what
--           `SelectProperties` and `SetConfiguration` choose and read; Transports the pairs of
--           transports and their descriptors; State the fields of `Broker` that its lock guards;
--           Paths, Lifecycle, Release, Acquire, Publish, Settings, Watch, Signals and Serve (the loop of
--           `runBlueZOnce`) the sections in which it changes them, and Steps these in any order
-- Sms       State is callbridge-sms-go/internal/state/store.go, Obex the headers of
--           callbridge-sms-go/internal/obex/obex.go
-- Prelude   lists, slices, bits, maps and results that the others share
-- Tests     runs at concrete inputs
--
-- State and errors. A method takes the state and returns it; a Go error is a value of an error type
-- in `Result`. Strings and byte slices are lists of numbers, a fixed-width integer is a natural
-- number with its wrap written out, and that a number is in range is a hypothesis where it matters.
-- A Go map is an association list, and the order of a walk over it is the order of that list.
--
-- Parameters. The clock is an argument. What `SendmsgN` does with a packet, the command handler and
-- the snapshot of the server are arguments of its methods; whether a save of the state file or a
-- write over D-Bus succeeds is an argument or a step of its own. `Command` takes the client as
-- each of its three sections finds it: the check of the store, the link, and the registration. The
-- write follows with no lock held, and its failure is one more section. For the broker, whether a path
-- is valid, the comparison of addresses without case, the time, the provider of call tokens, what poll and the descriptors of
-- files do, and the outcome of each `Release` are arguments. A method of the broker is split where it
-- frees its lock, and a step of `Broker.Steps.Step` is one such section, of any goroutine, with what
-- the goroutine read before as an argument; a media process that connects to the handoff or leaves it
-- is a step too. `watch_poll`, `watch_lease`, `serve`, `release_call_token` and the like put the
-- sections of a method together with nothing between; Steps/Watching and Steps/Serving show that
-- they are sequences of steps. A failed save of the SMS state runs the assignments that take the
-- change back.
--
-- Bounds. The loop of `nextToken` has three rounds, since of three values in a row one is neither 0
-- nor the seed. The loop of `parseLTV` has the length of its input for fuel, and so has that of
-- `ParseHeaders`: each round takes at least one byte of it. A release goes over its paths in at most
-- three rounds, `transportReleaseRetries`. The polls of `waitForCallToken` and the packets that one
-- turn of the watcher drains are lists.
--
-- Not modelled: D-Bus, sockets and the set-up of both, JSON, files, the registration of the
-- broker at BlueZ, the MAP, MNS and OBEX transports, the parsing of messages, HTTP, configuration,
-- logs, the helper for Android, and the main functions of the programs.
pub mod Prelude
pub mod Go
pub mod Protocol
pub mod Gtbs
pub mod Control
pub mod Lc3
pub mod Handoff
pub mod Broker
pub mod Sms
pub mod Tests
