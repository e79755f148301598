-- ===== src/Broker/Serve.antt =====
-- broker.go: the loop of `runBlueZOnce` behind the registration, one event at a time. An event is
-- served in several sections, which are put together here with nothing else between them.
use callbridge_le_audio_serv.Prelude.{
  Bool, true, false, not, ◌&&◌, ◌||◌, if◌then◌else◌, Bytes, Option, none, some,
}
use callbridge_le_audio_serv.Broker.State.{Broker}
use callbridge_le_audio_serv.Broker.Lifecycle.{request_active_session_release}
use callbridge_le_audio_serv.Broker.Settings.{set_advertising}
use callbridge_le_audio_serv.Broker.Signals.{
  Signal, bluez_name_lost, le_bearer_connection_changed, handle_signal,
}

-- What the loop waits for. A request for a new advertisement comes with what is read of the bearer
-- then: whether it is connected, none where the reading fails.
pub data Event : Type 0 where
  cancelled handoff_stopped bus_lost signals_closed : Event
  rearms : Option Bool → Event
  arrives : Signal → Event

-- The loop returns, without an error or with one, or goes on: with `advertisementRegistered` and the
-- path that a goroutine is to acquire.
pub data Served : Type 0 where
  returned : Bool → Served
  goes_on : Bool → Option Bytes → Served

-- `setAdvertisement`; `called` is whether the call to BlueZ succeeds.
unfoldable pub set_advertisement : Bool → Bool → Bool → Broker → Broker × Option Bool
set_advertisement called enable registered b =
    if (enable && registered) || (not enable && not registered)
    then (b, some registered)
    else (if called then (set_advertising enable b, some enable) else (b, none))

unfoldable pub advertise : Bool → Bool → Bool → Broker → Broker × Served
advertise called enable registered b =
    let (after, result) = set_advertisement called enable registered b in
    (after, elim result [ none ↦ returned false | some now ↦ goes_on now none ])

-- `<-b.rearmRequest`
unfoldable pub take_rearm : Broker → Broker
take_rearm b = record b { rearm_request = false }

unfoldable pub serve_rearm : Bool → Option Bool → Bool → Broker → Broker × Served
serve_rearm called none registered b = (take_rearm b, returned false)
serve_rearm called (some connected) registered b =
    let taken = take_rearm b in
    if connected || taken.advertisement_hold
    then (taken, goes_on registered none)
    else advertise called true registered taken

-- The phone connects, or it disconnects: then the session is released, and the advertisement begins
-- again where it is not held.
unfoldable pub serve_bearer : Bool → Bool → Bool → Broker → Broker × Served
serve_bearer called true registered b = advertise called false registered b
serve_bearer called false registered b =
    let gone = (request_active_session_release b).0 in
    if gone.advertisement_hold
    then (gone, goes_on registered none)
    else advertise called true registered gone

unfoldable pub serve_other : Signal → Bool → Broker → Broker × Served
serve_other s registered b =
    let (after, path) = handle_signal s b in (after, goes_on registered path)

unfoldable pub serve_signal : Bool → Bytes → Signal → Bool → Broker → Broker × Served
serve_signal called device s registered b =
    if bluez_name_lost s
    then (b, returned false)
    else (elim (le_bearer_connection_changed s device) [
      | none ↦ serve_other s registered b
      | some connected ↦ serve_bearer called connected registered b
    ])

unfoldable pub serve : Bool → Bytes → Event → Bool → Broker → Broker × Served
serve called device cancelled registered b = (b, returned true)
serve called device handoff_stopped registered b = (b, returned false)
serve called device bus_lost registered b = (b, returned false)
serve called device signals_closed registered b = (b, returned false)
serve called device (rearms connected) registered b = serve_rearm called connected registered b
serve called device (arrives s) registered b = serve_signal called device s registered b
