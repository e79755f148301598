-- ===== src/Gtbs/Client/Signals.antt =====
-- client.go: `handleSignal`, which leads what BlueZ reports to the store and to the commands.
use callbridge_le_audio_serv.Prelude.{
  ◌&&◌, true, false, List, [], ◌∷◌, if◌then◌else◌, Bytes, bytes_eq, codes, Option, none, some,
  Result, ok, err,
}
use callbridge_le_audio_serv.Prelude.Table.{Table, find}
use callbridge_le_audio_serv.Broker.Variant.{Value, octets, text, boolean, Property, plain, dict}
use callbridge_le_audio_serv.Broker.Signals.{Signal}
use callbridge_le_audio_serv.Gtbs.Call.{Snapshot, Error as StoreError}
use callbridge_le_audio_serv.Gtbs.Store.{Store, apply, apply_incoming_call, snapshot}
use callbridge_le_audio_serv.Gtbs.Client.{Client, Outcome, ResultError, handle_control_result}

-- The path of the device, and the paths of its characteristics by their UUID
pub record Inventory : Type 0 where
  pub device_path : Bytes
  pub characteristics : Table Bytes

-- `inventory.Characteristics[uuid].Path`: the empty path where the characteristic is missing
abbrev pub path_of : Bytes → Inventory → Bytes
path_of uuid i = elim (find uuid i.characteristics) [ none ↦ [] | some path ↦ path ]

pub data SignalError : Type 0 where
  bad_interface bad_bearer bad_connected disconnected bad_body bad_value : SignalError
  call_state : StoreError → SignalError
  control : ResultError → SignalError

-- The callback that is called, if any
pub data Emitted : Type 0 where
  nothing : Emitted
  snapshot_of : Snapshot → Emitted
  result_of : Outcome → Emitted

abbrev pub changed_of : Property → Option (Table Value)
changed_of (dict changed) = some changed
changed_of (plain value) = none

abbrev pub bearer_changed : Option Value → Result SignalError Emitted
bearer_changed none = ok nothing
bearer_changed (some (boolean true)) = ok nothing
bearer_changed (some (boolean false)) = err disconnected
bearer_changed (some value) = err bad_connected

abbrev pub bearer_signal : Option (Table Value) → Result SignalError Emitted
bearer_signal none = err bad_bearer
bearer_signal (some changed) = bearer_changed (find (codes "Connected") changed)

-- `Apply`: the client with the new store, and the snapshot or the error
abbrev pub call_state_outcome :
    Client → Store × Result StoreError Snapshot → Client × Result SignalError Emitted
call_state_outcome c (s, err e) = (record c { store = s }, err (call_state e))
call_state_outcome c (s, ok taken) = (record c { store = s }, ok (snapshot_of taken))

-- An identity that is refused is not an error.
abbrev pub incoming_outcome :
    Client → Store × Result StoreError (Unit {0}) → Client × Result SignalError Emitted
incoming_outcome c (s, err e) = (record c { store = s }, ok nothing)
incoming_outcome c (s, ok u) = (record c { store = s }, ok (snapshot_of (snapshot s)))

abbrev pub control_outcome :
    Client × Result ResultError Outcome → Client × Result SignalError Emitted
control_outcome (c, err e) = (c, err (control e))
control_outcome (c, ok outcome) = (c, ok (result_of outcome))

-- The switch on the path of the signal
unfoldable pub value_changed :
    Bytes → Inventory → Bytes → Client → Client × Result SignalError Emitted
value_changed path i value c =
    if bytes_eq path (path_of (codes "00002bbd-0000-1000-8000-00805f9b34fb") i)
    then call_state_outcome c (apply value c.store)
    else if bytes_eq path (path_of (codes "00002bbe-0000-1000-8000-00805f9b34fb") i)
    then control_outcome (handle_control_result c value)
    else if bytes_eq path (path_of (codes "00002bc1-0000-1000-8000-00805f9b34fb") i)
    then incoming_outcome c (apply_incoming_call value c.store)
    else (c, ok nothing)

abbrev pub characteristic_changed :
    Bytes → Inventory → Option Value → Client → Client × Result SignalError Emitted
characteristic_changed path i none c = (c, ok nothing)
characteristic_changed path i (some (octets value)) c = value_changed path i value c
characteristic_changed path i (some value) c = (c, err bad_value)

abbrev pub characteristic_signal :
    Bytes → Inventory → Option (Table Value) → Client → Client × Result SignalError Emitted
characteristic_signal path i none c = (c, err bad_body)
characteristic_signal path i (some changed) c =
    characteristic_changed path i (find (codes "Value") changed) c

unfoldable pub handle_changed :
    Bytes → Inventory → Bytes → Property → Client → Client × Result SignalError Emitted
handle_changed path i iface body c =
    if bytes_eq iface (codes "org.bluez.Bearer.LE1") && bytes_eq path i.device_path
    then (c, bearer_signal (changed_of body))
    else if bytes_eq iface (codes "org.bluez.GattCharacteristic1")
    then characteristic_signal path i (changed_of body) c
    else (c, ok nothing)

abbrev pub handle_body :
    Bytes → Inventory → List Property → Client → Client × Result SignalError Emitted
handle_body path i [] c = (c, ok nothing)
handle_body path i (first ∷ []) c = (c, ok nothing)
handle_body path i (plain (text iface) ∷ body ∷ rest) c = handle_changed path i iface body c
handle_body path i (first ∷ body ∷ rest) c = (c, err bad_interface)

unfoldable pub handle_signal : Signal → Inventory → Client → Client × Result SignalError Emitted
handle_signal s i c =
    if bytes_eq s.name (codes "org.freedesktop.DBus.Properties.PropertiesChanged")
    then handle_body s.path i s.body c
    else (c, ok nothing)
