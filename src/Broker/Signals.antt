-- ===== src/Broker/Signals.antt =====
-- broker.go: what the broker reads from the signals and the properties of BlueZ.
use callbridge_le_audio_serv.Prelude.{
  Bool, false, ◌&&◌, ◌||◌, List, [], ◌∷◌, ◌++◌, if◌then◌else◌, Bytes, bytes_eq, codes, length, ◌==◌,
  Option, none, some, Result, ok, err,
}
use callbridge_le_audio_serv.Prelude.Table.{Table, find}
use callbridge_le_audio_serv.Lc3.{CodecConfig}
use callbridge_le_audio_serv.Broker.Variant.{
  Value, text, Property, plain, dict, variant_dict, variant_text, variant_paths, variant_boolean,
}
use callbridge_le_audio_serv.Broker.Qos.{TransportQos, Error as QosError}
use callbridge_le_audio_serv.Broker.Report.{parse_final_transport_qos}
use callbridge_le_audio_serv.Broker.State.{Broker}
use callbridge_le_audio_serv.Broker.Paths.{has_prefix, idle}

pub record Signal : Type 0 where
  pub name : Bytes
  pub path : Bytes
  pub body : List Property

abbrev pub read_body : List Property → Option (Bytes × Table Value)
read_body (plain (text iface) ∷ dict changed ∷ rest) = some (iface, changed)
read_body _ = none

-- The interface and the changed properties of a `PropertiesChanged` signal
unfoldable pub changed_properties : Signal → Option (Bytes × Table Value)
changed_properties s =
    if bytes_eq s.name (codes "org.freedesktop.DBus.Properties.PropertiesChanged")
    then read_body s.body
    else none

-- What a signal asks for: nothing, a goroutine that acquires the transport, or the idle section.
pub data Request : Type 0 where
  ignored : Request
  acquires becomes_idle : Bytes → Request

abbrev pub request_for : Bytes → Option Bytes → Request
request_for path none = ignored
request_for path (some state) =
    if bytes_eq state (codes "pending")
    then acquires path
    else (if bytes_eq state (codes "idle") then becomes_idle path else ignored)

unfoldable pub read_signal : Bytes → Signal → Request
read_signal expected_device s = elim (changed_properties s) [
  | none ↦ ignored
  | some (iface, changed) ↦
      if (bytes_eq s.path expected_device || has_prefix (expected_device ++ codes "/") s.path)
        && bytes_eq iface (codes "org.bluez.MediaTransport1")
      then request_for s.path (variant_text (find (codes "State") changed))
      else ignored
]

unfoldable pub apply_request : Request → Broker → Broker × Option Bytes
apply_request ignored b = (b, none)
apply_request (acquires path) b = (b, some path)
apply_request (becomes_idle path) b = (idle path b, none)

-- `handleSignal`, with the path that is to be acquired
unfoldable pub handle_signal : Signal → Broker → Broker × Option Bytes
handle_signal s b = apply_request (read_signal b.expected_device s) b

-- `leBearerConnectionChanged`: whether the bearer is connected now, where the signal says it
unfoldable pub le_bearer_connection_changed : Signal → Bytes → Option Bool
le_bearer_connection_changed s expected_device = elim (changed_properties s) [
  | none ↦ none
  | some (iface, changed) ↦
      if bytes_eq s.path expected_device && bytes_eq iface (codes "org.bluez.Bearer.LE1")
      then variant_boolean (find (codes "Connected") changed)
      else none
]

abbrev pub owner_lost : List Property → Bool
owner_lost (plain (text name) ∷ old ∷ plain (text new) ∷ rest) =
    bytes_eq name (codes "org.bluez") && length new == 0
owner_lost _ = false

-- `bluezNameLost`
unfoldable pub bluez_name_lost : Signal → Bool
bluez_name_lost s =
    bytes_eq s.name (codes "org.freedesktop.DBus.NameOwnerChanged") && owner_lost s.body

pub data DetailError : Type 0 where
  qos_missing links_invalid : DetailError
  qos_refused : QosError → DetailError

abbrev pub links_of : Option Property → Result DetailError (List Bytes)
links_of none = ok []
links_of (some (dict fields)) = err links_invalid
links_of (some (plain value)) = elim (variant_paths (some value)) [
  | none ↦ err links_invalid
  | some links ↦ ok links
]

abbrev pub with_links :
    Result QosError TransportQos
    → Result DetailError (List Bytes)
    → Result DetailError (TransportQos × List Bytes)
with_links (err e) links = err (qos_refused e)
with_links (ok qos) (err e) = err e
with_links (ok qos) (ok links) = ok (qos, links)

-- `readTransportDetails` from the properties on that BlueZ reports
unfoldable pub read_transport_details :
    Table Property → CodecConfig → TransportQos → Result DetailError (TransportQos × List Bytes)
read_transport_details properties codec selected =
    elim (variant_dict (find (codes "QoS") properties)) [
      | none ↦ err qos_missing
      | some fields ↦
          with_links (parse_final_transport_qos fields codec selected)
            (links_of (find (codes "Links") properties))
    ]
