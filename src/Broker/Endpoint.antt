-- ===== src/Broker/Endpoint.antt =====
-- broker.go: the methods of a media endpoint that BlueZ calls to agree on a stream.
pub mod Agreement
use callbridge_le_audio_serv.Prelude.{
  ℕ, Bool, [], ◌∷◌, Bytes, codes, Option, none, some, Result, ok, err, ◌>>=◌,
}
use callbridge_le_audio_serv.Prelude.Table.{Table, find}
use callbridge_le_audio_serv.Lc3.{
  CodecConfig, Error as CodecError, select_configuration_for_allocation, parse_configuration,
}
use callbridge_le_audio_serv.Broker.Variant.{
  Property, plain, dict, octets, variant_bytes, variant_dict,
}
use callbridge_le_audio_serv.Broker.Qos.{
  TransportQos, Error as QosError, select_channel_allocation, select_qos, qos_variants,
}
use callbridge_le_audio_serv.Broker.Report.{provisional_qos}

-- `reject`, by the stage and the cause
pub data Rejection : Type 0 where
  capabilities_missing configuration_missing invalid_dictionary : Rejection
  channel_allocation : QosError → Rejection
  configuration : CodecError → Rejection
  codec : CodecError → Rejection
  qos : QosError → Rejection

abbrev pub stage : {E A : Type 0} → (E → Rejection) → Result E A → Result Rejection A
stage reject (err e) = err (reject e)
stage reject (ok a) = ok a

-- `if raw, ok := variantBytes(...); !ok { return reject }`
abbrev pub present : {A : Type 0} → Rejection → Option A → Result Rejection A
present reject none = err reject
present reject (some a) = ok a

unfoldable pub select_properties : Table Property → Result Rejection (Table Property)
select_properties properties = do
  capabilities ←
      present capabilities_missing (variant_bytes (find (codes "Capabilities") properties))
  allocation ← stage channel_allocation (select_channel_allocation properties)
  chosen ← stage configuration (select_configuration_for_allocation capabilities allocation)
  config ← stage codec (parse_configuration chosen)
  selected ← stage qos (select_qos properties config)
  ok (
      (codes "Capabilities", plain (octets chosen))
      ∷ (codes "Metadata", plain (octets (3 ∷ 2 ∷ 2 ∷ 0 ∷ [])))
      ∷ (codes "QoS", dict (qos_variants selected))
      ∷ [])

unfoldable pub configuration_bytes : Table Property → Option Bytes
configuration_bytes properties = elim (variant_bytes (find (codes "Configuration") properties)) [
  | some raw ↦ some raw
  | none ↦ variant_bytes (find (codes "Capabilities") properties)
]

unfoldable pub read_qos : Option Property → CodecConfig → Result Rejection TransportQos
read_qos none config = stage qos (select_qos [] config)
read_qos (some value) config = do
  fields ← present invalid_dictionary (variant_dict (some value))
  stage qos (provisional_qos fields config)

-- `SetConfiguration` up to its call of `configure`
unfoldable pub read_configuration : Table Property → Result Rejection (CodecConfig × TransportQos)
read_configuration properties = do
  raw ← present configuration_missing (configuration_bytes properties)
  config ← stage codec (parse_configuration raw)
  settled ← read_qos (find (codes "QoS") properties) config
  ok (config, settled)
