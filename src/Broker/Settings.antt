-- ===== src/Broker/Settings.antt =====
-- broker.go: what is set before the broker runs, the advertisement, and the report of its state.
use callbridge_le_audio_serv.Prelude.{
  ℕ, Bool, true, false, not, ◌&&◌, ◌||◌, [], ◌∷◌, ◌==◌, leb, if◌then◌else◌, Bytes, bytes_eq, codes,
  Option, none, some, Result, ok, err, List, ◌++◌,
}
use callbridge_le_audio_serv.Prelude.Table.{Table, find, flag}
use callbridge_le_audio_serv.Handoff.{direction_sink, direction_source}
use callbridge_le_audio_serv.Broker.Variant.{Value, variant_text, variant_path}
use callbridge_le_audio_serv.Broker.Transports.{TransportConfig}
use callbridge_le_audio_serv.Broker.Acquire.{close_pending}
use callbridge_le_audio_serv.Broker.State.{
  Broker, Counters, Error, bad_lease, lease_changed, bad_wait, wait_changed, no_provider,
  provider_changed,
}

abbrev pub is_running : Broker → Bool
is_running b = elim b.connection [ none ↦ false | some conn ↦ true ]

abbrev pub is_started : Broker → Bool
is_started b = is_running b || elim b.active_session [ none ↦ false | some s ↦ true ]

-- Durations are in nanoseconds; those that are not positive are 0.
unfoldable pub configure_media_leases : ℕ → ℕ → Broker → Broker × Result Error (Unit {0})
configure_media_leases startup active b =
    if startup == 0 || active == 0
    then (b, err bad_lease)
    else (if is_started b
        then (b, err lease_changed)
        else (record b { progress_start_lease = startup; progress_lease = active }, ok tt))

abbrev pub remote_ase_releasing_watchdog : ℕ
remote_ase_releasing_watchdog = 3000000000

unfoldable pub configure_normal_release_wait : ℕ → Broker → Broker × Result Error (Unit {0})
configure_normal_release_wait wait b =
    if wait == 0 || leb remote_ase_releasing_watchdog wait
    then (b, err bad_wait)
    else (if is_started b
        then (b, err wait_changed)
        else (record b { normal_release_wait = wait }, ok tt))

-- `provided` is whether there is a provider of call tokens.
unfoldable pub configure_call_control : Bool → Bool → Broker → Broker × Result Error (Unit {0})
configure_call_control provided required b =
    if not provided && required
    then (b, err no_provider)
    else (if is_running b || b.registered
        then (b, err provider_changed)
        else (record b { require_token = required }, ok tt))

-- The section of `HoldAdvertisement`
unfoldable pub set_hold : Bool → Broker → Broker
set_hold hold b = record b { advertisement_hold = hold }

-- The request for a new advertisement is a channel that holds one.
unfoldable pub request_rearm : Broker → Broker
request_rearm b = record b { rearm_request = true }

-- `HoldAdvertisement`: the request is sent behind the section, with nothing between here.
unfoldable pub hold_advertisement : Bool → Broker → Broker
hold_advertisement hold b =
    if b.advertisement_hold && not hold then request_rearm (set_hold hold b) else set_hold hold b

-- `advertisement.Release`
unfoldable pub release_advertisement : Broker → Broker
release_advertisement b = record b { advertising = false; discoverable = false }

-- The state in `runBlueZOnce`: a connection begins, the endpoints are registered, and both end.
unfoldable pub begin_run : Bytes → ℕ → Broker → Broker
begin_run device conn b = record (close_pending b) {
  expected_device = device;
  connection = some conn;
  configured = [];
  acquiring = [];
  acquired = [];
  pairing = [];
  active_session = none;
}

unfoldable pub register : Broker → Broker
register b = record b { registered = true }

unfoldable pub set_advertising : Bool → Broker → Broker
set_advertising enable b = record b { advertising = enable; discoverable = enable }

unfoldable pub unregister : Broker → Broker
unregister b = record (close_pending b) {
  registered = false;
  advertising = false;
  discoverable = false;
  configured = [];
  acquiring = [];
  acquired = [];
  pairing = [];
  active_session = none;
}

unfoldable pub end_run : Broker → Broker
end_run b = record b { connection = none }

pub record Snapshot : Type 0 where
  pub endpoints_registered : Bool
  pub advertising : Bool
  pub discoverable : Bool
  pub extended_advertising : Bool
  pub bap_announcement : Bool
  pub cap_announcement : Bool
  pub tmap_announcement : Bool
  pub headset_appearance : Bool
  pub sink_configured : Bool
  pub source_configured : Bool
  pub sink_acquired : Bool
  pub source_acquired : Bool
  pub bidirectional_cis : Bool
  pub counters : Counters

-- Whether a transport of the direction is among those configured, and whether one is acquired
unfoldable pub any_configured : ℕ → Table TransportConfig → Bool
any_configured direction [] = false
any_configured direction ((path, config) ∷ configured) =
    config.direction == direction || any_configured direction configured

unfoldable pub any_acquired : ℕ → Table Bool → Table TransportConfig → Bool
any_acquired direction acquired [] = false
any_acquired direction acquired ((path, config) ∷ configured) =
    (config.direction == direction && flag path acquired)
    || any_acquired direction acquired configured

unfoldable pub snapshot : Broker → Snapshot
snapshot b =
    let sink = any_acquired direction_sink b.acquired b.configured in
    let source = any_acquired direction_source b.acquired b.configured in
    record {
      endpoints_registered = b.registered;
      advertising = b.advertising;
      discoverable = b.discoverable;
      extended_advertising = b.advertising;
      bap_announcement = b.advertising;
      cap_announcement = b.advertising;
      tmap_announcement = b.advertising;
      headset_appearance = b.advertising;
      sink_configured = any_configured direction_sink b.configured;
      source_configured = any_configured direction_source b.configured;
      sink_acquired = sink;
      source_acquired = source;
      bidirectional_cis = sink && source;
      counters = b.counters;
    }

-- `selectDevicePath`: the objects of BlueZ by path and interface; `equal_fold` is
-- `strings.EqualFold`.
unfoldable pub is_device : (Bytes → Bytes → Bool) → Bytes → Bytes → Table (Table Value) → Bool
is_device equal_fold adapter address interfaces =
    elim (find (codes "org.bluez.Device1") interfaces) [
      | none ↦ false
      | some properties ↦ elim (variant_text (find (codes "Address") properties)) [
        | none ↦ false
        | some found ↦ elim (variant_path (find (codes "Adapter") properties)) [
          | none ↦ false
          | some on ↦ equal_fold found address && bytes_eq on (codes "/org/bluez/" ++ adapter)
        ]
      ]
    ]

unfoldable pub matching_devices :
    (Bytes → Bytes → Bool) → Bytes → Bytes → Table (Table (Table Value)) → List Bytes
matching_devices equal_fold adapter address [] = []
matching_devices equal_fold adapter address ((path, interfaces) ∷ objects) =
    let rest = matching_devices equal_fold adapter address objects in
    if is_device equal_fold adapter address interfaces then path ∷ rest else rest

unfoldable pub select_device_path :
    (Bytes → Bytes → Bool) → Bytes → Bytes → Table (Table (Table Value)) → Option Bytes
select_device_path equal_fold adapter address objects =
    elim (matching_devices equal_fold adapter address objects) [
      | [] ↦ none
      | path ∷ paths ↦ elim paths [ [] ↦ some path | other ∷ more ↦ none ]
    ]
