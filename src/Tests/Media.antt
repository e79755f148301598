-- ===== src/Tests/Media.antt =====
-- lc3.go, and the state and the OBEX headers of the messages side.
use callbridge_le_audio_serv.Prelude.{
  ℕ, ◌≡◌, ◌^◌, ◌<◌, refl, Bool, true, false, List, [], ◌∷◌, ◌++◌, arith, All, Bytes, codes, length,
  Option, none, some, Result, ok,
}
use callbridge_le_audio_serv.Lc3.{
  Preset, lc3_capabilities, build_configuration, conversational_presets,
  select_configuration_for_allocation, parse_configuration,
}
use callbridge_le_audio_serv.Lc3.Select.{IsOffered, config_of, parse-select_configuration}
use callbridge_le_audio_serv.Sms.Obex.{Header, parse_headers}
use callbridge_le_audio_serv.Sms.Obex.RoundTrip.{build_all, parse_headers-build_all}
use callbridge_le_audio_serv.Sms.State.{
  Outbound, DiskState, Store, open_loaded, mark_seen_many, mark_seen, take_outbound, has_seen,
}
use callbridge_le_audio_serv.Sms.State.History.{
  WellFormed, mark, add, take_first, run, run-open_loaded,
}
use callbridge_le_audio_serv.Sms.State.Effects.{take_outbound-persisted, mark_seen-has_seen}

-- 32_2 on the front left channel
abbrev chosen : Bytes
chosen = 2 ∷ 1 ∷ 6 ∷ 2 ∷ 2 ∷ 1 ∷ 5 ∷ 3 ∷ 1 ∷ 0 ∷ 0 ∷ 0 ∷ 3 ∷ 4 ∷ 80 ∷ 0 ∷ []

own-selects : select_configuration_for_allocation lc3_capabilities 1 ≡ ok chosen
unfolding select_configuration_for_allocation callbridge_le_audio_serv.Lc3.ones_count
    callbridge_le_audio_serv.Lc3.parse_ltv callbridge_le_audio_serv.Lc3.parse_entries
    callbridge_le_audio_serv.Prelude.Dict.lookup callbridge_le_audio_serv.Prelude.Dict.insert
    callbridge_le_audio_serv.Lc3.read_capabilities callbridge_le_audio_serv.Lc3.value_of
    callbridge_le_audio_serv.Lc3.build_selected callbridge_le_audio_serv.Lc3.first_supported
    callbridge_le_audio_serv.Lc3.is_supported build_configuration
own-selects = refl

parse-select_configuration_example :
    (p : Preset) × IsOffered lc3_capabilities p × (parse_configuration chosen ≡ ok (config_of p 1))
parse-select_configuration_example =
    parse-select_configuration lc3_capabilities chosen 1 (omega arith) own-selects

abbrev item : Outbound
item = record { id = codes "a"; to = codes "+4912345"; text = codes "hello"; queued_at = 0 }

-- The second handle is not valid, and the third is there twice.
abbrev disk : DiskState
disk = record {
  initialized = true;
  seen_handles = codes "0A" ∷ codes "xyz" ∷ codes "0A" ∷ [];
  outbound = item ∷ [];
}

abbrev opened : Store
opened = record {
  state = record disk { seen_handles = codes "0A" ∷ [] };
  seen = codes "0A" ∷ [];
  disk = disk;
}

disk-opens : open_loaded disk ≡ some opened
unfolding open_loaded callbridge_le_audio_serv.Sms.State.valid_outbound
    callbridge_le_audio_serv.Sms.State.trim_plus callbridge_le_audio_serv.Go.Strings.has_prefix
    callbridge_le_audio_serv.Prelude.bytes_eq callbridge_le_audio_serv.Sms.State.rebuild_seen
    callbridge_le_audio_serv.Sms.State.rebuild_loop callbridge_le_audio_serv.Sms.State.valid_handle
    callbridge_le_audio_serv.Sms.State.has
disk-opens = refl

run-open_loaded_example :
    WellFormed (run (mark true (codes "0B" ∷ []) ∷ add false item ∷ take_first true ∷ []) opened)
run-open_loaded_example =
    run-open_loaded disk (mark true (codes "0B" ∷ []) ∷ add false item ∷ take_first true ∷ [])
      disk-opens

first-taken : (take_outbound true opened).1 ≡ ok (some item)
unfolding take_outbound callbridge_le_audio_serv.Sms.State.take_from
first-taken = refl

take_outbound-persisted_example :
    let s' = (take_outbound true opened).0 in
    (rest : List Outbound) × (opened.state.outbound ≡ item ∷ rest)
    × (s'.state.outbound ≡ rest)
    × (s'.disk ≡ s'.state)
take_outbound-persisted_example = take_outbound-persisted true opened first-taken

opened-WellFormed : WellFormed opened
unfolding run
opened-WellFormed = run-open_loaded disk [] disk-opens

marked : (mark_seen true (codes "0B") opened).1 ≡ ok tt
unfolding mark_seen mark_seen_many callbridge_le_audio_serv.Sms.State.valid_handle
    callbridge_le_audio_serv.Sms.State.mark_loop callbridge_le_audio_serv.Sms.State.has
    callbridge_le_audio_serv.Prelude.bytes_eq
marked = refl

mark_seen-has_seen_example : has_seen (codes "0B") (mark_seen true (codes "0B") opened).0 ≡ true
mark_seen-has_seen_example = mark_seen-has_seen true (codes "0B") opened opened-WellFormed marked

-- A connection identifier, an application parameter of two bytes, and a flag.
abbrev headers : List Header
headers =
    record { id = 0xcb; value = 0 ∷ 0 ∷ 0 ∷ 1 ∷ [] }
    ∷ record { id = 0x4c; value = 7 ∷ 8 ∷ [] }
    ∷ record { id = 0x97; value = 1 ∷ [] }
    ∷ []

abbrev header_bytes : Bytes
header_bytes = 0xcb ∷ 0 ∷ 0 ∷ 0 ∷ 1 ∷ 0x4c ∷ 0 ∷ 5 ∷ 7 ∷ 8 ∷ 0x97 ∷ 1 ∷ []

headers-build : build_all headers ≡ ok header_bytes
unfolding build_all callbridge_le_audio_serv.Sms.Obex.build_header
    callbridge_le_audio_serv.Sms.Obex.build_value
headers-build = refl

parse_headers-build_all_example : parse_headers ((1 ∷ 2 ∷ []) ++ header_bytes) 2 ≡ ok headers
parse_headers-build_all_example = parse_headers-build_all headers (1 ∷ 2 ∷ []) headers-build
