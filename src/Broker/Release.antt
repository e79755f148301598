-- ===== src/Broker/Release.antt =====
-- broker.go: the release of transports at BlueZ, with its retries and its last resort.
pub mod Calls
use callbridge_le_audio_serv.Prelude.{
  ℕ, zero, suc, ◌+◌, Bool, true, false, ◌&&◌, List, [], ◌∷◌, if◌then◌else◌, Bytes, length,
}
use callbridge_le_audio_serv.Prelude.Table.{Table, put, flag}
use callbridge_le_audio_serv.Broker.State.{Counters}

-- The counters, the paths that are released, and the calls of the invoker with their outcome, the
-- last one first.
pub record Run : Type 0 where
  pub counters : Counters
  pub succeeded : Table Bool
  pub calls : List (Bytes × Bool)

-- The two sections of `releaseMediaTransport`, around the call of the invoker
unfoldable pub count_attempt : Counters → Counters
count_attempt c = record c { release_attempts = c.release_attempts + 1 }

unfoldable pub count_outcome : Bool → Counters → Counters
count_outcome released c = record c {
  release_successes = c.release_successes + (if released then 1 else 0);
  release_errors = c.release_errors + (if released then 0 else 1);
}

-- `releaseMediaTransport`, by whether the invoker succeeds, with nothing between its sections
unfoldable pub release_media_transport : Bool → Counters → Counters
release_media_transport released c = count_outcome released (count_attempt c)

-- `if err != nil { allReleased = false } else { succeeded[path] = true }`
unfoldable pub mark_released : Bytes → Bool → Table Bool → Table Bool
mark_released path released succeeded = if released then put path true succeeded else succeeded

-- One path in a round: `invoke n path` is the outcome of the call behind `n` others.
unfoldable pub release_path : (ℕ → Bytes → Bool) → Bytes → Run → Run × Bool
release_path invoke path r =
    let released = invoke (length r.calls) path in
    let called : Run = record {
      counters = release_media_transport released r.counters;
      succeeded = mark_released path released r.succeeded;
      calls = (path, released) ∷ r.calls;
    } in
    if flag path r.succeeded then (r, true) else (called, released)

-- A round over the paths, and `allReleased`
unfoldable pub release_round : (ℕ → Bytes → Bool) → List Bytes → Run → Run × Bool
release_round invoke [] r = (r, true)
release_round invoke (path ∷ paths) r =
    let (r1, released) = release_path invoke path r in
    let (r2, all_released) = release_round invoke paths r1 in (r2, released && all_released)

unfoldable pub release_rounds : (ℕ → Bytes → Bool) → ℕ → List Bytes → Run → Run × Bool
release_rounds invoke zero paths r = (r, false)
release_rounds invoke (suc attempts) paths r =
    let (r1, all_released) = release_round invoke paths r in
    let rest = release_rounds invoke attempts paths r1 in if all_released then (r1, true) else rest

abbrev pub transport_release_retries : ℕ
transport_release_retries = 3

-- `fallbackTransportOwner`
unfoldable pub fallback_transport_owner : Run → Run
fallback_transport_owner r = record r {
  counters = record r.counters { release_fallbacks = r.counters.release_fallbacks + 1 };
}

-- `fallback` is whether the connection closes without an error.
unfoldable pub release_transport_paths :
    (ℕ → Bytes → Bool) → Bool → List Bytes → Counters → Run × Bool
release_transport_paths invoke fallback paths c =
    let start : Run = record { counters = c; succeeded = []; calls = [] } in
    let (r, all_released) = release_rounds invoke transport_release_retries paths start in
    if all_released then (r, true) else (fallback_transport_owner r, fallback)
