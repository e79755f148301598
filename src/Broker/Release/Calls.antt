-- ===== src/Broker/Release/Calls.antt =====
-- The calls of a release: no path is released twice, and none is left without the last resort.
use callbridge_le_audio_serv.Prelude.{
  ℕ, zero, suc, ◌+◌, ◌*◌, ◌≤◌, ◌≡◌, refl, sym, ◌∙◌, Bool, true, false, ◌&&◌, ◌||◌, List, [], ◌∷◌,
  arith, if◌then◌else◌, Bytes, bytes_eq, bytes_eq_iff, length, all, Bool-cases, inl, inr,
}
use callbridge_le_audio_serv.Prelude.Table.{find, flag}
use callbridge_le_audio_serv.Prelude.Table.Laws.{flag-put, bytes_eq_self}
use callbridge_le_audio_serv.Broker.Transports.{contains_object_path}
use callbridge_le_audio_serv.Broker.Transports.Links.{NoRepeat}
use callbridge_le_audio_serv.Broker.State.{Counters}
use callbridge_le_audio_serv.Broker.Release.{
  Run, count_attempt, count_outcome, release_media_transport, mark_released, release_path,
  release_round, release_rounds, fallback_transport_owner, release_transport_paths,
  transport_release_retries,
}

-- The path has been released by one of the calls.
abbrev pub released_in : List (Bytes × Bool) → Bytes → Bool
released_in [] path = false
released_in ((p, released) ∷ earlier) path =
    (bytes_eq p path && released) || released_in earlier path

-- No call is made for a path that an earlier call has released.
abbrev pub IsOnce : List (Bytes × Bool) → Type 0
IsOnce [] = Unit
IsOnce ((p, released) ∷ earlier) = (released_in earlier p ≡ false) × IsOnce earlier

-- How many calls there are for the path, and how many have the outcome.
abbrev pub calls_for : Bytes → List (Bytes × Bool) → ℕ
calls_for path [] = 0
calls_for path ((p, released) ∷ earlier) =
    (if bytes_eq p path then 1 else 0) + calls_for path earlier

abbrev pub successes : List (Bytes × Bool) → ℕ
successes [] = 0
successes ((p, released) ∷ earlier) = (if released then 1 else 0) + successes earlier

abbrev pub errors : List (Bytes × Bool) → ℕ
errors [] = 0
errors ((p, released) ∷ earlier) = (if released then 0 else 1) + errors earlier

-- Each outcome is the one that the invoker gave behind the calls before it.
abbrev pub IsAnswered : (ℕ → Bytes → Bool) → List (Bytes × Bool) → Type 0
IsAnswered invoke [] = Unit
IsAnswered invoke ((p, released) ∷ earlier) =
    (released ≡ invoke (length earlier) p) × IsAnswered invoke earlier

not_both :
    (path p : Bytes) (paths : List Bytes)
    → contains_object_path paths path ≡ false
    → bytes_eq path p ≡ true
    → contains_object_path paths p ≡ false
not_both path p paths other same = rw ((bytes_eq_iff path p).0 same) at other

-- The run of a release that began with the counters `c`
record IsRun (c : Counters) (r : Run) : Type 0 where
  agrees : (path : Bytes) → flag path r.succeeded ≡ released_in r.calls path
  once : IsOnce r.calls
  attempts : r.counters.release_attempts ≡ c.release_attempts + length r.calls
  successes : r.counters.release_successes ≡ c.release_successes + successes r.calls
  errors : r.counters.release_errors ≡ c.release_errors + errors r.calls
  fallbacks : r.counters.release_fallbacks ≡ c.release_fallbacks

called-IsRun :
    (c : Counters) (path : Bytes) (released : Bool) (r : Run)
    → IsRun c r
    → flag path r.succeeded ≡ false
    → IsRun c (record {
      counters = release_media_transport released r.counters;
      succeeded = mark_released path released r.succeeded;
      calls = (path, released) ∷ r.calls;
    })
unfolding mark_released release_media_transport count_attempt count_outcome
called-IsRun c path released r w fresh = record {
  agrees = λ p. ground (arith, flag-put path p true r.succeeded, w.agrees p);
  once = (sym (w.agrees path) ∙ fresh, w.once);
  attempts = omega (arith, w.attempts);
  successes = omega (arith, w.successes);
  errors = omega (arith, w.errors);
  fallbacks = w.fallbacks;
}

abbrev times : ℕ → ℕ → ℕ
times zero n = 0
times (suc k) n = n + times k n

module _ (invoke : ℕ → Bytes → Bool) (c : Counters) where
  release_path-IsRun :
      (path : Bytes) (r : Run)
      → IsRun c r
      → let out = release_path invoke path r in
        IsRun c out.0
        × (length out.0.calls ≤ length r.calls + 1)
        × (out.1 ≡ released_in out.0.calls path)
        × ((p : Bytes)
            → bytes_eq path p ≡ false
            → released_in out.0.calls p ≡ released_in r.calls p)
        × ((p : Bytes)
            → calls_for p out.0.calls ≤ calls_for p r.calls + (if bytes_eq path p then 1 else 0))
        × (IsAnswered invoke r.calls → IsAnswered invoke out.0.calls)
  unfolding release_path
  release_path-IsRun path r w = elim (Bool-cases (flag path r.succeeded)) [
    | inl done ↦
        rw done
          (w, omega arith, sym done ∙ w.agrees path, λ p other. refl, λ p. omega arith, λ a. a)
    | inr fresh ↦ rw fresh (
      called-IsRun c path (invoke (length r.calls) path) r w fresh,
      omega arith,
      ground (arith, bytes_eq_self path, w.agrees path),
      λ p other. ground arith,
      λ p. omega arith,
      λ a. (refl, a),
    )
  ]

  release_round-IsRun :
      (paths : List Bytes) (r : Run)
      → IsRun c r
      → let out = release_round invoke paths r in
        IsRun c out.0
        × (length out.0.calls ≤ length r.calls + length paths)
        × ((p : Bytes)
            → contains_object_path paths p ≡ false
            → released_in out.0.calls p ≡ released_in r.calls p)
        × (NoRepeat paths → out.1 ≡ all (released_in out.0.calls) paths)
        × (NoRepeat paths
            → (p : Bytes)
            → calls_for p out.0.calls
              ≤ calls_for p r.calls + (if contains_object_path paths p then 1 else 0))
        × (IsAnswered invoke r.calls → IsAnswered invoke out.0.calls)
  unfolding release_round contains_object_path
  release_round-IsRun [] r w =
      (w, omega arith, λ p other. refl, λ d. refl, λ d p. omega arith, λ a. a)
  release_round-IsRun (path ∷ paths) r w =
      let (w1, l1, h1, o1, k1, a1) = release_path-IsRun path r w in
      let (w2, l2, o2, h2, k2, a2) = release_round-IsRun paths (release_path invoke path r).0 w1 in
      (
        w2,
        omega (arith, l1, l2),
        λ p other. o2 p (ground arith) ∙ o1 p (ground arith),
        λ d. ground (arith, h1, h2 d.1, o2 path d.0),
        λ d p. ground (arith, k1 p, k2 d.1 p, not_both path p paths d.0),
        λ a. a2 (a1 a),
      )

  release_rounds-IsRun :
      (attempts : ℕ) (paths : List Bytes) (r : Run)
      → NoRepeat paths
      → IsRun c r
      → (attempts ≡ 0 → all (released_in r.calls) paths ≡ false)
      → let out = release_rounds invoke attempts paths r in
        IsRun c out.0
        × (length out.0.calls ≤ length r.calls + times attempts (length paths))
        × (out.1 ≡ all (released_in out.0.calls) paths)
        × ((p : Bytes) → calls_for p out.0.calls ≤ calls_for p r.calls + attempts)
        × (IsAnswered invoke r.calls → IsAnswered invoke out.0.calls)
  unfolding release_rounds
  release_rounds-IsRun zero paths r d w h = (w, omega arith, sym (h refl), λ p. omega arith, λ a. a)
  release_rounds-IsRun (suc attempts) paths r d w h =
      let (w1, l1, o1, h1, k1, a1) = release_round-IsRun paths r w in
      elim (Bool-cases (release_round invoke paths r).1) [
        | inl all_released ↦
            rw all_released
              (w1, omega (arith, l1), sym all_released ∙ h1 d, λ p. ground (arith, k1 d p), a1)
        | inr failed ↦
            let (w2, l2, h2, k2, a2) =
              release_rounds-IsRun attempts paths (release_round invoke paths r).0 d w1
                (λ e. sym (h1 d) ∙ failed) in
            rw failed
              (w2, omega (arith, l1, l2), h2, λ p. ground (arith, k1 d p, k2 p), λ a. a2 (a1 a))
      ]

begun : (c : Counters) → IsRun c (record { counters = c; succeeded = []; calls = [] })
unfolding flag find
begun c = record {
  agrees = λ p. refl;
  once = tt;
  attempts = omega arith;
  successes = omega arith;
  errors = omega arith;
  fallbacks = refl;
}

-- A release of paths that do not repeat makes no call for a path that it has released, and at most
-- three for any path; each outcome is the invoker's. Every call is counted once as an attempt, and
-- as a success or an error by its outcome. It ends without the last resort exactly when every path
-- has been released; the last resort then decides what it reports.
pub release_transport_paths-IsOnce :
    (invoke : ℕ → Bytes → Bool) (fallback : Bool) (paths : List Bytes) (c : Counters)
    → NoRepeat paths
    → let out = release_transport_paths invoke fallback paths c in
      let every = all (released_in out.0.calls) paths in
      IsOnce out.0.calls
      × ((p : Bytes) → calls_for p out.0.calls ≤ 3)
      × (length out.0.calls ≤ 3 * length paths)
      × IsAnswered invoke out.0.calls
      × (out.0.counters.release_attempts ≡ c.release_attempts + length out.0.calls)
      × (out.0.counters.release_successes ≡ c.release_successes + successes out.0.calls)
      × (out.0.counters.release_errors ≡ c.release_errors + errors out.0.calls)
      × (out.0.counters.release_fallbacks ≡ c.release_fallbacks + (if every then 0 else 1))
      × (out.1 ≡ (if every then true else fallback))
unfolding release_transport_paths fallback_transport_owner
release_transport_paths-IsOnce invoke fallback paths c d =
    let start : Run = record { counters = c; succeeded = []; calls = [] } in
    let (w, l, h, k, a) =
      release_rounds-IsRun invoke c transport_release_retries paths start d (begun c)
        (λ e. absurd (omega arith)) in
    let bounded = λ (p : Bytes). k p in
    elim (Bool-cases (release_rounds invoke transport_release_retries paths start).1) [
      | inl done ↦
          let every = sym h ∙ done in
          rw done (
            rw every (
              w.once,
              bounded,
              omega (arith, l),
              a tt,
              w.attempts,
              w.successes,
              w.errors,
              omega (arith, w.fallbacks),
              refl,
            ))
      | inr failed ↦
          let some_left = sym h ∙ failed in
          rw failed (
            rw some_left (
              w.once,
              bounded,
              omega (arith, l),
              a tt,
              w.attempts,
              w.successes,
              w.errors,
              omega (arith, w.fallbacks),
              refl,
            ))
    ]
