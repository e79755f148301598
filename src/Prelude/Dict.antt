-- ===== src/Prelude/Dict.antt =====
-- A Go map with numbers for keys, as an association list.
pub mod Laws
use mathlib.Core.Path.{◌≡◌, refl}
use mathlib.Core.Bool.{Bool, true, false}
use mathlib.Core.Option.{Option, none, some}
use mathlib.Core.List.{List, [], ◌∷◌}
use Prim.Native.Nat.{ℕ}
use native.Mathlib.Omega.{arith}
use callbridge_le_audio_serv.Prelude.Tests.{◌==◌, if◌then◌else◌}

abbrev pub Dict : Type 0 → Type 0
Dict V = List (ℕ × V)

module _ {V : Type 0} where
  -- `v, present := m[k]`
  unfoldable pub lookup : ℕ → Dict V → Option V
  lookup key [] = none
  lookup key ((i, value) ∷ rest) = if i == key then some value else lookup key rest

  -- `m[k] = v`
  unfoldable pub insert : ℕ → V → Dict V → Dict V
  insert key new [] = (key, new) ∷ []
  insert key new ((i, value) ∷ rest) =
      if i == key then (key, new) ∷ rest else (i, value) ∷ insert key new rest

  -- `delete(m, k)`
  unfoldable pub remove : ℕ → Dict V → Dict V
  remove key [] = []
  remove key ((i, value) ∷ entries) =
      let rest = remove key entries in if i == key then rest else (i, value) ∷ rest

  -- `for k, v := range m { if !keep(k, v) { delete(m, k) } }`
  unfoldable pub retain : (ℕ → V → Bool) → Dict V → Dict V
  retain keep [] = []
  retain keep ((i, value) ∷ entries) =
      let rest = retain keep entries in if keep i value then (i, value) ∷ rest else rest
