-- ===== src/Prelude/Table.antt =====
-- A Go map with strings for keys, as an association list.
pub mod Laws
use mathlib.Core.Bool.{Bool, true, false}
use mathlib.Core.Option.{Option, none, some}
use mathlib.Core.List.{List, [], ◌∷◌}
use callbridge_le_audio_serv.Prelude.Tests.{if◌then◌else◌}
use callbridge_le_audio_serv.Prelude.Slices.{Bytes, bytes_eq}

abbrev pub Table : Type 0 → Type 0
Table V = List (Bytes × V)

module _ {V : Type 0} where
  -- `v, present := m[k]`
  unfoldable pub find : Bytes → Table V → Option V
  find name [] = none
  find name ((n, value) ∷ rest) = if bytes_eq n name then some value else find name rest

  -- `m[k] = v`
  unfoldable pub put : Bytes → V → Table V → Table V
  put name new [] = (name, new) ∷ []
  put name new ((n, value) ∷ rest) =
      if bytes_eq n name then (name, new) ∷ rest else (n, value) ∷ put name new rest

  -- `delete(m, k)`
  unfoldable pub erase : Bytes → Table V → Table V
  erase name [] = []
  erase name ((n, value) ∷ entries) =
      let rest = erase name entries in if bytes_eq n name then rest else (n, value) ∷ rest

-- A `map[string]bool`: a missing key reads as false.
unfoldable pub flag : Bytes → Table Bool → Bool
flag name m = elim (find name m) [ none ↦ false | some value ↦ value ]
