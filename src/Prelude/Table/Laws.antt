-- ===== src/Prelude/Table/Laws.antt =====
-- What the operations do to a table, read through `find`.
use mathlib.Core.Path.{◌≡◌, refl}
use mathlib.Core.Bool.{Bool, true, false}
use mathlib.Core.Option.{none, some}
use mathlib.Core.List.{[], ◌∷◌}
use native.Mathlib.Omega.{arith}
use callbridge_le_audio_serv.Prelude.Tests.{if◌then◌else◌}
use callbridge_le_audio_serv.Prelude.Slices.{Bytes, bytes_eq, bytes_eq_iff}
use callbridge_le_audio_serv.Prelude.Table.{Table, find, put, erase, flag}

pub bytes_eq_self : (name : Bytes) → bytes_eq name name ≡ true
bytes_eq_self name = (bytes_eq_iff name name).1 refl

module _ {V : Type 0} where
  pub find-put :
      (name other : Bytes) (new : V) (m : Table V)
      → find other (put name new m) ≡ (if bytes_eq name other then some new else find other m)
  unfolding find put
  find-put name other new [] = refl
  find-put name other new ((n, value) ∷ rest) = ground (
    arith,
    find-put name other new rest,
    bytes_eq_iff n name,
    bytes_eq_iff name other,
    bytes_eq_iff n other,
  )

  pub find-erase :
      (name other : Bytes) (m : Table V)
      → find other (erase name m) ≡ (if bytes_eq name other then none else find other m)
  unfolding find erase
  find-erase name other [] = ground arith
  find-erase name other ((n, value) ∷ rest) = ground (
    arith,
    find-erase name other rest,
    bytes_eq_iff n name,
    bytes_eq_iff name other,
    bytes_eq_iff n other,
  )

pub flag-put :
    (name other : Bytes) (new : Bool) (m : Table Bool)
    → flag other (put name new m) ≡ (if bytes_eq name other then new else flag other m)
unfolding flag
flag-put name other new m = ground (arith, find-put name other new m)

pub flag-erase :
    (name other : Bytes) (m : Table Bool)
    → flag other (erase name m) ≡ (if bytes_eq name other then false else flag other m)
unfolding flag
flag-erase name other m = ground (arith, find-erase name other m)
