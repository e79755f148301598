-- ===== src/Prelude/Slices.antt =====
-- Byte sequences: Go's `[]byte` and `string`, with the operations of slices, `copy` and
-- encoding/binary that the services use.
use Prim.Native.Nat.{ℕ, zero, suc, ◌+◌, ◌-◌, ◌*◌, ◌/◌, ◌%◌, ◌^◌, ◌≤◌, ◌<◌, min}
use Prim.Native.Char.{code}
use Prim.Native.String.{String}
use mathlib.Core.Path.{◌≡◌, ap, ◌∙◌}
use mathlib.Core.Logic.{◌↔◌}
use mathlib.Core.Bool.{Bool, true, false, ◌&&◌}
use mathlib.Core.List.{List, [], ◌∷◌, ◌++◌}
use native.Mathlib.Omega.{arith}
use callbridge_le_audio_serv.Prelude.Tests.{◌==◌}
use callbridge_le_audio_serv.Prelude.Lists.{
  length, get_or, take, drop, replicate, All, take-append_eq, drop-append, take_all,
}

abbrev pub Bytes : Type 0
Bytes = List ℕ

abbrev pub IsByte : ℕ → Type 0
IsByte b = b < 256

abbrev pub IsBytes : Bytes → Type 0
IsBytes = All IsByte

-- The bytes of an ASCII literal.
abbrev pub codes : String → Bytes
codes String.[] = []
codes (String.◌∷◌ letter text) = code letter ∷ codes text

-- `make([]byte, n)`
abbrev pub zeros : ℕ → Bytes
zeros n = replicate n 0

-- `p[i]`, under a length check that makes the index good
abbrev pub byte_at : Bytes → ℕ → ℕ
byte_at p i = get_or p i 0

-- `p[lo:hi]`, under a length check that makes the bounds good
abbrev pub slice : Bytes → ℕ → ℕ → Bytes
slice p lo hi = take (hi - lo) (drop lo p)

-- `copy(p[lo:hi], src)`: as many bytes as both hold
abbrev pub copy_into : Bytes → ℕ → ℕ → Bytes → Bytes
copy_into p lo hi src =
    take lo p ++ (take (hi - lo) src ++ drop (lo + min (length src) (hi - lo)) p)

-- `==` on strings
unfoldable pub bytes_eq : Bytes → Bytes → Bool
bytes_eq [] [] = true
bytes_eq (x ∷ xs) (y ∷ ys) = x == y && bytes_eq xs ys
bytes_eq _ _ = false

pub bytes_eq_iff : (xs ys : Bytes) → (bytes_eq xs ys ≡ true) ↔ (xs ≡ ys)
unfolding bytes_eq
bytes_eq_iff (x ∷ xs) (y ∷ ys) = ground (arith, bytes_eq_iff xs ys)
bytes_eq_iff _ _ = ground arith

-- `binary.LittleEndian.PutUint16`, `PutUint32` and `PutUint64`, as the bytes written
abbrev pub le16 : ℕ → Bytes
le16 n = n % 256 ∷ n / 256 % 256 ∷ []

abbrev pub le32 : ℕ → Bytes
le32 n = n % 256 ∷ n / 256 % 256 ∷ n / 65536 % 256 ∷ n / 16777216 % 256 ∷ []

abbrev pub le64 : ℕ → Bytes
le64 n = le32 (n % 4294967296) ++ le32 (n / 4294967296)

-- `binary.LittleEndian.Uint16`, `Uint32` and `Uint64` of a slice of that length
abbrev pub from_le : Bytes → ℕ
from_le [] = 0
from_le (b ∷ bs) = b + 256 * from_le bs

pub from_le-le16 : (n : ℕ) → n < 2 ^ 16 → from_le (le16 n) ≡ n
from_le-le16 n h = omega arith

pub from_le-le32 : (n : ℕ) → n < 2 ^ 32 → from_le (le32 n) ≡ n
from_le-le32 n h = omega arith

pub from_le-le64 : (n : ℕ) → n < 2 ^ 64 → from_le (le64 n) ≡ n
from_le-le64 n h = omega (
  arith,
  from_le-le32 (n % 4294967296) (omega arith),
  from_le-le32 (n / 4294967296) (omega arith),
)

pub drop_add : (j k : ℕ) (p : Bytes) → drop (j + k) p ≡ drop k (drop j p)
drop_add zero k p = ap (λ n. drop n p) (omega arith)
drop_add (suc j) zero [] = ap (λ n. drop n []) {x = suc j + 0} {y = suc j} (omega arith)
drop_add (suc j) (suc k) [] =
    ap (λ n. drop n []) {x = suc j + suc k} {y = suc (j + suc k)} (omega arith)
drop_add (suc j) k (x ∷ p) =
    ap (λ n. drop n (x ∷ p)) {x = suc j + k} {y = suc (j + k)} (omega arith) ∙ drop_add j k p

-- `copy` into the part of a buffer that begins behind `pre`, where the source fits.
pub copy_into-append :
    (pre post src : Bytes) (lo hi : ℕ)
    → lo ≡ length pre
    → length src ≤ hi - lo
    → copy_into (pre ++ post) lo hi src ≡ pre ++ (src ++ drop (length src) post)
copy_into-append pre post src lo hi e fits = rw (
  take-append_eq lo pre post e,
  take_all src (hi - lo) fits,
  ap (λ k. drop k (pre ++ post)) (copied fits),
  drop_add (length pre) (length src) (pre ++ post),
  drop-append pre post,
)
  where
    copied : length src ≤ hi - lo → lo + min (length src) (hi - lo) ≡ length pre + length src
    copied h = omega arith

pub drop-zeros : (k n : ℕ) → drop k (zeros n) ≡ zeros (n - k)
drop-zeros zero n = ap zeros {x = n} {y = n - 0} (omega arith)
drop-zeros (suc k) zero = ap zeros {x = 0} {y = 0 - suc k} (omega arith)
drop-zeros (suc k) (suc n) = drop-zeros k n ∙ ap zeros {x = n - k} {y = suc n - suc k} (omega arith)

pub zeros-append : (k n : ℕ) → zeros k ++ zeros n ≡ zeros (k + n)
zeros-append zero n = ap zeros (omega arith)
zeros-append (suc k) n = ap (◌∷◌ 0) (zeros-append k n) ∙ ap zeros {x = suc (k + n)} (omega arith)
