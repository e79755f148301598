-- ===== src/Sms/Obex.antt =====
-- obex.go: headers. A header is the identifier and the value; the upper two bits of the identifier
-- say how the value is written.
pub mod RoundTrip
use callbridge_le_audio_serv.Prelude.{
  ℕ, zero, suc, ◌+◌, ◌-◌, ◌*◌, ◌/◌, ◌%◌, ◌||◌, List, [], ◌∷◌, ◌++◌, ◌==◌, ◌!=◌, ltb, Option, none,
  some, if◌then◌else◌, Bytes, byte_at, length, take, drop, bit_and, Result, ok, err, ◌>>=◌,
}

pub record Header : Type 0 where
  pub id : ℕ
  pub value : Bytes

pub data Error : Type 0 where
  truncated invalid_length too_large one_byte four_bytes invalid_offset : Error

-- `binary.BigEndian.PutUint16` and `Uint16`
abbrev pub be16 : ℕ → Bytes
be16 n = n / 256 % 256 ∷ n % 256 ∷ []

abbrev pub from_be16 : Bytes → ℕ
from_be16 p = byte_at p 0 * 256 + byte_at p 1

-- The value behind an identifier, and how many bytes it takes: a length that counts the header, or
-- a fixed number of bytes.
unfoldable pub read_sized : Bytes → Result Error (Bytes × ℕ)
read_sized rest =
    let size = from_be16 rest in
    if ltb (length rest) 2
    then err truncated
    else if ltb size 3 || ltb (length rest) (size - 1)
    then err invalid_length
    else ok (drop 2 (take (size - 1) rest), size - 1)

unfoldable pub read_fixed : ℕ → Bytes → Result Error (Bytes × ℕ)
read_fixed n rest = if ltb (length rest) n then err truncated else ok (take n rest, n)

unfoldable pub read_value : ℕ → Bytes → Result Error (Bytes × ℕ)
read_value kind rest =
    if kind == 0x00 || kind == 0x40
    then read_sized rest
    else if kind == 0x80
    then read_fixed 1 rest
    else read_fixed 4 rest

-- The loop of `ParseHeaders`. A header takes at least one byte, so the length is fuel enough.
unfoldable pub parse_loop : ℕ → Bytes → Result Error (List Header)
parse_loop _ [] = ok []
parse_loop zero (id ∷ rest) = err truncated
parse_loop (suc fuel) (id ∷ rest) = do
  (value, size) ← read_value (bit_and id 0xc0) rest
  headers ← parse_loop fuel (drop size rest)
  ok (record { id = id; value = value } ∷ headers)

-- `ParseHeaders`; an offset is not negative.
unfoldable pub parse_headers : Bytes → ℕ → Result Error (List Header)
parse_headers bytes offset =
    if ltb (length bytes) offset
    then err invalid_offset
    else parse_loop (length bytes) (drop offset bytes)

-- `BuildHeader` behind the identifier
unfoldable pub build_value : ℕ → Bytes → Result Error Bytes
build_value kind value =
    if kind == 0x00 || kind == 0x40
    then (if ltb 0xffff (length value + 3)
        then err too_large
        else ok (be16 (length value + 3) ++ value))
    else if kind == 0x80
    then (if length value != 1 then err one_byte else ok value)
    else if length value != 4
    then err four_bytes
    else ok value

unfoldable pub build_header : ℕ → Bytes → Result Error Bytes
build_header id value = do written ← build_value (bit_and id 0xc0) value; ok (id ∷ written)

unfoldable pub find : List Header → ℕ → Option Bytes
find [] id = none
find (header ∷ headers) id =
    let rest = find headers id in if header.id == id then some header.value else rest

unfoldable pub collect_body : List Header → ℕ → ℕ → Bytes
collect_body [] body_id end_id = []
collect_body (header ∷ headers) body_id end_id =
    let rest = collect_body headers body_id end_id in
    if header.id == body_id || header.id == end_id then header.value ++ rest else rest
