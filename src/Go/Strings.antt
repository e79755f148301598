-- ===== src/Go/Strings.antt =====
-- Package strings on byte sequences. A text that is not valid UTF-8 is cut byte by byte as Go does.
pub mod Trim
use callbridge_le_audio_serv.Prelude.{
  ℕ, zero, suc, ◌+◌, ◌-◌, Bool, true, false, ◌&&◌, ◌||◌, List, [], ◌∷◌, map, ◌==◌, ltb, leb,
  if◌then◌else◌, Bytes, take, drop, length,
}
use mathlib.Core.List.{reverse}

-- The white space that `unicode.IsSpace` knows, by its UTF-8 encodings.
abbrev space_1 : ℕ → Bool
space_1 a = (leb 9 a && leb a 13) || a == 32

abbrev space_2 : ℕ → ℕ → Bool
space_2 a b = a == 0xc2 && (b == 0x85 || b == 0xa0)

abbrev space_3 : ℕ → ℕ → ℕ → Bool
space_3 a b c =
    (a == 0xe1 && b == 0x9a && c == 0x80)
    || (a == 0xe2 && b == 0x80 && (leb 0x80 c && leb c 0x8a || c == 0xa8 || c == 0xa9 || c == 0xaf))
    || (a == 0xe2 && b == 0x81 && c == 0x9f)
    || (a == 0xe3 && b == 0x80 && c == 0x80)

-- How many bytes of white space stand at the front, for one rune.
abbrev front_space : Bytes → ℕ
front_space [] = 0
front_space (a ∷ []) = if space_1 a then 1 else 0
front_space (a ∷ b ∷ []) = if space_1 a then 1 else if space_2 a b then 2 else 0
front_space (a ∷ b ∷ c ∷ _) =
    if space_1 a then 1 else if space_2 a b then 2 else if space_3 a b c then 3 else 0

-- The same for a text written backwards.
abbrev back_space : Bytes → ℕ
back_space [] = 0
back_space (a ∷ []) = if space_1 a then 1 else 0
back_space (b ∷ a ∷ []) = if space_1 b then 1 else if space_2 a b then 2 else 0
back_space (c ∷ b ∷ a ∷ _) =
    if space_1 c then 1 else if space_2 b c then 2 else if space_3 a b c then 3 else 0

-- Drops runes of white space while `width` finds one. The first argument counts the bytes left to
-- skip of the rune that was found last.
skip_space : (Bytes → ℕ) → ℕ → Bytes → Bytes
skip_space width skip [] = []
skip_space width (suc k) (c ∷ cs) = skip_space width k cs
skip_space width zero (c ∷ cs) = elim (width (c ∷ cs)) [
  | zero ↦ c ∷ cs
  | suc k ↦ skip_space width k cs
]

-- `strings.TrimSpace`
unfoldable pub trim_space : Bytes → Bytes
unfolding skip_space
trim_space s = reverse (skip_space back_space 0 (reverse (skip_space front_space 0 s)))

-- `s[i+1:]` for the first `i` with `s[i] == c`, or `s` where there is none
unfoldable pub after_byte : ℕ → Bytes → Bytes → Bytes
after_byte c whole [] = whole
after_byte c whole (x ∷ xs) = if x == c then xs else after_byte c whole xs

-- `s[:i]` for the first `i` at which `stop` holds, or `s` where there is none
unfoldable pub before_byte : (ℕ → Bool) → Bytes → Bytes
before_byte stop [] = []
before_byte stop (x ∷ xs) = let rest = before_byte stop xs in if stop x then [] else x ∷ rest

-- `strings.HasPrefix`
unfoldable pub has_prefix : Bytes → Bytes → Bool
has_prefix s [] = true
has_prefix [] (p ∷ ps) = false
has_prefix (x ∷ xs) (p ∷ ps) = x == p && has_prefix xs ps

-- `c >= '0' && c <= '9'`
abbrev pub is_digit : ℕ → Bool
is_digit c = leb b'0' c && leb c b'9'
