-- ===== src/Go/Mac/Laws.antt =====
-- `net.ParseMAC` reads back what `HardwareAddr.String` prints, in upper case.
use callbridge_le_audio_serv.Prelude.{
  ℕ, suc, ◌/◌, ◌%◌, ◌<◌, ◌≡◌, ◌≢◌, Bool, true, false, [], ◌∷◌, arith, Bytes, IsBytes, Option, none,
  some, ◌==◌, ◌||◌, subst, if◌then◌else◌, Option-cases, inl, inr,
}
use callbridge_le_audio_serv.Go.Mac.{
  ◌>>=◌, hex_value, xtoi2, hex_pair, pairs_sep, quads, six, parse_mac6, hex_digit,
}

hex_value-hex_digit : (n : ℕ) → n < 16 → hex_value (hex_digit n) ≡ some n
unfolding hex_value hex_digit
hex_value-hex_digit n h = ground arith

pub xtoi2-byte : (b : ℕ) → b < 256 → xtoi2 (hex_digit (b / 16)) (hex_digit (b % 16)) ≡ some b
unfolding xtoi2
xtoi2-byte b h =
    ground (
      arith,
      hex_value-hex_digit (b / 16) (omega arith),
      hex_value-hex_digit (b % 16) (omega arith),
    )

hex_value-lt : (c : ℕ) {x : ℕ} → hex_value c ≡ some x → x < 16
unfolding hex_value
hex_value-lt c e = ground arith

-- Digits are neither white space nor separators.
pub hex_digit_range :
    (n : ℕ) → n < 16 → (48 < suc (hex_digit n)) × (hex_digit n < 71) × (hex_digit n ≢ b':')
unfolding hex_digit
hex_digit_range n h = ground arith

xtoi2-lt : (h l : ℕ) {x : ℕ} → xtoi2 h l ≡ some x → x < 256
unfolding xtoi2
xtoi2-lt h l e = grind (arith, hex_value-lt)

abbrev Gives : Option Bytes → Type 0
Gives none = Unit
Gives (some hw) = IsBytes hw

hex_pair-Gives : (h l : ℕ) (t : Option Bytes) → Gives t → Gives (hex_pair h l t)
unfolding hex_pair
hex_pair-Gives h l t g = elim (Option-cases (xtoi2 h l)) [
  | inl bad ↦ rw bad tt
  | inr (x, e) ↦ rw e (with_rest x t (xtoi2-lt h l e) g)
]
  where
    with_rest : (x : ℕ) (t : Option Bytes) → x < 256 → Gives t → Gives (t >>= λ xs. some (x ∷ xs))
    with_rest x none lt g = tt
    with_rest x (some xs) lt g = (lt, g)

Gives-if : (b : Bool) (t : Option Bytes) → Gives t → Gives (if b then t else none)
Gives-if true t g = g
Gives-if false t g = tt

pairs_sep-Gives : (sep : ℕ) (s : Bytes) → Gives (pairs_sep sep s)
unfolding pairs_sep
pairs_sep-Gives sep [] = tt
pairs_sep-Gives sep (h ∷ []) = tt
pairs_sep-Gives sep (h ∷ l ∷ []) = hex_pair-Gives h l (some []) tt
pairs_sep-Gives sep (h ∷ l ∷ s ∷ rest) =
    Gives-if (s == sep) _ (hex_pair-Gives h l (pairs_sep sep rest) (pairs_sep-Gives sep rest))

quads-Gives : (s : Bytes) → Gives (quads s)
unfolding quads
quads-Gives [] = tt
quads-Gives (a ∷ []) = tt
quads-Gives (a ∷ b ∷ []) = tt
quads-Gives (a ∷ b ∷ c ∷ []) = tt
quads-Gives (a ∷ b ∷ c ∷ d ∷ []) =
    hex_pair-Gives a b (hex_pair c d (some [])) (hex_pair-Gives c d (some []) tt)
quads-Gives (a ∷ b ∷ c ∷ d ∷ s ∷ rest) = Gives-if (s == b'.') _ (
    hex_pair-Gives a b (hex_pair c d (quads rest))
      (hex_pair-Gives c d (quads rest) (quads-Gives rest)))

-- A hardware address of six bytes.
pub data IsMac : Bytes → Type 0 where
  mac :
      {a b c d e f : ℕ} → IsBytes (a ∷ b ∷ c ∷ d ∷ e ∷ f ∷ []) → IsMac (a ∷ b ∷ c ∷ d ∷ e ∷ f ∷ [])

abbrev MacOr : Option Bytes → Type 0
MacOr none = Unit
MacOr (some hw) = IsMac hw

six-MacOr : (t : Option Bytes) → Gives t → MacOr (six t)
unfolding six
six-MacOr none g = tt
six-MacOr (some (a ∷ b ∷ c ∷ d ∷ e ∷ f ∷ [])) g = mac g
six-MacOr (some []) g = tt
six-MacOr (some (a ∷ [])) g = tt
six-MacOr (some (a ∷ b ∷ [])) g = tt
six-MacOr (some (a ∷ b ∷ c ∷ [])) g = tt
six-MacOr (some (a ∷ b ∷ c ∷ d ∷ [])) g = tt
six-MacOr (some (a ∷ b ∷ c ∷ d ∷ e ∷ [])) g = tt
six-MacOr (some (a ∷ b ∷ c ∷ d ∷ e ∷ f ∷ g' ∷ r)) g = tt

MacOr-if : (b : Bool) (t u : Option Bytes) → MacOr t → MacOr u → MacOr (if b then t else u)
MacOr-if true t u p q = p
MacOr-if false t u p q = q

parse_mac6-MacOr : (s : Bytes) → MacOr (parse_mac6 s)
unfolding parse_mac6
parse_mac6-MacOr [] = tt
parse_mac6-MacOr (a ∷ []) = tt
parse_mac6-MacOr (a ∷ b ∷ []) = tt
parse_mac6-MacOr (a ∷ b ∷ c ∷ []) = tt
parse_mac6-MacOr (a ∷ b ∷ c ∷ d ∷ []) = tt
parse_mac6-MacOr (a ∷ b ∷ c ∷ d ∷ e ∷ r) =
    let s : Bytes = a ∷ b ∷ c ∷ d ∷ e ∷ r in
    MacOr-if (c == b':' || c == b'-') _ _ (six-MacOr (pairs_sep c s) (pairs_sep-Gives c s))
      (MacOr-if (e == b'.') _ none (six-MacOr (quads s) (quads-Gives s)) tt)

-- What `ParseMAC` gives, as far as it is read here, is an address of six bytes.
pub parse_mac6-IsMac : (s : Bytes) {hw : Bytes} → parse_mac6 s ≡ some hw → IsMac hw
parse_mac6-IsMac s e = subst MacOr e (parse_mac6-MacOr s)
