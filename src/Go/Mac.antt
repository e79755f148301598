-- ===== src/Go/Mac.antt =====
-- `net.ParseMAC`, as far as it gives an address of six bytes, and `HardwareAddr.String` in upper
-- case.
pub mod Laws
pub mod Print
use callbridge_le_audio_serv.Prelude.{
  ℕ, zero, suc, ◌+◌, ◌-◌, ◌*◌, ◌/◌, ◌%◌, Bool, true, false, ◌&&◌, ◌||◌, List, [], ◌∷◌, ◌++◌, Option,
  none, some, ◌==◌, ltb, leb, if◌then◌else◌, Bytes,
}
use callbridge_le_audio_serv.Go.Strings.{is_digit}

infixl 5 ◌>>=◌
abbrev ◌>>=◌ : {A B : Type 0} → Option A → (A → Option B) → Option B
none >>= f = none
some a >>= f = f a

-- The value of a hexadecimal digit.
hex_value : ℕ → Option ℕ
hex_value c =
    if is_digit c
    then some (c - b'0')
    else if leb b'a' c && leb c b'f'
    then some (c - b'a' + 10)
    else if leb b'A' c && leb c b'F'
    then some (c - b'A' + 10)
    else none

-- `xtoi2`: two digits
pub xtoi2 : ℕ → ℕ → Option ℕ
xtoi2 h l = do x ← hex_value h; y ← hex_value l; some (x * 16 + y)

-- Two digits in front of what has been read behind them.
hex_pair : ℕ → ℕ → Option Bytes → Option Bytes
hex_pair h l rest = do x ← xtoi2 h l; xs ← rest; some (x ∷ xs)

-- Pairs of digits, with the separator `sep` behind each but the last.
pairs_sep : ℕ → Bytes → Option Bytes
pairs_sep sep (h ∷ l ∷ []) = hex_pair h l (some [])
pairs_sep sep (h ∷ l ∷ s ∷ rest) =
    let pairs = hex_pair h l (pairs_sep sep rest) in if s == sep then pairs else none
pairs_sep sep _ = none

-- Groups of four digits, with a dot behind each but the last.
quads : Bytes → Option Bytes
quads (a ∷ b ∷ c ∷ d ∷ []) = hex_pair a b (hex_pair c d (some []))
quads (a ∷ b ∷ c ∷ d ∷ s ∷ rest) =
    let groups = hex_pair a b (hex_pair c d (quads rest)) in if s == b'.' then groups else none
quads _ = none

six : Option Bytes → Option Bytes
six (some (a ∷ b ∷ c ∷ d ∷ e ∷ f ∷ [])) = some (a ∷ b ∷ c ∷ d ∷ e ∷ f ∷ [])
six _ = none

-- An address of six bytes, in the forms `xx:xx:…`, `xx-xx-…` and `xxxx.xxxx.xxxx`. Those of eight
-- and twenty bytes, which `ParseMAC` also reads, are `none` here.
unfoldable pub parse_mac6 : Bytes → Option Bytes
unfolding hex_value xtoi2 hex_pair pairs_sep quads six
parse_mac6 (a ∷ b ∷ c ∷ d ∷ e ∷ rest) =
    let s = a ∷ b ∷ c ∷ d ∷ e ∷ rest in
    if c == b':' || c == b'-'
    then six (pairs_sep c s)
    else if e == b'.'
    then six (quads s)
    else none
parse_mac6 _ = none

-- A hexadecimal digit in upper case.
pub hex_digit : ℕ → ℕ
hex_digit n = if ltb n 10 then b'0' + n else b'A' + (n - 10)

-- `strings.ToUpper(hardware.String())`
unfoldable pub upper_mac : Bytes → Bytes
unfolding hex_digit
upper_mac [] = []
upper_mac (b ∷ []) = hex_digit (b / 16) ∷ hex_digit (b % 16) ∷ []
upper_mac (b ∷ c ∷ bs) = hex_digit (b / 16) ∷ hex_digit (b % 16) ∷ b':' ∷ upper_mac (c ∷ bs)
