-- ===== src/Go/Mac/Print.antt =====
-- The printed form of an address: `ParseMAC` reads it back, and `TrimSpace` leaves it.
use callbridge_le_audio_serv.Prelude.{
  ℕ, ◌/◌, ◌%◌, ◌<◌, ◌≡◌, ◌≢◌, refl, [], ◌∷◌, arith, Bytes, All, length, some,
}
use callbridge_le_audio_serv.Go.Strings.{trim_space}
use callbridge_le_audio_serv.Go.Strings.Trim.{IsPlain, trim_space-plain}
use callbridge_le_audio_serv.Go.Mac.{hex_pair, parse_mac6, hex_digit, upper_mac}
use callbridge_le_audio_serv.Go.Mac.Laws.{IsMac, mac, xtoi2-byte, hex_digit_range}

hex_pair-byte :
    (b : ℕ) (xs : Bytes)
    → b < 256
    → hex_pair (hex_digit (b / 16)) (hex_digit (b % 16)) (some xs) ≡ some (b ∷ xs)
unfolding hex_pair
hex_pair-byte b xs h = rw (xtoi2-byte b h)

hex_digit-IsPlain : (n : ℕ) → n < 16 → IsPlain (hex_digit n)
hex_digit-IsPlain n h = omega (arith, hex_digit_range n h)

hex_digit-pos : (n : ℕ) → 0 < hex_digit n
unfolding hex_digit
hex_digit-pos n = ground arith

pub length-upper_mac : {hw : Bytes} → IsMac hw → length (upper_mac hw) ≡ 17
unfolding upper_mac
length-upper_mac (mac h) = refl

pub upper_mac-nonzero : {hw : Bytes} → IsMac hw → All (λ b. b ≢ 0) (upper_mac hw)
unfolding upper_mac
upper_mac-nonzero (mac h) = (
  digit _,
  (
    digit _,
    (
      colon,
      (
        digit _,
        (
          digit _,
          (
            colon,
            (
              digit _,
              (
                digit _,
                (
                  colon,
                  (
                    digit _,
                    (digit _, (colon, (digit _, (digit _, (colon, (digit _, (digit _, tt))))))),
                  ),
                ),
              ),
            ),
          ),
        ),
      ),
    ),
  ),
)
  where
    digit : (n : ℕ) → hex_digit n ≢ 0
    digit n = omega (arith, hex_digit-pos n)

    colon : ◌≢◌ {A = ℕ} b':' 0
    colon = omega arith

pub trim_space-upper_mac : {hw : Bytes} → IsMac hw → trim_space (upper_mac hw) ≡ upper_mac hw
unfolding upper_mac
trim_space-upper_mac (mac h) =
    trim_space-plain _ _ _ _ refl (hex_digit-IsPlain _ (omega arith))
      (hex_digit-IsPlain _ (omega arith))

pub parse_mac6-upper_mac : {hw : Bytes} → IsMac hw → parse_mac6 (upper_mac hw) ≡ some hw
unfolding upper_mac parse_mac6
parse_mac6-upper_mac (mac {a} {b} {c} {d} {e} {f} h) = rw (
  hex_pair-byte f [] (omega arith),
  hex_pair-byte e (f ∷ []) (omega arith),
  hex_pair-byte d (e ∷ f ∷ []) (omega arith),
  hex_pair-byte c (d ∷ e ∷ f ∷ []) (omega arith),
  hex_pair-byte b (c ∷ d ∷ e ∷ f ∷ []) (omega arith),
  hex_pair-byte a (b ∷ c ∷ d ∷ e ∷ f ∷ []) (omega arith),
)
