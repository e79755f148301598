-- ===== src/Protocol/Device.antt =====
-- protocol.go: `normalizedDevice` and `ValidURI`.
pub mod Canonical
use callbridge_le_audio_serv.Prelude.{
  ℕ, Bool, false, not, ◌||◌, [], ◌∷◌, ◌==◌, ltb, leb, Bytes, length, all, drop, codes, Option, none,
  some, if◌then◌else◌,
}
use callbridge_le_audio_serv.Go.Strings.{trim_space, has_prefix, is_digit}
use callbridge_le_audio_serv.Go.Mac.{parse_mac6, upper_mac}
use callbridge_le_audio_serv.Protocol.Message.{payload_size}

-- `""` for what is no six-byte address
abbrev mac_text : Option Bytes → Bytes
mac_text none = []
mac_text (some hardware) = upper_mac hardware

unfoldable pub normalized_device : Bytes → Bytes
normalized_device address = mac_text (parse_mac6 (trim_space address))

abbrev is_uri_byte : ℕ → Bool
is_uri_byte c = is_digit c || c == b'+' || c == b'*' || c == b'#'

-- The loop is over runes. A rune past ASCII fails, and so does each byte of its encoding.
unfoldable pub valid_uri : Bytes → Bool
valid_uri uri =
    if ltb (length uri) 5 || ltb payload_size (length uri) || not (has_prefix uri (codes "tel:"))
    then false
    else all is_uri_byte (drop 4 uri)
