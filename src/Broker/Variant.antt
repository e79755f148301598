-- ===== src/Broker/Variant.antt =====
-- broker.go: the values of D-Bus properties, as far as the broker tells them apart.
use callbridge_le_audio_serv.Prelude.{ℕ, Bool, List, Option, none, some, Bytes}
use callbridge_le_audio_serv.Prelude.Table.{Table}

pub data Value : Type 0 where
  byte : ℕ → Value
  uint16 : ℕ → Value
  uint32 : ℕ → Value
  text : Bytes → Value
  octets : Bytes → Value
  path : Bytes → Value
  paths : List Bytes → Value
  boolean : Bool → Value
  other : Value

pub data Property : Type 0 where
  plain : Value → Property
  dict : Table Value → Property

-- The readers: none where the key is missing, which reads as the zero variant, or where the type
-- is another.
abbrev pub variant_bytes : Option Property → Option Bytes
variant_bytes (some (plain (octets raw))) = some raw
variant_bytes _ = none

abbrev pub variant_dict : Option Property → Option (Table Value)
variant_dict (some (dict fields)) = some fields
variant_dict _ = none

abbrev pub variant_text : Option Value → Option Bytes
variant_text (some (text s)) = some s
variant_text _ = none

abbrev pub variant_path : Option Value → Option Bytes
variant_path (some (path p)) = some p
variant_path _ = none

abbrev pub variant_paths : Option Value → Option (List Bytes)
variant_paths (some (paths ps)) = some ps
variant_paths _ = none

abbrev pub variant_boolean : Option Value → Option Bool
variant_boolean (some (boolean b)) = some b
variant_boolean _ = none

abbrev pub variant_byte : Option Value → Option ℕ
variant_byte (some (byte n)) = some n
variant_byte _ = none

abbrev pub variant_uint16 : Option Value → Option ℕ
variant_uint16 (some (uint16 n)) = some n
variant_uint16 _ = none

abbrev pub variant_uint32 : Option Value → Option ℕ
variant_uint32 (some (uint32 n)) = some n
variant_uint32 _ = none

abbrev pub variant_delay : Option Value → Option ℕ
variant_delay (some (uint32 n)) = some n
variant_delay (some (uint16 n)) = some n
variant_delay _ = none
