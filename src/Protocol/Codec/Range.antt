-- ===== src/Protocol/Codec/Range.antt =====
-- What `Decode` reads is in range.
use callbridge_le_audio_serv.Prelude.{
  ℕ, zero, suc, ◌+◌, ◌^◌, ◌-◌, ◌≤◌, ◌<◌, ◌≡◌, subst, [], ◌∷◌, arith, Bytes, IsBytes, length, drop,
  slice, length-take, All-take, All-drop, from_le, ok, IsByte,
}
use callbridge_le_audio_serv.Protocol.Message.{Message, InRange}
use callbridge_le_audio_serv.Protocol.Codec.{parse_fields, decode}

from_le_bound : (n : ℕ) (bs : Bytes) → IsBytes bs → length bs ≤ n → from_le bs < 256 ^ n
from_le_bound zero [] h l = omega arith
from_le_bound zero (b ∷ bs) h l = absurd (omega arith)
from_le_bound (suc n) [] h l = let rest = from_le_bound n [] tt (omega arith) in omega arith
from_le_bound (suc n) (b ∷ bs) h l =
    let rest = from_le_bound n bs h.1 (omega arith) in omega (arith, h.0)

slice_u64 : (p : Bytes) (lo : ℕ) → IsBytes p → from_le (slice p lo (lo + 8)) < 2 ^ 64
slice_u64 p lo h =
    from_le_bound 8 (slice p lo (lo + 8))
      (All-take IsByte (lo + 8 - lo) (drop lo p) (All-drop IsByte lo p h))
      (omega (arith, length-take (lo + 8 - lo) (drop lo p)))

parse_fields-InRange : (p : Bytes) → IsBytes p → InRange (parse_fields p)
unfolding parse_fields
parse_fields-InRange p h = record { sequence_u64 = slice_u64 p 8 h; token_u64 = slice_u64 p 16 h }

decode-parse_fields : (p : Bytes) {m : Message} → decode p ≡ ok m → parse_fields p ≡ m
unfolding decode
decode-parse_fields p e = ground arith

-- The two wide fields that `Decode` reads from bytes fit 64 bits.
pub decode-InRange : (p : Bytes) {m : Message} → IsBytes p → decode p ≡ ok m → InRange m
decode-InRange p h e = subst InRange (decode-parse_fields p e) (parse_fields-InRange p h)
