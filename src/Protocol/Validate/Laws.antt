-- ===== src/Protocol/Validate/Laws.antt =====
-- The general part of `validate`, apart from the checks of the types.
use callbridge_le_audio_serv.Prelude.{
  ◌≤◌, ◌<◌, ◌≡◌, false, [], arith, Bytes, length, bytes_eq, bytes_eq_iff,
}
use callbridge_le_audio_serv.Prelude.Bits.{and_not}
use callbridge_le_audio_serv.Protocol.Message.{Message}
use callbridge_le_audio_serv.Protocol.Device.{normalized_device}
use callbridge_le_audio_serv.Protocol.Device.Canonical.{IsDevice}
use callbridge_le_audio_serv.Protocol.Validate.{validate, validate_type}

-- What a message needs apart from its type's own checks.
pub record IsFramed (m : Message) : Type 0 where
  pub type_low : 1 ≤ m.type
  pub type_high : m.type ≤ 5
  pub flags_known : and_not m.flags 3 ≡ 0
  pub sequence_pos : 0 < m.sequence
  pub payload_fits : length m.payload ≤ 78
  pub device : IsDevice m.device

device_accepted : (d : Bytes) → IsDevice d → bytes_eq (normalized_device d) [] ≡ false
device_accepted d h = ground (arith, bytes_eq_iff (normalized_device d) [], h.0, h.1)

pub validate-validate_type : (m : Message) → IsFramed m → validate m ≡ validate_type m
unfolding validate
validate-validate_type m f = ground (
  arith,
  device_accepted m.device f.device,
  f.type_low,
  f.type_high,
  f.flags_known,
  f.sequence_pos,
  f.payload_fits,
)
