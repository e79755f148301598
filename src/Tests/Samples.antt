-- ===== src/Tests/Samples.antt =====
-- Sample data.
use callbridge_le_audio_serv.Prelude.{ℕ, ◌≡◌, ◌≢◌, refl, [], ◌∷◌, Bytes, codes, ok}
use callbridge_le_audio_serv.Protocol.Message.{Message}
use callbridge_le_audio_serv.Protocol.Identity.{Identity}
use callbridge_le_audio_serv.Protocol.Device.{normalized_device}
use callbridge_le_audio_serv.Protocol.Device.Canonical.{IsDevice}
use callbridge_le_audio_serv.Protocol.Validate.{validate}
use callbridge_le_audio_serv.Protocol.Codec.{layout, encode}

abbrev pub phone : Bytes
phone = codes "AA:BB:CC:DD:EE:FF"

abbrev pub accept_command : Message
accept_command = record {
  type = 2;
  flags = 0;
  sequence = 5;
  token = 7;
  device = phone;
  index = 1;
  code = 0;
  value = 0;
  payload = [];
}

abbrev pub caller : Identity
caller = record { uri = codes "5551234"; name = [] }

phone-normalized : normalized_device phone ≡ phone
unfolding normalized_device callbridge_le_audio_serv.Go.Mac.parse_mac6
    callbridge_le_audio_serv.Go.Strings.trim_space callbridge_le_audio_serv.Go.Mac.upper_mac
phone-normalized = refl

pub phone-IsDevice : IsDevice phone
phone-IsDevice = ((λ e. cc), phone-normalized)

pub accept_command-encodes : encode accept_command ≡ ok (layout accept_command)
unfolding encode validate callbridge_le_audio_serv.Prelude.bytes_eq normalized_device
    callbridge_le_audio_serv.Go.Mac.parse_mac6 callbridge_le_audio_serv.Go.Strings.trim_space
    callbridge_le_audio_serv.Go.Mac.upper_mac
    callbridge_le_audio_serv.Protocol.Validate.validate_type
    callbridge_le_audio_serv.Protocol.Validate.validate_command
accept_command-encodes = refl
