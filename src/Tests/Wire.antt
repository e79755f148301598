-- ===== src/Tests/Wire.antt =====
-- The packets of protocol.go.
use callbridge_le_audio_serv.Prelude.{
  ℕ, ◌≡◌, ◌≢◌, ◌⊎◌, ◌^◌, ◌<◌, ◌≤◌, refl, [], ◌∷◌, ◌++◌, arith, All, Bytes, codes, length, ok,
}
use callbridge_le_audio_serv.Protocol.Message.{packet_size}
use callbridge_le_audio_serv.Protocol.Identity.{no_identity, encode_identity, decode_identity}
use callbridge_le_audio_serv.Protocol.Identity.RoundTrip.{
  decode-encode_identity, encode-decode_identity,
}
use callbridge_le_audio_serv.Protocol.Device.{normalized_device}
use callbridge_le_audio_serv.Protocol.Device.Canonical.{normalized_device_canonical, IsDevice-clean}
use callbridge_le_audio_serv.Protocol.Codec.{layout, decode}
use callbridge_le_audio_serv.Protocol.Codec.RoundTrip.{decode-encode}
use callbridge_le_audio_serv.Gtbs.Parse.{uri_body, strip_uri_scheme}
use callbridge_le_audio_serv.Tests.Samples.{
  phone, caller, accept_command, phone-IsDevice, accept_command-encodes,
}

decode-encode_example :
    (decode (layout accept_command) ≡ ok accept_command)
    × (length (layout accept_command) ≡ packet_size)
decode-encode_example =
    decode-encode accept_command (record { sequence_u64 = omega arith; token_u64 = omega arith })
      (omega arith) (IsDevice-clean phone phone-IsDevice).1 accept_command-encodes

abbrev caller_bytes : Bytes
caller_bytes = 7 ∷ (codes "5551234" ++ (0 ∷ []))

caller-encodes : encode_identity caller ≡ ok caller_bytes
unfolding encode_identity callbridge_le_audio_serv.Prelude.bytes_eq
caller-encodes = refl

caller-decodes : decode_identity caller_bytes ≡ ok caller
unfolding decode_identity
caller-decodes = refl

decode-encode_identity_example : decode_identity caller_bytes ≡ ok caller
decode-encode_identity_example = decode-encode_identity caller caller-encodes

encode-decode_identity_example : (encode_identity caller ≡ ok caller_bytes) ⊎ (caller ≡ no_identity)
encode-decode_identity_example = encode-decode_identity caller_bytes caller-decodes

normalized_device_canonical_example :
    let d = normalized_device (codes " aa-bb-cc-dd-ee-ff ") in
    (d ≡ []) ⊎ ((length d ≡ 17) × All (λ b. b ≢ 0) d × (normalized_device d ≡ d))
normalized_device_canonical_example = normalized_device_canonical (codes " aa-bb-cc-dd-ee-ff ")

normalized : normalized_device (codes " aa-bb-cc-dd-ee-ff ") ≡ phone
unfolding normalized_device callbridge_le_audio_serv.Go.Mac.parse_mac6
    callbridge_le_audio_serv.Go.Strings.trim_space callbridge_le_audio_serv.Go.Mac.upper_mac
normalized = refl

stripped : strip_uri_scheme (codes " tel:5551234;phone-context=x ") ≡ codes "5551234"
unfolding strip_uri_scheme uri_body callbridge_le_audio_serv.Go.Strings.trim_space
    callbridge_le_audio_serv.Go.Strings.before_byte callbridge_le_audio_serv.Go.Strings.after_byte
stripped = refl
