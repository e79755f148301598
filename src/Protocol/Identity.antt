-- ===== src/Protocol/Identity.antt =====
-- protocol.go: `Identity`, `EncodeIdentity` and `DecodeIdentity`.
pub mod RoundTrip
use callbridge_le_audio_serv.Prelude.{
  ℕ, ◌+◌, Bool, ◌&&◌, ◌||◌, not, [], ◌∷◌, ◌++◌, ◌==◌, ◌!=◌, ltb, leb, Bytes, byte_at, slice, length,
  Result, ok, fail_if, ◌>>=◌, ◌>>◌, if◌then◌else◌, bytes_eq, ◌%◌,
}
use callbridge_le_audio_serv.Protocol.Message.{
  identity_uri_max, identity_name_max, Error, identity_exceeds, uri_out_of_bounds,
  name_out_of_bounds,
}

pub record Identity : Type 0 where
  pub uri : Bytes
  pub name : Bytes

abbrev pub no_identity : Identity
no_identity = record { uri = []; name = [] }

-- `i == j`
unfoldable pub identity_eq : Identity → Identity → Bool
identity_eq i j = bytes_eq i.uri j.uri && bytes_eq i.name j.name

unfoldable pub is_empty : Identity → Bool
is_empty i = bytes_eq i.uri [] && bytes_eq i.name []

unfoldable pub encode_identity : Identity → Result Error Bytes
unfolding is_empty
encode_identity identity = if is_empty identity then ok [] else (do
  fail_if (ltb identity_uri_max (length uri) || ltb identity_name_max (length name))
      identity_exceeds
  ok ((length uri % 256) ∷ (uri ++ ((length name % 256) ∷ name))))
  where
    open identity use {uri, name}

unfoldable pub decode_identity : Bytes → Result Error Identity
decode_identity payload = if length payload == 0 then ok no_identity else (do
  let uri_length = byte_at payload 0
  fail_if (ltb identity_uri_max uri_length || leb (length payload) (1 + uri_length))
      uri_out_of_bounds
  let name_offset = 1 + uri_length
  let name_length = byte_at payload name_offset
  fail_if (ltb identity_name_max name_length || (name_offset + 1 + name_length) != length payload)
      name_out_of_bounds
  ok (record {
    uri = slice payload 1 (1 + uri_length);
    name = slice payload (name_offset + 1) (name_offset + 1 + name_length);
  }))
