-- ===== src/Protocol/Identity/RoundTrip.antt =====
-- `DecodeIdentity` reads back what `EncodeIdentity` wrote, and the other way round.
use callbridge_le_audio_serv.Prelude.{
  ℕ, suc, ◌+◌, ◌-◌, ◌%◌, ◌≤◌, ◌<◌, ◌≡◌, refl, sym, ap, ◌⊎◌, inl, inr, true, [], ◌∷◌, ◌++◌, arith,
  Bytes, byte_at, slice, take, drop, length, length-append, take-append_eq, get_or-append_eq,
  drop-suc-append_eq, split_at, length-take, length-drop, take_all, ok, bytes_eq_iff, Bool-cases,
}
use native.Mathlib.Nat.{add_comm}
use native.Mathlib.Numerals.{add-one}
use callbridge_le_audio_serv.Protocol.Message.{payload_size}
use callbridge_le_audio_serv.Protocol.Identity.{
  Identity, no_identity, is_empty, encode_identity, decode_identity,
}

-- The payload, with the two length bytes given.
abbrev payload_of : ℕ → Bytes → ℕ → Bytes → Bytes
payload_of u uri n name = u ∷ (uri ++ (n ∷ name))

module _ (uri name : Bytes) {u n : ℕ} (eu : u ≡ length uri) (en : n ≡ length name) where
  name_length_at : byte_at (payload_of u uri n name) (1 + u) ≡ n
  name_length_at = rw (add_comm 1 u, add-one) (get_or-append_eq 0 u uri n name eu)

  uri_slice : slice (payload_of u uri n name) 1 (1 + u) ≡ uri
  uri_slice = take-append_eq (1 + u - 1) uri (n ∷ name) (omega arith)

  name_drop : drop (1 + u + 1) (payload_of u uri n name) ≡ name
  name_drop = rw (add_comm 1 u, add-one (u + 1), add-one u) (drop-suc-append_eq u uri n name eu)

  name_slice : slice (payload_of u uri n name) (1 + u + 1) (1 + u + 1 + n) ≡ name
  name_slice = rw name_drop (take_all name (1 + u + 1 + n - (1 + u + 1)) (omega arith))

  decode_identity_fields :
      length uri ≤ 32
      → length name ≤ 44
      → decode_identity (payload_of u uri n name) ≡ ok (record { uri = uri; name = name })
  unfolding decode_identity
  decode_identity_fields hu hn =
      ground (arith, length-append {0} uri (n ∷ name), name_length_at, uri_slice, name_slice)

is_empty→eq : (i : Identity) → is_empty i ≡ true → i ≡ no_identity
unfolding is_empty
is_empty→eq i e = ground (arith, bytes_eq_iff i.uri [], bytes_eq_iff i.name [])

-- What `EncodeIdentity` writes decodes to the identity that it was given.
pub decode-encode_identity :
    (i : Identity) {p : Bytes} → encode_identity i ≡ ok p → decode_identity p ≡ ok i
unfolding encode_identity
decode-encode_identity i {p} e = elim (Bool-cases (is_empty i)) [
  | inl empty ↦
      let e' : p ≡ [] = ground arith in
      rw (e', is_empty→eq i empty) (unfold decode_identity in refl)
  | inr full ↦
      let hu : length i.uri ≤ 32 = ground arith in
      let hn : length i.name ≤ 44 = ground arith in
      let e' : p ≡ payload_of (length i.uri % 256) i.uri (length i.name % 256) i.name =
        ground arith in
      rw e' (decode_identity_fields i.uri i.name (omega arith) (omega arith) hu hn)
]

take_count : (u : ℕ) (rest : Bytes) → take (1 + u - 1) rest ≡ take u rest
take_count u rest = ap (λ k. take k rest) (omega arith)

name_rest :
    (u n : ℕ) (rest : Bytes)
    → u + 1 + n ≡ length rest
    → slice (u ∷ rest) (1 + u + 1) (1 + u + 1 + n) ≡ drop (suc u) rest
name_rest u n rest h =
    rw (add_comm 1 u, add-one (u + 1), add-one u)
      (take_all (drop (suc u) rest) _ (omega (arith, length-drop (suc u) rest)))

-- The parts of a payload that `DecodeIdentity` takes.
decode_identity_parts :
    (u : ℕ) (rest : Bytes) {i : Identity}
    → decode_identity (u ∷ rest) ≡ ok i
    → (n : ℕ) × (u ∷ rest ≡ payload_of u i.uri n i.name)
      × (u ≡ length i.uri)
      × (n ≡ length i.name)
      × (u ≤ 32)
      × (n ≤ 44)
unfolding decode_identity
decode_identity_parts u rest {i} e =
    let n = byte_at rest u in
    let at : byte_at (u ∷ rest) (1 + u) ≡ n = rw (add_comm 1 u, add-one u) in
    let hu : u ≤ 32 = ground arith in
    let hl : u < length rest = ground arith in
    let hn : n ≤ 44 = ground arith in
    let ht : u + 1 + n ≡ length rest = ground arith in
    let uri_eq : i.uri ≡ take u rest = ground (arith, take_count u rest) in
    let name_eq : i.name ≡ drop (suc u) rest = ground (arith, name_rest u n rest ht) in
    (
      n,
      rw (uri_eq, name_eq) (sym (ap (◌∷◌ u) (split_at 0 u rest hl))),
      rw uri_eq (omega (arith, length-take u rest)),
      rw name_eq (omega (arith, length-drop (suc u) rest)),
      hu,
      hn,
    )

-- The same bytes come back, but for the identity that says nothing.
pub encode-decode_identity :
    (p : Bytes) {i : Identity}
    → decode_identity p ≡ ok i
    → (encode_identity i ≡ ok p) ⊎ (i ≡ no_identity)
unfolding encode_identity
encode-decode_identity [] e = inr (unfold decode_identity in ground arith)
encode-decode_identity (u ∷ rest) {i} e = elim (Bool-cases (is_empty i)) [
  | inl empty ↦ inr (is_empty→eq i empty)
  | inr full ↦ let (n, split, eu, en, hu, hn) = decode_identity_parts u rest e in inl (ground arith)
]

-- An encoded identity has room in the payload of a packet.
pub length-encode_identity :
    (i : Identity) {p : Bytes} → encode_identity i ≡ ok p → length p ≤ payload_size
unfolding encode_identity
length-encode_identity i {p} e = elim (Bool-cases (is_empty i)) [
  | inl empty ↦ let e' : p ≡ [] = ground arith in rw e' (omega arith)
  | inr full ↦
      let hu : length i.uri ≤ 32 = ground arith in
      let hn : length i.name ≤ 44 = ground arith in
      let e' : p ≡ payload_of (length i.uri % 256) i.uri (length i.name % 256) i.name =
        ground arith in
      rw e' (omega (arith, length-append {0} i.uri ((length i.name % 256) ∷ i.name)))
]
