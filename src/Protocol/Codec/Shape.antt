-- ===== src/Protocol/Codec/Shape.antt =====
-- What the writes of `Encode` leave in the packet, field by field.
use callbridge_le_audio_serv.Prelude.{
  ℕ, ◌-◌, ◌≤◌, ◌≡◌, refl, sym, ap, ◌∙◌, [], ◌∷◌, ◌++◌, append_assoc, arith, Bytes, zeros, length,
  length-append, length-replicate, copy_into, copy_into-append, drop-zeros, zeros-append, le16,
  le64,
}
use callbridge_le_audio_serv.Protocol.Message.{Message, magic, version}
use callbridge_le_audio_serv.Protocol.Codec.{layout}

-- Bytes 0 to 31.
abbrev pub head : Message → Bytes
head m =
    magic
    ++ (version
        ∷ m.type
        ∷ m.flags
        ∷ 0
        ∷ (le64 m.sequence
            ++ (le64 m.token
                ++ (m.index ∷ m.code ∷ m.value ∷ 0 ∷ (le16 (length m.payload) ++ (0 ∷ 0 ∷ []))))))

-- Bytes 32 to 48, and those from 50.
abbrev pub device_field : Bytes → Bytes
device_field d = d ++ zeros (17 - length d)

abbrev pub payload_field : Bytes → Bytes
payload_field b = b ++ zeros (78 - length b)

abbrev pub shape : Message → Bytes
shape m = head m ++ (device_field m.device ++ (0 ∷ payload_field m.payload))

pub length-device_field : (d : Bytes) → length d ≤ 17 → length (device_field d) ≡ 17
length-device_field d h = omega (
  arith,
  length-append {0} d (zeros (17 - length d)),
  length-replicate {0} {A = ℕ} (17 - length d) 0,
)

module _ (m : Message) (fits : length m.device ≤ 17) where
  with_device : Bytes
  with_device = head m ++ (m.device ++ zeros (96 - length m.device))

  device_written : copy_into (head m ++ zeros 96) 32 49 m.device ≡ with_device
  unfolding with_device
  device_written =
      copy_into-append (head m) (zeros 96) m.device 32 49 refl fits
      ∙ ap (λ t. head m ++ (m.device ++ t)) (drop-zeros (length m.device) 96)

  device_gap : zeros (96 - length m.device) ≡ zeros (17 - length m.device) ++ (0 ∷ zeros 78)
  device_gap = ap zeros (omega arith) ∙ sym (zeros-append (17 - length m.device) 79)

  before_payload : with_device ≡ (head m ++ (device_field m.device ++ (0 ∷ []))) ++ zeros 78
  unfolding with_device
  before_payload = rw device_gap (simp append_assoc)

  -- `Encode` writes every field at its place.
  pub layout-shape : length m.payload ≤ 78 → layout m ≡ shape m
  unfolding layout
  layout-shape short =
      ap (λ p. copy_into p 50 128 m.payload) (device_written ∙ before_payload)
      ∙ copy_into-append (head m ++ (device_field m.device ++ (0 ∷ []))) (zeros 78) m.payload 50 128
          before short
      ∙ rw drop-zeros (simp append_assoc)
    where
      before : 50 ≡ length (head m ++ (device_field m.device ++ (0 ∷ [])))
      before = omega (
        arith,
        length-device_field m.device fits,
        length-append {0} (device_field m.device) (0 ∷ []),
      )
