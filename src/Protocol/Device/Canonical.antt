-- ===== src/Protocol/Device/Canonical.antt =====
-- `normalizedDevice` gives a canonical text: six pairs of hexadecimal digits in upper case.
use callbridge_le_audio_serv.Prelude.{
  ◌≡◌, ◌≢◌, sym, ◌∙◌, ◌⊎◌, inl, inr, [], Bytes, All, length, Option-cases,
}
use callbridge_le_audio_serv.Go.Strings.{trim_space}
use callbridge_le_audio_serv.Go.Mac.{parse_mac6, upper_mac}
use callbridge_le_audio_serv.Go.Mac.Laws.{IsMac, parse_mac6-IsMac}
use callbridge_le_audio_serv.Go.Mac.Print.{
  length-upper_mac, upper_mac-nonzero, trim_space-upper_mac, parse_mac6-upper_mac,
}
use callbridge_le_audio_serv.Protocol.Device.{normalized_device}

canonical :
    (hw : Bytes)
    → IsMac hw
    → let d = upper_mac hw in (length d ≡ 17) × All (λ b. b ≢ 0) d × (normalized_device d ≡ d)
unfolding normalized_device
canonical hw h =
    (length-upper_mac h, upper_mac-nonzero h, rw (trim_space-upper_mac h, parse_mac6-upper_mac h))

-- A refused address gives the empty text; any other, 17 bytes, none of them zero, that
-- `normalizedDevice` maps to themselves.
pub normalized_device_canonical :
    (address : Bytes)
    → let d = normalized_device address in
      (d ≡ []) ⊎ ((length d ≡ 17) × All (λ b. b ≢ 0) d × (normalized_device d ≡ d))
unfolding normalized_device
normalized_device_canonical address = elim (Option-cases (parse_mac6 (trim_space address))) [
  | inl bad ↦ inl (rw bad)
  | inr (hw, e) ↦ inr (rw e (canonical hw (parse_mac6-IsMac (trim_space address) e)))
]

-- A device text as the services hold it.
abbrev pub IsDevice : Bytes → Type 0
IsDevice d = (d ≢ []) × (normalized_device d ≡ d)

pub IsDevice-clean : (d : Bytes) → IsDevice d → (length d ≡ 17) × All (λ b. b ≢ 0) d
IsDevice-clean d h = elim (normalized_device_canonical d) [
  | inl refused ↦ absurd (h.0 (sym h.1 ∙ refused))
  | inr (l, z, i) ↦ (rw h.1 at l, rw h.1 at z)
]
