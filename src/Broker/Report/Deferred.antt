-- ===== src/Broker/Report/Deferred.antt =====
-- What is let pass before BlueZ has allocated the stream, and what the final report must be.
use callbridge_le_audio_serv.Prelude.{
  ℕ, ◌<◌, ◌^◌, ◌≡◌, ◌≢◌, ◌⊎◌, refl, ap, subst, ◌∙◌, sym, [], Bool, true, false, ◌||◌, ltb, arith,
  bytes_eq, codes, Option, none, some, Option-cases, Bool-cases, Result-cases, inl, inr, ok, err,
  Ensures, ok_inj,
}
use callbridge_le_audio_serv.Prelude.Table.{Table, find, put}
use callbridge_le_audio_serv.Prelude.Table.Laws.{find-put}
use callbridge_le_audio_serv.Lc3.{CodecConfig}
use callbridge_le_audio_serv.Broker.Variant.{Value, byte, variant_byte, variant_uint16}
use callbridge_le_audio_serv.Broker.Qos.{TransportQos, Error, default_qos, select_qos}
use callbridge_le_audio_serv.Broker.Report.{
  parse_configured_qos, parse_final_transport_qos, parse_preliminary_configured_qos, holds_number,
  bounded_stale_configured_sdu, bounded_unallocated_configured_qos, provisional_qos,
}
use callbridge_le_audio_serv.Broker.Report.Sound.{
  IsSound, IsReading, parse_configured_qos-IsReading,
}
use callbridge_le_audio_serv.Broker.Report.Offered.{select_qos-IsSound}

-- A target latency that is carried forward hides nothing of the report.
carried-IsReading :
    (fields : Table Value) (codec : CodecConfig) (final : Bool) (target : ℕ)
    → Ensures
        (IsReading fields final codec)
        (parse_configured_qos (put (codes "TargetLatency") (byte target) fields) codec final)
unfolding bytes_eq
carried-IsReading fields codec final target q e =
    let merged = put (codes "TargetLatency") (byte target) fields in
    let reading = parse_configured_qos-IsReading merged codec final q e in
    record {
      sound = reading.sound;
      reported_sdu =
          ap variant_uint16
            (sym (find-put (codes "TargetLatency") (codes "SDU") (byte target) fields))
          ∙ reading.reported_sdu;
      reported_cig = λ h.
          ap variant_byte
            (sym (find-put (codes "TargetLatency") (codes "CIG") (byte target) fields))
          ∙ reading.reported_cig h;
    }

-- The quality of service of a stream that is handed off: allocated, within the limits, and with the
-- frame of the codec.
pub parse_final-IsReading :
    (fields : Table Value) (codec : CodecConfig) (selected : TransportQos)
    → Ensures (IsReading fields true codec) (parse_final_transport_qos fields codec selected)
unfolding parse_final_transport_qos
parse_final-IsReading fields codec selected q e =
    elim (Option-cases (find (codes "TargetLatency") fields)) [
      | inl absent ↦
          elim (Bool-cases (ltb selected.target_latency 1 || ltb 3 selected.target_latency)) [
            | inl outside ↦
                absurd (let h = rw outside at (rw (absent, parse_final_transport_qos) at e) in cc)
            | inr fits ↦
                carried-IsReading fields codec true selected.target_latency q
                  (rw fits at (rw (absent, parse_final_transport_qos) at e))
          ]
      | inr (value, present) ↦
          parse_configured_qos-IsReading fields codec true q
            (rw (present, parse_final_transport_qos) at e)
    ]

pub parse_preliminary-IsReading :
    (fields : Table Value) (codec : CodecConfig)
    → Ensures (IsReading fields false codec) (parse_preliminary_configured_qos fields codec)
unfolding parse_preliminary_configured_qos select_qos find default_qos
parse_preliminary-IsReading fields codec q e =
    elim (Option-cases (find (codes "TargetLatency") fields)) [
      | inl absent ↦
          carried-IsReading fields codec false 2 q
            (rw (absent, parse_preliminary_configured_qos) at e)
      | inr (value, present) ↦
          parse_configured_qos-IsReading fields codec false q
            (rw (present, parse_preliminary_configured_qos) at e)
    ]

stale_differs :
    (fields : Table Value) (codec : CodecConfig) (e : Error) {n : ℕ}
    → bounded_stale_configured_sdu fields codec e ≡ some n
    → (variant_uint16 (find (codes "SDU") fields) ≡ some n) × (n ≢ codec.octets_per_frame)
unfolding bounded_stale_configured_sdu
stale_differs fields codec e h = elim (Option-cases (variant_uint16 (find (codes "SDU") fields))) [
  | inl absent ↦ absurd (let g = rw (absent, bounded_stale_configured_sdu) at h in cc)
  | inr (stale, present) ↦
      let g = rw (present, bounded_stale_configured_sdu) at h in
      (ground (arith, present), ground arith)
]

holds_number-eq : (o : Option ℕ) (n : ℕ) → holds_number o n ≡ true → o ≡ some n
holds_number-eq none n h = absurd (cc)
holds_number-eq (some m) n h = ground arith

unallocated_cig :
    (fields : Table Value) (codec : CodecConfig) (e : Error)
    → bounded_unallocated_configured_qos fields codec e ≡ true
    → holds_number (variant_byte (find (codes "CIG") fields)) 0xff ≡ true
unfolding bounded_unallocated_configured_qos
unallocated_cig fields codec e h = ground arith

deferred_mismatch :
    (fields : Table Value) (codec : CodecConfig) (e : Error) {q : TransportQos}
    → parse_preliminary_configured_qos fields codec ≡ err e
    → provisional_qos fields codec ≡ ok q
    → ((n : ℕ) × (variant_uint16 (find (codes "SDU") fields) ≡ some n)
        × (n ≢ codec.octets_per_frame))
      ⊎ (variant_byte (find (codes "CIG") fields) ≡ some 0xff)
unfolding provisional_qos
deferred_mismatch fields codec e {q} failed settled =
    let left = rw (failed, provisional_qos) at settled in
    elim (Option-cases (bounded_stale_configured_sdu fields codec e)) [
      | inr (n, stale) ↦
          inl (n, (stale_differs fields codec e stale).0, (stale_differs fields codec e stale).1)
      | inl fresh ↦ elim (Bool-cases (bounded_unallocated_configured_qos fields codec e)) [
        | inl unallocated ↦
            inr (holds_number-eq _ 0xff (unallocated_cig fields codec e unallocated))
        | inr other ↦ absurd (let g = rw other at (rw fresh at left) in cc)
      ]
    ]

-- A report that is let pass although it fails its checks is never a final one: read as the report
-- of an allocated stream, it is refused.
pub deferred_refused :
    (fields : Table Value) (codec : CodecConfig) (selected : TransportQos) {e : Error}
    {q : TransportQos}
    → parse_preliminary_configured_qos fields codec ≡ err e
    → provisional_qos fields codec ≡ ok q
    → (final : TransportQos) → parse_final_transport_qos fields codec selected ≢ ok final
deferred_refused fields codec selected {e} failed settled final accepted =
    let r = parse_final-IsReading fields codec selected final accepted in
    elim (deferred_mismatch fields codec e failed settled) [
      | inl (n, reported, differs) ↦
          differs (some_inj (sym reported ∙ r.reported_sdu) ∙ r.sound.sdu)
      | inr reported ↦
          let same : 0xff ≡ final.cig = some_inj (sym reported ∙ r.reported_cig refl) in
          omega (arith, same, (r.sound.identifiers refl).0)
    ]
  where
    some_inj : {a b : ℕ} → some a ≡ some b → a ≡ b
    some_inj h = cc

-- What the broker keeps for a stream until it is allocated keeps the limits.
pub provisional_qos-IsSound :
    (fields : Table Value) (codec : CodecConfig)
    → codec.octets_per_frame < 2 ^ 16
    → Ensures (IsSound false codec) (provisional_qos fields codec)
unfolding provisional_qos
provisional_qos-IsSound fields codec h q settled =
    elim (Result-cases (parse_preliminary_configured_qos fields codec)) [
      | inr (parsed, read) ↦
          let same : parsed ≡ q = ok_inj (rw (read, provisional_qos) at settled) in
          subst (IsSound false codec) same
            (parse_preliminary-IsReading fields codec parsed read).sound
      | inl (e, failed) ↦
          let left = rw (failed, provisional_qos) at settled in
          select_qos-IsSound [] codec h q
            (elim (Option-cases (bounded_stale_configured_sdu fields codec e)) [
              | inr (n, stale) ↦ rw stale at left
              | inl fresh ↦ elim (Bool-cases (bounded_unallocated_configured_qos fields codec e)) [
                | inl unallocated ↦ rw unallocated at (rw fresh at left)
                | inr other ↦ absurd (let g = rw other at (rw fresh at left) in cc)
              ]
            ])
    ]
