-- ===== src/Broker/Qos/Delay.antt =====
-- The presentation delay that is chosen between the limits of a remote endpoint.
use callbridge_le_audio_serv.Prelude.{
  ℕ, ◌≤◌, ◌≡◌, ◌≢◌, refl, Bool, false, ◌&&◌, ◌!=◌, ltb, arith, codes, Bytes, if◌then◌else◌, Option,
  none, some, inl, inr, Ensures, Ensures-bind, Ensures-fail_if, Ensures-ok,
}
use callbridge_le_audio_serv.Prelude.Table.{Table, find}
use callbridge_le_audio_serv.Broker.Variant.{Value, variant_delay}
use callbridge_le_audio_serv.Broker.Qos.{
  Error, when_present, beyond_delay, clamp, select_presentation_delay, bad_minimum, bad_maximum,
  inverted, bad_preferred_minimum, bad_preferred_maximum, no_overlap,
}
use callbridge_le_audio_serv.Broker.Qos.Readers.{when_present-ok}

abbrev pub number_or : Option ℕ → ℕ → ℕ
number_or none default = default
number_or (some n) default = n

-- The limit of that name, or what holds without it.
abbrev pub limit : Table Value → Bytes → ℕ → ℕ
limit bounds name default = number_or (variant_delay (find name bounds)) default

-- A delay that keeps the four limits; a preferred limit of zero is none.
pub record IsAllowed (bounds : Table Value) (d : ℕ) : Type 0 where
  pub minimum : limit bounds (codes "MinimumDelay") 1 ≤ d
  pub maximum : d ≤ limit bounds (codes "MaximumDelay") 0x00ffffff
  pub preferred_minimum : limit bounds (codes "PreferredMinimumDelay") 0 ≤ d
  pub preferred_maximum :
      limit bounds (codes "PreferredMaximumDelay") 0 ≢ 0
      → d ≤ limit bounds (codes "PreferredMaximumDelay") 0

-- An allowed delay such that no other is nearer to what is preferred.
pub record IsNearest (bounds : Table Value) (preferred d : ℕ) : Type 0 where
  pub positive : 1 ≤ d
  pub bounded : d ≤ 0x00ffffff
  pub allowed : IsAllowed bounds d
  pub from_above : (x : ℕ) → IsAllowed bounds x → preferred ≤ x → d ≤ x
  pub from_below : (x : ℕ) → IsAllowed bounds x → x ≤ preferred → x ≤ d

limit_read :
    (bounds : Table Value) (name : Bytes) (default : ℕ) (bad : ℕ → Bool) (e : Error)
    → bad default ≡ false
    → Ensures
        (λ n. (n ≡ limit bounds name default) × (bad n ≡ false))
        (when_present (find name bounds) default variant_delay bad e)
limit_read bounds name default bad e fine n h =
    elim (when_present-ok (find name bounds) default variant_delay bad e h) [
      | inl (absent, same) ↦ (rw absent same, rw same fine)
      | inr (read, fits) ↦ (rw read refl, fits)
    ]

clamped :
    (bounds : Table Value) (preferred lo hi plo phi : ℕ)
    → lo ≡ limit bounds (codes "MinimumDelay") 1
    → hi ≡ limit bounds (codes "MaximumDelay") 0x00ffffff
    → plo ≡ limit bounds (codes "PreferredMinimumDelay") 0
    → phi ≡ limit bounds (codes "PreferredMaximumDelay") 0
    → beyond_delay lo ≡ false
    → beyond_delay hi ≡ false
    → let minimum = if plo != 0 && ltb lo plo then plo else lo in
      let maximum = if phi != 0 && ltb phi hi then phi else hi in
      ltb maximum minimum ≡ false → IsNearest bounds preferred (clamp preferred minimum maximum)
unfolding clamp
clamped bounds preferred lo hi plo phi e1 e2 e3 e4 b1 b2 overlap = record {
  positive = ground arith;
  bounded = ground arith;
  allowed = record {
    minimum = ground arith;
    maximum = ground arith;
    preferred_minimum = ground arith;
    preferred_maximum = λ h. ground arith;
  };
  from_above =
      λ x a le. ground (arith, a.minimum, a.maximum, a.preferred_minimum, a.preferred_maximum);
  from_below =
      λ x a le. ground (arith, a.minimum, a.maximum, a.preferred_minimum, a.preferred_maximum);
}

-- A presentation delay that is selected keeps the limits of the remote endpoint, and no delay that
-- keeps them is nearer to the preferred one.
pub select_presentation_delay-IsNearest :
    (bounds : Table Value) (preferred : ℕ)
    → Ensures (IsNearest bounds preferred) (select_presentation_delay bounds preferred)
unfolding select_presentation_delay
select_presentation_delay-IsNearest bounds preferred =
    let P = IsNearest bounds preferred in
    let read = λ (name : Bytes) (default : ℕ) (bad : ℕ → Bool) (e : Error).
      when_present (find name bounds) default variant_delay bad e in
    Ensures-bind P (read (codes "MinimumDelay") 1 beyond_delay bad_minimum) _ (λ lo h1.
      Ensures-bind P (read (codes "MaximumDelay") 0x00ffffff beyond_delay bad_maximum) _ (λ hi h2.
        Ensures-fail_if P (ltb hi lo) inverted _ (λ ordered.
          Ensures-bind P
            (read (codes "PreferredMinimumDelay") 0 (ltb 0x00ffffff) bad_preferred_minimum) _
            (λ plo h3.
              Ensures-bind P
                (read (codes "PreferredMaximumDelay") 0 (ltb 0x00ffffff) bad_preferred_maximum) _
                (λ phi h4. Ensures-fail_if P _ no_overlap _ (λ overlap.
                  let (e1, b1) = limit_read bounds _ 1 beyond_delay bad_minimum refl lo h1 in
                  let (e2, b2) =
                    limit_read bounds _ 0x00ffffff beyond_delay bad_maximum refl hi h2 in
                  let (e3, b3) =
                    limit_read bounds _ 0 (ltb 0x00ffffff) bad_preferred_minimum refl plo h3 in
                  let (e4, b4) =
                    limit_read bounds _ 0 (ltb 0x00ffffff) bad_preferred_maximum refl phi h4 in
                  Ensures-ok P _
                    (clamped bounds preferred lo hi plo phi e1 e2 e3 e4 b1 b2 overlap)))))))
