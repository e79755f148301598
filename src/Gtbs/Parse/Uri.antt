-- ===== src/Gtbs/Parse/Uri.antt =====
-- What `StripURIScheme` lets through, and what it finds.
use callbridge_le_audio_serv.Prelude.{
  ℕ, ◌≤◌, ◌≡◌, ◌≢◌, ◌⊎◌, refl, true, [], ◌∷◌, ◌++◌, arith, Bytes, length, all, All, All-append,
  ◌==◌, ◌||◌,
}
use callbridge_le_audio_serv.Go.Strings.{after_byte, before_byte}
use callbridge_le_audio_serv.Go.Strings.Trim.{IsPlain, trim_space-All}
use callbridge_le_audio_serv.Gtbs.Parse.{is_dial_byte, uri_body, strip_uri_scheme}

-- A digit, or one of `+*#-`
abbrev pub IsDial : ℕ → Type 0
IsDial c = ((48 ≤ c) × (c ≤ 57)) ⊎ (c ≡ 43) ⊎ (c ≡ 42) ⊎ (c ≡ 35) ⊎ (c ≡ 45)

-- What may follow the number: nothing, or parameters behind `;` or `?`
abbrev pub IsParameters : Bytes → Type 0
IsParameters [] = Unit
IsParameters (c ∷ cs) = (c ≡ 59) ⊎ (c ≡ 63)

after-scheme :
    (whole scheme rest : Bytes)
    → All (λ c. c ≢ 58) scheme
    → after_byte 58 whole (scheme ++ (58 ∷ rest)) ≡ rest
unfolding after_byte
after-scheme whole [] rest h = refl
after-scheme whole (c ∷ scheme) rest h = ground (arith, h.0, after-scheme whole scheme rest h.1)

before-parameters :
    (number rest : Bytes)
    → All IsDial number
    → IsParameters rest
    → before_byte (λ c. c == 59 || c == 63) (number ++ rest) ≡ number
unfolding before_byte
before-parameters [] [] h p = refl
before-parameters [] (c ∷ rest) h p = ground arith
before-parameters (c ∷ number) rest h p = ground (arith, h.0, before-parameters number rest h.1 p)

IsDial-IsPlain : (number : Bytes) → All IsDial number → All IsPlain number
IsDial-IsPlain [] h = tt
IsDial-IsPlain (c ∷ number) h = (ground (arith, h.0), IsDial-IsPlain number h.1)

IsDial-is_dial_byte : (number : Bytes) → All IsDial number → all is_dial_byte number ≡ true
IsDial-is_dial_byte [] h = refl
IsDial-is_dial_byte (c ∷ number) h = ground (arith, h.0, IsDial-is_dial_byte number h.1)

is_dial_byte-IsDial : (number : Bytes) → all is_dial_byte number ≡ true → All IsDial number
is_dial_byte-IsDial [] h = tt
is_dial_byte-IsDial (c ∷ number) h = (ground arith, is_dial_byte-IsDial number (ground arith))

pub length-strip_uri_scheme : (uri : Bytes) → length (strip_uri_scheme uri) ≤ 32
unfolding strip_uri_scheme
length-strip_uri_scheme uri = ground arith

-- The caller text of any URI has at most 32 bytes, each a digit or one of `+*#-`. Of a scheme, a
-- number of 1 to 32 such bytes and parameters, all printing ASCII and the scheme without a colon, it
-- is the number.
pub strip_uri_scheme_sound :
    (uri scheme number parameters : Bytes)
    → All IsPlain scheme
    → All (λ c. c ≢ 58) scheme
    → All IsDial number
    → 1 ≤ length number
    → length number ≤ 32
    → All IsPlain parameters
    → IsParameters parameters
    → (length (strip_uri_scheme uri) ≤ 32)
      × All IsDial (strip_uri_scheme uri)
      × (strip_uri_scheme (scheme ++ (58 ∷ (number ++ parameters))) ≡ number)
unfolding strip_uri_scheme uri_body
strip_uri_scheme_sound uri scheme number parameters plain bare dial some_dial short rest starts =
    let whole = scheme ++ (58 ∷ (number ++ parameters)) in
    let digits = IsDial-IsPlain number dial in
    let kept = trim_space-All whole (
      All-append IsPlain scheme (58 ∷ (number ++ parameters)) plain
        ((omega arith, omega arith), All-append IsPlain number parameters digits rest)) in
    let body : uri_body whole ≡ number =
      rw
        (
          kept,
          after-scheme whole scheme (number ++ parameters) bare,
          before-parameters number parameters dial starts,
        )
        (trim_space-All number digits) in
    (
      length-strip_uri_scheme uri,
      is_dial_byte-IsDial (strip_uri_scheme uri) (ground arith),
      rw body (ground (arith, IsDial-is_dial_byte number dial)),
    )
