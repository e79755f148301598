-- ===== src/Sms/Obex/RoundTrip.antt =====
-- Headers that are built are the headers that are parsed.
use callbridge_le_audio_serv.Prelude.{
  ℕ, zero, suc, ◌+◌, ◌-◌, ◌*◌, ◌/◌, ◌%◌, ◌≤◌, ◌≡◌, refl, sym, ap, subst, ◌∙◌, inl, inr, false, List,
  [], ◌∷◌, ◌++◌, arith, Bytes, length, take, drop, length-append, take-append_eq, drop-append, ltb,
  ◌==◌, ◌||◌, Bool-cases, bit_and, Result, ok, ◌>>=◌, >>=-eq-ok, ok_inj,
}
use callbridge_le_audio_serv.Sms.Obex.{
  Header, Error, be16, read_sized, read_fixed, read_value, parse_loop, parse_headers, build_value,
  build_header,
}

-- The headers one behind the other.
unfoldable pub build_all : List Header → Result Error Bytes
build_all [] = ok []
build_all (h ∷ hs) = do
  written ← build_header h.id h.value
  rest ← build_all hs
  ok (written ++ rest)

read_fixed-append :
    (n : ℕ) (value tail : Bytes)
    → length value ≡ n
    → read_fixed n (value ++ tail) ≡ ok (value, length value)
unfolding read_fixed
read_fixed-append n value tail e =
    let taken = take-append_eq n value tail (sym e) in
    let enough : ltb (length (value ++ tail)) n ≡ false =
      ground (arith, length-append {0} value tail) in
    rw (enough, taken) (ap (λ k. ok (value, k)) (sym e))

sized_taken :
    (hi lo n : ℕ) (value tail : Bytes)
    → n ≡ length value + 2
    → drop 2 (take n (hi ∷ lo ∷ (value ++ tail))) ≡ value
sized_taken hi lo n value tail e =
    ap (λ k. drop 2 (take k (hi ∷ lo ∷ (value ++ tail)))) {x = n} {y = suc (suc (length value))}
      (omega arith)
    ∙ take-append_eq (length value) value tail refl

read_sized-append :
    (value tail : Bytes)
    → length value + 3 ≤ 0xffff
    → read_sized (be16 (length value + 3) ++ (value ++ tail)) ≡ ok (value, length value + 2)
unfolding read_sized
read_sized-append value tail short =
    let n = length value + 3 in
    let size : n / 256 % 256 * 256 + n % 256 ≡ n = omega arith in
    let back : n - 1 ≡ length value + 2 = omega arith in
    let fits = length-append {0} value tail in
    rw (size, sized_taken (n / 256 % 256) (n % 256) (n - 1) value tail back) (ground (arith, fits))

read_value-append :
    (kind : ℕ) (value tail : Bytes) {written : Bytes}
    → build_value kind value ≡ ok written
    → read_value kind (written ++ tail) ≡ ok (value, length written)
unfolding read_value build_value
read_value-append kind value tail {written} e = elim (Bool-cases (kind == 0x00 || kind == 0x40)) [
  | inl sized ↦
      let short : length value + 3 ≤ 0xffff = ground arith in
      let bytes : written ≡ be16 (length value + 3) ++ value = ground arith in
      rw (sized, bytes) (read_sized-append value tail short ∙ ap (λ k. ok (value, k)) (omega arith))
  | inr other ↦ elim (Bool-cases (kind == 0x80)) [
    | inl single ↦
        let one : length value ≡ 1 = ground arith in
        let bytes : written ≡ value = ground arith in
        rw (other, single, bytes) (read_fixed-append 1 value tail one)
    | inr quad ↦
        let four : length value ≡ 4 = ground arith in
        let bytes : written ≡ value = ground arith in
        rw (other, quad, bytes) (read_fixed-append 4 value tail four)
  ]
]

parse_loop-step :
    (id fuel size : ℕ) (bytes value : Bytes) (hs : List Header)
    → read_value (bit_and id 0xc0) bytes ≡ ok (value, size)
    → parse_loop fuel (drop size bytes) ≡ ok hs
    → parse_loop (suc fuel) (id ∷ bytes) ≡ ok (record { id = id; value = value } ∷ hs)
unfolding parse_loop
parse_loop-step id fuel size bytes value hs reads onward = rw (reads, onward) refl

build_all-cons :
    (h : Header) (hs : List Header) {p : Bytes}
    → build_all (h ∷ hs) ≡ ok p
    → (written rest : Bytes) × (build_value (bit_and h.id 0xc0) h.value ≡ ok written)
      × (build_all hs ≡ ok rest)
      × (h.id ∷ (written ++ rest) ≡ p)
unfolding build_all build_header
build_all-cons h hs e =
    let (first, built, e1) = >>=-eq-ok (build_header h.id h.value) _ e in
    let (rest, others, e2) = >>=-eq-ok (build_all hs) _ e1 in
    let (written, value, e3) = >>=-eq-ok (build_value (bit_and h.id 0xc0) h.value) _ built in
    (written, rest, value, others, ap (λ x. x ++ rest) (ok_inj e3) ∙ ok_inj e2)

parse_loop-build_all :
    (hs : List Header) (fuel : ℕ) (p : Bytes)
    → length p ≤ fuel
    → build_all hs ≡ ok p
    → parse_loop fuel p ≡ ok hs
unfolding build_all
parse_loop-build_all [] fuel p room e =
    let empty : p ≡ [] = sym (ok_inj e) in rw empty (unfold parse_loop in refl)
parse_loop-build_all (h ∷ hs) zero p room e =
    let (written, rest, value, others, whole) = build_all-cons h hs e in
    let size = ap (λ (q : Bytes). length q) whole in absurd (omega arith)
parse_loop-build_all (h ∷ hs) (suc fuel) p room e =
    let (written, rest, value, others, whole) = build_all-cons h hs e in
    let size = ap (λ (q : Bytes). length q) whole in
    let fits : length rest ≤ fuel = omega (arith, length-append {0} written rest) in
    let tail = parse_loop-build_all hs fuel rest fits others in
    subst (λ q. parse_loop (suc fuel) q ≡ ok (h ∷ hs)) whole
      (parse_loop-step h.id fuel (length written) (written ++ rest) h.value hs
        (read_value-append (bit_and h.id 0xc0) h.value rest value)
        (ap (parse_loop fuel) (drop-append written rest) ∙ tail))

-- The headers that `BuildHeader` writes, one behind the other and behind a prefix of the packet,
-- are those that `ParseHeaders` reads from there on; the loop ends on them.
pub parse_headers-build_all :
    (hs : List Header) (before : Bytes) {p : Bytes}
    → build_all hs ≡ ok p
    → parse_headers (before ++ p) (length before) ≡ ok hs
unfolding parse_headers
parse_headers-build_all hs before {p} e =
    let size = length-append {0} before p in
    let good : ltb (length (before ++ p)) (length before) ≡ false = ground (arith, size) in
    rw (good, drop-append before p)
      (parse_loop-build_all hs (length (before ++ p)) p (omega (arith, size)) e)
