-- ===== src/Gtbs/Parse/Sound.antt =====
-- What `ParseCallState` accepts, and what it returns.
use callbridge_le_audio_serv.Prelude.{
  ℕ, ◌%◌, ◌≤◌, ◌<◌, ◌≡◌, ◌≢◌, refl, sym, ap, ◌∙◌, ok_inj, false, [], ◌∷◌, List, arith, Bytes,
  IsBytes, All, length, ltb, ◌!=◌, ◌||◌, ok, fail_if, >>=-eq-ok,
}
use mathlib.Core.List.{Perm}
use callbridge_le_audio_serv.Prelude.Bits.{bit_and-seven}
use callbridge_le_audio_serv.Protocol.Identity.{no_identity}
use callbridge_le_audio_serv.Gtbs.Call.{Call, invalid_entry, invalid_length}
use callbridge_le_audio_serv.Gtbs.Parse.{
  contains, bad_entry, parse_entries, sort_calls, parse_call_state,
}
use callbridge_le_audio_serv.Gtbs.Parse.Sort.{
  Rising, Distinct, sort_calls-perm, sort_calls-Rising, All-sort_calls,
}

abbrev pub entry : ℕ → ℕ → ℕ → Call
entry i s f = record { index = i; state = s; flags = f; token = 0; identity = no_identity }

-- The triples of the value, in its order.
abbrev pub triples : Bytes → List Call
triples (i ∷ s ∷ f ∷ rest) = entry i s f ∷ triples rest
triples _ = []

pub record IsEntry (c : Call) : Type 0 where
  pub index_pos : 0 < c.index
  pub index_byte : c.index < 256
  pub state_known : c.state ≤ 6
  pub flags_known : c.flags ≤ 7

-- What the tests of the loop let through.
pub record IsGood (seen : List ℕ) (c : Call) : Type 0 where
  pub is_entry : IsEntry c
  pub unseen : contains c.index seen ≡ false

entry-IsGood :
    (seen : List ℕ) (i s f : ℕ)
    → i < 256
    → f < 256
    → bad_entry seen i s f ≡ false
    → IsGood seen (entry i s f)
unfolding bad_entry
entry-IsGood seen i s f hi hf b = ground (arith, bit_and-seven f hf)

bad_entry-false :
    (seen : List ℕ) (i s f : ℕ) → IsGood seen (entry i s f) → bad_entry seen i s f ≡ false
unfolding bad_entry
bad_entry-false seen i s f g = ground (arith, bit_and-seven f (omega arith))

-- A call that is not among the indices seen, with one more index seen.
weaken :
    (i : ℕ) (seen : List ℕ) (cs : List Call)
    → All (IsGood (i ∷ seen)) cs
    → All (IsGood seen) cs × All (λ (d : Call). i ≢ d.index) cs
weaken i seen [] g = (tt, tt)
weaken i seen (c ∷ cs) (g, gs) =
    let (l, r) = weaken i seen cs gs in
    (
      (record { is_entry = g.is_entry; unseen = ground (arith, g.unseen) }, l),
      (ground (arith, g.unseen), r),
    )

strengthen :
    (i : ℕ) (seen : List ℕ) (cs : List Call)
    → All (IsGood seen) cs
    → All (λ (d : Call). i ≢ d.index) cs
    → All (IsGood (i ∷ seen)) cs
strengthen i seen [] g ne = tt
strengthen i seen (c ∷ cs) g ne = (
  record { is_entry = g.0.is_entry; unseen = ground (arith, g.0.unseen, ne.0) },
  strengthen i seen cs g.1 ne.1,
)

parse_entries_sound :
    (seen : List ℕ) (v : Bytes) {cs : List Call}
    → IsBytes v
    → parse_entries seen v ≡ ok cs
    → (cs ≡ triples v) × All (IsGood seen) (triples v) × Distinct (triples v)
unfolding parse_entries
parse_entries_sound seen [] b e = (ground arith, tt, tt)
parse_entries_sound seen (i ∷ []) b e = (ground arith, tt, tt)
parse_entries_sound seen (i ∷ s ∷ []) b e = (ground arith, tt, tt)
parse_entries_sound seen (i ∷ s ∷ f ∷ rest) b e =
    let (u, good, e') = >>=-eq-ok (fail_if (bad_entry seen i s f) invalid_entry) _ e in
    let (ds, parsed, e'') = >>=-eq-ok (parse_entries (i ∷ seen) rest) _ e' in
    let (same, goods, distinct) = parse_entries_sound (i ∷ seen) rest b.1.1.1 parsed in
    let (goods', ne) = weaken i seen (triples rest) goods in
    (ground arith, (entry-IsGood seen i s f b.0 b.1.1.0 (ground arith), goods'), (ne, distinct))

parse_entries_complete :
    (seen : List ℕ) (v : Bytes)
    → All (IsGood seen) (triples v)
    → Distinct (triples v)
    → parse_entries seen v ≡ ok (triples v)
unfolding parse_entries
parse_entries_complete seen [] g d = refl
parse_entries_complete seen (i ∷ []) g d = refl
parse_entries_complete seen (i ∷ s ∷ []) g d = refl
parse_entries_complete seen (i ∷ s ∷ f ∷ rest) g d = rw (
  bad_entry-false seen i s f g.0,
  parse_entries_complete (i ∷ seen) rest (strengthen i seen (triples rest) g.1 d.0) d.1,
)

All-IsEntry : (cs : List Call) → All (IsGood []) cs → All IsEntry cs
All-IsEntry [] g = tt
All-IsEntry (c ∷ cs) g = (g.0.is_entry, All-IsEntry cs g.1)

All-IsGood : (cs : List Call) → All IsEntry cs → All (IsGood []) cs
All-IsGood [] g = tt
All-IsGood (c ∷ cs) g = (record { is_entry = g.0; unseen = refl }, All-IsGood cs g.1)

length_bounds :
    (n : ℕ) {u : Unit {0}}
    → fail_if (n % 3 != 0 || ltb 765 n) invalid_length ≡ ok u
    → (n % 3 ≡ 0) × (n ≤ 765)
length_bounds n e = ground arith

-- The value is a list of whole triples, at most 255, each a known call, no index twice.
pub record IsCallState (v : Bytes) : Type 0 where
  pub whole : length v % 3 ≡ 0
  pub bounded : length v ≤ 765
  pub entries : All IsEntry (triples v)
  pub distinct : Distinct (triples v)

-- `ParseCallState` accepts only such values, and returns their triples with rising indices.
pub parse_call_state_sound :
    (v : Bytes) {cs : List Call}
    → IsBytes v
    → parse_call_state v ≡ ok cs
    → IsCallState v × Perm cs (triples v) × Rising cs × All IsEntry cs
unfolding parse_call_state
parse_call_state_sound v {cs} b e =
    let (u, bounds, e') =
      >>=-eq-ok (fail_if (length v % 3 != 0 || ltb 765 (length v)) invalid_length) _ e in
    let (ds, parsed, e'') = >>=-eq-ok (parse_entries [] v) _ e' in
    let (same, good, distinct) = parse_entries_sound [] v b parsed in
    let sorted : cs ≡ sort_calls (triples v) = sym (ok_inj e'') ∙ ap sort_calls same in
    let within = length_bounds (length v) bounds in
    let entries = All-IsEntry (triples v) good in
    (
      record { whole = within.0; bounded = within.1; entries = entries; distinct = distinct },
      rw sorted (sort_calls-perm (triples v)),
      rw sorted (sort_calls-Rising (triples v) distinct),
      rw sorted (All-sort_calls IsEntry (triples v) entries),
    )

-- `ParseCallState` accepts every value of whole triples, at most 255, each a known call and no
-- index twice, and returns its triples sorted.
pub parse_call_state_complete :
    (v : Bytes) → IsCallState v → parse_call_state v ≡ ok (sort_calls (triples v))
unfolding parse_call_state
parse_call_state_complete v h = ground (
  arith,
  h.whole,
  h.bounded,
  parse_entries_complete [] v (All-IsGood (triples v) h.entries) h.distinct,
)
