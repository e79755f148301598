-- ===== src/Gtbs/Parse.antt =====
-- state.go: `ParseCallIdentifier`, `StripURIScheme` and `ParseCallState`.
pub mod Sort
pub mod Sound
pub mod Uri
use callbridge_le_audio_serv.Prelude.{
  ℕ, zero, ◌*◌, ◌%◌, Bool, true, false, ◌||◌, List, [], ◌∷◌, ◌==◌, ◌!=◌, ltb, leb, if◌then◌else◌,
  Bytes, length, all, bytes_eq, Result, ok, err, fail_if, ◌>>=◌, ◌>>◌,
}
use callbridge_le_audio_serv.Prelude.Bits.{and_not}
use callbridge_le_audio_serv.Go.Strings.{trim_space, after_byte, before_byte, is_digit}
use callbridge_le_audio_serv.Protocol.Message.{identity_uri_max}
use callbridge_le_audio_serv.Protocol.Identity.{no_identity}
use callbridge_le_audio_serv.Gtbs.Call.{
  Call, Error, no_call_identity, invalid_length, invalid_entry, state_locally_remotely_held,
  call_flags,
}

-- The call index and the rest of the value.
unfoldable pub parse_call_identifier : Bytes → Result Error (ℕ × Bytes)
parse_call_identifier [] = err no_call_identity
parse_call_identifier (index ∷ rest) = if index == 0 then err no_call_identity else ok (index, rest)

abbrev pub is_dial_byte : ℕ → Bool
is_dial_byte c = is_digit c || c == b'+' || c == b'*' || c == b'#' || c == b'-'

-- The text behind the scheme and before the parameters.
unfoldable pub uri_body : Bytes → Bytes
uri_body uri =
    let trimmed = trim_space uri in
    trim_space (before_byte (λ c. c == b';' || c == b'?') (after_byte b':' trimmed trimmed))

unfoldable pub strip_uri_scheme : Bytes → Bytes
strip_uri_scheme uri =
    let trimmed = uri_body uri in
    if length trimmed == 0 || ltb identity_uri_max (length trimmed)
    then []
    else if all is_dial_byte trimmed
    then trimmed
    else []

-- `seen[i]`
abbrev pub contains : ℕ → List ℕ → Bool
contains i [] = false
contains i (j ∷ js) = i == j || contains i js

-- The test of one entry.
unfoldable pub bad_entry : List ℕ → ℕ → ℕ → ℕ → Bool
bad_entry seen index state flags =
    index == 0
    || ltb state_locally_remotely_held state
    || and_not flags call_flags != 0
    || contains index seen

-- The loop, three bytes at a time. The length is a multiple of three.
unfoldable pub parse_entries : List ℕ → Bytes → Result Error (List Call)
parse_entries seen (index ∷ state ∷ flags ∷ rest) = do
  fail_if (bad_entry seen index state flags) invalid_entry
  calls ← parse_entries (index ∷ seen) rest
  ok (
      record { index = index; state = state; flags = flags; token = 0; identity = no_identity }
      ∷ calls)
parse_entries seen _ = ok []

-- `sort.Slice` by the index. No index stands twice in a list that is sorted.
unfoldable pub insert_call : Call → List Call → List Call
insert_call c [] = c ∷ []
insert_call c (d ∷ ds) =
    let rest = insert_call c ds in if leb c.index d.index then c ∷ d ∷ ds else d ∷ rest

unfoldable pub sort_calls : List Call → List Call
unfolding insert_call
sort_calls [] = []
sort_calls (c ∷ cs) = insert_call c (sort_calls cs)

unfoldable pub parse_call_state : Bytes → Result Error (List Call)
parse_call_state value = do
  fail_if (length value % 3 != 0 || ltb (3 * 255) (length value)) invalid_length
  calls ← parse_entries [] value
  ok (sort_calls calls)
