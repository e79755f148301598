-- ===== src/Sms/State.antt =====
-- state/store.go: the handles of the messages seen and the queue of those to send. The set of a Go
-- map is the list of its members.
pub mod Undo
pub mod History
pub mod Effects
pub mod Invariant
use callbridge_le_audio_serv.Prelude.{
  ℕ, ◌-◌, Bool, true, false, not, ◌&&◌, ◌||◌, List, [], ◌∷◌, ◌++◌, ◌==◌, ltb, leb, if◌then◌else◌,
  Bytes, bytes_eq, length, take, drop, all, Option, none, some, Result, ok, err,
}
use callbridge_le_audio_serv.Go.Strings.{has_prefix, is_digit}

abbrev pub maximum_seen_handles : ℕ
maximum_seen_handles = 4096

abbrev pub maximum_outbound : ℕ
maximum_outbound = 128

pub record Outbound : Type 0 where
  pub id : Bytes
  pub to : Bytes
  pub text : Bytes
  pub queued_at : ℕ

-- `diskState`, whose version is fixed.
pub record DiskState : Type 0 where
  pub initialized : Bool
  pub seen_handles : List Bytes
  pub outbound : List Outbound

-- `disk` is what the state file holds.
pub record Store : Type 0 where
  pub state : DiskState
  pub seen : List Bytes
  pub disk : DiskState

pub data Error : Type 0 where
  not_saved invalid_handle invalid_outbound queue_full : Error

abbrev pub is_hex : ℕ → Bool
is_hex b = is_digit b || (leb b'a' b && leb b b'f') || (leb b'A' b && leb b b'F')

-- No character outside ASCII passes, so the walk over the characters is one over the bytes.
unfoldable pub valid_handle : Bytes → Bool
valid_handle value = if length value == 0 || ltb 64 (length value) then false else all is_hex value

-- `strings.TrimPrefix(to, "+")`
unfoldable pub trim_plus : Bytes → Bytes
trim_plus to = if has_prefix to (b'+' ∷ []) then drop 1 to else to

unfoldable pub valid_outbound : Outbound → Bool
valid_outbound item =
    let digits = trim_plus item.to in
    if length item.id == 0
      || ltb 128 (length item.id)
      || not (all (λ b. not (b == 0 || b == 13 || b == 10)) item.id)
    then false
    else if length item.text == 0 || ltb 16384 (length item.text)
    then false
    else if ltb (length digits) 3 || ltb 20 (length digits)
    then false
    else if not (all is_digit digits)
    then false
    else bytes_eq item.to digits || bytes_eq item.to (b'+' ∷ digits)

-- `_, ok := seen[handle]`
unfoldable pub has : Bytes → List Bytes → Bool
has handle [] = false
has handle (h ∷ seen) = bytes_eq h handle || has handle seen

-- `delete(seen, handle)`
unfoldable pub delete : Bytes → List Bytes → List Bytes
delete handle [] = []
delete handle (h ∷ seen) =
    let rest = delete handle seen in if bytes_eq h handle then rest else h ∷ rest

unfoldable pub delete_all : List Bytes → List Bytes → List Bytes
delete_all [] seen = seen
delete_all (old ∷ olds) seen = delete_all olds (delete old seen)

unfoldable pub rebuild_loop : List Bytes → List Bytes → List Bytes → List Bytes × List Bytes
rebuild_loop [] clean seen = (clean, seen)
rebuild_loop (h ∷ hs) clean seen =
    let skipped = rebuild_loop hs clean seen in
    let kept = rebuild_loop hs (clean ++ (h ∷ [])) (h ∷ seen) in
    if not (valid_handle h) then skipped else if has h seen then skipped else kept

-- `rebuildSeen`, as the handles and the set that it leaves.
unfoldable pub rebuild_seen : List Bytes → List Bytes × List Bytes
rebuild_seen handles = rebuild_loop handles [] []

-- `load` behind the decoding of the file, and `Open` behind that.
unfoldable pub open_loaded : DiskState → Option Store
open_loaded disk =
    let (clean, seen) = rebuild_seen disk.seen_handles in
    if ltb maximum_seen_handles (length disk.seen_handles)
      || ltb maximum_outbound (length disk.outbound)
      || not (all valid_outbound disk.outbound)
    then none
    else some (record { state = record disk { seen_handles = clean }; seen = seen; disk = disk })

-- `saveLocked`: the file is replaced at the end, or it stays and there is an error.
unfoldable pub save_locked : Bool → Store → Store
save_locked saves s = if saves then record s { disk = s.state } else s

-- The undo of `MarkSeenMany`: `s.data.SeenHandles = original; s.seen = originalSeen`
unfoldable pub unmark : List Bytes → List Bytes → Store → Store
unmark original original_seen s = record s {
  state = record s.state { seen_handles = original };
  seen = original_seen;
}

-- The undo of `AddOutbound`: `s.data.Outbound = s.data.Outbound[:len(s.data.Outbound)-1]`
unfoldable pub unqueue : Store → Store
unqueue s = record s {
  state = record s.state { outbound = take (length s.state.outbound - 1) s.state.outbound };
}

-- The undo of `TakeOutbound`: `s.data.Outbound = original`
unfoldable pub requeue : List Outbound → Store → Store
requeue original s = record s { state = record s.state { outbound = original } }

unfoldable pub set_initialized : Bool → Store → Store × Result Error (Unit {0})
set_initialized saves s =
    let s' = record s { state = record s.state { initialized = true } } in
    if s.state.initialized
    then (s, ok tt)
    else (save_locked saves s', if saves then ok tt else err not_saved)

unfoldable pub has_seen : Bytes → Store → Bool
has_seen handle s = has handle s.seen

-- The loop of `MarkSeenMany`: the handles, the set, and whether anything changed.
unfoldable pub mark_loop :
    List Bytes → List Bytes → List Bytes → Bool → List Bytes × List Bytes × Bool
mark_loop [] handles seen changed = (handles, seen, changed)
mark_loop (h ∷ hs) handles seen changed =
    let skipped = mark_loop hs handles seen changed in
    let marked = mark_loop hs (handles ++ (h ∷ [])) (h ∷ seen) true in
    if has h seen then skipped else marked

-- The oldest handles go where there are too many.
unfoldable pub evict : List Bytes → List Bytes → List Bytes × List Bytes
evict handles seen =
    let extra = length handles - maximum_seen_handles in
    if ltb 0 extra
    then (drop extra handles, delete_all (take extra handles) seen)
    else (handles, seen)

unfoldable pub mark_seen_many : Bool → List Bytes → Store → Store × Result Error (Unit {0})
mark_seen_many saves handles s =
    let (marked, grown, changed) = mark_loop handles s.state.seen_handles s.seen false in
    let (handles', seen') = evict marked grown in
    let s' = record s { state = record s.state { seen_handles = handles' }; seen = seen' } in
    if length handles == 0
    then (s, ok tt)
    else if not (all valid_handle handles)
    then (s, err invalid_handle)
    else if not changed
    then (s, ok tt)
    else if saves
    then (save_locked saves s', ok tt)
    else (unmark s.state.seen_handles s.seen (save_locked saves s'), err not_saved)

unfoldable pub mark_seen : Bool → Bytes → Store → Store × Result Error (Unit {0})
mark_seen saves handle s = mark_seen_many saves (handle ∷ []) s

unfoldable pub has_id : Bytes → List Outbound → Bool
has_id id [] = false
has_id id (existing ∷ items) = bytes_eq existing.id id || has_id id items

unfoldable pub add_outbound : Bool → Outbound → Store → Store × Result Error (Unit {0})
add_outbound saves item s =
    let s' = record s { state = record s.state { outbound = s.state.outbound ++ (item ∷ []) } } in
    if not (valid_outbound item)
    then (s, err invalid_outbound)
    else if leb maximum_outbound (length s.state.outbound)
    then (s, err queue_full)
    else if has_id item.id s.state.outbound
    then (s, ok tt)
    else if saves
    then (save_locked saves s', ok tt)
    else (unqueue (save_locked saves s'), err not_saved)

-- `TakeOutbound` on the items that are queued; `none` is `false`.
unfoldable pub take_from : Bool → List Outbound → Store → Store × Result Error (Option Outbound)
take_from saves [] s = (s, ok none)
take_from saves (item ∷ items) s =
    let s' = record s { state = record s.state { outbound = items } } in
    if saves
    then (save_locked saves s', ok (some item))
    else (requeue (item ∷ items) (save_locked saves s'), err not_saved)

unfoldable pub take_outbound : Bool → Store → Store × Result Error (Option Outbound)
take_outbound saves s = take_from saves s.state.outbound s

unfoldable pub counts : Store → ℕ × ℕ
counts s = (length s.seen, length s.state.outbound)
