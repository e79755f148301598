-- ===== src/Sms/State/Undo.antt =====
-- What is taken back when a save fails.
use callbridge_le_audio_serv.Prelude.{
  ◌-◌, ◌≡◌, refl, ap, sym, false, List, [], ◌∷◌, ◌++◌, arith, Bytes, length, length-append,
  take-append_eq,
}
use callbridge_le_audio_serv.Sms.State.{Outbound, Store, save_locked, unmark, unqueue, requeue}

-- Whatever was marked and evicted, the handles and the set are those of before.
pub unmark-save_locked :
    (s : Store) (handles seen : List Bytes)
    → unmark s.state.seen_handles s.seen (
        save_locked false
          (record s { state = record s.state { seen_handles = handles }; seen = seen }))
      ≡ s
unfolding unmark save_locked
unmark-save_locked s handles seen = refl

-- The queue without its last item is the one that the item was appended to.
pub unqueue-save_locked :
    (s : Store) (item : Outbound)
    → unqueue (
        save_locked false
          (record s { state = record s.state { outbound = s.state.outbound ++ (item ∷ []) } }))
      ≡ s
unfolding unqueue save_locked
unqueue-save_locked s item =
    let queue = s.state.outbound in
    ap (λ q. record s { state = record s.state { outbound = q } })
      (take-append_eq {0} (length (queue ++ (item ∷ [])) - 1) queue (item ∷ [])
        (omega (arith, length-append {0} queue (item ∷ []))))

pub requeue-save_locked :
    (s : Store) (original rest : List Outbound)
    → s.state.outbound ≡ original
    → requeue original (save_locked false (record s { state = record s.state { outbound = rest } }))
      ≡ s
unfolding requeue save_locked
requeue-save_locked s original rest same =
    ap (λ q. record s { state = record s.state { outbound = q } }) (sym same)
