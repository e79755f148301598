-- ===== src/Gtbs/Client/Commands.antt =====
-- What a command that is let through is for, and which result answers it.
use callbridge_le_audio_serv.Prelude.{
  ℕ, ◌<◌, ◌≡◌, ◌≢◌, ◌⊎◌, ◌↔◌, ◌∙◌, sym, ap, ok_inj, refl, inl, inr, true, [], ◌∷◌, arith, Bytes,
  bytes_eq_iff, none, some, Option-cases, ok, err, bytes_eq,
}
use callbridge_le_audio_serv.Prelude.Dict.{Dict, lookup, insert, remove}
use callbridge_le_audio_serv.Prelude.Dict.Laws.{
  All-lookup, lookup-insert, lookup-insert_self, lookup-remove,
}
use callbridge_le_audio_serv.Protocol.Message.{Message, type_command, opcode_originate}
use callbridge_le_audio_serv.Protocol.Device.{normalized_device}
use callbridge_le_audio_serv.Protocol.Validate.{valid_result}
use callbridge_le_audio_serv.Gtbs.Call.{Call}
use callbridge_le_audio_serv.Gtbs.Store.{Store, allows, validate_indexed_command}
use callbridge_le_audio_serv.Gtbs.Store.Tokens.{IsStored}
use callbridge_le_audio_serv.Gtbs.Store.Invariant.{WellFormed}
use callbridge_le_audio_serv.Gtbs.Client.{
  Client, unexpected_indexed, refusal, control_value, link_refusal, pending_key, register_command,
  begin_command, bad_control_result, pending_token, indexed_result, handle_control_result,
  abort_command, is_pending,
}

-- The commands that a call takes in its state: Accept (0) while it rings (0), Terminate (1) always,
-- Hold (2) while it rings, is active (3) or held by the other side (5), and Retrieve (3) while it is
-- held here (4) or by both (6).
abbrev pub Permits : ℕ → ℕ → Type 0
Permits state opcode =
    ((opcode ≡ 0) × (state ≡ 0))
    ⊎ (opcode ≡ 1)
    ⊎ ((opcode ≡ 2) × ((state ≡ 0) ⊎ (state ≡ 3) ⊎ (state ≡ 5)))
    ⊎ ((opcode ≡ 3) × ((state ≡ 4) ⊎ (state ≡ 6)))

-- The command names a call of the store by its token, and its opcode suits the state of the call.
pub record IsCurrent (s : Store) (m : Message) (call : Call) : Type 0 where
  pub found : lookup m.index s.calls ≡ some call
  pub same_token : call.token ≡ m.token
  pub token_pos : m.token ≢ 0
  pub allowed : Permits call.state m.code

-- What the first two sections ask of the store and of the link
pub record IsPermitted (checked linked : Client) (m : Message) : Type 0 where
  pub call : Call
  pub current : IsCurrent checked.store m call
  pub type : m.type ≡ type_command
  pub device : normalized_device m.device ≡ checked.device
  pub connected : linked.connected ≡ true
  pub ready : linked.ready ≡ true
  pub control : linked.control ≡ true

allows_lem : (state opcode : ℕ) → (allows state opcode ≡ true) ↔ Permits state opcode
unfolding allows
allows_lem state opcode = (λ e. ground arith, λ p. ground arith)

validate_indexed_command_lem :
    (s : Store) (m : Message)
    → validate_indexed_command m.index m.token m.code s ≡ true
    → (call : Call) × IsCurrent s m call
unfolding validate_indexed_command
validate_indexed_command_lem s m e = elim (Option-cases (lookup m.index s.calls)) [
  | inl gone ↦ absurd (cc (rw (gone, validate_indexed_command) at e))
  | inr (call, there) ↦
      let e' = rw (there, validate_indexed_command) at e in
      (
        call,
        record {
          found = there;
          same_token = ground arith;
          token_pos = ground arith;
          allowed = (allows_lem call.state m.code).0 (ground arith);
        },
      )
]

refusal-none :
    (c : Client) (m : Message)
    → m.code ≢ opcode_originate
    → (refusal c m ≡ none) ↔ (
        (m.type ≡ type_command)
        × (bytes_eq (normalized_device m.device) c.device ≡ true)
        × (validate_indexed_command m.index m.token m.code c.store ≡ true))
unfolding refusal
refusal-none c m n = (λ e. ground arith, λ h. ground arith)

link_refusal-none :
    (c : Client)
    → (link_refusal c ≡ none) ↔ ((c.connected ≡ true) × (c.ready ≡ true) × (c.control ≡ true))
unfolding link_refusal
link_refusal-none c = (λ e. ground arith, λ h. ground arith)

register_command-indexed :
    (c : Client) (m : Message)
    → m.code ≢ opcode_originate
    → register_command c m ≡ (
      record c { pending = insert (pending_key m.code m.index) m.token c.pending },
      ok (m.code ∷ m.index ∷ []),
    )
unfolding register_command control_value
register_command-indexed c m n = ground arith

begin_command-passes :
    (checked linked c : Client) (m : Message)
    → refusal checked m ≡ none
    → link_refusal linked ≡ none
    → begin_command checked linked c m ≡ register_command c m
unfolding begin_command
begin_command-passes checked linked c m passed up = rw (passed, up, begin_command) refl

begin_command-ok :
    (checked linked c c' : Client) (m : Message) (v : Bytes)
    → begin_command checked linked c m ≡ (c', ok v)
    → (refusal checked m ≡ none) × (link_refusal linked ≡ none)
unfolding begin_command
begin_command-ok checked linked c c' m v e = elim (Option-cases (refusal checked m)) [
  | inr (why, refused) ↦ absurd (cc (rw (refused, begin_command) at e))
  | inl passed ↦ elim (Option-cases (link_refusal linked)) [
    | inr (why, down) ↦ absurd (cc (rw (passed, down, begin_command) at e))
    | inl up ↦ (passed, up)
  ]
]

begin_command-IsPermitted :
    (checked linked c c' : Client) (m : Message) (v : Bytes)
    → m.code ≢ opcode_originate
    → begin_command checked linked c m ≡ (c', ok v)
    → IsPermitted checked linked m
begin_command-IsPermitted checked linked c c' m v n e =
    let (passed, up) = begin_command-ok checked linked c c' m v e in
    let (type, device, valid) = (refusal-none checked m n).0 passed in
    let (connected, ready, control) = (link_refusal-none linked).0 up in
    let (call, current) = validate_indexed_command_lem checked.store m valid in
    record {
      call = call;
      current = current;
      type = type;
      device = (bytes_eq_iff (normalized_device m.device) checked.device).0 device;
      connected = connected;
      ready = ready;
      control = control;
    }

-- What is registered and written for an indexed command that passed
begin_command-registers :
    (checked linked c c' : Client) (m : Message) (v : Bytes)
    → m.code ≢ opcode_originate
    → begin_command checked linked c m ≡ (c', ok v)
    → (c' ≡ record c { pending = insert (pending_key m.code m.index) m.token c.pending })
      × (v ≡ m.code ∷ m.index ∷ [])
begin_command-registers checked linked c c' m v n e =
    let (passed, up) = begin_command-ok checked linked c c' m v e in
    let same =
      sym e ∙ begin_command-passes checked linked c m passed up ∙ register_command-indexed c m n in
    (ap (λ r. r.0) same, ok_inj (ap (λ r. r.1) same))

allows_code : (state opcode : ℕ) → Permits state opcode → opcode < 4
allows_code state opcode p = ground arith

pending_token-insert :
    (pending : Dict ℕ) (key token : ℕ) → pending_token (insert key token pending) key ≡ token
unfolding pending_token
pending_token-insert pending key token = rw (lookup-insert_self key token pending, pending_token)

pending_token-remove : (pending : Dict ℕ) (key : ℕ) → pending_token (remove key pending) key ≡ 0
unfolding pending_token
pending_token-remove pending key =
    let gone : lookup key (remove key pending) ≡ none =
      ground (arith, lookup-remove key key pending) in
    rw (gone, pending_token)

-- A notification of the Control Point for an indexed command.
indexed_notification :
    (c : Client) (opcode index result : ℕ)
    → opcode < 4
    → 0 < index
    → valid_result result ≡ true
    → handle_control_result c (opcode ∷ index ∷ result ∷ []) ≡ indexed_result c opcode index result
unfolding handle_control_result bad_control_result
indexed_notification c opcode index result o i r = ground arith

indexed_result-ok :
    (c : Client) (opcode index result token : ℕ)
    → pending_token c.pending (pending_key opcode index) ≡ token
    → token ≢ 0
    → (indexed_result c opcode index result).1
      ≡ ok (record { opcode = opcode; index = index; result = result; token = token })
unfolding indexed_result
indexed_result-ok c opcode index result token e n = ground arith

indexed_result-again :
    (c : Client) (opcode index result : ℕ)
    → (indexed_result (indexed_result c opcode index result).0 opcode index result).1
      ≡ err unexpected_indexed
unfolding indexed_result
indexed_result-again c opcode index result =
    rw (pending_token-remove c.pending (pending_key opcode index)) refl

-- Behind an indexed command that was written, its store check over a well-formed store, the first
-- valid result for its opcode and index is reported with the token of the command, and a second one
-- is refused.
pub command_answered_once :
    (checked linked c c' : Client) (m : Message) (v : Bytes) (result : ℕ)
    → WellFormed checked.store
    → m.code ≢ opcode_originate
    → begin_command checked linked c m ≡ (c', ok v)
    → valid_result result ≡ true
    → let value = m.code ∷ m.index ∷ result ∷ [] in
      let first = handle_control_result c' value in
      (first.1 ≡ ok (record { opcode = m.code; index = m.index; result = result; token = m.token }))
      × ((handle_control_result first.0 value).1 ≡ err unexpected_indexed)
command_answered_once checked linked c c' m v result w n e r =
    let p = begin_command-IsPermitted checked linked c c' m v n e in
    let (client, value) = begin_command-registers checked linked c c' m v n e in
    let key = pending_key m.code m.index in
    let code = allows_code p.call.state m.code p.current.allowed in
    let stored : IsStored (m.index, p.call) =
      All-lookup IsStored m.index checked.store.calls p.current.found w.stored in
    let pos : 0 < m.index = omega (arith, stored.keyed, stored.is_entry.index_pos) in
    let one = indexed_notification c' m.code m.index result code pos r in
    let token : pending_token c'.pending key ≡ m.token =
      rw client (pending_token-insert c.pending key m.token) in
    let two = λ (d : Client). indexed_notification d m.code m.index result code pos r in
    (
      rw one (indexed_result-ok c' m.code m.index result m.token token p.current.token_pos),
      rw (one, two (indexed_result c' m.code m.index result).0)
          (indexed_result-again c' m.code m.index result),
    )

is_pending-insert :
    (pending : Dict ℕ) (key token : ℕ) → is_pending (insert key token pending) key token ≡ true
unfolding is_pending
is_pending-insert pending key token =
    rw (lookup-insert_self key token pending, is_pending) (ground arith)

abort_command-registered :
    (c : Client) (m : Message)
    → m.code ≢ opcode_originate
    → let key = pending_key m.code m.index in
      abort_command (record c { pending = insert key m.token c.pending }) m
      ≡ record c { pending = remove key (insert key m.token c.pending) }
unfolding abort_command
abort_command-registered c m n =
    ground (arith, is_pending-insert c.pending (pending_key m.code m.index) m.token)

-- An indexed command whose write failed leaves nothing pending for its opcode and index, and the
-- rest of the client as it was.
pub abort_command-begin_command :
    (checked linked c c' : Client) (m : Message) (v : Bytes)
    → m.code ≢ opcode_originate
    → begin_command checked linked c m ≡ (c', ok v)
    → let after = abort_command c' m in
      (pending_token after.pending (pending_key m.code m.index) ≡ 0)
      × ((k : ℕ) → k ≢ pending_key m.code m.index → lookup k after.pending ≡ lookup k c.pending)
      × (after.store ≡ c.store)
      × (after.pending_originate ≡ c.pending_originate)
abort_command-begin_command checked linked c c' m v n e =
    let r = begin_command-registers checked linked c c' m v n e in
    let key = pending_key m.code m.index in
    rw (r.0, abort_command-registered c m n)
      (
        pending_token-remove (insert key m.token c.pending) key,
        λ k other. ground (
          arith,
          lookup-remove key k (insert key m.token c.pending),
          lookup-insert key k m.token c.pending,
        ),
        refl,
        refl,
      )
