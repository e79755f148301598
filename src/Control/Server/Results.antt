-- ===== src/Control/Server/Results.antt =====
-- The way of a result from the Control Point of the phone to the client of the server.
use callbridge_le_audio_serv.Prelude.{
  ℕ, ◌<◌, ◌≡◌, ◌≢◌, ◌∙◌, refl, ap, Bool, true, [], ◌∷◌, arith, ◌++◌, length, Bytes, some, ok,
}
use callbridge_le_audio_serv.Prelude.Dict.{lookup}
use callbridge_le_audio_serv.Prelude.Dict.Laws.{All-lookup}
use callbridge_le_audio_serv.Protocol.Message
use callbridge_le_audio_serv.Protocol.Message.{Message, InRange, opcode_originate}
use callbridge_le_audio_serv.Protocol.Device.Canonical.{IsDevice}
use callbridge_le_audio_serv.Protocol.Validate.{
  validate, validate_type, validate_result, valid_call_reference, valid_result,
}
use callbridge_le_audio_serv.Protocol.Validate.Laws.{validate-validate_type}
use callbridge_le_audio_serv.Protocol.Codec.{decode}
use callbridge_le_audio_serv.Gtbs.Call.{Call}
use callbridge_le_audio_serv.Gtbs.Store.{Store, token_for_index}
use callbridge_le_audio_serv.Gtbs.Store.Tokens.{IsStored}
use callbridge_le_audio_serv.Gtbs.Store.Invariant.{WellFormed}
use callbridge_le_audio_serv.Gtbs.Client.{
  Client, Outcome, handle_control_result, originate_result, bad_control_result,
}
use callbridge_le_audio_serv.Control.Snapshot.Encodes.{Arrives-valid}
use callbridge_le_audio_serv.Control.Server.{
  Server, next_sequence, result_message, broadcast_result,
}
use callbridge_le_audio_serv.Control.Server.Ack.{send-delivered}
use callbridge_le_audio_serv.Control.Server.Sent.{next_sequence_u64}

token_for_index-present :
    (index : ℕ) (s : Store) (call : Call)
    → lookup index s.calls ≡ some call
    → (token_for_index index s).0 ≡ call.token
unfolding token_for_index
token_for_index-present index s call there = rw (there, token_for_index) refl

originate_notification :
    (c : Client) (index result : ℕ)
    → valid_result result ≡ true
    → handle_control_result c (opcode_originate ∷ index ∷ result ∷ [])
      ≡ originate_result c index result
unfolding handle_control_result bad_control_result
originate_notification c index result r = ground arith

originate_outcome :
    (c : Client) (index result : ℕ)
    → c.pending_originate ≡ true
    → (originate_result c index result).1
      ≡ ok (record {
        opcode = opcode_originate;
        index = index;
        result = result;
        token = (token_for_index index c.store).0;
      })
unfolding originate_result
originate_outcome c index result p = ground arith

framed_result :
    (d : Bytes) (n opcode index result token : ℕ)
    → IsDevice d
    → 0 < n
    → validate (result_message d n opcode index result token)
      ≡ validate_result (result_message d n opcode index result token)
unfolding result_message validate_type
framed_result d n opcode index result token dev pos =
    validate-validate_type (result_message d n opcode index result token) (record {
      type_low = omega arith;
      type_high = omega arith;
      flags_known = refl;
      sequence_pos = pos;
      payload_fits = omega arith;
      device = dev;
    })

identified_result :
    (d : Bytes) (n index result token : ℕ)
    → valid_result result ≡ true
    → index ≢ 0
    → token ≢ 0
    → validate_result (result_message d n opcode_originate index result token) ≡ ok tt
unfolding validate_result valid_call_reference result_message
identified_result d n index result token r pos t = ground arith

-- The Result message (4) that the client of the server is owed
abbrev pub identified : Bytes → ℕ → ℕ → ℕ → ℕ → Message
identified device sequence index result token = record {
  type = 4;
  flags = 0;
  sequence = sequence;
  token = token;
  device = device;
  index = index;
  code = 4;
  value = result;
  payload = [];
}

-- Where the store holds the call, the result names it by its token, and the server sends a client
-- that reads what it is sent one packet for it, which decodes to the opcode Originate, the index, the
-- token and the result of the phone.
pub originate_result_identified :
    (deliver : ℕ → Bytes → Bool) (reader : ℕ) (c : Client) (s : Server) (index result : ℕ)
    → IsDevice s.device
    → WellFormed c.store
    → valid_result result ≡ true
    → c.pending_originate ≡ true
    → s.client ≡ some reader
    → ((n : ℕ) (q : Bytes) → deliver n q ≡ true)
    → (call : Call) → lookup index c.store.calls ≡ some call
    → let n = next_sequence s.sequence in
      let o : Outcome = record { opcode = 4; index = index; result = result; token = call.token } in
      ((handle_control_result c (opcode_originate ∷ index ∷ result ∷ [])).1 ≡ ok o)
      × (q : Bytes) × (decode q ≡ ok (identified s.device n index result call.token))
      × (broadcast_result deliver o.opcode o.index o.result o.token s
          ≡ record s { sequence = n; sent = s.sent ++ ((reader, q) ∷ []) })
unfolding result_message broadcast_result
originate_result_identified deliver reader c s index result dev w r pending client whole call
      there =
    let n = next_sequence s.sequence in
    let (pos, u64) = next_sequence_u64 s.sequence in
    let stored : IsStored (index, call) = All-lookup IsStored index c.store.calls there w.stored in
    let m = result_message s.device n opcode_originate index result call.token in
    let index_pos : index ≢ 0 = ground (arith, stored.keyed, stored.is_entry.index_pos) in
    let token_pos : call.token ≢ 0 = ground (arith, stored.token_pos) in
    let (q, written, reads) =
      Arrives-valid m (record { sequence_u64 = u64; token_u64 = stored.token_u64 }) dev
        (framed_result s.device n opcode_originate index result call.token dev pos
          ∙ identified_result s.device n index result call.token r index_pos token_pos) in
    (
      ap (λ x. x.1) (originate_notification c index result r)
          ∙ originate_outcome c index result pending
          ∙ ap
              (λ t.
                ok
                  (record { opcode = opcode_originate; index = index; result = result; token = t }))
              (token_for_index-present index c.store call there),
      q,
      reads,
      send-delivered deliver reader m q (record s { sequence = n }) client written
          (whole (length s.sent) q),
    )
