-- ===== src/MsgQueue/Answer.antt =====
-- lab6/zad1/server.c: how INNIT is answered, and that the other requests but STOP leave the table.
use operating_systems_agh.Prelude.{
  ◌∙◌, ℕ, ◌<◌, ◌≤◌, ◌≡◌, ap, refl, Bool, true, false, none, some, List, [], ◌∷◌, ◌++◌, arith, pos,
  ◌==◌, Bool-cases, inl, inr, ◌⊎◌, Option, is_pos,
}
use operating_systems_agh.MsgQueue.{
  new_message, on_event, received, max_clients, innit, stop, Key, Message, Server, assign_slot,
  admitted, handle_new_connection, dispatch, handle_send_to_all, send_to_slot, handle_send_to_one,
  handle_list_command, to_all, to_one, list_command, queue_at, succes, failure, with_id,
}
use operating_systems_agh.MsgQueue.Table.{send_all-keeps, After, After-if}

-- How a request to be let in is answered.
pub record IsAnswered (s t : Server) : Type 0 where
  pub reply : Message
  pub sent : t.sent ≡ s.sent ++ (s.message.key, reply) ∷ []
  pub verdict :
      ((reply.kind ≡ failure) × (t.queues ≡ s.queues))
      ⊎ ((is_pos s.connected max_clients ≡ false)
          × (reply.kind ≡ succes)
          × (t.queues ≡ (assign_slot 0 s.message.key s.queues).0)
          × ((n : ℕ) → (assign_slot 0 s.message.key s.queues).1 ≡ some n → reply.client_id ≡ pos n))

with_id-key : (m : Message) (o : Option ℕ) → (with_id m o).key ≡ m.key
with_id-key m none = refl
with_id-key m (some i) = refl

with_id-kind : (m : Message) (o : Option ℕ) → (with_id m o).kind ≡ m.kind
with_id-kind m none = refl
with_id-kind m (some i) = refl

with_id-client_id :
    (m : Message) (o : Option ℕ) (n : ℕ) → o ≡ some n → (with_id m o).client_id ≡ pos n
with_id-client_id m none n e = absurd (cc)
with_id-client_id m (some i) n e = ground arith

pub handle_new_connection-IsAnswered :
    (accepts : List (Key × Message) → Key → Message → Bool) (s : Server)
    → ((m : Message) → accepts s.sent s.message.key m ≡ true)
    → After (IsAnswered s) (handle_new_connection accepts s)
unfolding handle_new_connection admitted
handle_new_connection-IsAnswered accepts s takes =
    elim (Bool-cases (is_pos s.connected max_clients)) [
      | inl e ↦
          rw (e, takes (record s.message { kind = failure }), After)
            (record {
              reply = record s.message { kind = failure };
              sent = refl;
              verdict = inl (refl, refl);
            })
      | inr e ↦
          let found = (assign_slot 0 s.message.key s.queues).1 in
          let reply = (admitted accepts s).message in
          let taken : accepts s.sent reply.key reply ≡ true =
            ap (λ k. accepts s.sent k reply) (with_id-key _ found) ∙ takes reply in
          rw (e, taken, After)
            (record {
              reply = reply;
              sent = ap (λ k. s.sent ++ (k, reply) ∷ []) (with_id-key _ found);
              verdict = inr (e, with_id-kind _ found, refl, with_id-client_id _ found);
            })
    ]

module _ (accepts : List (Key × Message) → Key → Message → Bool) (s : Server) where
  abbrev KeepsTable : Server → Type 0
  KeepsTable t = t.queues ≡ s.queues

  send_to_slot-KeepsTable :
      (o : Option Key) (m : Message) → After KeepsTable (send_to_slot accepts o m s)
  unfolding send_to_slot
  send_to_slot-KeepsTable none m = tt
  send_to_slot-KeepsTable (some none) m = refl
  send_to_slot-KeepsTable (some (some k)) m = ground arith

  -- LIST, _2ALL and _2ONE leave the table.
  pub dispatch-KeepsTable :
      0 < s.message.kind → s.message.kind ≤ to_one → After KeepsTable (dispatch accepts s)
  unfolding dispatch handle_list_command handle_send_to_all handle_send_to_one
  dispatch-KeepsTable lo hi =
      After-if KeepsTable (s.message.kind == innit) _ _ (λ e. absurd (ground arith))
        (After-if KeepsTable (s.message.kind == list_command) _ _ (λ _. ground arith)
          (After-if KeepsTable (s.message.kind == to_all) _ _
            (λ _. ground (
              arith,
              send_all-keeps accepts 0 s.queues (record s.message { kind = new_message }) s,
            ))
            (After-if KeepsTable (s.message.kind == to_one) _ _
              (λ _. send_to_slot-KeepsTable (queue_at s.message.other_id s.queues) _)
              (After-if KeepsTable (s.message.kind == stop) _ _ (λ e. absurd (ground arith))
                refl))))

  pub dispatch-IsAnswered :
      s.message.kind ≡ innit
      → ((m : Message) → accepts s.sent s.message.key m ≡ true)
      → After (IsAnswered s) (dispatch accepts s)
  unfolding dispatch handle_new_connection
  dispatch-IsAnswered e takes = rw (e, After) (handle_new_connection-IsAnswered accepts s takes)

-- A message that arrives is handled as the global one.
pub on_event-dispatch :
    (accepts : List (Key × Message) → Key → Message → Bool) (m : Message) (s : Server)
    → on_event accepts (received m) s ≡ dispatch accepts (record s { message = m })
unfolding on_event
on_event-dispatch accepts m s = refl
