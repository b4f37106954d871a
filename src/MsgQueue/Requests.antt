-- ===== src/MsgQueue/Requests.antt =====
-- lab6/zad1/server.c: the handling of a request of one client does not touch what another has.
use operating_systems_agh.Prelude.{
  Bool-cases, overwrite, ==_iff, ℕ, ◌≡◌, ◌≢◌, ◌∙◌, ap, sym, refl, ℤ, Bool, true, none, some, List,
  [], ◌∷◌, ◌++◌, arith, get_elem?, pos, negsuc, ◌==◌, append-nil, inl, inr, Option-cases,
}
use operating_systems_agh.MsgQueue.{
  send_all, list_text, innit, stop, Key, Message, Server, assign_slot, clear_slots,
  handle_new_connection, handle_stop, dispatch, handle_send_to_all, send_to_slot,
  handle_send_to_one, handle_list_command, to_all, to_one, list_command, queue_at, to, new_message,
}
use operating_systems_agh.MsgQueue.Table.{send_all-keeps, holders, After, After-if, After-imp}
use operating_systems_agh.MsgQueue.Answer.{IsAnswered, handle_new_connection-IsAnswered}
use operating_systems_agh.MsgQueue.Foreign.{
  IsForeign, to-append, holders-assign_slot, assign_slot-keeps, holders-clear_slots,
  clear_slots-keeps, holders-ne, send_all-to, sending-IsForeign,
}

module _ (accepts : List (Key × Message) → Key → Message → Bool) (q k : ℕ) (ne : q ≢ k) (s : Server)
    (key : s.message.key ≡ some k) where
  handle_send_to_all-IsForeign : After (IsForeign q s) (handle_send_to_all accepts s.message s)
  unfolding handle_send_to_all
  handle_send_to_all-IsForeign =
      let m = record s.message { kind = new_message } in
      let (same, _) = send_all-keeps accepts 0 s.queues m s in
      let (l, more, silent) = send_all-to accepts q 0 s.queues m s in
      elim (Bool-cases (send_all accepts 0 s.queues m s).0) [
        | inl e ↦ rw (e, After) (sending-IsForeign q s _ l same more silent)
        | inr e ↦ rw (e, After) (sending-IsForeign q s _ l same more silent)
      ]

  handle_list_command-IsForeign : After (IsForeign q s) (handle_list_command accepts s.message s)
  unfolding handle_list_command
  handle_list_command-IsForeign = elim (Bool-cases (accepts s.sent s.message.key reply)) [
    | inl e ↦
        rw (e, After)
          (sending-IsForeign q s _ ((s.message.key, _) ∷ []) refl refl (λ h. ground arith))
    | inr e ↦ rw (e, After) (sending-IsForeign q s s [] refl (sym (append-nil s.sent)) (λ h. refl))
  ]
    where
      reply : Message
      reply = record s.message {
        kind = new_message;
        buffer = overwrite s.message.buffer (list_text s.queues ++ 0 ∷ []);
      }

  handle_stop-IsForeign : After (IsForeign q s) (handle_stop accepts s.message s)
  unfolding handle_stop
  handle_stop-IsForeign = record {
    held = ap (λ x. holders q (clear_slots x s.queues)) key ∙ holders-clear_slots q k s.queues ne;
    slot = λ i e.
        ap (λ x. get_elem? (clear_slots x s.queues) i) key ∙ clear_slots-keeps q k i s.queues ne e;
    more = [];
    sent = sym (append-nil (to q s.sent));
    silent = λ h. refl;
  }

  send_to_slot-IsForeign :
      (id : ℤ) (m : Message)
      → After (IsForeign q s) (send_to_slot accepts (queue_at id s.queues) m s)
  unfolding send_to_slot
  send_to_slot-IsForeign (negsuc i) m = tt
  send_to_slot-IsForeign (pos i) m = elim (Option-cases (get_elem? s.queues i)) [
    | inl e ↦ rw (e, After) tt
    | inr (none, e) ↦
        rw (e, After) (sending-IsForeign q s s [] refl (sym (append-nil s.sent)) (λ h. refl))
    | inr (some p, e) ↦ elim (Bool-cases (accepts s.sent (some p) m)) [
      | inl f ↦
          rw (e, f, After)
            (sending-IsForeign q s _ ((some p, m) ∷ []) refl refl
              (λ h. ground (arith, holders-ne q i s.queues e h)))
      | inr f ↦
          rw (e, f, After) (sending-IsForeign q s s [] refl (sym (append-nil s.sent)) (λ h. refl))
    ]
  ]

  handle_send_to_one-IsForeign : After (IsForeign q s) (handle_send_to_one accepts s.message s)
  unfolding handle_send_to_one
  handle_send_to_one-IsForeign =
      send_to_slot-IsForeign s.message.other_id (record s.message { kind = new_message })

  handle_new_connection-IsForeign :
      ((m : Message) → accepts s.sent s.message.key m ≡ true)
      → After (IsForeign q s) (handle_new_connection accepts s)
  handle_new_connection-IsForeign takes =
      After-imp (IsAnswered s) (IsForeign q s) (handle_new_connection accepts s)
        (handle_new_connection-IsAnswered accepts s takes) answered
    where
      silent : (m : Message) → to q ((s.message.key, m) ∷ []) ≡ []
      silent m = ground arith

      answered : (t : Server) → IsAnswered s t → IsForeign q s t
      answered t a = elim a.verdict [
        | inl (_, same) ↦ sending-IsForeign q s t _ same a.sent (λ h. silent a.reply)
        | inr (_, _, table, _) ↦ record {
          held =
              ap (holders q) table
              ∙ ap (λ x. holders q (assign_slot 0 x s.queues).0) key
              ∙ holders-assign_slot 0 q k s.queues ne;
          slot = λ i e.
              ap (λ qs. get_elem? qs i) table
              ∙ ap (λ x. get_elem? (assign_slot 0 x s.queues).0 i) key
              ∙ assign_slot-keeps 0 q k i s.queues e;
          more = [];
          sent =
              ap (to q) a.sent ∙ to-append q s.sent _ ∙ ap (λ l. to q s.sent ++ l) (silent a.reply);
          silent = λ h. refl;
        }
      ]

  -- Handling a request of another client; the answer to an INNIT is taken.
  pub dispatch-IsForeign :
      (s.message.kind ≡ innit → (m : Message) → accepts s.sent s.message.key m ≡ true)
      → After (IsForeign q s) (dispatch accepts s)
  unfolding dispatch
  dispatch-IsForeign takes =
      After-if P (s.message.kind == innit) _ _
        (λ e. handle_new_connection-IsForeign (takes ((==_iff _ _).0 e)))
        (After-if P (s.message.kind == list_command) _ _ (λ _. handle_list_command-IsForeign)
          (After-if P (s.message.kind == to_all) _ _ (λ _. handle_send_to_all-IsForeign)
            (After-if P (s.message.kind == to_one) _ _ (λ _. handle_send_to_one-IsForeign)
              (After-if P (s.message.kind == stop) _ _ (λ _. handle_stop-IsForeign)
                (sending-IsForeign q s s [] refl (sym (append-nil s.sent)) (λ h. refl))))))
    where
      P : Server → Type 0
      P = IsForeign q s
