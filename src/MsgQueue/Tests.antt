-- ===== src/MsgQueue/Tests.antt =====
-- The message-queue server on concrete requests.
use operating_systems_agh.Prelude.{
  ℕ, ◌+◌, ◌≡◌, refl, Bool, true, false, none, some, List, [], ◌∷◌, ◌++◌, get_elem?, Has, All, ℤ,
  pos, is_pos, codes, length, decimal,
}
use operating_systems_agh.MsgQueue.{
  stop, new_message, to_all, Key, Message, Server, running, exited, dispatch, interrupted, on_event,
  blank, start, list_text, list_lines, all_entry, logged,
}
use operating_systems_agh.MsgQueue.Table.{After, IsCounted, dispatch-IsCounted}
use operating_systems_agh.MsgQueue.Delivery.{
  Addressed, to_all_reaches_others, interrupt_stops_clients,
}

-- A kernel whose queues are never full.
abbrev takes_all : List (Key × Message) → Key → Message → Bool
takes_all l q m = true

abbrev ask : ℕ → ℕ → ℤ → ℤ → Message
ask kind key from to = record blank { kind = kind; key = some key; client_id = from; other_id = to }

abbrev full : Server
full = record start { queues = some 7 ∷ some 8 ∷ []; connected = pos 2 }

abbrev asked : Server → Message → Server
asked s m = record s { message = m }

list_reply :
    list_text (some 7 ∷ some 12 ∷ []) ≡ codes "Index of clients running:\n[0][7]\n[1][12]\n"
unfolding list_lines decimal
list_reply = refl

dispatch-IsCounted_example :
    After IsCounted (dispatch takes_all (asked full (ask stop 8 (pos 1) (pos 0))))
dispatch-IsCounted_example =
    dispatch-IsCounted takes_all (asked full (ask stop 8 (pos 1) (pos 0))) (λ e. absurd (cc))
      (λ e. (8, refl, refl)) (record { size = refl; count = refl })

abbrev shouting : Server
shouting = asked full (ask to_all 7 (pos 0) (pos 0))

to_all_reaches_others_example :
    let m = record shouting.message { kind = new_message } in
    (w : List (Key × Message)) × (dispatch takes_all shouting
      ≡ running
          (logged (all_entry m.client_id m.time) (record shouting { sent = shouting.sent ++ w })))
    × ((j k : ℕ)
        → get_elem? shouting.queues j ≡ some (some k)
        → is_pos m.client_id (0 + j) ≡ false
        → Has (some k, m) w)
    × ((e : Key × Message) → Has e w → Addressed m.client_id 0 shouting.queues m e)
to_all_reaches_others_example = to_all_reaches_others takes_all (λ l q m. refl) shouting refl

interrupt_stops_clients_example :
    let m = record full.message { kind = stop } in
    (t : Server) × (on_event takes_all interrupted full ≡ exited 0 t)
    × All (λ q. q ≡ none) t.queues
    × (length t.queues ≡ length full.queues)
    × ((j k : ℕ) → get_elem? full.queues j ≡ some (some k) → Has (some k, m) t.sent)
interrupt_stops_clients_example = interrupt_stops_clients takes_all (λ l q m. refl) full
