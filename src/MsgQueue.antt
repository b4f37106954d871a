-- ===== src/MsgQueue.antt =====
-- lab6/zad1/server.c and headers.h: the chat server over System V message queues. The globals of the
-- process are the record `Server`; a `key_t` is a queue's number or -1, which is `none`. What `msgsnd`
-- answers is the parameter `accepts`. A handler that takes the message by value reads its argument,
-- `handle_new_connection` and `handle_stop_signal` read and write the global one.
mod State
pub mod Table
pub mod Full
pub mod Delivery
pub mod Answer
pub mod Foreign
pub mod Requests
mod Tests
unfoldable pub use State.*
use operating_systems_agh.Prelude.{
  ℕ, zero, suc, ◌+◌, ◌≡◌, Bool, true, false, not, ◌&&◌, ◌||◌, Option, none, some, List, [], ◌∷◌,
  ◌++◌, ◌==◌, if◌then◌else◌, ltb, length, get_elem?, set, replicate, codes, overwrite, decimal, ℤ,
  pos, negsuc, increment, decrement, is_pos,
}

-- Lines 50 to 56: the first free slot takes the key, and its index comes back.
unfoldable pub assign_slot : ℕ → Key → List Key → List Key × Option ℕ
assign_slot i key [] = ([], none)
assign_slot i key (q ∷ qs) =
    let (rest, found) = assign_slot (i + 1) key qs in
    if is_free q then (key ∷ qs, some i) else (q ∷ rest, found)

abbrev pub with_id : Message → Option ℕ → Message
with_id m none = m
with_id m (some i) = record m { client_id = pos i }

-- The loop of `handle_stop`
unfoldable pub clear_slots : Key → List Key → List Key
clear_slots key [] = []
clear_slots key (q ∷ qs) = (if key_eq q key then none else q) ∷ clear_slots key qs

abbrev pub key_text : Key → List ℕ
unfolding decimal
key_text none = codes "-1"
key_text (some k) = decimal k

-- What lines 118 to 123 append: a line "[index][key]" for each taken slot.
pub list_lines : ℕ → List Key → List ℕ
unfolding decimal
list_lines i [] = []
list_lines i (q ∷ qs) =
    if is_free q
    then list_lines (i + 1) qs
    else (codes "[" ++ (decimal i ++ (codes "][" ++ (key_text q ++ codes "]\n"))))
      ++ list_lines (i + 1) qs

abbrev pub list_text : List Key → List ℕ
unfolding list_lines
list_text qs = codes "Index of clients running:\n" ++ list_lines 0 qs

-- `queues[i]` for an `int` index
abbrev pub queue_at : ℤ → List Key → Option Key
queue_at (pos i) qs = get_elem? qs i
queue_at (negsuc i) qs = none

-- What happens to the process: `msgrcv` gives a message (a call that finds none changes nothing), or
-- the signal arrives.
pub data Event : Type 0 where
  received : Message → Event
  interrupted : Event

module _ (accepts : List (Key × Message) → Key → Message → Bool) where
  -- `msgsnd` and what it leaves in the queues
  abbrev pub msgsnd_ok : Key → Message → Server → Bool
  msgsnd_ok k m s = accepts s.sent k m

  abbrev pub msgsnd : Key → Message → Server → Server
  msgsnd k m s = if accepts s.sent k m then record s { sent = s.sent ++ (k, m) ∷ [] } else s

  -- Lines 45 to 56: the global message, the counter and the table.
  unfoldable pub admitted : Server → Server
  unfolding assign_slot
  admitted s =
      let (qs, found) = assign_slot 0 s.message.key s.queues in
      record s {
        queues = qs;
        connected = increment s.connected;
        message =
            with_id
              (record s.message {
                kind = succes;
                buffer = overwrite s.message.buffer (codes "SUCCED!" ++ 0 ∷ []);
              })
              found;
      }

  -- Lines 58 to 65: the reply, and a log entry if it is taken.
  abbrev pub greeted : Server → Server
  greeted s =
      if msgsnd_ok s.message.key s.message s
      then logged (innit_entry s.message.key s.message.time) (msgsnd s.message.key s.message s)
      else s

  -- Lines 40 to 42
  abbrev pub refused : Server → Server
  refused s =
      let s' = record s { message = record s.message { kind = failure } } in
      msgsnd s'.message.key s'.message s'

  unfoldable pub handle_new_connection : Server → Outcome
  unfolding admitted
  handle_new_connection s =
      if is_pos s.connected max_clients then running (refused s) else running (greeted (admitted s))

  -- The loop of `handle_send_to_all`, from index `i` on; `false` where a send failed.
  pub send_all : ℕ → List Key → Message → Server → Bool × Server
  send_all i [] m s = (true, s)
  send_all i (q ∷ qs) m s = elim (is_free q || is_pos m.client_id i) [
    | true ↦ send_all (i + 1) qs m s
    | false ↦ elim (msgsnd_ok q m s) [
      | true ↦ send_all (i + 1) qs m (msgsnd q m s)
      | false ↦ (false, s)
    ]
  ]

  pub handle_send_to_all : Message → Server → Outcome
  unfolding send_all
  handle_send_to_all m s =
      let m' = record m { kind = new_message } in
      let (ok, s') = send_all 0 s.queues m' s in
      if ok then running (logged (all_entry m.client_id m.time) s') else exited 1 s'

  -- Lines 93 to 105, on what stands in `queues[other_id]`.
  pub send_to_slot : Option Key → Message → Server → Outcome
  send_to_slot none m s = fault
  send_to_slot (some none) m s = running s
  send_to_slot (some (some k)) m s =
      if msgsnd_ok (some k) m s
      then running (logged (one_entry m.client_id m.other_id m.time) (msgsnd (some k) m s))
      else running s

  pub handle_send_to_one : Message → Server → Outcome
  unfolding send_to_slot
  handle_send_to_one m s =
      send_to_slot (queue_at m.other_id s.queues) (record m { kind = new_message }) s

  pub handle_list_command : Message → Server → Outcome
  unfolding list_lines
  handle_list_command m s =
      let m' = record m {
        kind = new_message;
        buffer = overwrite m.buffer (list_text s.queues ++ 0 ∷ []);
      } in
      if msgsnd_ok m.key m' s
      then running (logged (list_entry m.client_id m.time) (msgsnd m.key m' s))
      else exited 1 s

  unfoldable pub handle_stop : Message → Server → Outcome
  unfolding clear_slots
  handle_stop m s = running (
      logged (stop_entry m.client_id m.time)
        (record s { connected = decrement s.connected; queues = clear_slots m.key s.queues }))

  -- The loop of `handle_stop_signal` over the slots that are left; `false` where a send failed. The
  -- slots before are free by then.
  pub stop_all : List Key → Message → Server → Bool × List Key × Server
  stop_all [] m s = (true, [], s)
  stop_all (q ∷ qs) m s = elim (is_free q) [
    | true ↦ let (ok, rest, s') = stop_all qs m s in (ok, q ∷ rest, s')
    | false ↦ elim (msgsnd_ok q m s) [
      | true ↦ let (ok, rest, s') = stop_all qs m (msgsnd q m s) in (ok, none ∷ rest, s')
      | false ↦ (false, q ∷ qs, s)
    ]
  ]

  pub handle_stop_signal : Server → Outcome
  unfolding stop_all
  handle_stop_signal s =
      let m = record s.message { kind = stop } in
      let (ok, qs, s') = stop_all s.queues m (record s { message = m }) in
      exited (if ok then 0 else 1) (record s' { queues = qs })

  -- The `switch` of `main`
  unfoldable pub dispatch : Server → Outcome
  dispatch s =
      if s.message.kind == innit
      then handle_new_connection s
      else if s.message.kind == list_command
      then handle_list_command s.message s
      else if s.message.kind == to_all
      then handle_send_to_all s.message s
      else if s.message.kind == to_one
      then handle_send_to_one s.message s
      else if s.message.kind == stop
      then handle_stop s.message s
      else running s

  unfoldable pub on_event : Event → Server → Outcome
  on_event (received m) s = dispatch (record s { message = m })
  on_event interrupted s = handle_stop_signal s

  -- The loop of `main`
  pub serve : List Event → Server → Outcome
  serve [] s = running s
  serve (e ∷ es) s = elim (on_event e s) [
    | running s' ↦ serve es s'
    | exited n s' ↦ exited n s'
    | fault ↦ fault
  ]

-- A step that goes on hands its state to the next event.
pub serve-cons :
    (accepts : List (Key × Message) → Key → Message → Bool) (e : Event) (es : List Event)
    (s : Server) {t : Server}
    → on_event accepts e s ≡ running t
    → serve accepts (e ∷ es) s ≡ serve accepts es t
unfolding serve
serve-cons accepts e es s h = rw (h, serve)

-- Lines 187 and 188, the counter's initial value, and a zero message.
abbrev pub blank : Message
blank = record {
  kind = 0;
  buffer = replicate max_buff_size 0;
  key = some 0;
  client_id = pos 0;
  other_id = pos 0;
  time = 0;
}

abbrev pub start : Server
start = record {
  queues = replicate max_clients none;
  connected = pos 0;
  message = blank;
  sent = [];
  log = [];
}
