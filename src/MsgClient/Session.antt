-- ===== src/MsgClient/Session.antt =====
-- What the client of lab6/zad1/client.c sends in a whole session.
use operating_systems_agh.Prelude.{
  ℕ, ◌≡◌, refl, ap, Bool, Option, none, some, List, [], ◌∷◌, arith, length, codes, ℤ, negsuc, c_str,
  All, Bool-cases, inl, inr, ◌==◌,
}
use operating_systems_agh.Command.{Command, qsort, map_command_to_int}
use operating_systems_agh.MsgQueue.{Message, max_buff_size, list_command, to_all, to_one, stop}
use operating_systems_agh.MsgClient.{
  Client, running, and_then, Round, dict, end_work, handle_message, send_or_end, modify_message,
  read_line, drain, list_round, all_round, read_number, one_round, on_command, on_round, rounds,
  ask_in, let_in, connect, main, fresh,
}
use operating_systems_agh.MsgClient.Requests.{
  IsRequest, IsSound, IsRead, After, IsFitting, After-and_then, length-overwrite,
  modify_message-IsLoaded, send_or_end-IsSound, handle_message-After,
  handle_stop_command-AreRequests, read_line-IsRead,
}

drain-After :
    (q : ℕ) (ms : List Message) (c : Client) → IsRead q c → After q (IsRead q) (drain ms c)
unfolding drain
drain-After q [] c h = h
drain-After q (m ∷ ms) c h =
    After-and_then q (IsRead q) (IsRead q) (handle_message m c) (drain ms)
      (handle_message-After q (IsRead q) m c h h h.0.3) (λ c h. drain-After q ms c h)

list_round-After :
    (q : ℕ) (r : Round) (c : Client) → IsSound q c → After q (IsSound q) (list_round r c)
unfolding list_round end_work
list_round-After q r c h =
    After-and_then q (IsSound q) (IsSound q)
      (send_or_end r.taken (modify_message list_command (codes "LIST REQUEST") (negsuc 0) r.time c))
      _
      (send_or_end-IsSound q r.taken _ (
        modify_message-IsLoaded q list_command (codes "LIST REQUEST") (negsuc 0) r.time c
          (omega arith) (omega arith) (omega arith) h))
      (λ c h. answered r.reply c h)
  where
    answered :
        (reply : Option Message) (c : Client)
        → IsSound q c
        → After q (IsSound q) (elim reply [ none ↦ end_work c | some m ↦ handle_message m c ])
    answered none c h = h.3
    answered (some m) c h = handle_message-After q (IsSound q) m c h h h.3

all_round-After :
    (q : ℕ) (r : Round) (c : Client)
    → IsFitting r
    → IsSound q c
    → After q (IsSound q) (all_round r c)
unfolding all_round
all_round-After q r c f h =
    After-and_then q (IsRead q) (IsSound q) (read_line r.text c) _
      (read_line-IsRead q r.text c f.1 h)
      (λ c h. send_or_end-IsSound q r.taken _ (
        modify_message-IsLoaded q to_all (c_str c.line) (negsuc 0) r.time c (omega arith)
          (omega arith) h.1 h.0))

one_round-After :
    (q : ℕ) (r : Round) (c : Client)
    → IsFitting r
    → IsRead q c
    → After q (IsSound q) (one_round r c)
unfolding one_round
one_round-After q r c f h =
    After-and_then q (IsRead q) (IsSound q) (read_number r c) _ (number r.number) (λ c h.
      send_or_end-IsSound q r.taken _ (
        modify_message-IsLoaded q to_one (c_str c.line) c.other_id r.time c (omega arith)
          (omega arith) h.1 h.0))
  where
    number :
        (n : Option ℤ)
        → After q
            (IsRead q)
            (elim n [ none ↦ running c | some n ↦ read_line r.text (record c { other_id = n }) ])
    number none = h
    number (some n) = read_line-IsRead q r.text (record c { other_id = n }) f.1 h.0

on_command-After :
    (q n : ℕ) (r : Round) (c : Client)
    → IsFitting r
    → IsRead q c
    → After q (IsSound q) (on_command n r c)
unfolding on_command
on_command-After q n r c f h = elim (Bool-cases (n == list_command)) [
  | inl a ↦ rw (a, After) (list_round-After q r c h.0)
  | inr a ↦ elim (Bool-cases (n == to_all)) [
    | inl b ↦ rw (a, b, After) (all_round-After q r c f h.0)
    | inr b ↦ elim (Bool-cases (n == to_one)) [
      | inl d ↦ rw (a, b, d, After) (one_round-After q r c f h)
      | inr d ↦ elim (Bool-cases (n == stop)) [
        | inl e ↦ rw (a, b, d, e, After) (handle_stop_command-AreRequests q r.taken c h.0)
        | inr e ↦ rw (a, b, d, e, After) h.0
      ]
    ]
  ]
]

on_round-After :
    (q : ℕ) (r : Round) (c : Client)
    → IsFitting r
    → IsSound q c
    → After q (IsSound q) (on_round r c)
unfolding on_round
on_round-After q r c f h =
    After-and_then q (IsRead q) (IsSound q) (read_line r.word c) _
      (read_line-IsRead q r.word c f.0 h)
      (λ c h. found (map_command_to_int (qsort dict) (c_str c.line)) c h)
  where
    found :
        (d : Option Command) (c : Client)
        → IsRead q c
        → After q
            (IsSound q)
            (elim d [ none ↦ running c | some d ↦ and_then (drain r.pending c) (on_command d.n r) ])
    found none c h = h.0
    found (some d) c h =
        After-and_then q (IsRead q) (IsSound q) (drain r.pending c) (on_command d.n r)
          (drain-After q r.pending c h) (λ c h. on_command-After q d.n r c f h)

rounds-After :
    (q : ℕ) (rs : List Round) (c : Client)
    → All IsFitting rs
    → IsSound q c
    → After q (IsSound q) (rounds rs c)
unfolding rounds
rounds-After q [] c f h = h
rounds-After q (r ∷ rs) c f h =
    After-and_then q (IsSound q) (IsSound q) (on_round r c) (rounds rs) (on_round-After q r c f.0 h)
      (λ c h. rounds-After q rs c f.1 h)

ask_in-After :
    (q : ℕ) (taken : Bool) (time : ℕ) (c : Client)
    → c.myqid ≡ q
    → length c.my_message.buffer ≡ max_buff_size
    → length c.line ≡ max_buff_size
    → All (IsRequest q) c.sent
    → After q (IsSound q) (ask_in taken time c)
unfolding ask_in modify_message
ask_in-After q taken time c k b l s = send_or_end-IsSound q taken _ (
  (ap some k, length-overwrite c.my_message.buffer (codes "Innit command") b (omega arith), l, s),
  omega arith,
  omega arith,
)

let_in-After :
    (q : ℕ) (reply : Option Message) (c : Client)
    → IsSound q c
    → After q (IsSound q) (let_in reply c)
unfolding let_in end_work
let_in-After q none c h = h.3
let_in-After q (some m) c h =
    After-and_then q (IsSound q) (IsSound q) (handle_message m c) _
      (handle_message-After q (IsSound q) m c h h h.3) (λ c h. h)

connect-After :
    (q : ℕ) (taken : Bool) (reply : Option Message) (time : ℕ) (c : Client)
    → c.myqid ≡ q
    → length c.my_message.buffer ≡ max_buff_size
    → length c.line ≡ max_buff_size
    → All (IsRequest q) c.sent
    → After q (IsSound q) (connect taken reply time c)
unfolding connect
connect-After q taken reply time c k b l s =
    After-and_then q (IsSound q) (IsSound q) (ask_in taken time c) (let_in reply)
      (ask_in-After q taken time c k b l s) (let_in-After q reply)

-- In a run without SIGINT, if what the user types fits in `line`, whatever the server answers and the kernel
-- takes, the client writes inside its arrays only, and each message it sends is of one of the five types of
-- request, carries the client's own queue and has a buffer of full size.
pub main-After :
    (q : ℕ) (line : List ℕ) (taken : Bool) (reply : Option Message) (time : ℕ) (rs : List Round)
    → length line ≡ max_buff_size
    → All IsFitting rs
    → After q (IsSound q) (main q line taken reply time rs)
unfolding main
main-After q line taken reply time rs l f =
    After-and_then q (IsSound q) (IsSound q) _ (rounds rs)
      (connect-After q taken reply time (fresh q line) refl refl l tt)
      (λ c h. rounds-After q rs c f h)
