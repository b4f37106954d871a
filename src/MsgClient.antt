-- ===== src/MsgClient.antt =====
-- lab6/zad1/client.c: the client of the message queues. `Client` is the process's state; what `scanf`, `msgrcv`,
-- `msgsnd`, `time` and the signals give in one round of the loop is an argument. What is printed is left out but for
-- the messages of other clients.
pub mod Requests
pub mod Session
pub mod Calls
mod Tests
use operating_systems_agh.Prelude.{
  ℕ, zero, suc, ◌+◌, ◌≡◌, Bool, true, false, Option, none, some, List, [], ◌∷◌, ◌++◌, ◌==◌, ltb,
  length, codes, overwrite, replicate, ℤ, pos, negsuc, c_str, if◌then◌else◌,
}
use operating_systems_agh.Command.{Command, qsort, map_command_to_int}
use operating_systems_agh.MsgQueue.{
  Message, Key, max_buff_size, list_command, to_all, to_one, stop, innit, succes, new_message,
  failure, blank,
}

abbrev pub dict : List Command
dict =
    record { str = codes "2ALL"; n = to_all }
    ∷ record { str = codes "2ONE"; n = to_one }
    ∷ record { str = codes "LIST"; n = list_command }
    ∷ record { str = codes "STOP"; n = stop }
    ∷ []

-- `other_id` is the global of that name; `sent` is what the kernel has taken for the server, oldest first.
pub record Client : Type 0 where
  pub my_message : Message
  pub myqid : ℕ
  pub other_id : ℤ
  pub line : List ℕ
  pub removed : Bool
  pub shown : List (List ℕ)
  pub sent : List Message

-- The process goes on, has ended with a status, or has written outside `line`.
pub data Outcome : Type 0 where
  running : Client → Outcome
  exited : ℕ → Client → Outcome
  fault : Outcome

-- The next thing to do, if the process goes on.
abbrev pub and_then : Outcome → (Client → Outcome) → Outcome
and_then (running c) k = k c
and_then (exited n c) k = exited n c
and_then fault k = fault

unfoldable pub end_work : Client → Outcome
end_work c = exited 0 (record c { removed = true })

-- A FAILURE falls through to nothing: `end_work` does not come back.
unfoldable pub handle_message : Message → Client → Outcome
unfolding end_work
handle_message m c = elim (m.kind == new_message) [
  | true ↦ running (record c { shown = c.shown ++ c_str m.buffer ∷ [] })
  | false ↦ elim (m.kind == stop) [
    | true ↦ end_work c
    | false ↦ elim (m.kind == failure) [ true ↦ end_work c | false ↦ running c ]
  ]
]

-- `msgsnd(server_qid, &my_message, ...)`; `taken` is whether the kernel takes it.
abbrev pub send : Bool → Client → Client
send true c = record c { sent = c.sent ++ c.my_message ∷ [] }
send false c = c

-- A send that must succeed.
unfoldable pub send_or_end : Bool → Client → Outcome
unfolding end_work
send_or_end true c = running (send true c)
send_or_end false c = end_work c

unfoldable pub handle_stop_command : Bool → Client → Outcome
unfolding end_work
handle_stop_command taken c =
    let m = record c.my_message {
      kind = stop;
      buffer = overwrite c.my_message.buffer (codes "Stop command!" ++ 0 ∷ []);
    } in
    end_work (send taken (record c { my_message = m }))

unfoldable pub handle_stop_signal : Bool → Client → Outcome
unfolding handle_stop_command
handle_stop_signal taken c = handle_stop_command taken c

unfoldable pub modify_message : ℕ → List ℕ → ℤ → ℕ → Client → Client
modify_message kind text other time c = record c {
  my_message = record c.my_message {
    kind = kind;
    buffer = overwrite c.my_message.buffer (text ++ 0 ∷ []);
    other_id = other;
    time = time;
  };
}

-- What the user and the kernel give in one round. `word` is what `%s` reads and `text` what `%[^\n]` reads; `number` is
-- what `%d` reads, none where there is no number: then `scanf` stops and the text is not read. `pending` are the
-- messages that wait, `taken` is whether the kernel takes the request, and `reply` is what `msgrcv` gives for LIST.
pub record Round : Type 0 where
  pub word : List ℕ
  pub pending : List Message
  pub number : Option ℤ
  pub text : List ℕ
  pub time : ℕ
  pub taken : Bool
  pub reply : Option Message

-- What `scanf` writes to `line`, NUL and all.
pub read_line : List ℕ → Client → Outcome
read_line s c = elim (ltb (length s) max_buff_size) [
  | true ↦ running (record c { line = overwrite c.line (s ++ 0 ∷ []) })
  | false ↦ fault
]

-- Lines 152 to 154
pub drain : List Message → Client → Outcome
unfolding handle_message
drain [] c = running c
drain (m ∷ ms) c = and_then (handle_message m c) (drain ms)

-- `case LIST`
pub list_round : Round → Client → Outcome
unfolding modify_message send_or_end handle_message end_work
list_round r c =
    and_then
      (send_or_end r.taken (modify_message list_command (codes "LIST REQUEST") (negsuc 0) r.time c))
      (λ c. elim r.reply [ none ↦ end_work c | some m ↦ handle_message m c ])

-- `case _2ALL`
pub all_round : Round → Client → Outcome
unfolding read_line modify_message send_or_end
all_round r c =
    and_then (read_line r.text c)
      (λ c. send_or_end r.taken (modify_message to_all (c_str c.line) (negsuc 0) r.time c))

abbrev pub read_number : Round → Client → Outcome
unfolding read_line
read_number r c = elim r.number [
  | none ↦ running c
  | some n ↦ read_line r.text (record c { other_id = n })
]

-- `case _2ONE`
pub one_round : Round → Client → Outcome
unfolding read_line modify_message send_or_end
one_round r c =
    and_then (read_number r c)
      (λ c. send_or_end r.taken (modify_message to_one (c_str c.line) c.other_id r.time c))

-- The `switch` of `main`
pub on_command : ℕ → Round → Client → Outcome
unfolding list_round all_round one_round handle_stop_command
on_command n r c = elim (n == list_command) [
  | true ↦ list_round r c
  | false ↦ elim (n == to_all) [
    | true ↦ all_round r c
    | false ↦ elim (n == to_one) [
      | true ↦ one_round r c
      | false ↦ elim (n == stop) [ true ↦ handle_stop_command r.taken c | false ↦ running c ]
    ]
  ]
]

-- One round of the loop. An unknown word leaves the waiting messages where they are.
pub on_round : Round → Client → Outcome
unfolding read_line drain on_command
on_round r c = and_then (read_line r.word c) (λ c.
    elim (map_command_to_int (qsort dict) (c_str c.line)) [
      | none ↦ running c
      | some d ↦ and_then (drain r.pending c) (on_command d.n r)
    ])

-- The loop, until the rounds are over or the process ends.
pub rounds : List Round → Client → Outcome
unfolding on_round
rounds [] c = running c
rounds (r ∷ rs) c = and_then (on_round r c) (rounds rs)

-- Lines 127 to 133: the request to be let in.
unfoldable pub ask_in : Bool → ℕ → Client → Outcome
unfolding modify_message send_or_end
ask_in taken time c =
    let c = modify_message innit (codes "Innit command") (negsuc 0) time c in
    send_or_end taken (record c { my_message = record c.my_message { key = some c.myqid } })

-- Lines 135 to 141: the answer.
unfoldable pub let_in : Option Message → Client → Outcome
unfolding handle_message end_work
let_in none c = end_work c
let_in (some m) c =
    and_then (handle_message m c)
      (λ c. running (record c { my_message = record c.my_message { client_id = m.client_id } }))

pub connect : Bool → Option Message → ℕ → Client → Outcome
unfolding ask_in let_in
connect taken reply time c = and_then (ask_in taken time c) (let_in reply)

-- The globals before the first call, with the queue that `msgget` gives and what stands in `line`.
abbrev pub fresh : ℕ → List ℕ → Client
fresh qid line = record {
  my_message = blank;
  myqid = qid;
  other_id = pos 0;
  line = line;
  removed = false;
  shown = [];
  sent = [];
}

-- `main` from line 127 on, in a run without SIGINT.
pub main : ℕ → List ℕ → Bool → Option Message → ℕ → List Round → Outcome
unfolding connect rounds
main qid line taken reply time rs = and_then (connect taken reply time (fresh qid line)) (rounds rs)
