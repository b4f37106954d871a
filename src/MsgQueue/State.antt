-- ===== src/MsgQueue/State.antt =====
-- lab6/zad1/server.c and headers.h: the requests and replies, the log, and the globals of the server.
use operating_systems_agh.Prelude.{
  ℕ, Bool, true, false, if◌then◌else◌, Option, none, some, List, [], ◌∷◌, ◌++◌, ◌==◌, ℤ,
}

abbrev pub max_clients : ℕ
max_clients = 2

abbrev pub max_buff_size : ℕ
max_buff_size = 255

-- The request and reply types of headers.h.
abbrev pub list_command : ℕ
list_command = 1

abbrev pub to_all : ℕ
to_all = 2

abbrev pub to_one : ℕ
to_one = 3

abbrev pub stop : ℕ
stop = 4

abbrev pub innit : ℕ
innit = 5

abbrev pub succes : ℕ
succes = 10

abbrev pub new_message : ℕ
new_message = 11

abbrev pub failure : ℕ
failure = 12

-- A queue's number, or `none` for -1.
abbrev pub Key : Type 0
Key = Option ℕ

pub record Message : Type 0 where
  pub kind : ℕ
  pub buffer : List ℕ
  pub key : Key
  pub client_id : ℤ
  pub other_id : ℤ
  pub time : ℕ

-- What the handlers write to LOG.txt: the command, who sent it and at what time. The entry of INNIT
-- has the key, the others the client's number; that of _2ONE has the receiver's too.
pub data LogEntry : Type 0 where
  innit_entry : Key → ℕ → LogEntry
  all_entry : ℤ → ℕ → LogEntry
  one_entry : ℤ → ℤ → ℕ → LogEntry
  list_entry : ℤ → ℕ → LogEntry
  stop_entry : ℤ → ℕ → LogEntry

-- `sent` is what the kernel has taken, oldest first.
pub record Server : Type 0 where
  pub queues : List Key
  pub connected : ℤ
  pub message : Message
  pub sent : List (Key × Message)
  pub log : List LogEntry

-- A handler returns, ends the process with a status, or reads outside `queues`.
pub data Outcome : Type 0 where
  running : Server → Outcome
  exited : ℕ → Server → Outcome
  fault : Outcome

abbrev pub is_free : Key → Bool
is_free none = true
is_free (some k) = false

abbrev pub key_eq : Key → Key → Bool
key_eq none none = true
key_eq none (some b) = false
key_eq (some a) none = false
key_eq (some a) (some b) = a == b

abbrev pub logged : LogEntry → Server → Server
logged e s = record s { log = s.log ++ e ∷ [] }

-- What has been sent to the queue `q`.
abbrev pub to : ℕ → List (Key × Message) → List Message
to q [] = []
to q ((k, m) ∷ l) = if key_eq k (some q) then m ∷ to q l else to q l
