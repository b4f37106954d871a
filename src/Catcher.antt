-- ===== src/Catcher.antt =====
-- lab4/zad3: catcher.c and sender.c, two processes that send each other SIGUSR1. A signal that is sent waits at the
-- receiver, one of its kind at most, until the receiver takes it; one to a process that has ended is lost. What stands
-- between two calls of one process is one turn, so a signal may come between `sigqueue` and `sigsuspend`. The arguments
-- of the sender are what `atoi` makes of them, and the time is an argument.
pub mod Order
pub mod Run
pub mod Lost
mod Tests
use operating_systems_agh.Prelude.{
  ℕ, zero, suc, ◌+◌, ◌-◌, ◌≡◌, Bool, true, false, ◌&&◌, Option, none, some, List, [], ◌∷◌, ◌++◌,
  ◌==◌, leb, ℤ, pos, negsuc,
}

abbrev pub count_to_100 : ℕ
count_to_100 = 1

abbrev pub print_actual_time : ℕ
print_actual_time = 2

abbrev pub count_state_change_requests : ℕ
count_state_change_requests = 3

abbrev pub count_actual_time_until_state_change : ℕ
count_actual_time_until_state_change = 4

abbrev pub close_catcher : ℕ
close_catcher = 5

-- What the catcher prints: the status of a signal, a number, a time, the counter, and the last words.
pub data Line : Type 0 where
  status number actual_time requests : ℕ → Line
  closing unknown_command : Line

pub data Life : Type 0 where
  running closed failed : Life

pub record Catcher : Type 0 where
  pub current_request : ℕ
  pub counter : ℕ
  pub life : Life
  pub output : List Line

-- The loop of `counter_function`: `n` rounds left, from `i` on.
pub numbers : ℕ → ℕ → List Line
numbers zero i = []
numbers (suc n) i = number i ∷ numbers n (i + 1)

-- What the `switch` of `handle` prints, or `none` for a command that it does not know.
pub serve : ℕ → ℕ → ℕ → Option (List Line)
unfolding numbers
serve n counter now = elim (n == count_to_100) [
  | true ↦ some (numbers 100 1)
  | false ↦ elim (n == print_actual_time) [
    | true ↦ some (actual_time now ∷ [])
    | false ↦ elim (n == count_state_change_requests) [
      | true ↦ some (requests counter ∷ [])
      | false ↦ elim (n == count_actual_time_until_state_change) [
        | true ↦ some []
        | false ↦ elim (n == close_catcher) [ true ↦ some (closing ∷ []) | false ↦ none ]
      ]
    ]
  ]
]

abbrev pub served : ℕ → Catcher → Option (List Line) → Catcher
served n c (some ls) = record c {
  current_request = n;
  counter = c.counter + 1;
  output = (c.output ++ status n ∷ []) ++ ls;
}
served n c none = record c {
  current_request = n;
  counter = c.counter + 1;
  life = failed;
  output = (c.output ++ status n ∷ []) ++ unknown_command ∷ [];
}

-- `handle` of the catcher, but for its reply.
pub handle : ℕ → ℕ → Catcher → Catcher
unfolding serve
handle n now c = served n c (serve n (c.counter + 1) now)

-- One round of the loop of the catcher's `main`.
pub look : ℕ → Catcher → Catcher
look now c = elim (c.current_request == close_catcher) [
  | true ↦ record c { life = closed }
  | false ↦ elim (c.current_request == 4) [
    | true ↦ record c { output = c.output ++ actual_time now ∷ [] }
    | false ↦ c
  ]
]

-- Where the sender stands, with the arguments that are left: at the head of the loop, between `sigqueue` and
-- `sigsuspend`, in `sigsuspend`, or at the end with a status.
pub data Sender : Type 0 where
  looping sent suspended : List ℤ → Sender
  ended : ℕ → List ℤ → Sender

-- `request` is the signal that waits at the catcher, `reply` whether one waits at the sender.
pub record System : Type 0 where
  pub catcher : Catcher
  pub sender : Sender
  pub request : Option ℕ
  pub reply : Bool

-- `sigqueue` to the catcher
abbrev pub queued : Life → Option ℕ → ℕ → Option ℕ
queued running none n = some n
queued running (some m) n = some m
queued closed r n = r
queued failed r n = r

-- Lines 45 to 53 of sender.c, for an argument.
pub send : ℤ → List ℤ → System → System
send (negsuc n) rest s = record s { sender = ended 1 (negsuc n ∷ rest) }
send (pos n) rest s = elim (leb 1 n && leb n 5) [
  | true ↦ record s { sender = sent rest; request = queued s.catcher.life s.request n }
  | false ↦ record s { sender = ended 1 (pos n ∷ rest) }
]

-- The sender's next call; `none` where it waits or has ended.
pub sender_moves : Sender → System → Option System
unfolding send
sender_moves (looping []) s = some (record s { sender = ended 0 [] })
sender_moves (looping (a ∷ rest)) s = some (send a rest s)
sender_moves (sent rest) s = some (record s { sender = suspended rest })
sender_moves (suspended rest) s = none
sender_moves (ended n rest) s = none

-- The sender takes the signal: `handle` only prints, and a `sigsuspend` comes back.
abbrev pub woken : Sender → Sender
woken (suspended rest) = looping rest
woken other = other

abbrev pub has_ended : Sender → Bool
has_ended (ended n rest) = true
has_ended _ = false

-- The reply of the catcher, which it gives if it has not failed.
abbrev pub replied : Life → Sender → Bool → Bool
replied failed d r = r
replied _ (ended n rest) r = r
replied _ _ r = true

pub catcher_handles : ℕ → ℕ → System → System
unfolding handle
catcher_handles n now s =
    let c = handle n now s.catcher in
    record s { catcher = c; request = none; reply = replied c.life s.sender s.reply }

-- Whose turn it is.
pub data Turn : Type 0 where
  sender_turn : Turn
  sender_takes : Turn
  catcher_takes : ℕ → Turn
  catcher_looks : ℕ → Turn

abbrev pub takes_reply : Bool → System → Option System
takes_reply true s = some (record s { sender = woken s.sender; reply = false })
takes_reply false s = none

abbrev pub takes_request : Life → Option ℕ → ℕ → System → Option System
unfolding catcher_handles
takes_request running (some n) now s = some (catcher_handles n now s)
takes_request running none now s = none
takes_request closed r now s = none
takes_request failed r now s = none

abbrev pub looks : Life → ℕ → System → Option System
unfolding look
looks running now s = some (record s { catcher = look now s.catcher })
looks closed now s = none
looks failed now s = none

pub step : Turn → System → Option System
unfolding sender_moves catcher_handles look
step sender_turn s = sender_moves s.sender s
step sender_takes s = takes_reply s.reply s
step (catcher_takes now) s = takes_request s.catcher.life s.request now s
step (catcher_looks now) s = looks s.catcher.life now s

-- The sender is started with the arguments after the number of the catcher.
abbrev pub start : List ℤ → System
start args = record {
  catcher = record { current_request = 0; counter = 0; life = running; output = [] };
  sender = looping args;
  request = none;
  reply = false;
}

pub data Reachable (s : System) : System → Type 0 where
  here : Reachable s s
  next : {t u : System} (n : Turn) → Reachable s t → step n t ≡ some u → Reachable s u
