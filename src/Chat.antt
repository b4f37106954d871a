-- ===== src/Chat.antt =====
-- lab10/zad1/server.c and message.h: the chat server. `Server` is the process's state, `M` a
-- computation on it; the table `clients` is a list of MAX_CONN slots, a `client*` is an index into
-- it. What the server sends, closes and takes off its epoll set is the list `trace`, oldest first.
-- What `read` and `accept` return is an argument.
mod State
pub mod Mutex
pub mod Ping
pub mod Distinct
pub mod Names
pub mod Delivery
mod Tests
unfoldable pub use State.*
use operating_systems_agh.Prelude.{
  ℕ, zero, suc, ◌+◌, ◌-◌, ◌<◌, ◌≤◌, ◌≡◌, refl, Bool, true, false, not, ◌&&◌, ◌||◌, Option, none,
  some, List, [], ◌∷◌, ◌++◌, arith, ltb, leb, ◌==◌, if◌then◌else◌, length, get_elem?, set, take,
  drop, replicate, codes, c_str, is_terminated, str_eq, overwrite,
}

-- The fields that `delete_client` writes.
pub erased : Client → Client
erased c = record c { state = empty; nickname = set c.nickname 0 0 }

pub delete_client : ℕ → M (Unit {0})
unfolding erased
delete_client j = do c ← slot j; store j (erased c); emit (epoll_del c.fd ∷ close c.fd ∷ [])

-- A message whose other bytes are not set: static storage or an initialiser, so they are zero.
abbrev pub bare : MessageType → Message
bare k = record { kind = k; text = replicate msg_len 0; other_nickname = replicate msg_len 0 }

-- `send_msg` leaves `other_nickname` unset: those bytes are an argument.
abbrev pub sent : List ℕ → MessageType → List ℕ → Message
sent junk k text = record { kind = k; text = take msg_len text; other_nickname = junk }

-- The search of line 46: a slot other than `j` whose nickname is the same string in 16 bytes;
-- `i` is the index of the head of the list.
pub is_taken : ℕ → List ℕ → ℕ → List Client → Bool
is_taken j nick i [] = false
is_taken j nick i (c ∷ cs) =
    not (i == j) && str_eq (take nickname_size nick) (take nickname_size c.nickname)
    || is_taken j nick (i + 1) cs

-- "new client", which the server writes over a nickname that it rejects
abbrev pub rejected_name : List ℕ
rejected_name = codes "new client" ++ 0 ∷ []

-- What `read` leaves in the array: `none` is its return of -1.
abbrev pub with_nick : Client → Option (List ℕ) → Client
with_nick c none = c
with_nick c (some nick) = record c { nickname = overwrite c.nickname nick }

-- Lines 47 to 49; after a failed `read` line 47 writes before the array.
abbrev pub accept_nick : ℕ → Client → Option (List ℕ) → M (Unit {0})
accept_nick j c none s = fault
accept_nick j c (some nick) s =
    store j (record c { nickname = set c.nickname (length nick) 0; state = ready }) s

-- Lines 52 to 55
pub reject_nick : ℕ → Client → M (Unit {0})
unfolding delete_client
reject_nick j c = do
  emit (write c.fd (bare username_taken) ∷ [])
  store j (record c { nickname = overwrite c.nickname rejected_name })
  delete_client j

-- `if (b) m else k`
abbrev pub branch : Bool → M (Unit {0}) → M (Unit {0}) → M (Unit {0})
branch b m k s = elim b [ true ↦ m s | false ↦ k s ]

-- The search of line 46, over the table.
abbrev pub search_nick : ℕ → List ℕ → M Bool
search_nick j nick s = done (is_taken j nick 0 s.clients) s

-- The branch `state == init`. `nick` is what `read` returns, at most 15 bytes.
pub register : ℕ → Client → Option (List ℕ) → M (Unit {0})
unfolding reject_nick is_taken
register j c nick = do
  let c' = with_nick c nick
  store j c'
  lock
  taken ← search_nick j c'.nickname
  branch taken (reject_nick j c') (accept_nick j c' nick)
  unlock

-- Memory that the server sends without having written it: what follows a nickname in the table,
-- and the unset bytes of a message on the stack.
pub record Garbage : Type 0 where
  pub spill : List ℕ
  pub junk : List ℕ

-- `out` after the three calls of `strcat`; `none` is a write or a read outside the arrays.
pub chat_line : List ℕ → List ℕ → Option (List ℕ)
chat_line nick text =
    let line = c_str nick ++ (codes ": " ++ c_str text) in
    if is_terminated nick && is_terminated text && ltb (length line) msg_len
    then some (line ++ replicate (msg_len - length line) 0)
    else none

-- The loop of `msg_tall`
pub tall_writes : Garbage → List ℕ → List Client → List Effect
tall_writes g out [] = []
tall_writes g out (c ∷ cs) =
    if is_empty c.state
    then tall_writes g out cs
    else write c.fd (sent g.junk get out) ∷ tall_writes g out cs

-- The loop of `msg_list`; `send_msg` copies MSG_LEN bytes from a nickname of 16.
pub list_writes : Garbage → ℕ → List Client → List Effect
list_writes g fd [] = []
list_writes g fd (c ∷ cs) =
    if is_empty c.state
    then list_writes g fd cs
    else write fd (sent g.junk get (c.nickname ++ g.spill)) ∷ list_writes g fd cs

-- The loop of `msg_tone`
pub tone_writes : Garbage → List ℕ → List ℕ → List Client → List Effect
tone_writes g name out [] = []
tone_writes g name out (c ∷ cs) =
    if is_empty c.state
    then tone_writes g name out cs
    else if str_eq c.nickname name
    then write c.fd (sent g.junk get out) ∷ tone_writes g name out cs
    else tone_writes g name out cs

abbrev pub table : M (List Client)
table s = done s.clients s

-- `out`, or a fault.
abbrev pub compose : Option (List ℕ) → M (List ℕ)
compose none s = fault
compose (some out) s = done out s

-- The branch for a client that is not in the state `init`, by the type of the message read.
pub on_request : Garbage → ℕ → Client → Message → MessageType → M (Unit {0})
unfolding delete_client chat_line tall_writes list_writes tone_writes
on_request g j c m ping_ = do lock; store j (record c { responding = true }); unlock
on_request g j c m disconnect = do lock; delete_client j; unlock
on_request g j c m stop = do lock; delete_client j; unlock
on_request g j c m tall = do
  out ← compose (chat_line c.nickname m.text)
  cs ← table
  emit (tall_writes g out cs)
on_request g j c m list = do cs ← table; emit (list_writes g c.fd cs)
on_request g j c m tone = do
  out ← compose (chat_line c.nickname m.text)
  cs ← table
  emit (tone_writes g m.other_nickname out cs)
on_request g j c m _ = pure tt

-- What `read` gives, by the size that is asked for.
pub record Input : Type 0 where
  pub nick : Option (List ℕ)
  pub message : Message

pub on_client_message : Garbage → ℕ → Input → M (Unit {0})
on_client_message g j r = do
  c ← slot j
  branch (is_init c.state) (register j c r.nick) (on_request g j c r.message r.message.kind)

-- The search of line 116, from index `i` on
pub find_empty : ℕ → List Client → Option ℕ
find_empty i [] = none
find_empty i (c ∷ cs) = if is_empty c.state then some i else find_empty (i + 1) cs

-- Lines 117 to 124: the return at line 117 leaves the mutex locked.
abbrev pub claim : ℕ → Option ℕ → M (Option ℕ)
claim fd none = pure none
claim fd (some i) = do
  c ← slot i
  store i (record c { fd = fd; state = init; responding = true })
  unlock
  pure (some i)

pub new_client : ℕ → M (Option ℕ)
unfolding find_empty
new_client fd = do lock; cs ← table; claim fd (find_empty 0 cs)

-- The body of the loop of `ping`, on one slot: the slot after it, and what it sends.
pub ping_slot : Client → Client × List Effect
unfolding erased
ping_slot c =
    if is_empty c.state
    then (c, [])
    else if c.responding
    then (record c { responding = false }, write c.fd (bare ping_) ∷ [])
    else (erased c, epoll_del c.fd ∷ close c.fd ∷ [])

pub ping_slots : List Client → List Client × List Effect
unfolding ping_slot
ping_slots [] = ([], [])
ping_slots (c ∷ cs) =
    let (c', es) = ping_slot c in let (cs', fs) = ping_slots cs in (c' ∷ cs', es ++ fs)

-- One round of `ping`, after its `sleep`
pub ping : M (Unit {0})
unfolding ping_slots
ping = do
  lock
  cs ← table
  let (cs', es) = ping_slots cs
  (λ s. done tt (record s { clients = cs'; trace = s.trace ++ es }))
  unlock

-- What `main` gets from `epoll_wait`, and the rounds of the other thread.
pub data Event : Type 0 where
  connection : ℕ → Event
  hangup : ℕ → Event
  readable : ℕ → Input → Event
  ping_round : Event

-- Lines 180 to 192
abbrev pub welcome : ℕ → Option ℕ → M (Unit {0})
welcome fd none = emit (write fd (bare server_full) ∷ close fd ∷ [])
welcome fd (some i) = emit (epoll_add fd ∷ [])

pub on_event : Garbage → Event → M (Unit {0})
on_event g (connection fd) = do i ← new_client fd; welcome fd i
on_event g (hangup j) = do lock; delete_client j; unlock
on_event g (readable j r) = on_client_message g j r
on_event g ping_round = ping

pub serve : Garbage → List Event → M (Unit {0})
serve g [] = pure tt
serve g (e ∷ es) = do on_event g e; serve g es

-- Static storage: every slot is zero.
abbrev pub no_client : Client
no_client = record {
  fd = 0;
  state = empty;
  nickname = replicate nickname_size 0;
  responding = false;
}

abbrev pub start : Server
start = record { clients = replicate max_conn no_client; locked = false; trace = [] }
