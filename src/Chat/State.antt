-- ===== src/Chat/State.antt =====
-- lab10/zad1/server.c and message.h: the table of clients, the messages, and the state with the computations
-- on it that return, wait for the mutex for ever, or go outside an array.
use operating_systems_agh.Prelude.{
  ℕ, ◌≡◌, Bool, true, false, none, some, List, ◌++◌, get_elem?, set,
}

abbrev pub max_conn : ℕ
max_conn = 16

-- `char nickname[16]`
abbrev pub nickname_size : ℕ
nickname_size = 16

-- MSG_LEN, which is also the size of `char out[256]`
abbrev pub msg_len : ℕ
msg_len = 256

-- `message_type` of message.h
pub data MessageType : Type 0 where
  ping_ username_taken server_full disconnect get init_ list tone tall stop : MessageType

pub record Message : Type 0 where
  pub kind : MessageType
  pub text : List ℕ
  pub other_nickname : List ℕ

pub data ClientState : Type 0 where
  empty init ready : ClientState

-- `symbol` and `game_state` are never used.
pub record Client : Type 0 where
  pub fd : ℕ
  pub state : ClientState
  pub nickname : List ℕ
  pub responding : Bool

-- What leaves the process.
pub data Effect : Type 0 where
  write : ℕ → Message → Effect
  epoll_del : ℕ → Effect
  epoll_add : ℕ → Effect
  close : ℕ → Effect

-- `locked` is the state of `mutex`.
pub record Server : Type 0 where
  pub clients : List Client
  pub locked : Bool
  pub trace : List Effect

-- A handler returns, waits for the mutex for ever, or goes outside an array.
pub data Outcome (A : Type 0) : Type 0 where
  done : A → Server → Outcome A
  blocked : Server → Outcome A
  fault : Outcome A

abbrev pub M : Type 0 → Type 0
M A = Server → Outcome A

infixl 5 ◌>>=◌ ◌>>◌
abbrev pub ◌>>=◌ : {A B : Type 0} → M A → (A → M B) → M B
◌>>=◌ m f s = elim (m s) [ done a s' ↦ f a s' | blocked s' ↦ blocked s' | fault ↦ fault ]

abbrev pub ◌>>◌ : {A B : Type 0} → M A → M B → M B
◌>>◌ m k s = elim (m s) [ done a s' ↦ k s' | blocked s' ↦ blocked s' | fault ↦ fault ]

-- A step that comes back hands its state on.
pub >>-eq-done :
    {A B : Type 0} (m : M A) (k : M B) (s : Server) {a : A} {t : Server}
    → m s ≡ done a t
    → (m >> k) s ≡ k t
>>-eq-done m k s h = rw (h, ◌>>◌)

abbrev pub pure : {A : Type 0} → A → M A
pure a s = done a s

-- `pthread_mutex_lock`, called by the thread that holds the mutex or by another.
abbrev pub lock : M (Unit {0})
lock s = elim s.locked [ true ↦ blocked s | false ↦ done tt (record s { locked = true }) ]

abbrev pub unlock : M (Unit {0})
unlock s = done tt (record s { locked = false })

abbrev pub emit : List Effect → M (Unit {0})
emit es s = done tt (record s { trace = s.trace ++ es })

-- `*client`
abbrev pub slot : ℕ → M Client
slot j s = elim (get_elem? s.clients j) [ none ↦ fault | some c ↦ done c s ]

abbrev pub store : ℕ → Client → M (Unit {0})
store j c s = done tt (record s { clients = set s.clients j c })

abbrev pub is_empty : ClientState → Bool
is_empty empty = true
is_empty _ = false

abbrev pub is_init : ClientState → Bool
is_init init = true
is_init _ = false
