-- ===== src/Salon.antt =====
-- lab7/zad1/v2/main.c: the barbers as one set of three semaphores and a process for each client. Each process is the
-- place at which it stands, and a call on the set, a read or a write of `*last_served` and a test of a loop are turns. A
-- call on the set fails when it has been removed, and then only.
pub mod Invariants
pub mod Runs
pub mod Progress
mod Tests
use operating_systems_agh.Prelude.{
  ℕ, zero, suc, ◌+◌, ◌≡◌, Bool, true, false, Option, none, some, List, [], ◌∷◌, ◌++◌, ltb, leb,
  if◌then◌else◌, get_elem?, set,
}

-- The values of BARBERS, CHAIRS and WAITING_ROOM, whether the set is removed, and `*last_served`.
pub record Shared : Type 0 where
  pub barbers : ℕ
  pub chairs : ℕ
  pub waiting_room : ℕ
  pub removed : Bool
  pub last_served : ℕ

-- What `acquire_sem` does: it waits, gives -1, or takes one and leaves the rest.
pub data Acquired : Type 0 where
  blocked failed : Acquired
  got : ℕ → Acquired

pub acquire_sem : Bool → ℕ → Acquired
acquire_sem true n = failed
acquire_sem false zero = blocked
acquire_sem false (suc n) = got n

pub free_sem : Bool → ℕ → ℕ
free_sem true n = n
free_sem false n = n + 1

pub max : ℕ → ℕ → ℕ
max num1 num2 = if ltb num2 num1 then num1 else num2

-- Where a client stands. In `haircut` (`cutting`, `writing`, `freeing`) the Boolean is whether he has a barber to free
-- after it. `turned` and what follows it is the branch of line 135.
pub data Client : Type 0 where
  at_barbers at_chairs : Client
  cutting freeing : Bool → Client
  writing : Bool → ℕ → Client
  at_room spinning leaving_room walking_out leaving gone : Client
  walked_out : ℕ → Client
  turned turned_spinning turned_leaving turned_chairs : Client

-- The steps of `haircut`.
pub haircut : ℕ → Bool → Shared → Shared × Client
unfolding max
haircut id held s = (s, writing held (max s.last_served id))

pub free_chair : Bool → Shared → Shared × Client
unfolding free_sem
free_chair true s = (record s { chairs = free_sem s.removed s.chairs }, leaving)
free_chair false s = (record s { chairs = free_sem s.removed s.chairs }, gone)

abbrev pub to_chairs : Acquired → Shared → Option (Shared × Client)
to_chairs blocked s = none
to_chairs failed s = some (s, turned)
to_chairs (got n) s = some (record s { barbers = n }, at_chairs)

abbrev pub to_haircut : Acquired → Shared → Option (Shared × Client)
to_haircut blocked s = none
to_haircut failed s = some (s, at_room)
to_haircut (got n) s = some (record s { chairs = n }, cutting true)

abbrev pub to_room : Acquired → Shared → Option (Shared × Client)
to_room blocked s = none
to_room failed s = some (s, walking_out)
to_room (got n) s = some (record s { waiting_room = n }, spinning)

-- Lines 136 and 140 do not look at the result.
abbrev pub to_room_anyway : Acquired → Shared → Option (Shared × Client)
to_room_anyway blocked s = none
to_room_anyway failed s = some (s, turned_spinning)
to_room_anyway (got n) s = some (record s { waiting_room = n }, turned_spinning)

abbrev pub to_haircut_anyway : Acquired → Shared → Option (Shared × Client)
to_haircut_anyway blocked s = none
to_haircut_anyway failed s = some (s, cutting false)
to_haircut_anyway (got n) s = some (record s { chairs = n }, cutting false)

-- A client's next turn.
pub client_moves : ℕ → Shared → Client → Option (Shared × Client)
unfolding acquire_sem free_sem haircut free_chair max
client_moves id s at_barbers = to_chairs (acquire_sem s.removed s.barbers) s
client_moves id s at_chairs = to_haircut (acquire_sem s.removed s.chairs) s
client_moves id s (cutting held) = some (haircut id held s)
client_moves id s (writing held m) = some (record s { last_served = m }, freeing held)
client_moves id s (freeing held) = some (free_chair held s)
client_moves id s at_room = to_room (acquire_sem s.removed s.waiting_room) s
client_moves id s spinning = some (s, if leb id s.last_served then spinning else leaving_room)
client_moves id s leaving_room =
    some (record s { waiting_room = free_sem s.removed s.waiting_room }, cutting true)
client_moves id s walking_out = some (s, walked_out (max s.last_served id))
client_moves id s (walked_out m) = some (record s { last_served = m }, leaving)
client_moves id s leaving = some (record s { barbers = free_sem s.removed s.barbers }, gone)
client_moves id s gone = none
client_moves id s turned = to_room_anyway (acquire_sem s.removed s.waiting_room) s
client_moves id s turned_spinning =
    some (s, if leb id s.last_served then turned_spinning else turned_leaving)
client_moves id s turned_leaving =
    some (record s { waiting_room = free_sem s.removed s.waiting_room }, turned_chairs)
client_moves id s turned_chairs = to_haircut_anyway (acquire_sem s.removed s.chairs) s

-- The clients in the order in which they came; the one at index `n` has the number `n + 1`. `open` is whether the
-- process that lets them in still runs.
pub record Salon : Type 0 where
  pub shared : Shared
  pub clients : List Client
  pub is_open : Bool

pub data Turn : Type 0 where
  client : ℕ → Turn
  arrival interruption : Turn

-- `fork` in the child, line 114.
abbrev pub arrives : Bool → Salon → Option Salon
arrives true w = some (record w { clients = w.clients ++ at_barbers ∷ [] })
arrives false w = none

-- `handle_exit`, on a signal or after a `fork` that failed.
abbrev pub handle_exit : Bool → Salon → Option Salon
handle_exit true w =
    some (record w { shared = record w.shared { removed = true }; is_open = false })
handle_exit false w = none

pub step : Turn → Salon → Option Salon
unfolding client_moves
step (client n) w = elim (get_elem? w.clients n) [
  | none ↦ none
  | some c ↦ elim (client_moves (n + 1) w.shared c) [
    | none ↦ none
    | some p ↦ some (record w { shared = p.0; clients = set w.clients n p.1 })
  ]
]
step arrival w = arrives w.is_open w
step interruption w = handle_exit w.is_open w

-- Lines 93 to 102, on the three arguments: `free_sem` adds one to each.
pub start : ℕ → ℕ → ℕ → Salon
unfolding free_sem
start barbers chairs waiting_room = record {
  shared = record {
    barbers = free_sem false barbers;
    chairs = free_sem false chairs;
    waiting_room = free_sem false waiting_room;
    removed = false;
    last_served = 0;
  };
  clients = [];
  is_open = true;
}

pub data Reachable (b c r : ℕ) : Salon → Type 0 where
  begin : Reachable b c r (start b c r)
  next : {w v : Salon} (t : Turn) → Reachable b c r w → step t w ≡ some v → Reachable b c r v
