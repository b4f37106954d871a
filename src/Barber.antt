-- ===== src/Barber.antt =====
-- The sleeping barbers: lab7/zad1/v1/barber.c, client.c, queue.c, simulation.c, utils.c and common.h.
-- The shared memory and the four semaphores are one record; each process is the line it stands at; a run
-- is a sequence of turns. A call on a semaphore is one turn, and so is a push or a pop.
pub mod Queue
pub mod Fifo
pub mod Semaphores
pub mod Progress
pub mod Race
pub mod Invariants
mod Tests
use operating_systems_agh.Prelude.{
  ℕ, zero, suc, ◌+◌, ◌≡◌, Bool, true, false, Option, none, some, List, [],
}
use operating_systems_agh.Prelude.{
  ◌∷◌, ◌==◌, length, get_elem?, get_or, set, drop, replicate, c_str,
}
use operating_systems_agh.Prelude.{overwrite, ◌++◌, take}

abbrev pub barber_total : ℕ
barber_total = 3

abbrev pub chair_total : ℕ
chair_total = 2

abbrev pub customers_total : ℕ
customers_total = 8

abbrev pub buffer_size : ℕ
buffer_size = 1024

abbrev pub strlen : List ℕ → ℕ
strlen queue = length (c_str queue)

pub queue_full : List ℕ → Bool
queue_full queue = strlen queue + 1 == buffer_size

pub queue_empty : List ℕ → Bool
queue_empty queue = strlen queue == 0

-- `memcpy(queue, queue + 1, strlen(queue) + 1)`, taken to copy as `memmove` does: the two overlap.
pub queue_pop : List ℕ → List ℕ × ℕ
unfolding queue_empty
queue_pop queue = elim (queue_empty queue) [
  | true ↦ (queue, 0)
  | false ↦
      let moved = take (strlen queue + 1) (drop 1 queue) in
      (overwrite queue moved, get_or queue 0 0)
]

pub queue_push : List ℕ → ℕ → List ℕ
unfolding queue_full
queue_push queue byte = elim (queue_full queue) [
  | true ↦ queue
  | false ↦ let size = strlen queue in set (set queue size byte) (size + 1) 0
]

pub record Shared : Type 0 where
  pub sem_queue : ℕ
  pub sem_chairs : ℕ
  pub sem_barbers : ℕ
  pub buffer_mutex : ℕ
  pub queue : List ℕ

-- The calls of a client, each with the state before it; `random_haircut` gives the byte to push.
pub data Client : Type 0 where
  to_queue to_lock to_push to_unlock to_wake to_chair left : Client

-- The calls of a barber, each with the state before it.
pub data Barber : Type 0 where
  to_sleep to_pop to_free_chair to_free_queue to_look : Barber

-- `aquire`: the caller is blocked at 0.
pub aquire : ℕ → Option ℕ
aquire zero = none
aquire (suc n) = some n

pub release : ℕ → ℕ
release n = suc n

-- A client's next call, with the byte that `random_haircut` gives.
pub client_moves : ℕ → Shared → Client → Option (Shared × Client)
unfolding aquire release queue_push
client_moves haircut s to_queue = elim (aquire s.sem_queue) [
  | none ↦ none
  | some n ↦ some (record s { sem_queue = n }, to_lock)
]
client_moves haircut s to_lock = elim (aquire s.buffer_mutex) [
  | none ↦ none
  | some n ↦ some (record s { buffer_mutex = n }, to_push)
]
client_moves haircut s to_push = some (record s { queue = queue_push s.queue haircut }, to_unlock)
client_moves haircut s to_unlock =
    some (record s { buffer_mutex = release s.buffer_mutex }, to_wake)
client_moves haircut s to_wake = some (record s { sem_barbers = release s.sem_barbers }, to_chair)
client_moves haircut s to_chair = elim (aquire s.sem_chairs) [
  | none ↦ none
  | some n ↦ some (record s { sem_chairs = n }, left)
]
client_moves haircut s left = none

-- A barber's next call. After the last one he looks at the queue, only to sleep longer, and starts again.
pub barber_moves : Shared → Barber → Option (Shared × Barber)
unfolding aquire release queue_pop
barber_moves s to_sleep = elim (aquire s.sem_barbers) [
  | none ↦ none
  | some n ↦ some (record s { sem_barbers = n }, to_pop)
]
barber_moves s to_pop = some (record s { queue = (queue_pop s.queue).0 }, to_free_chair)
barber_moves s to_free_chair = some (record s { sem_chairs = release s.sem_chairs }, to_free_queue)
barber_moves s to_free_queue = some (record s { sem_queue = release s.sem_queue }, to_look)
barber_moves s to_look = some (s, to_sleep)

pub record Shop : Type 0 where
  pub shared : Shared
  pub barbers : List Barber
  pub clients : List Client

pub data Turn : Type 0 where
  client : ℕ → ℕ → Turn
  barber : ℕ → Turn

-- One turn of one process; `none` where there is no such process or it cannot go on.
pub step : Shop → Turn → Option Shop
unfolding client_moves barber_moves
step w (client n haircut) = elim (get_elem? w.clients n) [
  | none ↦ none
  | some c ↦ elim (client_moves haircut w.shared c) [
    | none ↦ none
    | some p ↦ some (record w { shared = p.0; clients = set w.clients n p.1 })
  ]
]
step w (barber n) = elim (get_elem? w.barbers n) [
  | none ↦ none
  | some b ↦ elim (barber_moves w.shared b) [
    | none ↦ none
    | some p ↦ some (record w { shared = p.0; barbers = set w.barbers n p.1 })
  ]
]

pub create_semaphores : List ℕ → Shared
create_semaphores memory = record {
  sem_queue = chair_total;
  sem_chairs = 0;
  sem_barbers = 0;
  buffer_mutex = 1;
  queue = memory;
}

-- What `main` of the simulation starts, on the memory that the system gives.
pub start : List ℕ → Shop
unfolding create_semaphores
start memory = record {
  shared = create_semaphores (set memory 0 0);
  barbers = replicate barber_total to_sleep;
  clients = replicate customers_total to_queue;
}

-- The states that some run of turns reaches.
pub data Reachable (memory : List ℕ) : Shop → Type 0 where
  begin : Reachable memory (start memory)
  turn : {w w' : Shop} (t : Turn) → Reachable memory w → step w t ≡ some w' → Reachable memory w'
