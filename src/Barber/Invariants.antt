-- ===== src/Barber/Invariants.antt =====
-- What the semaphores of lab7/zad1/v1 count, in every state that a run reaches.
use operating_systems_agh.Prelude.{count, ℕ, ◌+◌, ◌≡◌, some, arith}
use operating_systems_agh.Barber.{
  Shared, Client, Barber, Shop, client_moves, barber_moves, aquire, release, to_queue, to_lock,
  to_push, to_unlock, to_wake, to_chair, left, to_sleep, to_pop, to_free_chair, to_free_queue,
  to_look, chair_total,
}

-- A client between the calls on `buffer_mutex`.
abbrev pub in_lock : Client → ℕ
in_lock to_push = 1
in_lock to_unlock = 1
in_lock _ = 0

-- A client with a place in the queue who has not called a barber.
abbrev pub arriving : Client → ℕ
arriving to_lock = 1
arriving to_push = 1
arriving to_unlock = 1
arriving to_wake = 1
arriving _ = 0

-- A client who has called a barber.
abbrev pub waiting : Client → ℕ
waiting to_chair = 1
waiting _ = 0

-- A barber who has not given back the place in the queue.
abbrev pub serving : Barber → ℕ
serving to_pop = 1
serving to_free_chair = 1
serving to_free_queue = 1
serving _ = 0

-- A barber who has not let his client go.
abbrev pub cutting : Barber → ℕ
cutting to_pop = 1
cutting to_free_chair = 1
cutting _ = 0

-- One client is inside the lock or the mutex is free; every place of the queue is free, held by a client, in
-- a call to the barbers or in a barber's hands; whoever waits is called, served or let go.
abbrev pub IsBalanced : Shop → Type 0
IsBalanced w =
    (w.shared.buffer_mutex + count in_lock w.clients ≡ 1)
    × (w.shared.sem_queue
          + count arriving w.clients
          + w.shared.sem_barbers
          + count serving w.barbers
        ≡ chair_total)
    × (count waiting w.clients
        ≡ w.shared.sem_barbers + count cutting w.barbers + w.shared.sem_chairs)

-- What a client's call moves between the counts.
pub client_moves-balance :
    (h : ℕ) (s : Shared) (c : Client) {p : Shared × Client}
    → client_moves h s c ≡ some p
    → (p.0.buffer_mutex + in_lock p.1 ≡ s.buffer_mutex + in_lock c)
      × (p.0.sem_queue + p.0.sem_barbers + arriving p.1 ≡ s.sem_queue + s.sem_barbers + arriving c)
      × (waiting p.1 + s.sem_barbers + s.sem_chairs ≡ waiting c + p.0.sem_barbers + p.0.sem_chairs)
unfolding client_moves aquire release
client_moves-balance h s to_queue e = ground arith
client_moves-balance h s to_lock e = ground arith
client_moves-balance h s to_push e = ground arith
client_moves-balance h s to_unlock e = ground arith
client_moves-balance h s to_wake e = ground arith
client_moves-balance h s to_chair e = ground arith
client_moves-balance h s left e = absurd (cc)

pub barber_moves-balance :
    (s : Shared) (b : Barber) {p : Shared × Barber}
    → barber_moves s b ≡ some p
    → (p.0.buffer_mutex ≡ s.buffer_mutex)
      × (p.0.sem_queue + p.0.sem_barbers + serving p.1 ≡ s.sem_queue + s.sem_barbers + serving b)
      × (p.0.sem_barbers + p.0.sem_chairs + cutting p.1 ≡ s.sem_barbers + s.sem_chairs + cutting b)
unfolding barber_moves aquire release
barber_moves-balance s to_sleep e = ground arith
barber_moves-balance s to_pop e = ground arith
barber_moves-balance s to_free_chair e = ground arith
barber_moves-balance s to_free_queue e = ground arith
barber_moves-balance s to_look e = ground arith
