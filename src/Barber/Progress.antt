-- ===== src/Barber/Progress.antt =====
-- The programs of lab7/zad1/v1 do not block each other for ever.
use operating_systems_agh.Prelude.{
  count_zero, le_count, ℕ, ◌≤◌, ◌≡◌, refl, ap, ◌∙◌, none, some, List, arith, length, get_elem?,
  Option-cases, inl, inr, length-set, get_elem?-some,
}
use operating_systems_agh.Barber.{
  Shared, Client, Barber, Shop, Turn, Reachable, begin, turn, client, barber, step, start,
  client_moves, barber_moves, aquire, to_queue, to_lock, to_push, to_unlock, to_wake, to_chair,
  left, to_sleep, to_pop, to_free_chair, to_free_queue, to_look, chair_total, barber_total,
}
use operating_systems_agh.Barber.Invariants.{in_lock, arriving, waiting, serving, cutting}
use operating_systems_agh.Barber.Semaphores.{step-client, step-barber, Reachable-IsBalanced}

-- No process comes or goes: the barbers stay as many.
step-barbers :
    (w : Shop) (t : Turn) {w' : Shop} → step w t ≡ some w' → length w'.barbers ≡ length w.barbers
step-barbers w (client n h) e = let (c, p, f, g, eq) = step-client w n h e in rw (eq) refl
step-barbers w (barber n) e =
    let (b, p, f, g, eq) = step-barber w n e in rw (eq) (length-set w.barbers n p.1)

Reachable-barbers :
    (memory : List ℕ) {w : Shop} → Reachable memory w → length w.barbers ≡ barber_total
unfolding start
Reachable-barbers memory begin = refl
Reachable-barbers memory (turn {w} t r e) = step-barbers w t e ∙ Reachable-barbers memory r

-- A client who cannot go on.
client_stuck :
    (w : Shop) (n : ℕ) (c : Client)
    → step w (client n 0) ≡ none
    → get_elem? w.clients n ≡ some c
    → client_moves 0 w.shared c ≡ none
unfolding step
client_stuck w n c h e = elim (Option-cases (client_moves 0 w.shared c)) [
  | inl f ↦ f
  | inr (p, f) ↦ absurd (cc)
]

barber_stuck :
    (w : Shop) (n : ℕ) (b : Barber)
    → step w (barber n) ≡ none
    → get_elem? w.barbers n ≡ some b
    → barber_moves w.shared b ≡ none
unfolding step
barber_stuck w n b h e = elim (Option-cases (barber_moves w.shared b)) [
  | inl f ↦ f
  | inr (p, f) ↦ absurd (cc)
]

not_in_lock : (s : Shared) (c : Client) → client_moves 0 s c ≡ none → in_lock c ≡ 0
unfolding client_moves
not_in_lock s to_push e = absurd (cc)
not_in_lock s to_unlock e = absurd (cc)
not_in_lock s _ e = refl

not_arriving :
    (s : Shared) (c : Client) → s.buffer_mutex ≡ 1 → client_moves 0 s c ≡ none → arriving c ≡ 0
unfolding client_moves aquire
not_arriving s to_lock m e = absurd (ground arith)
not_arriving s to_push m e = absurd (cc)
not_arriving s to_unlock m e = absurd (cc)
not_arriving s to_wake m e = absurd (cc)
not_arriving s _ m e = refl

asleep : (s : Shared) (b : Barber) → barber_moves s b ≡ none → (b ≡ to_sleep) × (s.sem_barbers ≡ 0)
unfolding barber_moves aquire
asleep s to_sleep e = ground arith
asleep s to_pop e = absurd (cc)
asleep s to_free_chair e = absurd (cc)
asleep s to_free_queue e = absurd (cc)
asleep s to_look e = absurd (cc)

-- With a place in the queue free and a haircut done for whoever waits, only who has left is stuck.
only_left :
    (s : Shared) (c : Client)
    → s.buffer_mutex ≡ 1
    → s.sem_queue ≡ chair_total
    → waiting c ≤ s.sem_chairs
    → client_moves 0 s c ≡ none
    → c ≡ left
unfolding client_moves aquire
only_left s to_queue m q h e = absurd (ground arith)
only_left s to_lock m q h e = absurd (ground arith)
only_left s to_push m q h e = absurd (cc)
only_left s to_unlock m q h e = absurd (cc)
only_left s to_wake m q h e = absurd (cc)
only_left s to_chair m q h e = absurd (ground arith)
only_left s left m q h e = refl

-- If a run has reached a state in which no process can go on, every client has left.
pub stuck_is_over :
    (memory : List ℕ) {w : Shop}
    → Reachable memory w
    → ((t : Turn) → step w t ≡ none)
    → (n : ℕ) (c : Client) → get_elem? w.clients n ≡ some c
    → c ≡ left
stuck_is_over memory {w} r stuck n c e =
    let s = w.shared in
    let clients_stuck = λ (n : ℕ) (c : Client) (e : get_elem? w.clients n ≡ some c).
      client_stuck w n c (stuck (client n 0)) e in
    let barbers_stuck = λ (n : ℕ) (b : Barber) (e : get_elem? w.barbers n ≡ some b).
      asleep s b (barber_stuck w n b (stuck (barber n)) e) in
    let (mutex, places, waits) = Reachable-IsBalanced memory r in
    let unlocked = count_zero in_lock w.clients (λ n c e. not_in_lock s c (clients_stuck n c e)) in
    let m : s.buffer_mutex ≡ 1 = omega arith in
    let here = count_zero arriving w.clients (λ n c e. not_arriving s c m (clients_stuck n c e)) in
    let idle = count_zero serving w.barbers (λ n b e. ap serving (barbers_stuck n b e).0) in
    let done = count_zero cutting w.barbers (λ n b e. ap cutting (barbers_stuck n b e).0) in
    let (b, f) = get_elem?-some w.barbers 0 (omega (arith, Reachable-barbers memory r)) in
    let z = (barbers_stuck 0 b f).1 in
    only_left s c m (omega arith) (omega (arith, le_count waiting w.clients n e))
      (clients_stuck n c e)
