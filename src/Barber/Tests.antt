-- ===== src/Barber/Tests.antt =====
-- Runs of the programs of lab7/zad1/v1 on small inputs.
use operating_systems_agh.Prelude.{
  ℕ, ◌≡◌, refl, true, false, Option, none, some, List, [], ◌∷◌, ◌++◌, arith, get_elem?,
  Option-cases, inl, inr, replicate, All-get_elem?, c_str, is_terminated,
}
use operating_systems_agh.Barber.{
  Shop, Turn, Reachable, begin, turn, client, barber, step, start, client_moves, barber_moves,
  aquire, release, create_semaphores, queue_push, queue_pop, queue_full, queue_empty, left,
  to_sleep,
}
use operating_systems_agh.Barber.Fifo.{pop_times-push_each, pop_times, push_each}
use operating_systems_agh.Barber.Invariants.{IsBalanced}
use operating_systems_agh.Barber.Semaphores.{Reachable-IsBalanced}
use operating_systems_agh.Barber.Race.{at_test, popped, pop_turns, two, race_loses_second}
use operating_systems_agh.Barber.Progress.{stuck_is_over}

-- A sequence of turns, each of which some process can make.
run : List Turn → Shop → Option Shop
run [] w = some w
run (t ∷ ts) w = elim (step w t) [ none ↦ none | some v ↦ run ts v ]

run-Reachable :
    (memory : List ℕ) (ts : List Turn) {w v : Shop}
    → Reachable memory w
    → run ts w ≡ some v
    → Reachable memory v
unfolding run
run-Reachable memory [] {w} r e = rw (← same e) r
  where
    same : {w v : Shop} → some w ≡ some v → w ≡ v
    same e = cc
run-Reachable memory (t ∷ ts) {w} r e = elim (Option-cases (step w t)) [
  | inl f ↦ absurd (cc)
  | inr (v, f) ↦ run-Reachable memory ts (turn t r f) (cc)
]

-- Client `n` comes in and calls barber 0, who serves him.
abbrev visit : ℕ → List Turn
visit n =
    client n 7
    ∷ client n 7
    ∷ client n 7
    ∷ client n 7
    ∷ client n 7
    ∷ barber 0
    ∷ barber 0
    ∷ barber 0
    ∷ barber 0
    ∷ barber 0
    ∷ client n 7
    ∷ []

abbrev day : List Turn
day = visit 0 ++ visit 1 ++ visit 2 ++ visit 3 ++ visit 4 ++ visit 5 ++ visit 6 ++ visit 7

abbrev memory : List ℕ
memory = 0 ∷ 0 ∷ 0 ∷ []

abbrev over : Shop
over = record {
  shared = record {
    sem_queue = 2;
    sem_chairs = 0;
    sem_barbers = 0;
    buffer_mutex = 1;
    queue = memory;
  };
  barbers = replicate 3 to_sleep;
  clients = replicate 8 left;
}

run-day : run day (start memory) ≡ some over
unfolding run step start create_semaphores client_moves barber_moves aquire release queue_push
    queue_pop queue_full queue_empty c_str
run-day = refl

over-stuck : (t : Turn) → step over t ≡ none
unfolding step client_moves barber_moves aquire
over-stuck (client n h) = elim (Option-cases (get_elem? over.clients n)) [
  | inl e ↦ rw (e) refl
  | inr (c, e) ↦
      let f =
        All-get_elem? (λ c. c ≡ left) over.clients n
          (refl, (refl, (refl, (refl, (refl, (refl, (refl, (refl, tt)))))))) e in
      rw (e, f) refl
]
over-stuck (barber n) = elim (Option-cases (get_elem? over.barbers n)) [
  | inl e ↦ rw (e) refl
  | inr (b, e) ↦
      let f = All-get_elem? (λ b. b ≡ to_sleep) over.barbers n (refl, (refl, (refl, tt))) e in
      rw (e, f) refl
]

stuck_is_over_example : left ≡ left
stuck_is_over_example =
    stuck_is_over memory (run-Reachable memory day begin run-day) over-stuck 5 left refl

Reachable-IsBalanced_example : IsBalanced over
Reachable-IsBalanced_example = Reachable-IsBalanced memory (run-Reachable memory day begin run-day)

pop_times-push_each_example :
    pop_times 2 (push_each (replicate 1024 0) (65 ∷ 66 ∷ [])) ≡ 65 ∷ 66 ∷ []
unfolding queue_empty c_str is_terminated
pop_times-push_each_example =
    pop_times-push_each (replicate 1024 0) (65 ∷ 66 ∷ []) (refl, refl) refl
      (λ e. omega arith, (λ e. omega arith, tt)) (omega arith)

race_loses_second_example :
    (r : List ℕ) × (c_str r ≡ [])
    × (pop_turns (true ∷ true ∷ false ∷ false ∷ []) (two (5 ∷ 7 ∷ replicate 1022 0) at_test at_test)
        ≡ two r (popped 5) (popped 7))
    × (pop_turns (true ∷ false ∷ true ∷ false ∷ []) (two (5 ∷ 7 ∷ replicate 1022 0) at_test at_test)
        ≡ two r (popped 5) (popped 5))
unfolding c_str is_terminated
race_loses_second_example = race_loses_second (5 ∷ 7 ∷ replicate 1022 0) 5 7 [] (refl, refl) refl
