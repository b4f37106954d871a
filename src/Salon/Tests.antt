-- ===== src/Salon/Tests.antt =====
-- A run of lab7/zad1/v2/main.c with two clients.
use operating_systems_agh.Prelude.{
  ℕ, ◌≡◌, refl, true, false, Option, none, some, List, [], ◌∷◌, get_elem?, All-get_elem?,
  Option-cases, inl, inr,
}
use operating_systems_agh.Salon.{
  Salon, gone, Turn, client, arrival, step, start, free_sem, Reachable, begin, next, client_moves,
}
use operating_systems_agh.Salon.Runs.{IsFairOrRemoved, Reachable-IsFair}
use operating_systems_agh.Salon.Progress.{stuck_are_gone}

run : List Turn → Salon → Option Salon
run [] w = some w
run (t ∷ ts) w = elim (step t w) [ none ↦ none | some v ↦ run ts v ]

run-Reachable :
    (b c r : ℕ) (ts : List Turn) {w v : Salon}
    → Reachable b c r w
    → run ts w ≡ some v
    → Reachable b c r v
unfolding run
run-Reachable b c r [] {w} {v} h e = let f : w ≡ v = cc in rw (← f) h
run-Reachable b c r (t ∷ ts) {w} h e = elim (Option-cases (step t w)) [
  | inl f ↦ absurd (cc)
  | inr (v, f) ↦ run-Reachable b c r ts (next t h f) (cc)
]

abbrev over : Salon
over = record {
  shared = record { barbers = 1; chairs = 2; waiting_room = 1; removed = false; last_served = 2 };
  clients = gone ∷ gone ∷ [];
  is_open = true;
}

abbrev turns : List Turn
turns =
    arrival
    ∷ arrival
    ∷ client 0
    ∷ client 0
    ∷ client 0
    ∷ client 0
    ∷ client 0
    ∷ client 0
    ∷ client 1
    ∷ client 1
    ∷ client 1
    ∷ client 1
    ∷ client 1
    ∷ client 1
    ∷ []

over-Reachable : Reachable 0 1 0 over
unfolding run step start free_sem client_moves
over-Reachable = run-Reachable 0 1 0 turns begin refl

over-stuck : (n : ℕ) → step (client n) over ≡ none
unfolding step client_moves
over-stuck n = elim (Option-cases (get_elem? over.clients n)) [
  | inl e ↦ rw (e) refl
  | inr (c, e) ↦
      let f = All-get_elem? (λ c. c ≡ gone) over.clients n (refl, (refl, tt)) e in rw (e, f) refl
]

Reachable-IsFair_example : IsFairOrRemoved 0 1 0 over
Reachable-IsFair_example = Reachable-IsFair 0 1 0 over-Reachable

stuck_are_gone_example : gone ≡ gone
stuck_are_gone_example = stuck_are_gone 0 1 0 over-Reachable refl over-stuck 1 gone refl
