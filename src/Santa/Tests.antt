-- ===== src/Santa/Tests.antt =====
-- A run of lab9/zad1/main.c in which the reindeer meet three times.
use operating_systems_agh.Prelude.{
  ℕ, suc, ◌≡◌, refl, ap, true, Option, none, some, List, [], ◌∷◌, get_elem?, set, replicate,
  Option-cases, inl, inr,
}
use operating_systems_agh.Santa.{
  SantaAt, to_wait, woken, at_reindeer, gone, WorkerAt, away, waiting, called, reindeer_routine,
  santa_routine, reindeer_section, signal_santa, help_elves, deliver,
}
use operating_systems_agh.Santa.Workshop.{
  Workshop, signal, Step, reindeer, santa_alone, santa_calls_reindeer, Reachable, begin, next,
}
use operating_systems_agh.Santa.Invariants.{IsOrdered}
use operating_systems_agh.Santa.Order.{Reachable-IsOrdered}

reindeer_turn : ℕ → Workshop → Option Workshop
unfolding reindeer_routine
reindeer_turn n w = elim (get_elem? w.rindeers n) [
  | none ↦ none
  | some x ↦ elim (reindeer_routine w.shared x) [
    | none ↦ none
    | some p ↦ some (record w { shared = p.0; rindeers = set w.rindeers n p.1 })
  ]
]

reindeer_turn-Step : (n : ℕ) (w : Workshop) {v : Workshop} → reindeer_turn n w ≡ some v → Step w v
unfolding reindeer_turn
reindeer_turn-Step n w {v} e = elim (Option-cases (get_elem? w.rindeers n)) [
  | inl f ↦ absurd (cc)
  | inr (x, f) ↦ elim (Option-cases (reindeer_routine w.shared x)) [
    | inl g ↦ absurd (cc)
    | inr (p, g) ↦
        let h : v ≡ record w { shared = p.0; rindeers = set w.rindeers n p.1 } = cc in
        rw (h) (reindeer n {x = x} {p = p} f g)
  ]
]

turns : List ℕ → Workshop → Option Workshop
turns [] w = some w
turns (n ∷ ns) w = elim (reindeer_turn n w) [ none ↦ none | some v ↦ turns ns v ]

turns-Reachable : (ns : List ℕ) {w v : Workshop} → Reachable w → turns ns w ≡ some v → Reachable v
unfolding turns
turns-Reachable [] {w} {v} r e = let h : w ≡ v = cc in rw (← h) r
turns-Reachable (n ∷ ns) {w} r e = elim (Option-cases (reindeer_turn n w)) [
  | inl f ↦ absurd (cc)
  | inr (v, f) ↦ turns-Reachable ns (next r (reindeer_turn-Step n w f)) (cc)
]

-- Eight reindeer come and go, and the ninth wakes Santa up.
abbrev gathering : List ℕ
gathering =
    0 ∷ 0 ∷ 0 ∷ 0 ∷ 0 ∷ 0 ∷ 0 ∷ 0 ∷ 0 ∷ 0 ∷ 0 ∷ 0 ∷ 0 ∷ 0 ∷ 0 ∷ 0 ∷ 0 ∷ 0 ∷ 0 ∷ 0 ∷ 0 ∷ 0 ∷ 0 ∷ 0
    ∷ 1 ∷ 1 ∷ []

abbrev before : ℕ → WorkerAt → SantaAt → ℕ → ℕ → Workshop
before delivered x s value locked = record {
  shared = record {
    elves_locked = 0;
    elves_value = 0;
    rindeers_locked = locked;
    rindeers_value = value;
    santa_value = delivered;
    santa = s;
  };
  elves = replicate 10 away;
  rindeers = away ∷ x ∷ replicate 7 away;
}

-- After a gathering Santa passes the elves, delivers, and calls reindeer 1, who goes out.
round_trip :
    (d : ℕ) (s : SantaAt) (l : ℕ)
    → deliver (record {
      elves_locked = 0;
      elves_value = 0;
      rindeers_locked = 1;
      rindeers_value = 9;
      santa_value = d;
      santa = at_reindeer;
    })
      ≡ (
        record {
          elves_locked = 0;
          elves_value = 0;
          rindeers_locked = l;
          rindeers_value = 0;
          santa_value = suc d;
          santa = s;
        },
        true,
      )
    → Reachable (before d away to_wait 0 0)
    → Reachable (before (suc d) called s 0 l)
unfolding turns reindeer_turn reindeer_routine reindeer_section signal_santa santa_routine
    help_elves signal
round_trip d s l e r =
    let a : Reachable (before d waiting woken 9 0) =
      turns-Reachable gathering (next r (santa_alone refl)) refl in
    let b = next a (santa_alone refl) in
    let c = next b (santa_alone refl) in
    let f = next c (santa_alone refl) in next f (santa_calls_reindeer 1 refl (ap some e) refl)

goes_out : (d : ℕ) → Reachable (before d called to_wait 0 0) → Reachable (before d away to_wait 0 0)
unfolding turns reindeer_turn reindeer_routine reindeer_section
goes_out d r = turns-Reachable (1 ∷ 1 ∷ []) r refl

third_delivery : Reachable (before 3 called gone 0 1)
unfolding deliver
third_delivery =
    round_trip 2 gone 1 refl
      (goes_out 2 (round_trip 1 to_wait 0 refl (goes_out 1 (round_trip 0 to_wait 0 refl begin))))

Reachable-IsOrdered_example : IsOrdered (before 3 called gone 0 1)
Reachable-IsOrdered_example = Reachable-IsOrdered third_delivery
