-- ===== src/Santa/Workshop.antt =====
-- The threads of lab9/zad1/main.c together.
use operating_systems_agh.Prelude.{
  ℕ, ◌≡◌, Bool, true, false, ◌||◌, Option, none, some, List, [], ◌∷◌, get_elem?, set, replicate,
}
use operating_systems_agh.Santa.{
  reindeer_total, elves_total, to_wait, asleep, woken, at_elves, at_reindeer, WorkerAt, away,
  waiting, called, Shared, elf_routine, reindeer_routine, santa_routine,
}

pub record Workshop : Type 0 where
  pub shared : Shared
  pub elves : List WorkerAt
  pub rindeers : List WorkerAt

abbrev pub is_waiting : WorkerAt → Bool
is_waiting waiting = true
is_waiting _ = false

abbrev pub some_waiting : List WorkerAt → Bool
some_waiting [] = false
some_waiting (w ∷ ws) = is_waiting w || some_waiting ws

-- A signal that reaches thread `n`: it must wait, unless nobody does.
unfoldable pub signal : ℕ → List WorkerAt → Option (List WorkerAt)
signal n ws = elim (get_elem? ws n) [
  | none ↦ elim (some_waiting ws) [ true ↦ none | false ↦ some ws ]
  | some waiting ↦ some (set ws n called)
  | some _ ↦ elim (some_waiting ws) [ true ↦ none | false ↦ some ws ]
]

-- One turn of one thread. The last three constructors are waits that end without a signal.
pub data Step (w : Workshop) : Workshop → Type 0 where
  elf :
      (n : ℕ) {x : WorkerAt} {p : Shared × WorkerAt}
      → get_elem? w.elves n ≡ some x
      → elf_routine w.shared x ≡ some p
      → Step w (record w { shared = p.0; elves = set w.elves n p.1 })
  reindeer :
      (n : ℕ) {x : WorkerAt} {p : Shared × WorkerAt}
      → get_elem? w.rindeers n ≡ some x
      → reindeer_routine w.shared x ≡ some p
      → Step w (record w { shared = p.0; rindeers = set w.rindeers n p.1 })
  santa_alone :
      {s : Shared}
      → santa_routine w.shared w.shared.santa ≡ some (s, false)
      → Step w (record w { shared = s })
  santa_calls_elf :
      (n : ℕ) {s : Shared} {ws : List WorkerAt}
      → w.shared.santa ≡ at_elves
      → santa_routine w.shared at_elves ≡ some (s, true)
      → signal n w.elves ≡ some ws
      → Step w (record w { shared = s; elves = ws })
  santa_calls_reindeer :
      (n : ℕ) {s : Shared} {ws : List WorkerAt}
      → w.shared.santa ≡ at_reindeer
      → santa_routine w.shared at_reindeer ≡ some (s, true)
      → signal n w.rindeers ≡ some ws
      → Step w (record w { shared = s; rindeers = ws })
  elf_wakes :
      (n : ℕ)
      → get_elem? w.elves n ≡ some waiting
      → Step w (record w { elves = set w.elves n called })
  reindeer_wakes :
      (n : ℕ)
      → get_elem? w.rindeers n ≡ some waiting
      → Step w (record w { rindeers = set w.rindeers n called })
  santa_wakes :
      w.shared.santa ≡ asleep → Step w (record w { shared = record w.shared { santa = woken } })

-- What `main` starts. Santa does not lock `santa.mutex`, so a signal that comes before his wait is lost.
abbrev pub start : Workshop
start = record {
  shared = record {
    elves_locked = 0;
    elves_value = 0;
    rindeers_locked = 0;
    rindeers_value = 0;
    santa_value = 0;
    santa = to_wait;
  };
  elves = replicate elves_total away;
  rindeers = replicate reindeer_total away;
}

pub data Reachable : Workshop → Type 0 where
  begin : Reachable start
  next : {w v : Workshop} → Reachable w → Step w v → Reachable v
