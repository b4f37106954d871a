-- ===== src/Santa.antt =====
-- lab9/zad1/main.c: Santa, the elves and the reindeer. `Shared` is the three monitors but for `santa.mutex`;
-- a mutex that is held counts 1.
-- Each thread is the place at which it stands, and a step is one turn of one thread: what it does under a mutex is one
-- turn. A wait on a condition may end without a signal, and a signal with nobody there is lost.
pub mod Workshop
pub mod Invariants
pub mod Order
mod Tests
use operating_systems_agh.Prelude.{
  ℕ, zero, suc, ◌+◌, ◌≡◌, Bool, true, false, ◌||◌, Option, none, some, List, [], ◌∷◌, ◌==◌, ltb,
  get_elem?, set, replicate,
}

abbrev pub reindeer_total : ℕ
reindeer_total = 9

abbrev pub elves_total : ℕ
elves_total = 10

abbrev pub elves_required : ℕ
elves_required = 3

-- Where Santa stands: before and in the wait, before and inside the section of the elves, before and inside that of the
-- reindeer, or at the end of his thread.
pub data SantaAt : Type 0 where
  to_wait asleep woken at_elves to_reindeer at_reindeer gone : SantaAt

-- Where an elf or a reindeer stands: outside, inside the section, in the wait, after the wait, before the unlock.
pub data WorkerAt : Type 0 where
  away inside waiting called leaving : WorkerAt

-- The values of the monitors `elves`, `rindeers` and `santa`, the mutexes of the first two, and Santa himself. Only the
-- wait of Santa uses `santa.mutex`, and nothing locks it, so it keeps no thread out and is left out.
pub record Shared : Type 0 where
  pub elves_locked : ℕ
  pub elves_value : ℕ
  pub rindeers_locked : ℕ
  pub rindeers_value : ℕ
  pub santa_value : ℕ
  pub santa : SantaAt

-- `pthread_cond_signal(&santa.condition)`
unfoldable pub signal_santa : SantaAt → SantaAt
signal_santa asleep = woken
signal_santa s = s

-- The section of an elf, up to the wait or the unlock.
unfoldable pub elf_section : Shared → Shared × WorkerAt
unfolding signal_santa
elf_section s = elim (ltb s.elves_value elves_required) [
  | false ↦ (s, leaving)
  | true ↦ elim (s.elves_value + 1 == elves_required) [
    | true ↦ (
      record s { elves_value = s.elves_value + 1; santa = signal_santa s.santa; elves_locked = 0 },
      waiting,
    )
    | false ↦ (record s { elves_value = s.elves_value + 1 }, leaving)
  ]
]

unfoldable pub elf_routine : Shared → WorkerAt → Option (Shared × WorkerAt)
unfolding elf_section
elf_routine s away = elim (s.elves_locked == 0) [
  | true ↦ some (record s { elves_locked = 1 }, inside)
  | false ↦ none
]
elf_routine s inside = some (elf_section s)
elf_routine s waiting = none
elf_routine s called = elim (s.elves_locked == 0) [
  | true ↦ some (record s { elves_locked = 1 }, leaving)
  | false ↦ none
]
elf_routine s leaving = some (record s { elves_locked = 0 }, away)

abbrev pub counted : ℕ → ℕ
counted n = elim (ltb n reindeer_total) [ true ↦ n + 1 | false ↦ n ]

-- The section of a reindeer, up to the wait or the unlock.
unfoldable pub reindeer_section : Shared → Shared × WorkerAt
unfolding signal_santa
reindeer_section s = elim (counted s.rindeers_value == reindeer_total) [
  | true ↦ (
    record s {
      rindeers_value = counted s.rindeers_value;
      santa = signal_santa s.santa;
      rindeers_locked = 0;
    },
    waiting,
  )
  | false ↦ (record s { rindeers_value = counted s.rindeers_value }, leaving)
]

unfoldable pub reindeer_routine : Shared → WorkerAt → Option (Shared × WorkerAt)
unfolding reindeer_section
reindeer_routine s away = elim (s.rindeers_locked == 0) [
  | true ↦ some (record s { rindeers_locked = 1 }, inside)
  | false ↦ none
]
reindeer_routine s inside = some (reindeer_section s)
reindeer_routine s waiting = none
reindeer_routine s called = elim (s.rindeers_locked == 0) [
  | true ↦ some (record s { rindeers_locked = 1 }, leaving)
  | false ↦ none
]
reindeer_routine s leaving = some (record s { rindeers_locked = 0 }, away)

-- Lines 44 to 51, and whether the elves are signalled.
unfoldable pub help_elves : Shared → Shared × Bool
help_elves s = elim (s.elves_value == 3) [
  | true ↦ (record s { elves_value = 0; elves_locked = 0; santa = to_reindeer }, true)
  | false ↦ (record s { elves_locked = 0; santa = to_reindeer }, false)
]

-- Lines 54 to 64, and whether the reindeer are signalled. The exit at line 62 keeps the mutex.
unfoldable pub deliver : Shared → Shared × Bool
deliver s = elim (s.rindeers_value == reindeer_total) [
  | true ↦ elim (s.santa_value + 1 == 3) [
    | true ↦ (record s { santa_value = s.santa_value + 1; rindeers_value = 0; santa = gone }, true)
    | false ↦ (
      record s {
        santa_value = s.santa_value + 1;
        rindeers_value = 0;
        rindeers_locked = 0;
        santa = to_wait;
      },
      true,
    )
  ]
  | false ↦ (record s { rindeers_locked = 0; santa = to_wait }, false)
]

-- Santa's turn, and whether he signals.
unfoldable pub santa_routine : Shared → SantaAt → Option (Shared × Bool)
unfolding help_elves deliver
santa_routine s to_wait = some (record s { santa = asleep }, false)
santa_routine s asleep = none
santa_routine s woken = elim (s.elves_locked == 0) [
  | true ↦ some (record s { elves_locked = 1; santa = at_elves }, false)
  | false ↦ none
]
santa_routine s at_elves = some (help_elves s)
santa_routine s to_reindeer = elim (s.rindeers_locked == 0) [
  | true ↦ some (record s { rindeers_locked = 1; santa = at_reindeer }, false)
  | false ↦ none
]
santa_routine s at_reindeer = some (deliver s)
santa_routine s gone = none
