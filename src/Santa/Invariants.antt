-- ===== src/Santa/Invariants.antt =====
-- The monitors of lab9/zad1/main.c in every reachable state.
use operating_systems_agh.Prelude.{
  ℕ, ◌+◌, ◌*◌, ◌≤◌, ◌≡◌, refl, Bool, none, some, List, get_elem?, count, count-set, arith, inl, inr,
  Option-cases,
}
use operating_systems_agh.Santa.{
  reindeer_total, SantaAt, to_wait, asleep, woken, at_elves, to_reindeer, at_reindeer, gone,
  WorkerAt, away, inside, waiting, called, leaving, Shared, elf_routine, elf_section,
  reindeer_routine, reindeer_section, santa_routine, signal_santa, help_elves, deliver,
  elves_required,
}
use operating_systems_agh.Santa.Workshop.{Workshop, signal}

-- Who holds the mutex of the section.
abbrev pub holds : WorkerAt → ℕ
holds inside = 1
holds leaving = 1
holds _ = 0

abbrev pub with_elves : SantaAt → ℕ
with_elves at_elves = 1
with_elves _ = 0

abbrev pub with_reindeer : SantaAt → ℕ
with_reindeer at_reindeer = 1
with_reindeer gone = 1
with_reindeer _ = 0

abbrev pub is_gone : SantaAt → ℕ
is_gone gone = 1
is_gone _ = 0

-- The values in their ranges, each mutex held by one thread or by none (Santa keeps that of the reindeer when he is
-- gone), and Santa gone at the third delivery and not before.
abbrev pub IsOrdered : Workshop → Type 0
IsOrdered w =
    (w.shared.elves_value ≤ elves_required)
    × (w.shared.rindeers_value ≤ reindeer_total)
    × (w.shared.elves_locked ≡ count holds w.elves + with_elves w.shared.santa)
    × (w.shared.elves_locked ≤ 1)
    × (w.shared.rindeers_locked ≡ count holds w.rindeers + with_reindeer w.shared.santa)
    × (w.shared.rindeers_locked ≤ 1)
    × (3 * is_gone w.shared.santa ≤ w.shared.santa_value)
    × (w.shared.santa_value ≤ 2 + is_gone w.shared.santa)

-- A signal moves Santa into no section.
abbrev SamePlace : SantaAt → SantaAt → Type 0
SamePlace a b =
    (with_elves a ≡ with_elves b) × (with_reindeer a ≡ with_reindeer b) × (is_gone a ≡ is_gone b)

pub signal_santa-SamePlace : (a : SantaAt) → SamePlace (signal_santa a) a
unfolding signal_santa
signal_santa-SamePlace to_wait = (refl, refl, refl)
signal_santa-SamePlace asleep = (refl, refl, refl)
signal_santa-SamePlace woken = (refl, refl, refl)
signal_santa-SamePlace at_elves = (refl, refl, refl)
signal_santa-SamePlace to_reindeer = (refl, refl, refl)
signal_santa-SamePlace at_reindeer = (refl, refl, refl)
signal_santa-SamePlace gone = (refl, refl, refl)

-- A turn of an elf changes the elves' monitor only; `rest` is how many others hold its mutex.
pub elf_routine_lem :
    (s : Shared) (x : WorkerAt) (rest : ℕ) {p : Shared × WorkerAt}
    → elf_routine s x ≡ some p
    → s.elves_value ≤ elves_required
    → s.elves_locked ≡ holds x + rest
    → s.elves_locked ≤ 1
    → (p.0.elves_value ≤ elves_required)
      × (p.0.elves_locked ≡ holds p.1 + rest)
      × (p.0.elves_locked ≤ 1)
      × (p.0.rindeers_value ≡ s.rindeers_value)
      × (p.0.rindeers_locked ≡ s.rindeers_locked)
      × (p.0.santa_value ≡ s.santa_value)
      × SamePlace p.0.santa s.santa
unfolding elf_routine elf_section
elf_routine_lem s away rest e v l o = ground arith
elf_routine_lem s inside rest e v l o = ground (arith, signal_santa-SamePlace s.santa)
elf_routine_lem s waiting rest e v l o = absurd (cc)
elf_routine_lem s called rest e v l o = ground arith
elf_routine_lem s leaving rest e v l o = ground arith

pub reindeer_routine_lem :
    (s : Shared) (x : WorkerAt) (rest : ℕ) {p : Shared × WorkerAt}
    → reindeer_routine s x ≡ some p
    → s.rindeers_value ≤ reindeer_total
    → s.rindeers_locked ≡ holds x + rest
    → s.rindeers_locked ≤ 1
    → (p.0.rindeers_value ≤ reindeer_total)
      × (p.0.rindeers_locked ≡ holds p.1 + rest)
      × (p.0.rindeers_locked ≤ 1)
      × (p.0.elves_value ≡ s.elves_value)
      × (p.0.elves_locked ≡ s.elves_locked)
      × (p.0.santa_value ≡ s.santa_value)
      × SamePlace p.0.santa s.santa
unfolding reindeer_routine reindeer_section
reindeer_routine_lem s away rest e v l o = ground arith
reindeer_routine_lem s inside rest e v l o = ground (arith, signal_santa-SamePlace s.santa)
reindeer_routine_lem s waiting rest e v l o = absurd (cc)
reindeer_routine_lem s called rest e v l o = ground arith
reindeer_routine_lem s leaving rest e v l o = ground arith

-- A signal gives nobody a mutex.
pub signal-count :
    (n : ℕ) (ws : List WorkerAt) {vs : List WorkerAt}
    → signal n ws ≡ some vs
    → count holds vs ≡ count holds ws
unfolding signal
signal-count n ws {vs} e = elim (Option-cases (get_elem? ws n)) [
  | inl f ↦ unheard f
  | inr (x, f) ↦ heard x f
]
  where
    unheard : get_elem? ws n ≡ none → count holds vs ≡ count holds ws
    unheard f = ground arith

    heard : (x : WorkerAt) → get_elem? ws n ≡ some x → count holds vs ≡ count holds ws
    heard away f = ground arith
    heard inside f = ground arith
    heard waiting f = ground (arith, count-set holds ws n called f)
    heard called f = ground arith
    heard leaving f = ground arith

-- Santa's turn; `a` and `b` are how many elves and reindeer hold their mutex.
pub santa_routine_lem :
    (s : Shared) (x : SantaAt) (a b : ℕ) {p : Shared × Bool}
    → s.santa ≡ x
    → santa_routine s x ≡ some p
    → s.elves_value ≤ elves_required
    → s.rindeers_value ≤ reindeer_total
    → s.elves_locked ≡ a + with_elves x
    → s.elves_locked ≤ 1
    → s.rindeers_locked ≡ b + with_reindeer x
    → s.rindeers_locked ≤ 1
    → 3 * is_gone x ≤ s.santa_value
    → s.santa_value ≤ 2 + is_gone x
    → (p.0.elves_value ≤ elves_required)
      × (p.0.rindeers_value ≤ reindeer_total)
      × (p.0.elves_locked ≡ a + with_elves p.0.santa)
      × (p.0.elves_locked ≤ 1)
      × (p.0.rindeers_locked ≡ b + with_reindeer p.0.santa)
      × (p.0.rindeers_locked ≤ 1)
      × (3 * is_gone p.0.santa ≤ p.0.santa_value)
      × (p.0.santa_value ≤ 2 + is_gone p.0.santa)
unfolding santa_routine help_elves deliver
santa_routine_lem s to_wait a b q e v r l o m u g h = ground arith
santa_routine_lem s asleep a b q e v r l o m u g h = absurd (cc)
santa_routine_lem s woken a b q e v r l o m u g h = ground arith
santa_routine_lem s at_elves a b q e v r l o m u g h = ground arith
santa_routine_lem s to_reindeer a b q e v r l o m u g h = ground arith
santa_routine_lem s at_reindeer a b q e v r l o m u g h = ground arith
santa_routine_lem s gone a b q e v r l o m u g h = absurd (cc)
