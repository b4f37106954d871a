-- ===== src/Santa/Order.antt =====
-- Every state of lab9/zad1/main.c that its threads reach is in order.
use operating_systems_agh.Prelude.{
  ℕ, ◌+◌, ◌≡◌, refl, ap, Bool, true, false, none, some, List, get_elem?, set, count, count-set,
  arith,
}
use operating_systems_agh.Santa.{
  SantaAt, at_elves, at_reindeer, gone, WorkerAt, away, inside, waiting, called, leaving, Shared,
  reindeer_routine, santa_routine,
}
use operating_systems_agh.Santa.Workshop.{
  Workshop, Step, elf, reindeer, santa_alone, santa_calls_elf, santa_calls_reindeer, elf_wakes,
  reindeer_wakes, santa_wakes, Reachable, begin, next,
}
use operating_systems_agh.Santa.Invariants.{
  holds, with_elves, with_reindeer, is_gone, IsOrdered, elf_routine_lem, reindeer_routine_lem,
  signal-count, santa_routine_lem,
}

-- Santa's turn, with what his signal leaves of the elves and the reindeer.
santa-IsOrdered :
    (w : Workshop) (x : SantaAt) (s : Shared) (b : Bool) (es rs : List WorkerAt)
    → w.shared.santa ≡ x
    → santa_routine w.shared x ≡ some (s, b)
    → count holds es ≡ count holds w.elves
    → count holds rs ≡ count holds w.rindeers
    → IsOrdered w
    → IsOrdered (record w { shared = s; elves = es; rindeers = rs })
santa-IsOrdered w x s b es rs q e ce cr (v, r, l, o, m, u, g, h) =
    let i = ap with_elves q in
    let j = ap with_reindeer q in
    let k = ap is_gone q in
    let (v', r', l', o', m', u', g', h') =
      santa_routine_lem w.shared x (count holds w.elves) (count holds w.rindeers) q e v r
        (omega arith) o (omega arith) u (omega arith) (omega arith) in
    (v', r', omega arith, o', omega arith, u', g', h')

step-IsOrdered : (w : Workshop) {v : Workshop} → IsOrdered w → Step w v → IsOrdered v
step-IsOrdered w (v, r, l, o, m, u, g, h) (elf n {x} {p} f e) =
    let c = count-set holds w.elves n away f in
    let d = count-set holds w.elves n p.1 f in
    let rest = count holds (set w.elves n away) + with_elves w.shared.santa in
    let (v', l', o', r', m', g', z) = elf_routine_lem w.shared x rest e v (omega arith) o in
    let (s', t', k') = z in
    (v', omega arith, omega arith, o', omega arith, omega arith, omega arith, omega arith)
step-IsOrdered w (v, r, l, o, m, u, g, h) (reindeer n {x} {p} f e) =
    let c = count-set holds w.rindeers n away f in
    let d = count-set holds w.rindeers n p.1 f in
    let rest = count holds (set w.rindeers n away) + with_reindeer w.shared.santa in
    let (r', m', u', v', l', g', z) = reindeer_routine_lem w.shared x rest e r (omega arith) u in
    let (s', t', k') = z in
    (omega arith, r', omega arith, omega arith, omega arith, u', omega arith, omega arith)
step-IsOrdered w i (santa_alone {s} e) =
    santa-IsOrdered w w.shared.santa s false w.elves w.rindeers refl e refl refl i
step-IsOrdered w i (santa_calls_elf n {s} {ws} q e k) =
    santa-IsOrdered w at_elves s true ws w.rindeers q e (signal-count n w.elves k) refl i
step-IsOrdered w i (santa_calls_reindeer n {s} {ws} q e k) =
    santa-IsOrdered w at_reindeer s true w.elves ws q e refl (signal-count n w.rindeers k) i
step-IsOrdered w (v, r, l, o, m, u, g, h) (elf_wakes n f) =
    let c = count-set holds w.elves n called f in (v, r, omega arith, o, m, u, g, h)
step-IsOrdered w (v, r, l, o, m, u, g, h) (reindeer_wakes n f) =
    let c = count-set holds w.rindeers n called f in (v, r, l, o, omega arith, u, g, h)
step-IsOrdered w (v, r, l, o, m, u, g, h) (santa_wakes q) =
    let i = ap with_elves q in
    let j = ap with_reindeer q in
    let k = ap is_gone q in (v, r, omega arith, o, omega arith, u, omega arith, omega arith)

-- In every reachable state the elves count to 3 and the reindeer to 9 at most, each mutex is held by one
-- thread at most, and Santa is gone exactly when he has delivered three times.
pub Reachable-IsOrdered : {w : Workshop} → Reachable w → IsOrdered w
Reachable-IsOrdered begin =
    (omega arith, omega arith, refl, omega arith, refl, omega arith, omega arith, omega arith)
Reachable-IsOrdered (next {w} r s) = step-IsOrdered w (Reachable-IsOrdered r) s

shut_out :
    (s : Shared) (x : WorkerAt) → s.rindeers_locked ≡ 1 → holds x ≡ 0 → reindeer_routine s x ≡ none
unfolding reindeer_routine
shut_out s away l h = ground arith
shut_out s inside l h = absurd (ground arith)
shut_out s waiting l h = refl
shut_out s called l h = ground arith
shut_out s leaving l h = absurd (ground arith)

-- In a reachable state in which Santa is gone no reindeer can go on.
pub gone_shuts_out :
    {w : Workshop} (n : ℕ) {x : WorkerAt}
    → Reachable w
    → w.shared.santa ≡ gone
    → get_elem? w.rindeers n ≡ some x
    → reindeer_routine w.shared x ≡ none
gone_shuts_out {w} n {x} r q f =
    let (v, i, l, o, m, u, g, h) = Reachable-IsOrdered r in
    let j = ap with_reindeer q in
    let c = count-set holds w.rindeers n away f in shut_out w.shared x (omega arith) (omega arith)
