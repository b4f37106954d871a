-- ===== src/Signals/Inheritance.antt =====
-- What lab4/zad1/zadanie1.c shows of signals: nobody dies of them, and what the child has of its parent.
use operating_systems_agh.Prelude.{
  ℕ, ◌≡◌, ◌≢◌, refl, ap, ◌∙◌, true, false, ◌&&◌, ◌||◌, none, some, List, [], ◌∷◌, ◌++◌, ◌==◌, ltb,
  arith, Bool-cases, Option-cases, inl, inr,
}
use operating_systems_agh.Command.{qsort, map_command_to_int}
use operating_systems_agh.Signals.{
  Process, Outcome, finished, failed, handled, raising, is_pending, not_pending, dict, functions,
  handler, pending_, fork_, exec, signal, raise_signal, block_and_raise, process_signal,
  process_function, run_exec, forked, executed, main,
}

process_signal-alive : (n pid : ℕ) (p : Process) → (process_signal n pid p).alive ≡ p.alive
unfolding process_signal signal raise_signal block_and_raise
process_signal-alive n pid p = ground arith

-- The processes of an outcome are alive.
abbrev pub IsAlive : Outcome → Type 0
IsAlive (finished p none) = p.alive ≡ true
IsAlive (finished p (some c)) = (p.alive ≡ true) × (c.alive ≡ true)
IsAlive (failed n) = Unit

run_exec-alive : (argc n : ℕ) (p : Process) → (run_exec argc n p).alive ≡ p.alive
unfolding run_exec
run_exec-alive argc n p = ground (
  arith,
  process_signal-alive n p.pid p,
  process_signal-alive n p.pid (executed (process_signal n p.pid p)),
)

process_function-IsAlive :
    (argc child f n : ℕ) (p : Process)
    → p.alive ≡ true
    → IsAlive (process_function argc child f n p)
unfolding process_function
process_function-IsAlive argc child f n p h = elim (Bool-cases (n == handler && f == exec)) [
  | inl a ↦ rw (a, IsAlive) tt
  | inr a ↦ elim (Bool-cases (f == fork_)) [
    | inl b ↦
        let q = process_signal-alive n p.pid p in
        let c = process_signal-alive n p.pid (forked child (process_signal n p.pid p)) in
        rw (a, b, IsAlive) (q ∙ h, c ∙ q ∙ h)
    | inr b ↦ elim (Bool-cases (f == exec)) [
      | inl c ↦ rw (a, b, c, IsAlive) (run_exec-alive argc n p ∙ h)
      | inr c ↦ rw (a, b, c, IsAlive) h
    ]
  ]
]

-- Whatever the arguments, the signal that the program sends itself ends neither it nor its child.
pub main-IsAlive :
    (argc child : ℕ) (command function : List ℕ) (p : Process)
    → p.alive ≡ true
    → IsAlive (main argc child command function p)
unfolding main
main-IsAlive argc child command function p h = elim (Bool-cases (ltb 4 argc || ltb argc 3)) [
  | inl a ↦ rw (a, IsAlive) tt
  | inr a ↦ elim (Option-cases (map_command_to_int (qsort dict) command)) [
    | inl b ↦ rw (a, b, IsAlive) tt
    | inr (c, b) ↦ elim (Option-cases (map_command_to_int (qsort functions) function)) [
      | inl d ↦ rw (a, b, d, IsAlive) tt
      | inr (f, d) ↦ rw (a, b, d, IsAlive) (process_function-IsAlive argc child f.n c.n p h)
    ]
  ]
]

-- The process itself with `pending`.
abbrev blocked_one : Process → Process
blocked_one p = record p {
  disposition = handled;
  blocked = true;
  pending = true;
  output = (p.output ++ raising ∷ []) ++ is_pending ∷ [];
}

process_signal_self : (p : Process) → process_signal pending_ p.pid p ≡ blocked_one p
unfolding process_signal signal raise_signal block_and_raise
process_signal_self p = let a : (p.pid == p.pid) ≡ true = ground arith in rw (a) refl

process_signal_other :
    (pid : ℕ) (p : Process)
    → pid ≢ p.pid
    → p.pending ≡ false
    → process_signal pending_ pid p
      ≡ record p { disposition = handled; output = p.output ++ not_pending ∷ [] }
unfolding process_signal signal raise_signal block_and_raise
process_signal_other pid p ne e = let a : (pid == p.pid) ≡ false = ground arith in rw (a, e) refl

abbrev orphan : ℕ → Process → Process
orphan child p = record (forked child (blocked_one p)) {
  disposition = handled;
  output = not_pending ∷ [];
}

-- With `pending` and `fork` the process finds the signal pending; its child, whose number is another,
-- inherits the mask but finds no signal pending.
pub fork_drops_pending :
    (argc child : ℕ) (p : Process)
    → p.pid ≢ child
    → (q : Process) × (c : Process) × (process_function argc child fork_ pending_ p
        ≡ finished q (some c))
      × (q.pending ≡ true)
      × (q.output ≡ (p.output ++ raising ∷ []) ++ is_pending ∷ [])
      × (c.blocked ≡ true)
      × (c.pending ≡ false)
      × (c.output ≡ not_pending ∷ [])
unfolding process_function
fork_drops_pending argc child p ne =
    let e = process_signal_other p.pid (forked child (blocked_one p)) ne refl in
    let f = process_signal_self p in
    let h =
      ap (λ q. finished q (some (process_signal pending_ p.pid (forked child q)))) f
      ∙ ap (λ c. finished (blocked_one p) (some c)) e in
    (blocked_one p, orphan child p, h, refl, refl, refl, refl, refl)

-- With `pending` and `exec` and three arguments, the signal that waits before exec waits after it too.
pub exec_keeps_pending :
    (p : Process)
    → (q : Process) × (process_function 3 0 exec pending_ p ≡ finished q none)
      × (q.pending ≡ true)
      × (q.output
          ≡ (((p.output ++ raising ∷ []) ++ is_pending ∷ []) ++ raising ∷ []) ++ is_pending ∷ [])
unfolding process_function run_exec
exec_keeps_pending p =
    let f = process_signal_self p in
    let e = process_signal_self (executed (blocked_one p)) in
    let h =
      ap (λ q. finished (process_signal pending_ p.pid (executed q)) none) f
      ∙ ap (λ q. finished q none) e in
    (blocked_one (executed (blocked_one p)), h, refl, refl)
