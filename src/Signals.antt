-- ===== src/Signals.antt =====
-- lab4/zad1/zadanie1.c: what becomes of a signal that a process ignores, handles or blocks, over fork and exec. The
-- process has of the kernel's state what signal, raise, sigprocmask, sigpending, fork and exec read and write, as POSIX
-- documents it; `output` is what it prints, oldest first.
pub mod Inheritance
mod Tests
use operating_systems_agh.Prelude.{
  ℕ, ◌≡◌, Bool, true, false, not, ◌&&◌, ◌||◌, Option, none, some, List, [], ◌∷◌, ◌++◌, ◌==◌, ltb,
  codes, if◌then◌else◌,
}
use operating_systems_agh.Command.{Command, qsort, map_command_to_int}

abbrev pub ignore_ : ℕ
ignore_ = 1

abbrev pub handler : ℕ
handler = 2

abbrev pub mask : ℕ
mask = 3

abbrev pub pending_ : ℕ
pending_ = 4

abbrev pub fork_ : ℕ
fork_ = 10

abbrev pub exec : ℕ
exec = 11

abbrev pub dict : List Command
dict =
    record { str = codes "ignore"; n = ignore_ }
    ∷ record { str = codes "handler"; n = handler }
    ∷ record { str = codes "mask"; n = mask }
    ∷ record { str = codes "pending"; n = pending_ }
    ∷ []

abbrev pub functions : List Command
functions = record { str = codes "fork"; n = fork_ } ∷ record { str = codes "exec"; n = exec } ∷ []

pub data Disposition : Type 0 where
  by_default ignored handled : Disposition

pub data Output : Type 0 where
  raising handling is_pending not_pending unknown : Output

pub record Process : Type 0 where
  pub pid : ℕ
  pub disposition : Disposition
  pub blocked : Bool
  pub pending : Bool
  pub alive : Bool
  pub output : List Output

abbrev pub print : Output → Process → Process
print o p = record p { output = p.output ++ o ∷ [] }

-- `signal(SIGNAL, d)`; a signal that waits is dropped when it becomes ignored.
unfoldable pub signal : Disposition → Process → Process
signal ignored p = record p { disposition = ignored; pending = false }
signal by_default p = record p { disposition = by_default }
signal handled p = record p { disposition = handled }

abbrev pub signal_handler : Process → Process
signal_handler p = print handling p

-- What a signal that is not blocked does.
abbrev pub deliver : Disposition → Process → Process
deliver by_default p = record p { alive = false }
deliver ignored p = p
deliver handled p = signal_handler p

unfoldable pub raise_signal : Process → Process
raise_signal p = elim p.blocked [
  | true ↦ record (print raising p) { pending = true }
  | false ↦ deliver p.disposition (print raising p)
]

abbrev pub block_signal : Process → Process
block_signal p = record p { blocked = true }

abbrev pub print_is_pending : Process → Process
print_is_pending p = elim p.pending [ true ↦ print is_pending p | false ↦ print not_pending p ]

-- Lines 84 to 87, and the report of PENDING.
unfoldable pub block_and_raise : ℕ → ℕ → Process → Process
unfolding raise_signal
block_and_raise n pid p =
    let q : Process = elim (pid == p.pid) [ true ↦ raise_signal (block_signal p) | false ↦ p ] in
    elim (n == pending_) [ true ↦ print_is_pending q | false ↦ q ]

unfoldable pub process_signal : ℕ → ℕ → Process → Process
unfolding signal raise_signal block_and_raise
process_signal n pid p = elim (n == ignore_) [
  | true ↦ raise_signal (signal ignored p)
  | false ↦ elim (n == handler) [
    | true ↦ raise_signal (signal handled p)
    | false ↦ elim (n == mask || n == pending_) [
      | true ↦ block_and_raise n pid (signal handled p)
      | false ↦ print unknown p
    ]
  ]
]

-- `fork` in the child: the mask and the disposition stay, the signals that wait do not.
abbrev pub forked : ℕ → Process → Process
forked child p = record p { pid = child; pending = false; output = [] }

abbrev pub kept : Disposition → Disposition
kept ignored = ignored
kept _ = by_default

-- `execl`: a handler is forgotten, the rest stays.
abbrev pub executed : Process → Process
executed p = record p { disposition = kept p.disposition }

-- The process at its end and its child, if it has one, or the status of an early end.
pub data Outcome : Type 0 where
  finished : Process → Option Process → Outcome
  failed : ℕ → Outcome

-- With three arguments exec starts `main` again with four, and that one starts nothing more.
unfoldable pub run_exec : ℕ → ℕ → Process → Process
unfolding process_signal
run_exec argc n p =
    let q = process_signal n p.pid p in
    elim (argc == 3) [ true ↦ process_signal n p.pid (executed q) | false ↦ q ]

-- `child` is the number that `fork` gives the child.
unfoldable pub process_function : ℕ → ℕ → ℕ → ℕ → Process → Outcome
unfolding process_signal run_exec
process_function argc child f n p = elim (n == handler && f == exec) [
  | true ↦ failed 1
  | false ↦ elim (f == fork_) [
    | true ↦
        let q = process_signal n p.pid p in
        finished q (some (process_signal n p.pid (forked child q)))
    | false ↦ elim (f == exec) [
      | true ↦ finished (run_exec argc n p) none
      | false ↦ finished (print unknown p) none
    ]
  ]
]

-- `main` on `argc` and the two arguments.
unfoldable pub main : ℕ → ℕ → List ℕ → List ℕ → Process → Outcome
unfolding process_function
main argc child command function p = elim (ltb 4 argc || ltb argc 3) [
  | true ↦ failed 1
  | false ↦ elim (map_command_to_int (qsort dict) command) [
    | none ↦ failed 1
    | some c ↦ elim (map_command_to_int (qsort functions) function) [
      | none ↦ failed 1
      | some f ↦ process_function argc child f.n c.n p
    ]
  ]
]
