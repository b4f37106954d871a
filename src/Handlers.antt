-- ===== src/Handlers.antt =====
-- lab4/zad2/zadanie2.c: a handler that raises its own signal, with and without SA_NODEFER. As POSIX documents it, the
-- signal is blocked while its handler runs unless the flag is set, and a blocked signal is delivered when the handler
-- comes back. `output` is what is printed, oldest first.
pub mod Depth
mod Tests
use operating_systems_agh.Prelude.{
  ℕ, zero, suc, ◌+◌, ◌-◌, Bool, true, false, Option, none, some, List, [], ◌∷◌, ◌++◌, ltb,
}

abbrev pub max_calls : ℕ
max_calls = 4

-- The flags that the program sets.
pub data Flags : Type 0 where
  sa_siginfo sa_nodefer sa_restart : Flags

-- The handlers that the program sets.
pub data Handler : Type 0 where
  info_handler depth_handler : Handler

-- `call_id` and `call_depth` as they are printed.
pub data Line : Type 0 where
  started : ℕ → ℕ → Line
  ended : ℕ → ℕ → Line
  info : Line
  heading : Flags → Line

-- `blocked` is the signal's place in the mask, `pending` whether it waits.
pub record Process : Type 0 where
  pub call_id : ℕ
  pub call_depth : ℕ
  pub flags : Flags
  pub handler : Handler
  pub blocked : Bool
  pub pending : Bool
  pub output : List Line

abbrev pub print : Line → Process → Process
print l p = record p { output = p.output ++ l ∷ [] }

-- `sigaction`, and the two counters
abbrev pub set_sigaction : Flags → Handler → Process → Process
set_sigaction f h p = record p { flags = f; handler = h; call_id = 0; call_depth = 0 }

abbrev pub set_restart : Process → Process
set_restart p = set_sigaction sa_restart depth_handler p

abbrev pub set_nodefer : Process → Process
set_nodefer p = set_sigaction sa_nodefer depth_handler p

abbrev pub set_info : Process → Process
set_info p = set_sigaction sa_siginfo info_handler p

-- Lines 39 to 42
abbrev pub enter : Process → Process
enter p = record (print (started p.call_id p.call_depth) p) {
  call_id = p.call_id + 1;
  call_depth = p.call_depth + 1;
}

-- Lines 48 and 50, with the `current_id` of the call
abbrev pub leave : ℕ → Process → Process
leave current_id p =
    let q = record p { call_depth = p.call_depth - 1 } in print (ended current_id q.call_depth) q

abbrev pub defers : Flags → Bool
defers sa_nodefer = false
defers _ = true

-- The kernel blocks the signal for the handler's time.
abbrev pub mask : Process → Process
mask p = record p { blocked = defers p.flags }

-- `raise(SIGUSR1)` and what the kernel does of it, on fuel: a signal that is blocked waits; else the handler runs, and
-- what waits after it is raised again. `none` is fuel that has run out.
unfoldable mutual
  pub raise : ℕ → Process → Option Process
  raise zero p = none
  raise (suc f) p = elim p.blocked [
    | true ↦ some (record p { pending = true })
    | false ↦ deliver f p.handler p
  ]

  pub deliver : ℕ → Handler → Process → Option Process
  deliver f info_handler p = some (print info p)
  deliver zero depth_handler p = none
  deliver (suc f) depth_handler p = elim (call_again f (enter (mask p))) [
    | none ↦ none
    | some q ↦ unmask f (leave p.call_id q)
  ]

  -- Lines 44 to 46
  pub call_again : ℕ → Process → Option Process
  call_again zero p = none
  call_again (suc f) p = elim (ltb p.call_id max_calls) [ true ↦ raise f p | false ↦ some p ]

  -- The mask is put back, and a signal that waits is delivered.
  pub unmask : ℕ → Process → Option Process
  unmask zero p = none
  unmask (suc f) p = elim p.pending [
    | true ↦ raise f (record p { blocked = false; pending = false })
    | false ↦ some (record p { blocked = false })
  ]

-- `main`: the three flags in turn, each with a signal.
unfoldable pub main : ℕ → Process → Option Process
unfolding raise deliver call_again unmask
main f p = elim (raise f (set_info (print (heading sa_siginfo) p))) [
  | none ↦ none
  | some q ↦ elim (raise f (set_nodefer (print (heading sa_nodefer) q))) [
    | none ↦ none
    | some r ↦ raise f (set_restart (print (heading sa_restart) r))
  ]
]
