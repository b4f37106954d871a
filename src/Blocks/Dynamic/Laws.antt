-- ===== src/Blocks/Dynamic/Laws.antt =====
-- lab1/zad2/zadanie2_dl.c against zadanie2.c.
use operating_systems_agh.Prelude.{
  All, false, ℕ, ◌≡◌, refl, ap, ◌∙◌, true, Option, none, some, List, [], ◌∷◌, ◌++◌, ◌==◌, ◌≤◌,
  if◌then◌else◌, get_elem?, tokens, c_str, inl, inr, arith,
}
use operating_systems_agh.Command.{Command}
use operating_systems_agh.Blocks.Shell
use operating_systems_agh.Blocks.Shell.Laws.{
  validate_command-IsName, find_init, find_count, find_show, find_delete, find_destroy,
}
use operating_systems_agh.Blocks.Shell.{
  Pointer, null, live, freed, Step, next, ended, broken, chomp, validate_command, find_command,
}
use operating_systems_agh.Blocks.Dynamic.{
  no_functions, execute, on_tokens, on_line, run, main, memory_block,
}

module _ (wc : List ℕ → Option (List ℕ)) where
  execute_eq :
      (c : Option Command) (arg : Option (List ℕ)) (p : Pointer)
      → execute memory_block wc c arg p ≡ Shell.execute wc c arg p
  unfolding execute Shell.execute
  execute_eq none arg p = refl
  execute_eq (some c) none p = refl
  execute_eq (some c) (some arg) p = refl

  on_tokens_eq :
      (ts : List (List ℕ)) (p : Pointer) → on_tokens memory_block wc ts p ≡ Shell.on_tokens wc ts p
  unfolding on_tokens Shell.on_tokens
  on_tokens_eq [] p = refl
  on_tokens_eq (t ∷ ts) p =
      ap (λ s. if validate_command (chomp t) then s else next p [])
        (execute_eq (find_command wc (chomp t)) (get_elem? ts 0) p)

  on_line_eq :
      (line : List ℕ) (p : Pointer) → on_line memory_block wc line p ≡ Shell.on_line wc line p
  unfolding on_line Shell.on_line
  on_line_eq line p = on_tokens_eq (tokens (λ c. c == 32) line) p

  run_step :
      (l : List ℕ) (ls : List (List ℕ)) (p : Pointer) (out : List ℕ) (s : Step)
      → Shell.on_line wc l p ≡ s
      → ((p' : Pointer) (out' : List ℕ) → run memory_block wc ls p' out' ≡ Shell.run wc ls p' out')
      → run memory_block wc (l ∷ ls) p out ≡ Shell.run wc (l ∷ ls) p out
  unfolding run Shell.run
  run_step l ls p out (next p' text) e rest =
      rw (run, Shell.run, on_line_eq l p, e) (rest p' (out ++ text))
  run_step l ls p out ended e rest = rw (run, Shell.run, on_line_eq l p, e) refl
  run_step l ls p out broken e rest = rw (run, Shell.run, on_line_eq l p, e) refl

  run_eq :
      (lines : List (List ℕ)) (p : Pointer) (out : List ℕ)
      → run memory_block wc lines p out ≡ Shell.run wc lines p out
  unfolding run Shell.run
  run_eq [] p out = refl
  run_eq (l ∷ ls) p out = run_step l ls p out (Shell.on_line wc l p) refl (run_eq ls)

  -- `execute` with no function found, on an entry of the table.
  execute_broken :
      (c : Command) (arg : Option (List ℕ)) (p : Pointer)
      → 1 ≤ c.n
      → c.n ≤ 5
      → execute no_functions wc (some c) arg p ≡ broken
  unfolding execute
  execute_broken c none p lo hi = ground arith
  execute_broken c (some arg) p lo hi = ground arith

  -- The name of a known command leads to an entry of the table.
  known_broken :
      (t : List ℕ) (ts : List (List ℕ)) (p : Pointer) (name : List ℕ) (n : ℕ)
      → validate_command (chomp t) ≡ true
      → chomp t ≡ name
      → find_command wc name ≡ some (record { str = name; n = n })
      → 1 ≤ n
      → n ≤ 5
      → on_tokens no_functions wc (t ∷ ts) p ≡ broken
  unfolding on_tokens
  known_broken t ts p name n known e found lo hi =
      rw (known, ap (find_command wc) e ∙ found)
        (execute_broken (record { str = name; n = n }) (get_elem? ts 0) p lo hi)

  first_broken :
      (t : List ℕ) (ts : List (List ℕ)) (p : Pointer)
      → c_str (chomp t) ≡ chomp t
      → validate_command (chomp t) ≡ true
      → on_tokens no_functions wc (t ∷ ts) p ≡ broken
  first_broken t ts p string known = elim (validate_command-IsName (chomp t) string known) [
    | inl e ↦ known_broken t ts p _ 1 known e (find_init wc) (omega arith) (omega arith)
    | inr (inl e) ↦ known_broken t ts p _ 2 known e (find_count wc) (omega arith) (omega arith)
    | inr (inr (inl e)) ↦
        known_broken t ts p _ 4 known e (find_delete wc) (omega arith) (omega arith)
    | inr (inr (inr (inl e))) ↦
        known_broken t ts p _ 5 known e (find_destroy wc) (omega arith) (omega arith)
    | inr (inr (inr (inr e))) ↦
        known_broken t ts p _ 3 known e (find_show wc) (omega arith) (omega arith)
  ]

  -- The first word of the line is not a command.
  abbrev pub IsUnknown : List ℕ → Type 0
  IsUnknown l =
      (t : List ℕ) × (ts : List (List ℕ)) × (tokens (λ c. c == 32) l ≡ t ∷ ts)
      × (validate_command (chomp t) ≡ false)

  broken_after :
      (before lines : List (List ℕ)) (line t : List ℕ) (ts : List (List ℕ)) (p : Pointer)
      (out : List ℕ)
      → All IsUnknown before
      → tokens (λ c. c == 32) line ≡ t ∷ ts
      → c_str (chomp t) ≡ chomp t
      → validate_command (chomp t) ≡ true
      → run no_functions wc (before ++ line ∷ lines) p out ≡ broken
  unfolding run on_line
  broken_after [] lines line t ts p out h split string known =
      rw (run, on_line, split, first_broken t ts p string known) refl
  broken_after (l ∷ before) lines line t ts p out ((u, us, e, unknown), h) split string known =
      let skipped : on_line no_functions wc l p ≡ next p [] =
        rw (on_line, e, on_tokens, unknown) refl in
      rw (run, skipped) (broken_after before lines line t ts p (out ++ []) h split string known)

  -- zadanie2_dl.c with memoryBlock.so does on all its input what zadanie2.c does. Where `dlopen` finds no library, the
  -- first line whose first word is a known command breaks the process, whatever lines with other first words stand before
  -- it, and whatever comes after it.
  pub main_lem :
      (before lines : List (List ℕ)) (line t : List ℕ) (ts : List (List ℕ))
      → All IsUnknown before
      → tokens (λ c. c == 32) line ≡ t ∷ ts
      → c_str (chomp t) ≡ chomp t
      → validate_command (chomp t) ≡ true
      → ((input : List (List ℕ)) → main (some memory_block) wc input ≡ Shell.run wc input null [])
        × (main none wc (before ++ line ∷ lines) ≡ broken)
  unfolding main
  main_lem before lines line t ts h split string known = (
    λ input. run_eq input null [],
    broken_after before lines line t ts null [] h split string known,
  )
