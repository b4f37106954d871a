-- ===== src/Blocks/Dynamic.antt =====
-- lab1/zad2/zadanie2_dl.c: the shell with the operations of the blocks taken from a library at run time. `dlopen` may
-- find no library; the program goes on, `dlsym` finds no name, and a call of a NULL function breaks the process.
pub mod Laws
use operating_systems_agh.Prelude.{
  ℕ, ◌≡◌, Bool, true, false, Option, none, some, List, [], ◌∷◌, ◌++◌, ◌==◌, if◌then◌else◌,
  get_elem?, codes, c_str, tokens, atoi, ℤ,
}
use operating_systems_agh.Command.{Command}
use operating_systems_agh.Blocks.{
  DataBlock, Block, Outcome, returned, exited, fault, initialize_new_block, count_lines_and_words,
  get_block, delete_block, delete_data_block,
}
use operating_systems_agh.Blocks.Shell.{
  Pointer, null, live, freed, Step, next, ended, broken, kept, on_live, chomp, shown, destroyed,
  validate_command, find_command,
}

-- The operations that `dlsym` finds; each is none where the name is not there.
pub record Functions : Type 0 where
  pub initialize_new_block : Option (ℤ → DataBlock)
  pub count_lines_and_words : Option (DataBlock → List ℕ → Option (List ℕ) → Outcome DataBlock)
  pub get_block : Option (DataBlock → ℤ → Outcome Block)
  pub delete_block : Option (DataBlock → ℤ → Outcome DataBlock)
  pub delete_data_block : Option (DataBlock → Outcome DataBlock)

-- No name is found.
abbrev pub no_functions : Functions
no_functions = record {
  initialize_new_block = none;
  count_lines_and_words = none;
  get_block = none;
  delete_block = none;
  delete_data_block = none;
}

-- Lines 64 to 80: `dlopen` gives the library or NULL.
abbrev pub loaded : Option Functions → Functions
loaded none = no_functions
loaded (some f) = f

-- A call through a pointer to a function.
abbrev pub call {ℓ} : {A : Type ℓ} → Option A → (A → Step) → Step
call none k = broken
call (some f) k = k f

module _ (functions : Functions) (wc : List ℕ → Option (List ℕ)) where
  open functions use {
    initialize_new_block, count_lines_and_words, get_block, delete_block, delete_data_block,
  }

  abbrev pub init_command : Option (List ℕ) → Step
  init_command none = broken
  init_command (some arg) = call initialize_new_block (λ f. next (live (f (atoi arg))) [])

  abbrev pub count_command : Option (List ℕ) → Pointer → Step
  count_command none p = broken
  count_command (some arg) p =
      call count_lines_and_words (λ f. on_live p (λ d. kept (f d (chomp arg) (wc (chomp arg)))))

  abbrev pub show_command : Option (List ℕ) → Pointer → Step
  show_command none p = broken
  show_command (some arg) p = call get_block (λ f. on_live p (λ d. shown wc p (f d (atoi arg))))

  abbrev pub delete_command : Option (List ℕ) → Pointer → Step
  delete_command none p = broken
  delete_command (some arg) p = call delete_block (λ f. on_live p (λ d. kept (f d (atoi arg))))

  abbrev pub destroy_command : Pointer → Step
  destroy_command p = call delete_data_block (λ f. on_live p (λ d. destroyed wc (f d)))

  -- The `switch`
  pub execute : Option Command → Option (List ℕ) → Pointer → Step
  execute none arg p = broken
  execute (some c) arg p =
      if c.n == 1
      then init_command arg
      else if c.n == 2
      then count_command arg p
      else if c.n == 3
      then show_command arg p
      else if c.n == 4
      then delete_command arg p
      else if c.n == 5
      then destroy_command p
      else next p []

  pub on_tokens : List (List ℕ) → Pointer → Step
  unfolding execute
  on_tokens [] p = broken
  on_tokens (t ∷ ts) p =
      if validate_command (chomp t)
      then execute (find_command wc (chomp t)) (get_elem? ts 0) p
      else next p []

  pub on_line : List ℕ → Pointer → Step
  unfolding on_tokens
  on_line line p = on_tokens (tokens (λ c. c == 32) line) p

  -- The loop, and what it has printed of blocks.
  pub run : List (List ℕ) → Pointer → List ℕ → Step
  unfolding on_line
  run [] p out = next p out
  run (l ∷ ls) p out = elim (on_line l p) [
    | next p' text ↦ run ls p' (out ++ text)
    | ended ↦ ended
    | broken ↦ broken
  ]

-- `main`, on the library that `dlopen` finds and the lines of the input.
pub main : Option Functions → (List ℕ → Option (List ℕ)) → List (List ℕ) → Step
unfolding run
main library wc lines = run (loaded library) wc lines null []

-- memoryBlock.so
abbrev pub memory_block : Functions
memory_block = record {
  initialize_new_block = some initialize_new_block;
  count_lines_and_words = some count_lines_and_words;
  get_block = some get_block;
  delete_block = some delete_block;
  delete_data_block = some delete_data_block;
}
