-- ===== src/Blocks/Shell.antt =====
-- lab1/zad2/zadanie2.c: the loop that reads commands and works on one array of blocks. zad3a and zad3b
-- have the same loop with other printing. What `wc` writes for a name is a parameter; clocks and prompts
-- are left out.
pub mod Laws
use operating_systems_agh.Prelude.{
  ℕ, zero, suc, ◌+◌, ◌<◌, ◌≡◌, refl, Bool, true, false, ◌||◌, Option, none, some, List, [], ◌∷◌,
  ◌++◌, ◌==◌, if◌then◌else◌, length, get_elem?, codes, c_str, str_eq, tokens, atoi, ℤ, pos, negsuc,
  arith,
}
use operating_systems_agh.Command.{Command, bsearch}
use operating_systems_agh.Blocks.{
  DataBlock, Block, Outcome, returned, exited, fault, initialize_new_block, count_lines_and_words,
  get_block, delete_block, delete_data_block,
}

-- `dict`, as it stands in the file: `main` does not sort it.
abbrev pub dict : List Command
dict =
    record { str = codes "count"; n = 2 }
    ∷ record { str = codes "delete"; n = 4 }
    ∷ record { str = codes "destroy"; n = 5 }
    ∷ record { str = codes "init"; n = 1 }
    ∷ record { str = codes "show"; n = 3 }
    ∷ []

-- `commands` of `validateCommand`
abbrev commands : List (List ℕ)
commands = codes "init" ∷ codes "count" ∷ codes "delete" ∷ codes "destroy" ∷ codes "show" ∷ []

unfoldable pub is_listed : List ℕ → List (List ℕ) → Bool
is_listed command [] = false
is_listed command (c ∷ cs) = str_eq c command || is_listed command cs

unfoldable pub validate_command : List ℕ → Bool
unfolding is_listed
validate_command command = is_listed command commands

-- `data`: NULL, an array, or what is left of one that was freed.
pub data Pointer : Type 0 where
  null : Pointer
  live : DataBlock → Pointer
  freed : Pointer

-- What one line does to the process: it goes on, with what it prints of a block.
pub data Step : Type 0 where
  next : Pointer → List ℕ → Step
  ended : Step
  broken : Step

abbrev pub kept : Outcome DataBlock → Step
kept (returned d) = next (live d) []
kept exited = ended
kept fault = broken

abbrev pub on_live : Pointer → (DataBlock → Step) → Step
on_live null f = broken
on_live (live d) f = f d
on_live freed f = broken

-- `command[strcspn(command, "\n")] = 0`
abbrev pub chomp : List ℕ → List ℕ
chomp [] = []
chomp (c ∷ s) = if c == 10 then [] else c ∷ chomp s

module _ (wc : List ℕ → Option (List ℕ)) where
  abbrev pub init_command : Option (List ℕ) → Step
  init_command none = broken
  init_command (some arg) = next (live (initialize_new_block (atoi arg))) []

  abbrev pub count_command : Option (List ℕ) → Pointer → Step
  count_command none p = broken
  count_command (some arg) p =
      on_live p (λ d. kept (count_lines_and_words d (chomp arg) (wc (chomp arg))))

  abbrev pub shown : Pointer → Outcome Block → Step
  shown p (returned b) = next p (c_str b)
  shown p exited = ended
  shown p fault = broken

  abbrev pub show_command : Option (List ℕ) → Pointer → Step
  show_command none p = broken
  show_command (some arg) p = on_live p (λ d. shown p (get_block d (atoi arg)))

  abbrev pub delete_command : Option (List ℕ) → Pointer → Step
  delete_command none p = broken
  delete_command (some arg) p = on_live p (λ d. kept (delete_block d (atoi arg)))

  abbrev pub destroyed : Outcome DataBlock → Step
  destroyed (returned d) = next freed []
  destroyed exited = ended
  destroyed fault = broken

  abbrev pub destroy_command : Pointer → Step
  destroy_command p = on_live p (λ d. destroyed (delete_data_block d))

  -- The `switch`, on the entry that `bsearch` finds; the argument is the next token, if there is one.
  unfoldable pub execute : Option Command → Option (List ℕ) → Pointer → Step
  execute none arg p = broken
  execute (some c) arg p =
      if c.n == 1
      then init_command arg
      else if c.n == 2
      then count_command arg p
      else if c.n == 3
      then show_command arg p
      else if c.n == 4
      then delete_command arg p
      else if c.n == 5
      then destroy_command p
      else next p []

  abbrev pub find_command : List ℕ → Option Command
  find_command command =
      bsearch (suc (length dict)) dict (record { str = command; n = 0 }) 0 (length dict)

  -- One round of the loop, on the tokens of the line: no token is a NULL `command`.
  unfoldable pub on_tokens : List (List ℕ) → Pointer → Step
  on_tokens [] p = broken
  on_tokens (t ∷ ts) p =
      if validate_command (chomp t)
      then execute (find_command (chomp t)) (get_elem? ts 0) p
      else next p []

  unfoldable pub on_line : List ℕ → Pointer → Step
  on_line line p = on_tokens (tokens (λ c. c == 32) line) p

  -- The loop, and what it has printed of blocks.
  unfoldable pub run : List (List ℕ) → Pointer → List ℕ → Step
  run [] p out = next p out
  run (l ∷ ls) p out = elim (on_line l p) [
    | next p' text ↦ run ls p' (out ++ text)
    | ended ↦ ended
    | broken ↦ broken
  ]
