-- ===== src/Command.antt =====
-- The tables of commands that lab1/zad2/zadanie2.c, lab4/zad1/zadanie1.c, lab5/zad1/program.c and
-- lab6/zad1/client.c share: `struct command`, `compare`, and the search of libc's `bsearch` in the table
-- that libc's `qsort` has put in order. Strings are lists of bytes with no NUL.
pub mod Strings
pub mod Sort
pub mod Search
mod Tests
use operating_systems_agh.Prelude.{
  ℕ, zero, suc, ◌+◌, ◌-◌, ◌/◌, ◌≡◌, Bool, true, false, Option, none, some, List, [], ◌∷◌, ◌++◌,
  ◌==◌, ltb, if◌then◌else◌, length, get_elem?, codes,
}

-- `strcmp`: below, equal, above.
pub data Order : Type 0 where
  less equal greater : Order

unfoldable pub strcmp : List ℕ → List ℕ → Order
strcmp [] [] = equal
strcmp [] (y ∷ ys) = less
strcmp (x ∷ xs) [] = greater
strcmp (x ∷ xs) (y ∷ ys) = if ltb x y then less else if ltb y x then greater else strcmp xs ys

-- `struct command`
pub record Command : Type 0 where
  pub str : List ℕ
  pub n : ℕ

-- `compare`
unfoldable pub compare_commands : Command → Command → Order
unfolding strcmp
compare_commands a b = strcmp a.str b.str

-- `qsort` by `compare`
unfoldable pub insert : Command → List Command → List Command
unfolding compare_commands
insert c [] = c ∷ []
insert c (d ∷ ds) = elim (compare_commands d c) [ less ↦ d ∷ insert c ds | _ ↦ c ∷ d ∷ ds ]

unfoldable pub qsort : List Command → List Command
unfolding insert
qsort [] = []
qsort (c ∷ cs) = insert c (qsort cs)

-- `bsearch` for the key in `dict[lo .. hi)`, on fuel.
unfoldable pub bsearch : ℕ → List Command → Command → ℕ → ℕ → Option Command
unfolding compare_commands
bsearch zero dict key lo hi = none
bsearch (suc f) dict key lo hi = elim (ltb lo hi) [
  | false ↦ none
  | true ↦ elim (get_elem? dict ((lo + hi) / 2)) [
    | none ↦ none
    | some c ↦ elim (compare_commands key c) [
      | equal ↦ some c
      | less ↦ bsearch f dict key lo ((lo + hi) / 2)
      | greater ↦ bsearch f dict key ((lo + hi) / 2 + 1) hi
    ]
  ]
]

-- `map_command_to_int`: the entry whose name is the argument. The key's own number is not read.
unfoldable pub map_command_to_int : List Command → List ℕ → Option Command
unfolding bsearch
map_command_to_int dict arg =
    bsearch (suc (length dict)) dict (record { str = arg; n = 0 }) 0 (length dict)
