-- ===== src/DirSize.antt =====
-- lab2/zad3/countSize.c and lab2/zad4/zad4.c: the sizes of the files of a directory, and of all files below one, added
-- up. What `readdir`, `stat` and `ftw` give is an argument; `opendir` is taken to succeed.
pub mod Laws
mod Tests
use operating_systems_agh.Prelude.{
  ℕ, ◌+◌, ◌≡◌, Bool, true, false, Option, none, some, List, [], ◌∷◌, ◌++◌, ◌==◌, ltb, if◌then◌else◌,
}

-- `S_ISDIR(st_mode)` and `st_size`
pub record Stat : Type 0 where
  pub is_dir : Bool
  pub size : ℕ

-- An object with its name and what `stat` says of it, none if it fails. `block` is what stands in the memory that `stat`
-- would have written.
pub record Object : Type 0 where
  pub name : List ℕ
  pub stat : Option Stat
  pub block : Stat

-- What is printed.
pub data Line : Type 0 where
  file : List ℕ → ℕ → Line
  went_wrong : Line
  total_size : ℕ → Line

-- `totalSize` or `size`, and the lines so far.
pub record Sum : Type 0 where
  pub total : ℕ
  pub lines : List Line

abbrev pub no_sum : Sum
no_sum = record { total = 0; lines = [] }

-- The first number that is no `long long`
abbrev pub limit : ℕ
limit = 9223372036854775808

-- What the program reads of an object: after a failed `stat`, the block as it is.
unfoldable pub read_stat : Object → Stat
read_stat o = elim o.stat [ none ↦ o.block | some st ↦ st ]

-- `totalSize += st_size`; none is an overflow.
pub add_size : List ℕ → ℕ → Sum → Option Sum
add_size name size s =
    if ltb (s.total + size) limit
    then some (record { total = s.total + size; lines = s.lines ++ file name size ∷ [] })
    else none

-- The body of `display_info`, and lines 19 to 24 of countSize.c.
pub count_object : Object → Sum → Option Sum
unfolding read_stat add_size
count_object o s = if (read_stat o).is_dir then some s else add_size o.name (read_stat o).size s

-- Lines 16 and 17 of countSize.c
pub note_failure : Object → Sum → Sum
note_failure o s = elim o.stat [
  | none ↦ record s { lines = s.lines ++ went_wrong ∷ [] }
  | some st ↦ s
]

-- The loop of countSize.c over the entries
pub count_entries : List Object → Sum → Option Sum
unfolding count_object note_failure
count_entries [] s = some s
count_entries (o ∷ os) s = elim (count_object o (note_failure o s)) [
  | none ↦ none
  | some s' ↦ count_entries os s'
]

-- `main` of countSize.c: what it prints.
pub count_size : List Object → Option (List Line)
unfolding count_entries
count_size os = elim (count_entries os no_sum) [
  | none ↦ none
  | some s ↦ some (s.lines ++ total_size s.total ∷ [])
]

-- The calls of `display_info`, in the order of `ftw`.
pub display_all : List Object → Sum → Option Sum
unfolding count_object
display_all [] s = some s
display_all (o ∷ os) s = elim (count_object o s) [ none ↦ none | some s' ↦ display_all os s' ]

-- How zad4.c ends: with a status and what it has printed, or in an overflow.
pub data Ending : Type 0 where
  exited : ℕ → List Line → Ending
  overflow : Ending

abbrev report : Bool → Sum → Ending
report true s = exited 255 s.lines
report false s = exited 0 (s.lines ++ total_size s.total ∷ [])

-- `main` of zad4.c with `argc`, the objects that `ftw` visits, and whether it gives -1 in the end.
pub ftw_size : ℕ → List Object → Bool → Ending
unfolding display_all
ftw_size argc os failed =
    if argc == 2
    then elim (display_all os no_sum) [ none ↦ overflow | some s ↦ report failed s ]
    else exited 1 []
