-- ===== src/Search.antt =====
-- lab3/zad3/zadanie3.c: the files below a directory that begin with a pattern, each directory below searched by a process
-- of its own, for which its parent waits. What `readdir` and `stat` give is the tree of the directory; `stat` follows
-- links, so no entry is one. `opendir`, `fopen` and `fork` are taken to succeed. The process for a directory runs the file
-- `argv[0]` under the name "debbuging", so the processes below it run the file `debbuging` of the working directory.
pub mod Below
mod Tests
use operating_systems_agh.Prelude.{
  ℕ, ◌+◌, Bool, true, false, ◌||◌, List, [], ◌∷◌, ◌++◌, ◌==◌, ltb, length, take, replicate, codes,
  overwrite, str_eq, if◌then◌else◌,
}

mutual
  -- `cannot_stat` is an object for which `stat` fails.
  pub data Object : Type 0 where
    directory : Entries → Object
    file : List ℕ → Object
    cannot_stat : Object

  -- The entries of a directory in the order of `readdir`, with their names.
  pub data Entries : Type 0 where
    end : Entries
    entry : List ℕ → Object → Entries → Entries

-- What is printed on the output; `overflow` is a read that is written outside `buffer`.
pub data Line : Type 0 where
  path error overflow : List ℕ → Line

-- `char buffer[255]`
abbrev pub buffer_size : ℕ
buffer_size = 255

pub is_dot : List ℕ → Bool
is_dot name = str_eq name (codes ".") || str_eq name (codes "..")

abbrev pub path_to : List ℕ → List ℕ → List ℕ
path_to dir name = dir ++ (codes "/" ++ name)

-- Lines 62, 63 and 70
pub begins_with : List ℕ → List ℕ → Bool
begins_with bytes pattern =
    str_eq (overwrite (replicate buffer_size 0) (take (length pattern) bytes)) pattern

-- Lines 61 to 75, with what the process prints after them: a file that is too short ends the loop.
pub read_file : List ℕ → List ℕ → List ℕ → List Line → List Line
unfolding begins_with
read_file pattern name bytes later = elim (ltb (length pattern) buffer_size) [
  | false ↦ overflow name ∷ []
  | true ↦ elim (ltb (length bytes) (length pattern)) [
    | true ↦ []
    | false ↦ elim (begins_with bytes pattern) [ true ↦ path name ∷ later | false ↦ later ]
  ]
]

-- The file `debbuging` of the working directory: there is none, or it is a copy of the program.
pub data Debbuging : Type 0 where
  absent copy : Debbuging

-- The `argv[0]` of a process: a path to the program, or "debbuging".
pub data Name : Type 0 where
  program debbuging : Name

-- Lines 55 and 56: what the child prints, if it is the program that it runs.
abbrev pub child : Debbuging → Name → List Line → List Line
child found program lines = lines
child copy debbuging lines = lines
child absent debbuging lines = []

mutual
  -- `main` in a directory
  pub search : Debbuging → Name → List ℕ → List ℕ → Entries → List Line
  search found argv pattern dir end = []
  search found argv pattern dir (entry name o rest) =
      let later = search found argv pattern dir rest in
      if is_dot name then later else visit found argv pattern (path_to dir name) o later

  -- Lines 46 to 75, with what the process prints after them.
  pub visit : Debbuging → Name → List ℕ → List ℕ → Object → List Line → List Line
  visit found argv pattern name (directory es) later =
      child found argv (search found debbuging pattern name es) ++ later
  visit found argv pattern name (file bytes) later = read_file pattern name bytes later
  visit found argv pattern name cannot_stat later = error name ∷ []
