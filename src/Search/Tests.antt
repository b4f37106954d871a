-- ===== src/Search/Tests.antt =====
-- The search of lab3/zad3 in a small tree.
use operating_systems_agh.Prelude.{◌≡◌, refl, [], ◌∷◌, codes, arith, c_str, str_eq, bytes_eq}
use operating_systems_agh.Search.{
  absent, program, Entries, end, entry, directory, file, path, search, is_dot,
}
use operating_systems_agh.Search.Below.{below, is_prefix, search_lem}

abbrev tree : Entries
tree = entry (codes ".") (directory end) (
    entry (codes "a") (file (codes "hello world")) (
      entry (codes "d")
        (directory (
          entry (codes "b") (file (codes "help"))
            (entry (codes "c") (directory (entry (codes "f") (file (codes "help")) end)) end)))
        (entry (codes "e") (file (codes "hex")) end)))

-- The third level is not searched.
search_lem_example :
    search absent program (codes "hel") (codes "t") tree
    ≡ path (codes "t/a") ∷ path (codes "t/d/b") ∷ []
unfolding below is_prefix is_dot str_eq bytes_eq c_str
search_lem_example =
    search_lem absent (codes "hel") (codes "t") tree refl (omega arith)
      (tt, (omega arith, ((omega arith, ((omega arith, tt), tt)), (omega arith, tt))))
