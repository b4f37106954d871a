-- ===== src/Command/Tests.antt =====
-- The search in concrete tables.
use operating_systems_agh.Prelude.{◌≡◌, ◌↔◌, refl, some, none, List, [], ◌∷◌, arith, Has, codes}
use operating_systems_agh.Command.{
  Command, strcmp, compare_commands, qsort, bsearch, map_command_to_int,
}
use operating_systems_agh.Command.Search.{map_command_to_int_lem}

-- `dict` of lab6/zad1/client.c
abbrev dict : List Command
dict =
    record { str = codes "2ALL"; n = 2 }
    ∷ record { str = codes "2ONE"; n = 3 }
    ∷ record { str = codes "LIST"; n = 1 }
    ∷ record { str = codes "STOP"; n = 4 }
    ∷ []

finds_stop :
    map_command_to_int (qsort dict) (codes "STOP") ≡ some (record { str = codes "STOP"; n = 4 })
unfolding map_command_to_int bsearch qsort compare_commands strcmp
finds_stop = refl

misses_quit : map_command_to_int (qsort dict) (codes "QUIT") ≡ none
unfolding map_command_to_int bsearch qsort compare_commands strcmp
misses_quit = refl

map_command_to_int_lem_example :
    (map_command_to_int (qsort dict) (codes "LIST") ≡ some (record { str = codes "LIST"; n = 1 }))
    ↔ (Has (record { str = codes "LIST"; n = 1 }) dict × (codes "LIST" ≡ codes "LIST"))
unfolding strcmp
map_command_to_int_lem_example =
    map_command_to_int_lem dict (codes "LIST") (record { str = codes "LIST"; n = 1 }) (ground arith)
