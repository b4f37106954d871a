-- ===== src/Files/Tests.antt =====
-- The programs of lab2/zad1 and lab2/zad2 on small files.
use operating_systems_agh.Prelude.{ℕ, ◌≡◌, refl, List, [], ◌∷◌, some, none, replicate, arith}
use operating_systems_agh.Files.{replaced}
use operating_systems_agh.Files.Zamien
use operating_systems_agh.Files.Zamien2
use operating_systems_agh.Files.Reverse
use operating_systems_agh.Files.Reverse2
use operating_systems_agh.Files.Reverse2.Lost.{reverse_loses_start}
use operating_systems_agh.Files.Laws.{reverse_lem, replace_characters_lem}

reverse_lem_example :
    (Reverse.main 3 0 (1 ∷ 2 ∷ 3 ∷ []) (9 ∷ []) ≡ (0, 9 ∷ 3 ∷ 2 ∷ 1 ∷ []))
    × (Reverse.main 3 0 [] (9 ∷ []) ≡ (0, 9 ∷ 0 ∷ []))
reverse_lem_example = reverse_lem 0 1 (2 ∷ 3 ∷ []) (9 ∷ [])

replace_characters_lem_example :
    (Zamien.main 5 (1 ∷ []) (7 ∷ []) (some (1 ∷ 2 ∷ [])) (some (9 ∷ 9 ∷ 9 ∷ []))
      ≡ record { status = 0; output = some (7 ∷ 2 ∷ 9 ∷ []) })
    × (Zamien2.main 5 (1 ∷ []) (7 ∷ []) (some (1 ∷ 2 ∷ [])) (some (9 ∷ 9 ∷ 9 ∷ []))
        ≡ record { status = 0; output = some (9 ∷ 9 ∷ 9 ∷ 7 ∷ 2 ∷ []) })
    × (Zamien.main 5 (1 ∷ []) (7 ∷ []) (some (1 ∷ 2 ∷ [])) none
        ≡ record { status = 1; output = none })
    × (Zamien2.main 5 (1 ∷ []) (7 ∷ []) (some (1 ∷ 2 ∷ [])) none
        ≡ record { status = 0; output = some (7 ∷ 2 ∷ []) })
unfolding replaced
replace_characters_lem_example = replace_characters_lem 1 7 (1 ∷ 2 ∷ []) (9 ∷ 9 ∷ 9 ∷ [])

abbrev sevens : List ℕ
sevens = replicate 1024 7

reverse_loses_start_example :
    (o : List ℕ) × (Reverse2.reverse (0 ∷ 0 ∷ []) (1 ∷ 2 ∷ sevens) [] ≡ some o)
    × (Reverse2.reverse (0 ∷ 0 ∷ []) (3 ∷ 4 ∷ sevens) [] ≡ some o)
reverse_loses_start_example =
    reverse_loses_start (1 ∷ 2 ∷ []) (3 ∷ 4 ∷ []) sevens refl (omega arith) 1 (0 ∷ 0 ∷ []) [] refl
