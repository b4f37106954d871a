-- ===== src/DirSize/Tests.antt =====
-- A directory with two files and a directory in it, in two orders.
use mathlib.Core.List.{Permᴰ}
use Prim.Native.String.{String}
use operating_systems_agh.Prelude.{
  ℕ, ◌<◌, ◌≤◌, ◌≡◌, refl, Bool, true, false, none, some, List, [], ◌∷◌, codes,
}
use operating_systems_agh.DirSize.{
  Object, file, total_size, limit, count_size, exited, overflow, ftw_size, read_stat,
}
use operating_systems_agh.DirSize.Laws.{sizes, totals_in_any_order}

abbrev object : String → Bool → ℕ → Object
object name is_dir size = record {
  name = codes name;
  stat = some (record { is_dir = is_dir; size = size });
  block = record { is_dir = false; size = 0 };
}

abbrev listed : List Object
listed = object "a" false 12 ∷ object "." true 4096 ∷ object "b" false 30 ∷ []

abbrev visited : List Object
visited = object "." true 4096 ∷ object "a" false 12 ∷ object "b" false 30 ∷ []

totals_in_any_order_example :
    (sizes listed < limit
      → (count_size visited ≡ some (file (codes "a") 12 ∷ file (codes "b") 30 ∷ total_size 42 ∷ []))
        × (ftw_size 2 visited false
            ≡ exited 0 (file (codes "a") 12 ∷ file (codes "b") 30 ∷ total_size 42 ∷ [])))
    × (limit ≤ sizes listed → (count_size visited ≡ none) × (ftw_size 2 visited false ≡ overflow))
unfolding read_stat
totals_in_any_order_example =
    totals_in_any_order listed visited ((_, refl), ((_, refl), ((_, refl), tt)))
      (Permᴰ.swap refl refl)
