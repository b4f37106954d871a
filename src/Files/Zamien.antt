-- ===== src/Files/Zamien.antt =====
-- lab2/zad1/zamien.c, with the calls of the system: the flags `O_CREAT||O_APPEND` are 1, which is O_WRONLY.
use operating_systems_agh.Prelude.{
  ℕ, suc, List, [], ◌∷◌, Option, none, some, true, false, ◌==◌, get_or,
}
use operating_systems_agh.Files.{write_byte, Ending, replaced}

-- The loop, on what is left of the input; the output is open at a position.
unfoldable pub copy : ℕ → ℕ → List ℕ → ℕ → List ℕ → List ℕ
unfolding replaced
copy search replace [] pos out = out
copy search replace (c ∷ cs) pos out =
    copy search replace cs (suc pos) (write_byte pos (replaced search replace c) out)

unfoldable pub replace_characters : List ℕ → List ℕ → Option (List ℕ) → Option (List ℕ) → Ending
unfolding copy
replace_characters search replace none output = record { status = 1; output = output }
replace_characters search replace (some input) none = record { status = 1; output = none }
replace_characters search replace (some input) (some out) = record {
  status = 0;
  output = some (copy (get_or search 0 0) (get_or replace 0 0) input 0 out);
}

unfoldable pub main : ℕ → List ℕ → List ℕ → Option (List ℕ) → Option (List ℕ) → Ending
unfolding replace_characters
main argc search replace input output = elim (argc == 5) [
  | true ↦ replace_characters search replace input output
  | false ↦ record { status = 1; output = output }
]
