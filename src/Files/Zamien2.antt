-- ===== src/Files/Zamien2.antt =====
-- lab2/zad1/zamien2.c, with stdio: the mode "a+b" makes the output if it is not there, and writes at its end.
use operating_systems_agh.Prelude.{
  ℕ, List, [], ◌∷◌, ◌++◌, Option, none, some, true, false, ◌==◌, get_or,
}
use operating_systems_agh.Files.{Ending, replaced}

-- The loop, on what is left of the input.
unfoldable pub copy : ℕ → ℕ → List ℕ → List ℕ → List ℕ
unfolding replaced
copy search replace [] out = out
copy search replace (c ∷ cs) out = copy search replace cs (out ++ replaced search replace c ∷ [])

abbrev pub opened : Option (List ℕ) → List ℕ
opened none = []
opened (some out) = out

unfoldable pub replace_characters : List ℕ → List ℕ → Option (List ℕ) → Option (List ℕ) → Ending
unfolding copy
replace_characters search replace none output = record { status = 1; output = output }
replace_characters search replace (some input) output = record {
  status = 0;
  output = some (copy (get_or search 0 0) (get_or replace 0 0) input (opened output));
}

unfoldable pub main : ℕ → List ℕ → List ℕ → Option (List ℕ) → Option (List ℕ) → Ending
unfolding replace_characters
main argc search replace input output = elim (argc == 5) [
  | true ↦ replace_characters search replace input output
  | false ↦ record { status = 1; output = output }
]
