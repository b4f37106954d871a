-- ===== src/Files/Reverse.antt =====
-- lab2/zad2/reverse.c: the bytes of a file from the last to the first, each at the end of the output. Both files are taken
-- to be opened.
use operating_systems_agh.Prelude.{
  ℕ, zero, suc, ◌-◌, List, [], ◌∷◌, ◌++◌, true, false, ◌==◌, length, get_or,
}

-- Lines 47 to 54, from a position of the input. `c` is the byte read last: at the end of the input it stays.
unfoldable pub reverse_from : ℕ → List ℕ → ℕ → List ℕ → List ℕ
reverse_from zero input c out = out ++ get_or input 0 c ∷ []
reverse_from (suc pos) input c out =
    let b = get_or input (suc pos) c in reverse_from pos input b (out ++ b ∷ [])

-- `fseek(inputFile, -1, SEEK_END)` fails on an empty file and leaves the position 0. `junk` is `c` before the first read.
unfoldable pub reverse : ℕ → List ℕ → List ℕ → List ℕ
unfolding reverse_from
reverse junk input out = reverse_from (length input - 1) input junk out

unfoldable pub main : ℕ → ℕ → List ℕ → List ℕ → ℕ × List ℕ
unfolding reverse
main argc junk input out = elim (argc == 3) [
  | true ↦ (0, reverse junk input out)
  | false ↦ (1, out)
]
