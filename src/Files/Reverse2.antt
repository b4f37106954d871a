-- ===== src/Files/Reverse2.antt =====
-- lab2/zad2/reverse2.c: `reverse` by blocks. The input has a position, which `fseek` and `fread` move; the
-- bytes that `offset` holds before it is read into are an argument.
pub mod Lost
use operating_systems_agh.Prelude.{
  ℕ, zero, suc, ◌+◌, ◌-◌, ◌*◌, ◌%◌, Bool, true, false, Option, none, some, List, [], ◌∷◌, ◌++◌,
  ◌==◌, ltb, length, get_or, take, drop, overwrite,
}

abbrev pub block_size : ℕ
block_size = 1024

-- `buffer[lo + n - 1]` to `buffer[lo]`, byte by byte.
pub write_down : ℕ → ℕ → List ℕ → List ℕ → List ℕ
write_down zero lo buffer out = out
write_down (suc n) lo buffer out = write_down n lo buffer (out ++ get_or buffer (lo + n) 0 ∷ [])

-- The loop, on fuel: at a position other than 0 there is a whole block to read.
pub blocks : ℕ → List ℕ → ℕ → List ℕ → Option (List ℕ)
unfolding write_down
blocks zero input pos out = none
blocks (suc fuel) input pos out =
    let written = write_down (block_size - 1) 1 (take block_size (drop pos input)) out in
    let rest = blocks fuel input (pos + block_size - 2 * block_size) written in
    elim (pos == 0) [
      | true ↦ some out
      | false ↦ elim (ltb (pos + block_size) (2 * block_size)) [
        | true ↦ some written
        | false ↦ rest
      ]
    ]

-- The position after the two calls of `fseek` before the loop: the second fails on a file shorter than a block.
abbrev pub first_position : ℕ → ℕ
first_position n = elim (ltb n block_size) [ true ↦ 0 | false ↦ n - block_size ]

-- Lines 69 to 73
pub write_offset : List ℕ → List ℕ → ℕ → List ℕ → List ℕ
unfolding write_down
write_offset junk input offset_size out =
    write_down offset_size 0 (overwrite junk (take offset_size (drop offset_size input))) out

pub reverse : List ℕ → List ℕ → List ℕ → Option (List ℕ)
unfolding blocks write_offset
reverse junk input out =
    elim (blocks (suc (length input)) input (first_position (length input)) out) [
      | none ↦ none
      | some written ↦ some (write_offset junk input (length input % block_size) written)
    ]
