-- ===== src/Integral.antt =====
-- The integral of 4 / (x * x + 1) from 0 to 1, split over child processes: lab5/zad2/program.c, where each child sends its
-- sum through a pipe, and lab5/zad3/program.c with calculate.c, where each child runs another program that
-- writes its sum as a line into a FIFO. A `double` is a type with the operations that the code uses; `%lf` and
-- `strtod` are parameters.
pub mod Grid
pub mod Split
pub mod Fifo
mod Tests
use operating_systems_agh.Prelude.{
  ltb, is_terminated, ◌||◌, ℕ, zero, suc, ◌+◌, ◌≡◌, Bool, true, false, Option, none, some, List, [],
  ◌∷◌, ◌++◌, if◌then◌else◌, get_or, set, replicate, take, length, tokens, c_str, ◌==◌, ℤ, pos,
  arith,
}

pub record Double {ℓ} (W : Type ℓ) : Type ℓ where
  pub of_int : ℤ → W
  pub to_int : W → ℤ
  pub add : W → W → W
  pub sub : W → W → W
  pub mul : W → W → W
  pub div : W → W → W
  pub le : W → W → Bool
  pub lt : W → W → Bool

-- The parent of lab5/zad3 has a sum, waits for a child that does not end in the fuel, or reads outside its buffer.
pub data Collected {ℓ} (W : Type ℓ) : Type ℓ where
  summed : W → Collected W
  unending : Collected W
  fault : Collected W

module _ {ℓ} {W : Type ℓ} ⦃d : Double W⦄ where
  open d use {of_int, to_int, add, sub, mul, div, le, lt}

  abbrev pub nought : W
  nought = of_int (pos 0)

  abbrev pub function_value : W → W
  function_value x = div (of_int (pos 4)) (add (mul x x) (of_int (pos 1)))

  -- What `split_array` writes into `array[i+1]`, of the value in `array[i]`.
  abbrev pub next_cut : ℕ → W → ℕ → W → W
  next_cut n block_size i last = add last (
      mul
        (of_int (
          to_int (
            div (sub (mul (of_int (pos (i + 1))) (div (of_int (pos 1)) (of_int (pos n)))) last)
              block_size)))
        block_size)

  -- The loop, with `left` rounds to go.
  pub split_rounds : ℕ → ℕ → W → ℕ → List W → List W
  split_rounds n zero block_size i array = array
  split_rounds n (suc left) block_size i array =
      split_rounds n left block_size (i + 1)
        (set array (i + 1) (next_cut n block_size i (get_or array i nought)))

  pub split_array : List W → ℕ → W → List W
  unfolding split_rounds
  split_array array n block_size = split_rounds n n block_size 0 (set array 0 nought)

  -- The loop of `calculate`, on fuel.
  pub calculate_loop : ℕ → W → W → W → W → Option W
  calculate_loop zero i b block_width result = none
  calculate_loop (suc fuel) i b block_width result =
      let rest =
        calculate_loop fuel (add i block_width) b block_width
          (add result (mul (function_value i) block_width)) in
      if le (add i block_width) b then rest else some result

  pub calculate : ℕ → W → W → W → Option W
  unfolding calculate_loop
  calculate fuel a b block_width = calculate_loop fuel a b block_width nought

  -- The loop of `test` of calculate.c, on fuel.
  pub test_loop : ℕ → W → W → W → W → Option W
  test_loop zero i b block_width result = none
  test_loop (suc fuel) i b block_width result =
      let rest =
        test_loop fuel (add i block_width) b block_width
          (add result (mul (function_value i) block_width)) in
      if lt i b then rest else some result

  pub test : ℕ → W → W → W → Option W
  unfolding test_loop
  test fuel a b block_width = test_loop fuel a b block_width nought

  -- The loop over the children: each sends its sum, and is waited for before the next is made.
  pub children : ℕ → List W → W → ℕ → ℕ → W → Option W
  unfolding calculate
  children fuel range block_width zero i result = some result
  children fuel range block_width (suc left) i result =
      elim (calculate fuel (get_or range i nought) (get_or range (i + 1) nought) block_width) [
        | none ↦ none
        | some out ↦ children fuel range block_width left (i + 1) (add result out)
      ]

  pub split_calculation : ℕ → ℕ → W → Option W
  unfolding children split_array
  split_calculation fuel number_of_children block_width =
      let range =
        split_array (replicate (number_of_children + 1) nought) number_of_children block_width in
      children fuel range block_width number_of_children 0 nought

  -- The programs of lab5/zad3; `print` is what `%lf` prints.
  module _ (print : W → List ℕ) (strtod : List ℕ → W) where
    -- calculate.c with the arguments of `execl`: what it writes into the FIFO.
    -- Both buffers are longer than all that `%lf` prints of a double.
    pub calculate_main : ℕ → List ℕ → List ℕ → List ℕ → Option (List ℕ)
    unfolding test
    calculate_main fuel starting_range ending_range block_argument =
        elim (test fuel (strtod starting_range) (strtod ending_range) (strtod block_argument)) [
          | none ↦ none
          | some result ↦ some (print result ++ 10 ∷ [])
        ]

    -- What child number `i` writes.
    pub child_output : ℕ → List W → W → ℕ → Option (List ℕ)
    unfolding calculate_main
    child_output fuel range block_width i =
        calculate_main fuel (print (get_or range i nought)) (print (get_or range (i + 1) nought))
          (print block_width)

    -- What the FIFO holds once the children have written in the order given.
    pub fifo_content : ℕ → List W → W → List ℕ → Option (List ℕ)
    unfolding child_output
    fifo_content fuel range block_width [] = some []
    fifo_content fuel range block_width (i ∷ order) = elim (child_output fuel range block_width i) [
      | none ↦ none
      | some line ↦ elim (fifo_content fuel range block_width order) [
        | none ↦ none
        | some rest ↦ some (line ++ rest)
      ]
    ]

    -- The loop over the tokens
    abbrev pub sum_tokens : W → List (List ℕ) → W
    sum_tokens result [] = result
    sum_tokens result (token ∷ ts) = sum_tokens (add result (strtod token)) ts

    -- What the buffer holds: 50000 bytes at most, and with that many of them only a NUL in what was read ends the string.
    pub collect : Option (List ℕ) → Collected W
    unfolding is_terminated
    collect none = unending
    collect (some content) =
        if ltb (length content) 50000 || is_terminated (take 50000 content)
        then summed (sum_tokens nought (tokens (λ c. c == 10) (c_str (take 50000 content))))
        else fault

    -- `split_calculation` of lab5/zad3/program.c, where the children write in the order given.
    pub collect_calculation : ℕ → ℕ → W → List ℕ → Collected W
    unfolding fifo_content split_array collect
    collect_calculation fuel number_of_children block_width order =
        let range =
          split_array (replicate (number_of_children + 1) nought) number_of_children block_width in
        collect (fifo_content fuel range block_width order)
