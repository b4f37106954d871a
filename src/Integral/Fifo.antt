-- ===== src/Integral/Fifo.antt =====
-- lab5/zad3: the sums that the children write into the FIFO as lines, read and added up by the parent.
use operating_systems_agh.Prelude.{
  ltb, true, tokens_from-word, flush-word, c_str-word, ℕ, ◌+◌, ◌-◌, ◌<◌, ◌≤◌, ◌≡◌, ◌≢◌, refl, ap,
  ◌∙◌, Bool, false, some, List, [], ◌∷◌, ◌++◌, map, append_assoc, get_or, replicate, length, tokens,
  tokens_from, c_str, ◌==◌, All, arith, c_str-append, take-all,
}
use operating_systems_agh.Integral.{
  Double, nought, split_array, test, calculate_main, child_output, fifo_content, sum_tokens,
  collect_calculation, collect, summed,
}
use operating_systems_agh.Integral.Grid.{IsGrid, area, test_loop-points, split_array-cut}
use operating_systems_agh.Integral.Split.{share}

abbrev is_feed : ℕ → Bool
is_feed c = c == 10

abbrev IsPrinted : ℕ → Type 0
IsPrinted c = (c ≢ 0) × (c ≢ 10)

-- A text of one line.
abbrev pub IsLine : List ℕ → Type 0
IsLine w = (0 < length w) × All IsPrinted w

abbrev lines : List (List ℕ) → List ℕ
lines [] = []
lines (w ∷ ws) = w ++ 10 ∷ lines ws

not_feed : (c : ℕ) → IsPrinted c → is_feed c ≡ false
not_feed c h = ground (arith, h.1)

tokens-lines : (ws : List (List ℕ)) → All IsLine ws → tokens is_feed (lines ws) ≡ ws
unfolding tokens tokens_from
tokens-lines [] h = refl
tokens-lines (w ∷ ws) h =
    tokens_from-word IsPrinted is_feed not_feed [] w (10 ∷ lines ws) h.0.1
    ∙ flush-word w (tokens_from is_feed [] (lines ws)) h.0.0
    ∙ ap (λ r. w ∷ r) (tokens-lines ws h.1)

c_str-lines : (ws : List (List ℕ)) → All IsLine ws → c_str (lines ws) ≡ lines ws
unfolding c_str
c_str-lines [] h = refl
c_str-lines (w ∷ ws) h =
    c_str-append w (10 ∷ lines ws) (c_str-word IsPrinted (λ c l. l.0) w h.0.1)
    ∙ ap (λ r. w ++ 10 ∷ r) (c_str-lines ws h.1)

module _ {ℓ} {W : Type ℓ} ⦃d : Double W⦄ (n : ℕ) (block_width : W) (grid : ℕ → W) (cut : ℕ → ℕ)
    (g : IsGrid n block_width grid cut) (print : W → List ℕ) (strtod : List ℕ → W) where
  open g use {cut_mono}

  -- What is read back of the width and of the cuts are the numbers that were printed.
  abbrev pub IsExact : Type ℓ
  IsExact =
      (strtod (print block_width) ≡ block_width)
      × ((i : ℕ) → i ≤ n → strtod (print (grid (cut i))) ≡ grid (cut i))

  -- The sum of a child's share, as it is printed.
  abbrev pub printed_share : ℕ → List ℕ
  printed_share i = print (area block_width nought (share grid cut i))

  child_output-share :
      (fuel i : ℕ) (range : List W)
      → IsExact
      → i < n
      → cut n < fuel
      → ((k : ℕ) → k ≤ n → get_or range k nought ≡ grid (cut k))
      → child_output print strtod fuel range block_width i ≡ some (printed_share i ++ 10 ∷ [])
  unfolding child_output calculate_main test
  child_output-share fuel i range exact lt enough cuts =
      let up : cut i ≤ cut (i + 1) = cut_mono i (i + 1) (omega arith) in
      let top : cut (i + 1) ≤ cut n = cut_mono (i + 1) n (omega arith) in
      rw
        (
          cuts i (omega arith),
          cuts (i + 1) (omega arith),
          calculate_main,
          exact.1 i (omega arith),
          exact.1 (i + 1) (omega arith),
          exact.0,
          test_loop-points n block_width grid cut g fuel (cut (i + 1) - cut i) (cut i) (cut (i + 1))
              nought (omega arith) (omega arith) top,
        )
        refl

  fifo_content-lines :
      (fuel : ℕ) (range : List W) (order : List ℕ)
      → IsExact
      → All (λ i. i < n) order
      → cut n < fuel
      → ((k : ℕ) → k ≤ n → get_or range k nought ≡ grid (cut k))
      → fifo_content print strtod fuel range block_width order
        ≡ some (lines (map printed_share order))
  unfolding fifo_content
  fifo_content-lines fuel range [] exact all enough cuts = refl
  fifo_content-lines fuel range (i ∷ order) exact all enough cuts =
      rw
        (
          fifo_content,
          child_output-share fuel i range exact all.0 enough cuts,
          fifo_content-lines fuel range order exact all.1 enough cuts,
        )
        (ap some (append_assoc (printed_share i) (10 ∷ []) (lines (map printed_share order))))

  -- What the parent adds up: each child's sum as it was printed, in the order in which they came.
  abbrev pub sum_printed : W → List ℕ → W
  sum_printed result [] = result
  sum_printed result (i ∷ order) = sum_printed (d.add result (strtod (printed_share i))) order

  sum_tokens-printed :
      (order : List ℕ) (result : W)
      → sum_tokens print strtod result (map printed_share order) ≡ sum_printed result order
  sum_tokens-printed [] result = refl
  sum_tokens-printed (i ∷ order) result =
      sum_tokens-printed order (d.add result (strtod (printed_share i)))

  -- Where the arithmetic on the left ends of the rectangles is exact, `%lf` of the width and of each cut is read back
  -- as it was, the sum of each child is printed on one line, all the lines are less than 50000 bytes and the fuel is
  -- more than the number of rectangles, the parent ends with the sum of what the children printed, in the order in
  -- which they wrote.
  pub collect_calculation_lem :
      (fuel : ℕ) (order : List ℕ)
      → IsExact
      → All (λ i. i < n) order
      → All IsLine (map printed_share order)
      → length (lines (map printed_share order)) < 50000
      → cut n < fuel
      → collect_calculation print strtod fuel n block_width order
        ≡ summed (sum_printed nought order)
  unfolding collect_calculation collect
  collect_calculation_lem fuel order exact all printed short enough =
      let fits : ltb (length (lines (map printed_share order))) 50000 ≡ true = ground arith in
      rw
        (
          collect_calculation,
          fifo_content-lines fuel (split_array (replicate (n + 1) nought) n block_width) order exact
              all enough (split_array-cut n block_width grid cut g),
          fits,
        )
        (ap summed (
          ap (λ s. sum_tokens print strtod nought (tokens is_feed s))
            (ap c_str (take-all 50000 _ (omega arith)) ∙ c_str-lines _ printed)
          ∙ ap (sum_tokens print strtod nought) (tokens-lines _ printed)
          ∙ sum_tokens-printed order nought))
