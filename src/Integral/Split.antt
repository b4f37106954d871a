-- ===== src/Integral/Split.antt =====
-- `split_calculation` of lab5/zad2/program.c: what each child sums, and what the parent adds up.
use operating_systems_agh.Prelude.{
  ℕ, zero, suc, ◌+◌, ◌-◌, ◌<◌, ◌≤◌, ◌≡◌, refl, ap, ◌∙◌, some, List, [], ◌∷◌, ◌++◌, get_or, arith,
}
use operating_systems_agh.Integral.{Double, nought, calculate, children, split_calculation}
use operating_systems_agh.Integral.Grid.{
  IsGrid, points, area, points-append, calculate_loop-points, split_array-cut,
}

module _ {ℓ} {W : Type ℓ} ⦃d : Double W⦄ where
  -- The rectangles of child number `i`, and of `left` children from number `i` on.
  abbrev pub share : (ℕ → W) → (ℕ → ℕ) → ℕ → List W
  share grid cut i = points grid (cut i) (cut (i + 1) - cut i)

  abbrev pub shares : (ℕ → W) → (ℕ → ℕ) → ℕ → ℕ → List (List W)
  shares grid cut zero i = []
  shares grid cut (suc left) i = share grid cut i ∷ shares grid cut left (i + 1)

  -- The sums of the shares, added up from the left.
  abbrev pub sum_shares : W → W → List (List W) → W
  sum_shares block_width result [] = result
  sum_shares block_width result (xs ∷ xss) =
      sum_shares block_width (d.add result (area block_width nought xs)) xss

  abbrev pub concat : List (List W) → List W
  concat [] = []
  concat (xs ∷ xss) = xs ++ concat xss

module _ {ℓ} {W : Type ℓ} ⦃d : Double W⦄ (n : ℕ) (block_width : W) (grid : ℕ → W) (cut : ℕ → ℕ)
    (g : IsGrid n block_width grid cut) where
  open g use {cut_mono, cut_zero}

  calculate-share :
      (fuel i : ℕ)
      → i < n
      → cut n < fuel
      → calculate fuel (grid (cut i)) (grid (cut (i + 1))) block_width
        ≡ some (area block_width nought (share grid cut i))
  unfolding calculate
  calculate-share fuel i lt enough =
      let up : cut i ≤ cut (i + 1) = cut_mono i (i + 1) (omega arith) in
      let top : cut (i + 1) ≤ cut n = cut_mono (i + 1) n (omega arith) in
      calculate_loop-points n block_width grid cut g fuel (cut (i + 1) - cut i) (cut i)
        (cut (i + 1)) nought (omega arith) (omega arith) top

  concat-shares :
      (left i e : ℕ)
      → i + left ≡ e
      → e ≤ n
      → concat (shares grid cut left i) ≡ points grid (cut i) (cut e - cut i)
  concat-shares zero i e end le =
      ap (points grid (cut i)) {x = 0} {y = cut e - cut i}
        (omega (arith, ap cut {x = i} {y = e} (omega arith)))
  concat-shares (suc left) i e end le =
      let up : cut i ≤ cut (i + 1) = cut_mono i (i + 1) (omega arith) in
      let top : cut (i + 1) ≤ cut e = cut_mono (i + 1) e (omega arith) in
      ap (λ l. share grid cut i ++ l) (concat-shares left (i + 1) e (omega arith) le)
      ∙ points-append grid (cut i) (cut (i + 1)) (cut (i + 1) - cut i) (cut e - cut (i + 1))
          (omega arith)
      ∙ ap (points grid (cut i)) {x = (cut (i + 1) - cut i) + (cut e - cut (i + 1))}
          {y = cut e - cut i} (omega arith)

  children-shares :
      (fuel left i : ℕ) (range : List W) (result : W)
      → i + left ≡ n
      → cut n < fuel
      → ((k : ℕ) → k ≤ n → get_or range k nought ≡ grid (cut k))
      → children fuel range block_width left i result
        ≡ some (sum_shares block_width result (shares grid cut left i))
  unfolding children
  children-shares fuel zero i range result end enough cuts = refl
  children-shares fuel (suc left) i range result end enough cuts =
      rw
        (
          children,
          cuts i (omega arith),
          cuts (i + 1) (omega arith),
          calculate-share fuel i (omega arith) enough,
        )
        (children-shares fuel left (i + 1) range _ (omega arith) enough cuts)

  -- Where the arithmetic on the left ends of the rectangles is exact and the fuel is more than their number,
  -- the calculation ends; its result adds up the sums of the children's shares, and the shares, one after the
  -- other, are all the rectangles from 0 on, each once.
  pub split_calculation_lem :
      (fuel : ℕ)
      → cut n < fuel
      → (split_calculation fuel n block_width
          ≡ some (sum_shares block_width nought (shares grid cut n 0)))
        × (concat (shares grid cut n 0) ≡ points grid 0 (cut n))
  unfolding split_calculation
  split_calculation_lem fuel enough = (
    children-shares fuel n 0 _ nought (omega arith) enough
        (split_array-cut n block_width grid cut g),
    all_points,
  )
    where
      all_points : concat (shares grid cut n 0) ≡ points grid 0 (cut n)
      all_points =
          concat-shares n 0 n (omega arith) (omega arith)
          ∙ ap (λ j. points grid j (cut n - j)) cut_zero
          ∙ ap (points grid 0) {x = cut n - 0} {y = cut n} (omega arith)
