-- ===== src/Integral/Grid.antt =====
-- The cuts of the interval and the loops over the rectangles (lab5/zad2/program.c and the `test` of
-- lab5/zad3/calculate.c), where the arithmetic on the left ends of the rectangles is exact.
use operating_systems_agh.Prelude.{
  ℕ, zero, suc, ◌+◌, ◌-◌, ◌<◌, ◌≤◌, ◌≡◌, refl, sym, ap, ◌∙◌, true, false, some, List, [], ◌∷◌, ◌++◌,
  get_or, set, replicate, length, length-set, length-replicate, get_or-set_self, get_or-set_ne,
  ℕ_discrete, leb, ltb, pos, arith,
}
use operating_systems_agh.Integral.{
  Double, nought, function_value, next_cut, split_rounds, split_array, calculate_loop, test_loop,
}

-- `grid k` is the number `k * block_width` and `cut i` the count of whole rectangles below `i / n`: on these
-- numbers the operations of `double` round nothing.
pub record IsGrid {ℓ} {W : Type ℓ} ⦃d : Double W⦄ (n : ℕ) (block_width : W) (grid : ℕ → W)
    (cut : ℕ → ℕ) : Type ℓ where
  pub zero_eq : grid 0 ≡ d.of_int (pos 0)
  pub step_eq : (k : ℕ) → k ≤ cut n → d.add (grid k) block_width ≡ grid (suc k)
  pub le_eq : (j k : ℕ) → j ≤ suc (cut n) → k ≤ cut n → d.le (grid j) (grid k) ≡ leb j k
  pub lt_eq : (j k : ℕ) → j ≤ cut n → k ≤ cut n → d.lt (grid j) (grid k) ≡ ltb j k
  pub jump_eq :
      (j m : ℕ)
      → j + m ≤ cut n
      → d.add (grid j) (d.mul (d.of_int (pos m)) block_width) ≡ grid (j + m)
  pub cut_zero : cut 0 ≡ 0
  pub cut_mono : (i j : ℕ) → i ≤ j → cut i ≤ cut j
  pub cut_eq :
      (i : ℕ)
      → i < n
      → d.to_int (
          d.div
            (d.sub
              (d.mul (d.of_int (pos (i + 1))) (d.div (d.of_int (pos 1)) (d.of_int (pos n))))
              (grid (cut i)))
            block_width)
        ≡ pos (cut (i + 1) - cut i)

module _ {ℓ} {W : Type ℓ} ⦃d : Double W⦄ where
  -- The left ends of `m` rectangles from number `j` on.
  abbrev pub points : (ℕ → W) → ℕ → ℕ → List W
  points grid j zero = []
  points grid j (suc m) = grid j ∷ points grid (suc j) m

  -- The sum of the rectangles that start at the given points, added to `result` from the left.
  abbrev pub area : W → W → List W → W
  area block_width result [] = result
  area block_width result (x ∷ xs) =
      area block_width (d.add result (d.mul (function_value x) block_width)) xs

  pub points-append :
      (grid : ℕ → W) (j e m k : ℕ)
      → j + m ≡ e
      → points grid j m ++ points grid e k ≡ points grid j (m + k)
  points-append grid j e zero k end =
      ap (λ i. points grid i k) {x = e} {y = j} (omega arith)
      ∙ ap (points grid j) {x = k} {y = 0 + k} (omega arith)
  points-append grid j e (suc m) k end =
      ap (λ l. grid j ∷ l) (points-append grid (suc j) e m k (omega arith))
      ∙ ap (points grid j) {x = suc (m + k)} {y = suc m + k} (omega arith)

leb-true : (j k : ℕ) → j ≤ k → leb j k ≡ true
leb-true j k h = ground arith

leb-false : (j k : ℕ) → k < j → leb j k ≡ false
leb-false j k h = ground arith

ltb-true : (j k : ℕ) → j < k → ltb j k ≡ true
ltb-true j k h = ground arith

ltb-false : (j k : ℕ) → k ≤ j → ltb j k ≡ false
ltb-false j k h = ground arith

module _ {ℓ} {W : Type ℓ} ⦃d : Double W⦄ (n : ℕ) (block_width : W) (grid : ℕ → W) (cut : ℕ → ℕ)
    (g : IsGrid n block_width grid cut) where
  open g use {zero_eq, step_eq, le_eq, lt_eq, jump_eq, cut_zero, cut_mono, cut_eq}

  pub calculate_loop-points :
      (fuel m j e : ℕ) (result : W)
      → m < fuel
      → j + m ≡ e
      → e ≤ cut n
      → calculate_loop fuel (grid j) (grid e) block_width result
        ≡ some (area block_width result (points grid j m))
  unfolding calculate_loop
  calculate_loop-points zero m j e result lt end le = absurd (omega arith)
  calculate_loop-points (suc fuel) zero j e result lt end le =
      rw
        (
          calculate_loop,
          step_eq j (omega arith),
          le_eq (suc j) e (omega arith) le ∙ leb-false (suc j) e (omega arith),
        )
        refl
  calculate_loop-points (suc fuel) (suc m) j e result lt end le =
      rw
        (
          calculate_loop,
          step_eq j (omega arith),
          le_eq (suc j) e (omega arith) le ∙ leb-true (suc j) e (omega arith),
        )
        (calculate_loop-points fuel m (suc j) e _ (omega arith) (omega arith) le)

  pub test_loop-points :
      (fuel m j e : ℕ) (result : W)
      → m < fuel
      → j + m ≡ e
      → e ≤ cut n
      → test_loop fuel (grid j) (grid e) block_width result
        ≡ some (area block_width result (points grid j m))
  unfolding test_loop
  test_loop-points zero m j e result lt end le = absurd (omega arith)
  test_loop-points (suc fuel) zero j e result lt end le =
      rw (test_loop, lt_eq j e (omega arith) le ∙ ltb-false j e (omega arith)) refl
  test_loop-points (suc fuel) (suc m) j e result lt end le =
      rw
        (
          test_loop,
          lt_eq j e (omega arith) le ∙ ltb-true j e (omega arith),
          step_eq j (omega arith),
        )
        (test_loop-points fuel m (suc j) e _ (omega arith) (omega arith) le)

  -- The value that the loop writes at `i + 1` is the next cut.
  next_cut-grid : (i : ℕ) → i < n → next_cut n block_width i (grid (cut i)) ≡ grid (cut (i + 1))
  next_cut-grid i lt =
      ap (λ k. d.add (grid (cut i)) (d.mul (d.of_int k) block_width)) (cut_eq i lt)
      ∙ jump_eq (cut i) (cut (i + 1) - cut i)
          (omega (arith, cut_mono (i + 1) n (omega arith), cut_mono i (i + 1) (omega arith)))
      ∙ ap grid (omega (arith, cut_mono i (i + 1) (omega arith)))

  -- The loop, where the entries up to `i` are written.
  split_rounds-cut :
      (left i : ℕ) (array : List W)
      → i + left ≡ n
      → length array ≡ n + 1
      → ((k : ℕ) → k ≤ i → get_or array k nought ≡ grid (cut k))
      → (k : ℕ) → k ≤ n
      → get_or (split_rounds n left block_width i array) k nought ≡ grid (cut k)
  unfolding split_rounds
  split_rounds-cut zero i array end len written k le = written k (omega arith)
  split_rounds-cut (suc left) i array end len written k le =
      split_rounds-cut left (i + 1)
        (set array (i + 1) (next_cut n block_width i (get_or array i nought))) (omega arith)
        (length-set array (i + 1) _ ∙ len)
        (λ k h. elim (ℕ_discrete k (i + 1)) [
          | yes e ↦
              ap
                (λ k.
                  get_or (set array (i + 1) (next_cut n block_width i (get_or array i nought))) k
                    nought)
                e
              ∙ get_or-set_self array (i + 1) _ nought (omega arith)
              ∙ ap (next_cut n block_width i) (written i (omega arith))
              ∙ next_cut-grid i (omega arith)
              ∙ ap (λ k. grid (cut k)) (sym e)
          | no other ↦
              get_or-set_ne array (i + 1) k _ nought (λ e. other (sym e)) ∙ written k (omega arith)
        ])
        k le

  -- Cut number `k` is where the rectangles below `k / n` end.
  pub split_array-cut :
      (k : ℕ)
      → k ≤ n
      → get_or (split_array (replicate (n + 1) nought) n block_width) k nought ≡ grid (cut k)
  unfolding split_array
  split_array-cut =
      split_rounds-cut n 0 (set (replicate (n + 1) nought) 0 nought) (omega arith)
        (length-set (replicate (n + 1) nought) 0 nought ∙ length-replicate (n + 1) nought)
        (λ k h.
          ap (λ k. get_or (set (replicate (n + 1) nought) 0 nought) k nought) {x = k} {y = 0}
            (omega arith)
          ∙ get_or-set_self (replicate (n + 1) nought) 0 nought nought
              (omega (arith, length-replicate {A = W} (n + 1) nought))
          ∙ sym zero_eq
          ∙ ap grid (sym cut_zero)
          ∙ ap (λ k. grid (cut k)) {x = 0} {y = k} (omega arith))
