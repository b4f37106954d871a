-- ===== src/Integral/Tests.antt =====
-- The calculation with two children on numbers in units of 1/16, with rectangles 3/16 wide.
use operating_systems_agh.Prelude.{
  ℕ, ◌+◌, ◌-◌, ◌*◌, ◌/◌, ◌≡◌, refl, ap, some, List, [], ◌∷◌, leb, ltb, ℤ, pos, negsuc, arith,
}
use operating_systems_agh.Integral.{Double, split_calculation, collect_calculation, summed}
use operating_systems_agh.Integral.Grid.{IsGrid, points}
use operating_systems_agh.Integral.Split.{split_calculation_lem, shares, sum_shares, concat}
use operating_systems_agh.Integral.Fifo.{collect_calculation_lem, sum_printed}

abbrev sixteenths : ℤ → ℕ
sixteenths (pos n) = 16 * n
sixteenths (negsuc n) = 0

instance abbrev fixed_double : Double ℕ
fixed_double = record {
  of_int = sixteenths;
  to_int = λ x. pos (x / 16);
  add = λ x y. x + y;
  sub = λ x y. x - y;
  mul = λ x y. x * y / 16;
  div = λ x y. x * 16 / y;
  le = leb;
  lt = ltb;
}

abbrev thirds : ℕ → ℕ
thirds k = 3 * k

abbrev whole : ℕ → ℕ
whole i = 8 * i / 3

IsGrid_two : IsGrid 2 3 thirds whole
IsGrid_two = record {
  zero_eq = refl;
  step_eq = λ k h. omega arith;
  le_eq = λ j k h h'. ground arith;
  lt_eq = λ j k h h'. ground arith;
  jump_eq = λ j m h. omega arith;
  cut_zero = refl;
  cut_mono = λ i j h. omega arith;
  cut_eq = λ i h. ap pos (omega arith);
}

split_calculation_runs : split_calculation {W = ℕ} 6 2 3 ≡ some 50
unfolding split_calculation
split_calculation_runs = refl

abbrev print : ℕ → List ℕ
print x = (x + 48) ∷ []

abbrev strtod : List ℕ → ℕ
strtod [] = 0
strtod (c ∷ s) = c - 48

split_calculation_lem_example :
    (split_calculation {W = ℕ} 6 2 3 ≡ some (sum_shares 3 0 (shares thirds whole 2 0)))
    × (concat (shares thirds whole 2 0) ≡ points thirds 0 5)
split_calculation_lem_example = split_calculation_lem 2 3 thirds whole IsGrid_two 6 (omega arith)

collect_calculation_lem_example :
    collect_calculation print strtod 6 2 3 (1 ∷ 0 ∷ [])
    ≡ summed (sum_printed 2 3 thirds whole IsGrid_two print strtod 0 (1 ∷ 0 ∷ []))
collect_calculation_lem_example =
    collect_calculation_lem 2 3 thirds whole IsGrid_two print strtod 6 (1 ∷ 0 ∷ [])
      (refl, λ k h. omega arith) (omega arith, (omega arith, tt)) (ground arith) (omega arith)
      (omega arith)
