-- ===== src/Grid/Rule.antt =====
-- lab8/zad01/lib/grid.c: `is_alive` against the rule of the game on a plane that is dead outside the grid.
use operating_systems_agh.Prelude.{
  ℕ, ◌+◌, ◌-◌, ◌*◌, ◌<◌, ◌≡◌, refl, Bool, true, false, ◌&&◌, ◌||◌, List, arith, ◌==◌, ltb, leb,
  if◌then◌else◌, Bool-cases, inl, inr,
}
use operating_systems_agh.Grid.{
  grid_width, grid_height, cell, to_char, add_neighbour, count_row, count_neighbours, is_alive,
}

-- The plane round the grid, from row -1 and column -1 on: outside the grid nothing lives.
pub plane : List ℕ → ℕ → ℕ → Bool
plane grid r c =
    leb 1 r
    && leb r grid_height
    && leb 1 c
    && leb c grid_width
    && cell grid (grid_width * (r - 1) + (c - 1))

-- The eight neighbours of the place that has the offset 1 both ways.
abbrev pub neighbours : List ℕ → ℕ → ℕ → ℕ
neighbours g r c =
    to_char (plane g (r + 0) (c + 0))
    + to_char (plane g (r + 0) (c + 1))
    + to_char (plane g (r + 0) (c + 2))
    + to_char (plane g (r + 1) (c + 0))
    + to_char (plane g (r + 1) (c + 2))
    + to_char (plane g (r + 2) (c + 0))
    + to_char (plane g (r + 2) (c + 1))
    + to_char (plane g (r + 2) (c + 2))

add_neighbour_lem :
    (row col : ℕ) (g : List ℕ) (i j count : ℕ)
    → (i == 1 && j == 1) ≡ false
    → add_neighbour row col g i j count ≡ count + to_char (plane g (row + i) (col + j))
unfolding add_neighbour plane
add_neighbour_lem row col g i j count other =
    elim (Bool-cases (cell g (grid_width * (row + i - 1) + (col + j - 1)))) [
      | inl a ↦ rw (a, other) (ground arith)
      | inr a ↦ rw (a, other) (ground arith)
    ]

add_neighbour-middle :
    (row col : ℕ) (g : List ℕ) (count : ℕ) → add_neighbour row col g 1 1 count ≡ count
unfolding add_neighbour
add_neighbour-middle row col g count = refl

count_neighbours_lem :
    (row col : ℕ) (g : List ℕ) → count_neighbours row col g ≡ neighbours g row col
unfolding count_neighbours count_row
count_neighbours_lem row col g =
    rw
      (
        add_neighbour_lem row col g 2 2 _ refl,
        add_neighbour_lem row col g 2 1 _ refl,
        add_neighbour_lem row col g 2 0 _ refl,
        add_neighbour_lem row col g 1 2 _ refl,
        add_neighbour-middle row col g _,
        add_neighbour_lem row col g 1 0 _ refl,
        add_neighbour_lem row col g 0 2 _ refl,
        add_neighbour_lem row col g 0 1 _ refl,
        add_neighbour_lem row col g 0 0 _ refl,
      )
      (omega arith)

-- For a cell of the grid, the cell on the plane is the one that `is_alive` reads.
plane-cell :
    (row col : ℕ) (g : List ℕ)
    → row < grid_height
    → col < grid_width
    → plane g (row + 1) (col + 1) ≡ cell g (row * grid_width + col)
unfolding plane
plane-cell row col g r c =
    let place : grid_width * (row + 1 - 1) + (col + 1 - 1) ≡ row * grid_width + col = omega arith in
    rw place (ground arith)

-- A cell of the grid lives in the next generation exactly by the rule of the game on the plane that is
-- dead outside the grid: with three living neighbours, or with two if it lives.
pub is_alive_lem :
    (row col : ℕ) (g : List ℕ)
    → row < grid_height
    → col < grid_width
    → is_alive row col g
      ≡ (neighbours g row col == 3 || (plane g (row + 1) (col + 1) && neighbours g row col == 2))
unfolding is_alive
is_alive_lem row col g r c =
    rw (count_neighbours_lem row col g, plane-cell row col g r c)
      (decide_rule (cell g (row * grid_width + col)) (neighbours g row col))
  where
    decide_rule :
        (b : Bool) (n : ℕ)
        → (if b
            then (if n == 2 || n == 3 then true else false)
            else (if n == 3 then true else false))
          ≡ (n == 3 || (b && n == 2))
    decide_rule true n = ground arith
    decide_rule false n = ground arith

-- Every access of `is_alive` to the grid is to one of its 900 cells.
pub neighbour_in_grid :
    (row col i j : ℕ)
    → row < grid_height
    → col < grid_width
    → ((row * grid_width + col) < 900)
      × ((ltb (row + i) 1
              || leb grid_height (row + i - 1)
              || ltb (col + j) 1
              || leb grid_width (col + j - 1))
            ≡ false
          → grid_width * (row + i - 1) + (col + j - 1) < 900)
neighbour_in_grid row col i j r c = (omega arith, λ h. ground arith)
