-- ===== src/Grid/Tests.antt =====
-- The game of life on concrete grids.
use operating_systems_agh.Prelude.{
  ℕ, zero, suc, ◌+◌, ◌*◌, ◌<◌, ◌≤◌, ◌≡◌, refl, true, false, ◌&&◌, ◌||◌, ◌==◌, List, [], ◌∷◌, ◌++◌,
  some, arith, length, get_elem?, replicate, All, Has, Has-append, ℕ_discrete, ap, ◌∙◌,
}
use operating_systems_agh.Grid.{
  grid_width, grid_height, add_neighbour, count_neighbours, count_row, is_alive, update_grid,
  Memory, foreground, background, run_threads,
}
use operating_systems_agh.Grid.Rule.{plane, neighbours, is_alive_lem}
use operating_systems_agh.Grid.Rounds.{Life, Calm, start}
use operating_systems_agh.Grid.Rounds.Work.{generation}
use operating_systems_agh.Grid.Rounds.Runs.{frame_lem}
use operating_systems_agh.Grid.Rounds.Progress.{every_frame_comes}
use operating_systems_agh.Grid.Threads.{workers, InGrid, threads_in_any_order}

-- Three living cells in the middle of row 1, from column 1 on.
abbrev blinker : List ℕ
blinker = replicate 31 0 ++ 1 ∷ 1 ∷ 1 ∷ replicate 866 0

turns :
    (is_alive 0 2 blinker ≡ true)
    × (is_alive 1 2 blinker ≡ true)
    × (is_alive 2 2 blinker ≡ true)
    × (is_alive 1 1 blinker ≡ false)
unfolding is_alive count_neighbours count_row add_neighbour
turns = (refl, refl, refl, refl)

is_alive_lem_example : is_alive 1 2 blinker ≡ (
    neighbours blinker 1 2 == 3 || (plane blinker (1 + 1) (2 + 1) && neighbours blinker 1 2 == 2))
is_alive_lem_example = is_alive_lem 1 2 blinker (omega arith) (omega arith)

abbrev blank : List ℕ
blank = replicate 900 0

-- The cells of row `i` from the last column down, and the rows from the last one down.
row_cells : ℕ → ℕ → List (ℕ × ℕ)
row_cells i zero = []
row_cells i (suc n) = (i, n) ∷ row_cells i n

all_cells : ℕ → List (ℕ × ℕ)
all_cells zero = []
all_cells (suc n) = row_cells n 30 ++ all_cells n

Has-append_left {ℓ} : {A : Type ℓ} (x : A) (xs ys : List A) → Has x xs → Has x (xs ++ ys)
Has-append_left x [] ys (n, e) = absurd (cc)
Has-append_left x (y ∷ xs) ys (zero, e) = (0, e)
Has-append_left x (y ∷ xs) ys (suc n, e) = let (k, h) = Has-append_left x xs ys (n, e) in (suc k, h)

row_cells-Has : (i n c : ℕ) → c < n → Has (i, c) (row_cells i n)
unfolding row_cells
row_cells-Has i zero c lt = absurd (omega arith)
row_cells-Has i (suc n) c lt = elim (ℕ_discrete n c) [
  | yes e ↦ (0, ap (λ k. some (i, k)) e)
  | no ne ↦ let (k, h) = row_cells-Has i n c (omega arith) in (suc k, h)
]

all_cells-Has : (n r c : ℕ) → r < n → c < 30 → Has (r, c) (all_cells n)
unfolding all_cells
all_cells-Has zero r c lt col = absurd (omega arith)
all_cells-Has (suc n) r c lt col = elim (ℕ_discrete n r) [
  | yes e ↦
      Has-append_left (r, c) (row_cells n 30) (all_cells n)
        (let (k, h) = row_cells-Has n 30 c col in (k, h ∙ ap (λ q. some (q, c)) e))
  | no ne ↦ Has-append (r, c) (row_cells n 30) (all_cells n) (all_cells-Has n r c (omega arith) col)
]

All-append {ℓ} :
    {A : Type ℓ} (P : A → Type 0) (xs ys : List A) → All P xs → All P ys → All P (xs ++ ys)
All-append P [] ys hx hy = hy
All-append P (x ∷ xs) ys hx hy = (hx.0, All-append P xs ys hx.1 hy)

row_cells-InGrid : (i n : ℕ) → i < 30 → n ≤ 30 → All InGrid (row_cells i n)
unfolding row_cells
row_cells-InGrid i zero row le = tt
row_cells-InGrid i (suc n) row le = ((row, omega arith), row_cells-InGrid i n row (omega arith))

all_cells-InGrid : (n : ℕ) → n ≤ 30 → All InGrid (all_cells n)
unfolding all_cells
all_cells-InGrid zero le = tt
all_cells-InGrid (suc n) le =
    All-append InGrid (row_cells n 30) (all_cells n)
      (row_cells-InGrid n 30 (omega arith) (omega arith)) (all_cells-InGrid n (omega arith))

abbrev two_grids : Memory
two_grids foreground = blinker
two_grids background = blank

threads_in_any_order_example :
    (run_threads (workers (all_cells 30)) two_grids foreground ≡ two_grids foreground)
    × ((r c : ℕ)
        → r < grid_height
        → c < grid_width
        → get_elem? (run_threads (workers (all_cells 30)) two_grids background) (r * grid_width + c)
          ≡ get_elem?
              (update_grid (two_grids foreground) (two_grids background))
              (r * grid_width + c))
threads_in_any_order_example =
    threads_in_any_order (all_cells 30) two_grids (omega arith) (all_cells-InGrid 30 (omega arith))
      (λ r c row col. all_cells-Has 30 r c row col)

every_frame_comes_example :
    (w : Life) × Calm (start blinker blank) w
    × (length w.frames ≡ 3)
    × (get_elem? w.frames 2 ≡ some (generation blinker 2))
every_frame_comes_example = every_frame_comes blinker blank refl refl 2

-- A run that has drawn three frames
abbrev third : Life
third = (every_frame_comes blinker blank refl refl 2).0

frame_lem_example : get_elem? third.frames 1 ≡ some (generation blinker 1)
frame_lem_example =
    frame_lem blinker blank refl refl {w = third} 1 (every_frame_comes blinker blank refl refl 2).1
      (omega (arith, (every_frame_comes blinker blank refl refl 2).2))
