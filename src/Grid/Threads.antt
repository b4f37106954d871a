-- ===== src/Grid/Threads.antt =====
-- lab8/zad01/lib/grid.c: a thread for each cell, in any order of their work.
use operating_systems_agh.Prelude.{
  ℕ, zero, suc, ◌+◌, ◌*◌, ◌<◌, ◌≤◌, ◌≡◌, ◌∙◌, ap, sym, refl, List, [], ◌∷◌, some, arith, length,
  length-set, get_elem?, get_elem?-set_self, get_elem?-set_ne, set, ℕ_discrete, All, Has,
}
use operating_systems_agh.Grid.{
  grid_width, grid_height, update_grid, foreground, background, Memory, ThreadData, thread_work,
  run_threads, row_threads, all_threads,
}
use operating_systems_agh.Grid.Update.{next_char, update_grid_lem}

-- The thread of a cell before the first signal.
abbrev pub worker : ℕ × ℕ → ThreadData
worker (r, c) = record { src = foreground; dst = background; row = r; col = c }

abbrev pub workers : List (ℕ × ℕ) → List ThreadData
workers [] = []
workers (p ∷ ps) = worker p ∷ workers ps

abbrev pub InGrid : ℕ × ℕ → Type 0
InGrid (r, c) = (r < grid_height) × (c < grid_width)

abbrev place : ℕ → ℕ → ℕ
place r c = r * grid_width + c

-- The array written to holds the next generation's character of the cell.
abbrev IsWritten : Memory → ℕ → ℕ → Type 0
IsWritten m r c = get_elem? (m background) (place r c) ≡ some (next_char (m foreground) r c)

module _ (m : Memory) (room : grid_height * grid_width ≤ length (m background)) where
  work-writes :
      (r c : ℕ) → r < grid_height → c < grid_width → IsWritten (thread_work (worker (r, c)) m) r c
  unfolding thread_work
  work-writes r c row col =
      get_elem?-set_self (m background) (place r c) (next_char (m foreground) r c) (omega arith)

  work-keeps :
      (p : ℕ × ℕ) (r c : ℕ)
      → InGrid p
      → r < grid_height
      → c < grid_width
      → IsWritten m r c
      → IsWritten (thread_work (worker p) m) r c
  unfolding thread_work
  work-keeps (q, d) r c inside row col h = elim (ℕ_discrete (place q d) (place r c)) [
    | yes e ↦
        let rows : q ≡ r = omega arith in
        let cols : d ≡ c = omega arith in
        ap (λ k. get_elem? (set (m background) (place q d) (next_char (m foreground) q d)) k)
          (sym e)
        ∙ get_elem?-set_self (m background) (place q d) (next_char (m foreground) q d) (omega arith)
        ∙ ap (λ k. some (next_char (m foreground) k d)) rows
        ∙ ap (λ k. some (next_char (m foreground) r k)) cols
    | no ne ↦ get_elem?-set_ne (m background) (next_char (m foreground) q d) ne ∙ h
  ]

  length-work : (p : ℕ × ℕ) → length (thread_work (worker p) m background) ≡ length (m background)
  unfolding thread_work
  length-work (q, d) = length-set (m background) (place q d) (next_char (m foreground) q d)

-- A place that is written stays right, whichever threads work next.
run-keeps :
    (ps : List (ℕ × ℕ)) (m : Memory) (r c : ℕ)
    → grid_height * grid_width ≤ length (m background)
    → All InGrid ps
    → r < grid_height
    → c < grid_width
    → IsWritten m r c
    → IsWritten (run_threads (workers ps) m) r c
unfolding run_threads
run-keeps [] m r c room inside row col h = h
run-keeps ((q, d) ∷ ps) m r c room inside row col h =
    run-keeps ps (thread_work (worker (q, d)) m) r c (omega (arith, length-work m room (q, d)))
      inside.1 row col (work-keeps m room (q, d) r c inside.0 row col h)

run-writes :
    (ps : List (ℕ × ℕ)) (m : Memory) (r c n : ℕ)
    → grid_height * grid_width ≤ length (m background)
    → All InGrid ps
    → get_elem? ps n ≡ some (r, c)
    → r < grid_height
    → c < grid_width
    → IsWritten (run_threads (workers ps) m) r c
unfolding run_threads
run-writes [] m r c n room inside at row col = absurd (cc)
run-writes ((q, d) ∷ ps) m r c zero room inside at row col =
    run-keeps ps (thread_work (worker (q, d)) m) r c (omega (arith, length-work m room (q, d)))
      inside.1 row col
      (ap (λ (p : ℕ × ℕ). get_elem? (thread_work (worker p) m background) (place r c)) same
        ∙ work-writes m room r c row col)
  where
    same : ◌≡◌ {A = ℕ × ℕ} (q, d) (r, c)
    same = cc
run-writes ((q, d) ∷ ps) m r c (suc n) room inside at row col =
    run-writes ps (thread_work (worker (q, d)) m) r c n (omega (arith, length-work m room (q, d)))
      inside.1 at row col

run-foreground :
    (ps : List (ℕ × ℕ)) (m : Memory) → run_threads (workers ps) m foreground ≡ m foreground
unfolding run_threads thread_work
run-foreground [] m = refl
run-foreground (p ∷ ps) m = run-foreground ps (thread_work (worker p) m)

-- One round of the threads of any list of cells of the grid that names every cell, in any order and with any
-- repetitions, leaves the array read as it was, and writes into the other one what `update_grid`
-- writes: the two agree at every cell.
pub threads_in_any_order :
    (ps : List (ℕ × ℕ)) (m : Memory)
    → grid_height * grid_width ≤ length (m background)
    → All InGrid ps
    → ((r c : ℕ) → r < grid_height → c < grid_width → Has (r, c) ps)
    → (run_threads (workers ps) m foreground ≡ m foreground)
      × ((r c : ℕ)
          → r < grid_height
          → c < grid_width
          → get_elem? (run_threads (workers ps) m background) (r * grid_width + c)
            ≡ get_elem? (update_grid (m foreground) (m background)) (r * grid_width + c))
threads_in_any_order ps m room inside every = (
  run-foreground ps m,
  λ r c row col.
      let (n, at) = every r c row col in
      run-writes ps m r c n room inside at row col
      ∙ ap (λ g. some (next_char g r c)) (run-foreground ps m)
      ∙ sym ((update_grid_lem (m foreground) (m background) room).1 r c row col),
)

row_threads-skip :
    (i n j : ℕ) (rest : List ThreadData) (t : ThreadData)
    → Has t rest
    → Has t (row_threads foreground background i n j rest)
unfolding row_threads
row_threads-skip i zero j rest t h = h
row_threads-skip i (suc n) j rest t h =
    let (k, e) = row_threads-skip i n (j + 1) rest t h in (suc k, e)

row_threads-Has :
    (i n j c : ℕ) (rest : List ThreadData)
    → j ≤ c
    → c < j + n
    → Has (worker (i, c)) (row_threads foreground background i n j rest)
unfolding row_threads
row_threads-Has i zero j c rest le lt = absurd (omega arith)
row_threads-Has i (suc n) j c rest le lt = elim (ℕ_discrete j c) [
  | yes e ↦ (0, ap (λ k. some (worker (i, k))) e)
  | no ne ↦
      let (k, e) = row_threads-Has i n (j + 1) c rest (omega arith) (omega arith) in (suc k, e)
]

all_threads-Has :
    (n i r c : ℕ)
    → i ≤ r
    → r < i + n
    → c < grid_width
    → Has (worker (r, c)) (all_threads foreground background n i)
unfolding all_threads
all_threads-Has zero i r c le lt col = absurd (omega arith)
all_threads-Has (suc n) i r c le lt col = elim (ℕ_discrete i r) [
  | yes e ↦
      let (k, h) =
        row_threads-Has i grid_width 0 c (all_threads foreground background n (i + 1)) (omega arith)
          (omega arith) in
      (k, h ∙ ap (λ q. some (worker (q, c))) e)
  | no ne ↦
      row_threads-skip i grid_width 0 (all_threads foreground background n (i + 1)) (worker (r, c))
        (all_threads-Has n (i + 1) r c (omega arith) (omega arith) col)
]

-- `game_of_life` makes a thread for every cell of the grid.
pub each_cell_threaded :
    (r c : ℕ)
    → r < grid_height
    → c < grid_width
    → Has (worker (r, c)) (all_threads foreground background grid_height 0)
each_cell_threaded r c row col = all_threads-Has grid_height 0 r c (omega arith) (omega arith) col
