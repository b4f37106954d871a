-- ===== src/Grid.antt =====
-- lab8/zad01/lib/grid.c: the game of life, updated in one loop or by a thread for each cell. A grid is
-- the list of its characters; an access is to an index that is below their number (Grid/Rule).
pub mod Rule
pub mod Update
pub mod Threads
pub mod Rounds
mod Tests
use operating_systems_agh.Prelude.{
  ℕ, zero, suc, ◌+◌, ◌-◌, ◌*◌, ◌%◌, ◌<◌, ◌≡◌, Bool, true, false, not, ◌&&◌, ◌||◌, Option, none,
  some, List, [], ◌∷◌, ◌==◌, ltb, leb, if◌then◌else◌, length, get_or, set, replicate,
}

abbrev pub grid_width : ℕ
grid_width = 30

abbrev pub grid_height : ℕ
grid_height = 30

-- `grid[i]` as a condition
abbrev pub cell : List ℕ → ℕ → Bool
cell grid i = not (get_or grid i 0 == 0)

-- A `bool` stored in a `char`
abbrev pub to_char : Bool → ℕ
to_char true = 1
to_char false = 0

-- `init_grid`, on what the calls of `rand` return.
pub init_grid : List ℕ → List ℕ
init_grid [] = []
init_grid (r ∷ rs) = to_char (r % 2 == 0) ∷ init_grid rs

-- The body of the loops of `is_alive`. The offsets are one more than in the source, so that `r` is
-- `row + i - 1`, which is negative when `row + i` is 0.
pub add_neighbour : ℕ → ℕ → List ℕ → ℕ → ℕ → ℕ → ℕ
add_neighbour row col grid i j count =
    if i == 1 && j == 1
    then count
    else if ltb (row + i) 1
        || leb grid_height (row + i - 1)
        || ltb (col + j) 1
        || leb grid_width (col + j - 1)
    then count
    else if cell grid (grid_width * (row + i - 1) + (col + j - 1))
    then count + 1
    else count

-- The inner loop, then the outer one.
pub count_row : ℕ → ℕ → List ℕ → ℕ → ℕ → ℕ
count_row row col grid i count =
    add_neighbour row col grid i 2
      (add_neighbour row col grid i 1 (add_neighbour row col grid i 0 count))

pub count_neighbours : ℕ → ℕ → List ℕ → ℕ
count_neighbours row col grid =
    count_row row col grid 2 (count_row row col grid 1 (count_row row col grid 0 0))

pub is_alive : ℕ → ℕ → List ℕ → Bool
is_alive row col grid =
    let count = count_neighbours row col grid in
    if cell grid (row * grid_width + col)
    then (if count == 2 || count == 3 then true else false)
    else (if count == 3 then true else false)

-- The inner loop of `update_grid`: `n` columns left, from `j` on.
pub update_row : List ℕ → ℕ → ℕ → ℕ → List ℕ → List ℕ
update_row src i zero j dst = dst
update_row src i (suc n) j dst =
    update_row src i n (j + 1) (set dst (i * grid_width + j) (to_char (is_alive i j src)))

-- The outer loop: `n` rows left, from `i` on.
pub update_rows : List ℕ → ℕ → ℕ → List ℕ → List ℕ
update_rows src zero i dst = dst
update_rows src (suc n) i dst = update_rows src n (i + 1) (update_row src i grid_width 0 dst)

-- `src` and `dst` are different arrays, as in `main`.
pub update_grid : List ℕ → List ℕ → List ℕ
update_grid src dst = update_rows src grid_height 0 dst

-- The two arrays of `main`.
pub data Buffer : Type 0 where
  foreground background : Buffer

abbrev pub Memory : Type 0
Memory = Buffer → List ℕ

-- `thread_data`
pub record ThreadData : Type 0 where
  pub src : Buffer
  pub dst : Buffer
  pub row : ℕ
  pub col : ℕ

abbrev pub write_buffer : Memory → Buffer → List ℕ → Memory
write_buffer m foreground g foreground = g
write_buffer m foreground g background = m background
write_buffer m background g foreground = m foreground
write_buffer m background g background = g

-- The work of `update_grid_2` before its `pause`.
pub thread_work : ThreadData → Memory → Memory
thread_work t m =
    write_buffer m t.dst
      (set (m t.dst) (t.row * grid_width + t.col) (to_char (is_alive t.row t.col (m t.src))))

-- What it does when the signal ends the `pause`.
pub swap_buffers : ThreadData → ThreadData
swap_buffers t = record t { src = t.dst; dst = t.src }

-- The threads of a list work one after another.
pub run_threads : List ThreadData → Memory → Memory
unfolding thread_work
run_threads [] m = m
run_threads (t ∷ ts) m = run_threads ts (thread_work t m)

-- The threads that `game_of_life` makes: `n` columns of row `i` from `j` on, then the rows.
pub row_threads : Buffer → Buffer → ℕ → ℕ → ℕ → List ThreadData → List ThreadData
row_threads src dst i zero j rest = rest
row_threads src dst i (suc n) j rest =
    record { src = src; dst = dst; row = i; col = j } ∷ row_threads src dst i n (j + 1) rest

pub all_threads : Buffer → Buffer → ℕ → ℕ → List ThreadData
unfolding row_threads
all_threads src dst zero i = []
all_threads src dst (suc n) i = row_threads src dst i grid_width 0 (all_threads src dst n (i + 1))
