-- ===== src/Grid/Rounds.antt =====
-- lab8/zad01: `main` of src/main.c with the threads of lib/grid.c. A thread works on its cell, then calls `pause`, and a
-- signal that finds it there sends it back to work with its arrays swapped; one that finds it elsewhere is lost.
-- The signals of one call of `game_of_life` are one turn of `main`.
pub mod Work
pub mod Frames
pub mod Runs
pub mod Progress
use operating_systems_agh.Prelude.{
  ℕ, zero, suc, ◌≡◌, Option, none, some, List, [], ◌∷◌, ◌++◌, get_elem?, set, map, All,
}
use operating_systems_agh.Grid.{
  Buffer, foreground, background, Memory, ThreadData, thread_work, swap_buffers, all_threads,
  grid_height, init_grid,
}

-- Where a thread stands: before its work, between the work and `pause`, and in `pause`.
pub data Phase : Type 0 where
  to_work to_pause paused : Phase

pub record Thread : Type 0 where
  pub cell : ThreadData
  pub phase : Phase

-- Where `main` stands in its loop.
pub data Main : Type 0 where
  to_draw to_step : Main

-- `front` is the array that `foreground` of `main` points to; `frames` are the grids drawn, oldest first.
pub record Life : Type 0 where
  pub memory : Memory
  pub threads : List Thread
  pub front : Buffer
  pub main : Main
  pub frames : List (List ℕ)

abbrev pub other : Buffer → Buffer
other foreground = background
other background = foreground

-- What SIGUSR1 does to a thread.
pub woken : Thread → Thread
unfolding swap_buffers
woken t = elim t.phase [
  | to_work ↦ t
  | to_pause ↦ t
  | paused ↦ record { cell = swap_buffers t.cell; phase = to_work }
]

-- The next turn of a thread, at its index.
pub thread_turn : ℕ → Life → Thread → Option Life
unfolding thread_work
thread_turn i w t = elim t.phase [
  | to_work ↦ some (record w {
    memory = thread_work t.cell w.memory;
    threads = set w.threads i (record t { phase = to_pause });
  })
  | to_pause ↦ some (record w { threads = set w.threads i (record t { phase = paused }) })
  | paused ↦ none
]

-- The next turn of `main`: it draws the foreground, or sends the signals and swaps its arrays.
pub main_turn : Life → Life
unfolding woken
main_turn w = elim w.main [
  | to_draw ↦ record w { frames = w.frames ++ w.memory w.front ∷ []; main = to_step }
  | to_step ↦ record w { threads = map woken w.threads; front = other w.front; main = to_draw }
]

pub data Turn : Type 0 where
  thread : ℕ → Turn
  step_main : Turn

pub step : Turn → Life → Option Life
unfolding thread_turn main_turn
step (thread i) w = elim (get_elem? w.threads i) [ none ↦ none | some t ↦ thread_turn i w t ]
step step_main w = some (main_turn w)

abbrev pub started : List ThreadData → List Thread
started [] = []
started (c ∷ cs) = record { cell = c; phase = to_work } ∷ started cs

-- After the first frame, with the threads that the first call of `game_of_life` has made.
abbrev pub start : List ℕ → List ℕ → Life
start front back = record {
  memory = λ b. elim b [ foreground ↦ front | background ↦ back ];
  threads = started (all_threads foreground background grid_height 0);
  front = foreground;
  main = to_step;
  frames = front ∷ [];
}

abbrev pub IsPaused : Thread → Type 0
IsPaused t = t.phase ≡ paused

-- `main` sends its signals.
abbrev pub Signals : Turn → Life → Type 0
Signals t w = (t ≡ step_main) × (w.main ≡ to_step)

-- The states of the runs in which the signals find every thread in its `pause`.
pub data Calm (s : Life) : Life → Type 0 where
  here : Calm s s
  next :
      {v w : Life} (t : Turn)
      → Calm s v
      → (Signals t v → All IsPaused v.threads)
      → step t v ≡ some w
      → Calm s w
