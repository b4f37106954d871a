-- ===== src/Grid/Rounds/Runs.antt =====
-- The runs of lab8/zad01 in which every signal finds its thread in `pause`.
use operating_systems_agh.Prelude.{
  ℕ, zero, suc, ◌+◌, ◌<◌, ◌≤◌, ◌≡◌, ◌⊎◌, inl, inr, ◌∙◌, ap, sym, refl, none, some, List, [], ◌∷◌,
  ◌++◌, map, arith, length, get_elem?, get_elem?-some, set, All, Has, Option-cases,
}
use operating_systems_agh.Grid.{
  grid_width, grid_height, foreground, background, Memory, ThreadData, thread_work, row_threads,
  all_threads,
}
use operating_systems_agh.Grid.Threads.{worker, each_cell_threaded}
use operating_systems_agh.Grid.Rounds.{
  Phase, to_work, to_pause, paused, Thread, Main, to_draw, to_step, Life, other, woken, thread_turn,
  main_turn, Turn, thread, step_main, step, start, started, IsPaused, Signals, Calm, here, next,
}
use operating_systems_agh.Grid.Rounds.Work.{size, generation, IsAtCell, cells}
use operating_systems_agh.Grid.Rounds.Frames.{
  IsLife, work-IsLife, pause-IsLife, draw-IsLife, signal-IsLife,
}

-- A thread that `game_of_life` makes.
abbrev IsWorker : ThreadData → Type 0
IsWorker t =
    (t.src ≡ foreground) × (t.dst ≡ background) × (t.row < grid_height) × (t.col < grid_width)

row_threads-IsWorker :
    (i n j : ℕ) (rest : List ThreadData)
    → i < grid_height
    → j + n ≤ grid_width
    → All IsWorker rest
    → All IsWorker (row_threads foreground background i n j rest)
unfolding row_threads
row_threads-IsWorker i zero j rest row le h = h
row_threads-IsWorker i (suc n) j rest row le h =
    ((refl, refl, row, omega arith), row_threads-IsWorker i n (j + 1) rest row (omega arith) h)

all_threads-IsWorker :
    (n i : ℕ) → i + n ≤ grid_height → All IsWorker (all_threads foreground background n i)
unfolding all_threads
all_threads-IsWorker zero i le = tt
all_threads-IsWorker (suc n) i le =
    row_threads-IsWorker i grid_width 0 _ (omega arith) (omega arith)
      (all_threads-IsWorker n (i + 1) (omega arith))

started-IsAtCell :
    (m : Memory) (cs : List ThreadData) → All IsWorker cs → All (IsAtCell m foreground) (started cs)
started-IsAtCell m [] h = tt
started-IsAtCell m (c ∷ cs) h = (
  record { src_eq = h.0.0; dst_eq = h.0.1; row_lt = h.0.2; col_lt = h.0.3; written = inl refl },
  started-IsAtCell m cs h.1,
)

started-Has :
    (cs : List ThreadData) (r c : ℕ) → Has (worker (r, c)) cs → Has (r, c) (cells (started cs))
started-Has [] r c (n, e) = absurd (cc)
started-Has (d ∷ cs) r c (zero, e) = (0, cc)
started-Has (d ∷ cs) r c (suc n, e) = let (k, h) = started-Has cs r c (n, e) in (suc k, h)

Phase-cases : (p : Phase) → (p ≡ to_work) ⊎ ((p ≡ to_pause) ⊎ (p ≡ paused))
Phase-cases to_work = inl refl
Phase-cases to_pause = inr (inl refl)
Phase-cases paused = inr (inr refl)

Main-cases : (p : Main) → (p ≡ to_draw) ⊎ (p ≡ to_step)
Main-cases to_draw = inl refl
Main-cases to_step = inr refl

-- The turns, case by case.
module _ (i : ℕ) (w : Life) (t : Thread) where
  abbrev pub after_work : Life
  after_work = record w {
    memory = thread_work t.cell w.memory;
    threads = set w.threads i (record t { phase = to_pause });
  }

  abbrev pub after_pause : Life
  after_pause = record w { threads = set w.threads i (record t { phase = paused }) }

  pub turn-work : t.phase ≡ to_work → thread_turn i w t ≡ some after_work
  unfolding thread_turn
  turn-work e = rw (thread_turn, e) refl

  pub turn-pause : t.phase ≡ to_pause → thread_turn i w t ≡ some after_pause
  unfolding thread_turn
  turn-pause e = rw (thread_turn, e) refl

  turn-paused : t.phase ≡ paused → thread_turn i w t ≡ none
  unfolding thread_turn
  turn-paused e = rw (thread_turn, e) refl

  pub step-thread :
      {v : Life}
      → get_elem? w.threads i ≡ some t
      → thread_turn i w t ≡ some v
      → step (thread i) w ≡ some v
  unfolding step
  step-thread at e = rw (at, step) e

module _ (w : Life) where
  abbrev pub after_draw : Life
  after_draw = record w { frames = w.frames ++ w.memory w.front ∷ []; main = to_step }

  abbrev pub after_signal : Life
  after_signal = record w { threads = map woken w.threads; front = other w.front; main = to_draw }

  pub turn-draw : w.main ≡ to_draw → main_turn w ≡ after_draw
  unfolding main_turn
  turn-draw e = rw (main_turn, e) refl

  pub turn-signal : w.main ≡ to_step → main_turn w ≡ after_signal
  unfolding main_turn
  turn-signal e = rw (main_turn, e) refl

some_inj : {v w : Life} → some v ≡ some w → v ≡ w
some_inj e = cc

module _ (g back : List ℕ) (wide : length g ≡ size) (room : length back ≡ size) where
  first_frame : (n : ℕ) (f : List ℕ) → get_elem? (g ∷ []) n ≡ some f → f ≡ generation g n
  unfolding generation
  first_frame zero f e = cc
  first_frame (suc n) f e = absurd (cc)

  start-IsLife : IsLife g 0 (start g back)
  unfolding generation
  start-IsLife = record {
    front_eq = refl;
    room = room;
    at_cells =
        started-IsAtCell (start g back).memory _ (all_threads-IsWorker grid_height 0 (omega arith));
    covered = λ r c row col. started-Has _ r c (each_cell_threaded r c row col);
    drawn = refl;
    frames_eq = first_frame;
  }

  thread_turn-IsLife :
      (k i : ℕ) (w v : Life) (t : Thread)
      → IsLife g k w
      → get_elem? w.threads i ≡ some t
      → thread_turn i w t ≡ some v
      → IsLife g k v
  thread_turn-IsLife k i w v t h at e = elim (Phase-cases t.phase) [
    | inl p ↦ rw (← some_inj (sym (turn-work i w t p) ∙ e)) (work-IsLife g k w h i t at p)
    | inr (inl p) ↦ rw (← some_inj (sym (turn-pause i w t p) ∙ e)) (pause-IsLife g k w h i t at p)
    | inr (inr p) ↦ absurd (cc (turn-paused i w t p, e))
  ]

  main_turn-IsLife :
      (k : ℕ) (w : Life)
      → IsLife g k w
      → (w.main ≡ to_step → All IsPaused w.threads)
      → (j : ℕ) × IsLife g j (main_turn w)
  main_turn-IsLife k w h calm = elim (Main-cases w.main) [
    | inl p ↦ (k, rw (turn-draw w p) (draw-IsLife g k w h p))
    | inr p ↦ (suc k, rw (turn-signal w p) (signal-IsLife g k w h wide p (calm p)))
  ]

  step-IsLife :
      (k : ℕ) (t : Turn) (w v : Life)
      → IsLife g k w
      → (Signals t w → All IsPaused w.threads)
      → step t w ≡ some v
      → (j : ℕ) × IsLife g j v
  unfolding step
  step-IsLife k (thread i) w v h calm e = elim (Option-cases (get_elem? w.threads i)) [
    | inl out ↦ absurd (cc)
    | inr (t, at) ↦ (k, thread_turn-IsLife k i w v t h at (cc))
  ]
  step-IsLife k step_main w v h calm e =
      let (j, l) = main_turn-IsLife k w h (λ p. calm (refl, p)) in (j, rw (← some_inj e) l)

  pub Calm-IsLife : {w : Life} → Calm (start g back) w → (k : ℕ) × IsLife g k w
  Calm-IsLife here = (0, start-IsLife)
  Calm-IsLife (next {v} {w} t r calm e) = let (k, h) = Calm-IsLife r in step-IsLife k t v w h calm e

  -- In every run in which the signals find each thread in `pause`, frame number `n` is generation `n`, as the loop of
  -- `update_grid` makes it.
  pub frame_lem :
      {w : Life} (n : ℕ)
      → Calm (start g back) w
      → n < length w.frames
      → get_elem? w.frames n ≡ some (generation g n)
  frame_lem {w} n r lt =
      let (k, h) = Calm-IsLife r in
      let (f, e) = get_elem?-some w.frames n lt in e ∙ ap some (h.frames_eq n f e)
