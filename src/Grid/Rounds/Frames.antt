-- ===== src/Grid/Rounds/Frames.antt =====
-- What lab8/zad01 draws.
use operating_systems_agh.Prelude.{
  ℕ, zero, suc, ◌+◌, ◌*◌, ◌<◌, ◌≤◌, ◌≡◌, inl, inr, ◌∙◌, ap, sym, refl, some, List, [], ◌∷◌, ◌++◌,
  map, arith, length, length-set, length-append, get_elem?, set, All, All-set, All-imp,
  All-get_elem?, Has, get_elem?-snoc,
}
use operating_systems_agh.Grid.{Memory, Buffer, grid_width, grid_height, thread_work, swap_buffers}
use operating_systems_agh.Grid.Update.{next_char}
use operating_systems_agh.Grid.Rounds.{
  to_work, to_pause, paused, Thread, Main, to_draw, to_step, Life, other, woken, IsPaused,
}
use operating_systems_agh.Grid.Rounds.Work.{
  size, generation, length-generation, generation-next, other-other, IsAtCell, cells, cells-set,
  cells-woken, woken_cell, work-reads, work-writes, work_self, work-keeps,
}

-- How many frames are drawn when `k` rounds of signals are sent.
abbrev due : Main → ℕ → ℕ
due to_draw k = k
due to_step k = suc k

-- After `k` rounds the front array is generation `k`, and the threads write the next one into the other array.
pub record IsLife (g : List ℕ) (k : ℕ) (w : Life) : Type 0 where
  pub front_eq : w.memory w.front ≡ generation g k
  pub room : length (w.memory (other w.front)) ≡ size
  pub at_cells : All (IsAtCell w.memory w.front) w.threads
  pub covered : (r c : ℕ) → r < grid_height → c < grid_width → Has (r, c) (cells w.threads)
  pub drawn : length w.frames ≡ due w.main k
  pub frames_eq : (n : ℕ) (f : List ℕ) → get_elem? w.frames n ≡ some f → f ≡ generation g n

-- Once every thread is in `pause`, every cell of the other array is written.
cell-written :
    (m : Memory) (b : Buffer) (ts : List Thread)
    → All (IsAtCell m b) ts
    → All IsPaused ts
    → (r c n : ℕ) → get_elem? (cells ts) n ≡ some (r, c)
    → get_elem? (m (other b)) (r * grid_width + c) ≡ some (next_char (m b) r c)
cell-written m b [] h calm r c n e = absurd (cc)
cell-written m b (t ∷ ts) h calm r c zero e =
    let same : ◌≡◌ {A = ℕ × ℕ} (t.cell.row, t.cell.col) (r, c) = cc in
    let first = h.0 in
    elim first.written [
      | inl w ↦ absurd (cc (calm.0))
      | inr w ↦
          ap (λ (p : ℕ × ℕ). get_elem? (m (other b)) (p.0 * grid_width + p.1)) (sym same)
          ∙ w
          ∙ ap (λ (p : ℕ × ℕ). some (next_char (m b) p.0 p.1)) same
    ]
cell-written m b (t ∷ ts) h calm r c (suc n) e = cell-written m b ts h.1 calm.1 r c n e

woken-IsAtCell :
    (m : Memory) (b : Buffer) (ts : List Thread)
    → All (IsAtCell m b) ts
    → All IsPaused ts
    → All (IsAtCell m (other b)) (map woken ts)
unfolding swap_buffers
woken-IsAtCell m b [] h calm = tt
woken-IsAtCell m b (t ∷ ts) h calm =
    let first = h.0 in
    (
      rw (woken_cell t calm.0) (record {
        src_eq = first.dst_eq;
        dst_eq = first.src_eq ∙ sym (other-other b);
        row_lt = first.row_lt;
        col_lt = first.col_lt;
        written = inl refl;
      }),
      woken-IsAtCell m b ts h.1 calm.1,
    )

module _ (g : List ℕ) (k : ℕ) (w : Life) (v : IsLife g k w) where
  open v use {front_eq, room, at_cells, covered, drawn, frames_eq}

  pub work-IsLife :
      (i : ℕ) (t : Thread)
      → get_elem? w.threads i ≡ some t
      → t.phase ≡ to_work
      → IsLife g k (record w {
        memory = thread_work t.cell w.memory;
        threads = set w.threads i (record t { phase = to_pause });
      })
  work-IsLife i t at phase =
      let h = All-get_elem? (IsAtCell w.memory w.front) w.threads i at_cells at in
      let wide : size ≤ length (w.memory (other w.front)) = omega arith in
      record {
        front_eq = work-reads w.memory w.front t h ∙ front_eq;
        room =
            ap (λ (l : List ℕ). length l) (work-writes w.memory w.front t h)
            ∙ length-set (w.memory (other w.front)) _ _
            ∙ room;
        at_cells =
            All-set _ w.threads i _
              (All-imp w.threads
                (λ u hu. record {
                  src_eq = hu.src_eq;
                  dst_eq = hu.dst_eq;
                  row_lt = hu.row_lt;
                  col_lt = hu.col_lt;
                  written = elim hu.written [
                    | inl e ↦ inl e
                    | inr e ↦ inr (work-keeps w.memory w.front t u h wide hu.row_lt hu.col_lt e)
                  ];
                })
                at_cells)
              (record {
                src_eq = h.src_eq;
                dst_eq = h.dst_eq;
                row_lt = h.row_lt;
                col_lt = h.col_lt;
                written = inr (work_self w.memory w.front t h wide);
              });
        covered =
            λ r c row col. rw (cells-set w.threads i {t = t} to_pause at) (covered r c row col);
        drawn = drawn;
        frames_eq = frames_eq;
      }

  pub pause-IsLife :
      (i : ℕ) (t : Thread)
      → get_elem? w.threads i ≡ some t
      → t.phase ≡ to_pause
      → IsLife g k (record w { threads = set w.threads i (record t { phase = paused }) })
  pause-IsLife i t at phase =
      let h = All-get_elem? (IsAtCell w.memory w.front) w.threads i at_cells at in
      record {
        front_eq = front_eq;
        room = room;
        at_cells = All-set _ w.threads i _ at_cells (record {
          src_eq = h.src_eq;
          dst_eq = h.dst_eq;
          row_lt = h.row_lt;
          col_lt = h.col_lt;
          written = elim h.written [ inl e ↦ absurd (cc) | inr e ↦ inr e ];
        });
        covered = λ r c row col. rw (cells-set w.threads i {t = t} paused at) (covered r c row col);
        drawn = drawn;
        frames_eq = frames_eq;
      }

  pub draw-IsLife :
      w.main ≡ to_draw
      → IsLife g k (record w { frames = w.frames ++ w.memory w.front ∷ []; main = to_step })
  draw-IsLife at = record {
    front_eq = front_eq;
    room = room;
    at_cells = at_cells;
    covered = covered;
    drawn =
        omega (arith, length-append w.frames (w.memory w.front ∷ []), drawn ∙ ap (λ p. due p k) at);
    frames_eq = λ n f e. elim (get_elem?-snoc w.frames (w.memory w.front) n e) [
      | inl old ↦ frames_eq n f old
      | inr (last, same) ↦
          same ∙ front_eq ∙ ap (generation g) (sym (last ∙ drawn ∙ ap (λ p. due p k) at))
    ];
  }

  pub signal-IsLife :
      length g ≡ size
      → w.main ≡ to_step
      → All IsPaused w.threads
      → IsLife g
          (suc k)
          (record w { threads = map woken w.threads; front = other w.front; main = to_draw })
  signal-IsLife wide at calm = record {
    front_eq = generation-next g (w.memory (other w.front)) k room (λ r c row col.
        let (n, e) = covered r c row col in
        cell-written w.memory w.front w.threads at_cells calm r c n e
        ∙ ap (λ l. some (next_char l r c)) front_eq);
    room =
        ap (λ b. length (w.memory b)) (other-other w.front)
        ∙ ap (λ (l : List ℕ). length l) front_eq
        ∙ length-generation g k wide;
    at_cells = woken-IsAtCell w.memory w.front w.threads at_cells calm;
    covered = λ r c row col. rw (cells-woken w.threads calm) (covered r c row col);
    drawn = drawn ∙ ap (λ p. due p k) at;
    frames_eq = frames_eq;
  }
