-- ===== src/Grid/Rounds/Work.antt =====
-- What the threads of lab8/zad01 write, against the loop of `update_grid`.
use operating_systems_agh.Prelude.{
  ℕ, zero, suc, ◌+◌, ◌*◌, ◌/◌, ◌%◌, ◌<◌, ◌≤◌, ◌≡◌, ◌⊎◌, ◌∙◌, ap, sym, refl, some, List, [], ◌∷◌,
  map, arith, length, get_elem?, get_elem?-set_self, get_elem?-set_ne, set, replicate,
  length-replicate, ℕ_discrete, All, list_ext,
}
use operating_systems_agh.Grid.{
  grid_width, grid_height, update_grid, Buffer, foreground, background, Memory, write_buffer,
  thread_work, swap_buffers,
}
use operating_systems_agh.Grid.Update.{next_char, update_grid_lem}
use operating_systems_agh.Grid.Rounds.{Phase, to_work, paused, Thread, other, woken, IsPaused}

abbrev pub size : ℕ
size = grid_height * grid_width

-- The generations, as the loop of `update_grid` makes them.
unfoldable pub generation : List ℕ → ℕ → List ℕ
generation g zero = g
generation g (suc k) = update_grid (generation g k) (replicate size 0)

pub length-generation : (g : List ℕ) (k : ℕ) → length g ≡ size → length (generation g k) ≡ size
unfolding generation
length-generation g zero len = len
length-generation g (suc k) len =
    (update_grid_lem (generation g k) (replicate size 0)
      (omega (arith, length-replicate {A = ℕ} size 0))).0
    ∙ length-replicate {A = ℕ} size 0

-- An array with the next character of every cell is the next generation.
pub generation-next :
    (g xs : List ℕ) (k : ℕ)
    → length xs ≡ size
    → ((r c : ℕ)
        → r < grid_height
        → c < grid_width
        → get_elem? xs (r * grid_width + c) ≡ some (next_char (generation g k) r c))
    → xs ≡ generation g (suc k)
unfolding generation
generation-next g xs k len cells =
    let wide = length-replicate {A = ℕ} size 0 in
    let (keeps, writes) =
      update_grid_lem (generation g k) (replicate size 0) (omega (arith, wide)) in
    list_ext xs (update_grid (generation g k) (replicate size 0)) (len ∙ sym wide ∙ sym keeps)
      (λ n lt.
        let row : n / 30 < 30 = omega arith in
        let col : n % 30 < 30 = omega arith in
        let split : n ≡ n / 30 * 30 + n % 30 = omega arith in
        ap (get_elem? xs) split
        ∙ cells (n / 30) (n % 30) row col
        ∙ sym (writes (n / 30) (n % 30) row col)
        ∙ ap (get_elem? (update_grid (generation g k) (replicate size 0))) (sym split))

write_self : (m : Memory) (b : Buffer) (g : List ℕ) → write_buffer m b g b ≡ g
write_self m foreground g = refl
write_self m background g = refl

write_beside : (m : Memory) (b : Buffer) (g : List ℕ) → write_buffer m (other b) g b ≡ m b
write_beside m foreground g = refl
write_beside m background g = refl

pub other-other : (b : Buffer) → other (other b) ≡ b
other-other foreground = refl
other-other background = refl

-- The thread of a cell that reads the array `b`; once it has worked, its cell is written.
pub record IsAtCell (m : Memory) (b : Buffer) (t : Thread) : Type 0 where
  pub src_eq : t.cell.src ≡ b
  pub dst_eq : t.cell.dst ≡ other b
  pub row_lt : t.cell.row < grid_height
  pub col_lt : t.cell.col < grid_width
  pub written :
      (t.phase ≡ to_work)
      ⊎ (get_elem? (m (other b)) (t.cell.row * grid_width + t.cell.col)
          ≡ some (next_char (m b) t.cell.row t.cell.col))

-- The threads' cells
abbrev pub cells : List Thread → List (ℕ × ℕ)
cells [] = []
cells (t ∷ ts) = (t.cell.row, t.cell.col) ∷ cells ts

pub cells-set :
    (ts : List Thread) (i : ℕ) {t : Thread} (p : Phase)
    → get_elem? ts i ≡ some t
    → cells (set ts i (record t { phase = p })) ≡ cells ts
cells-set [] i p at = absurd (cc)
cells-set (x ∷ ts) zero p at = cc
cells-set (x ∷ ts) (suc i) p at = ap (λ l. (x.cell.row, x.cell.col) ∷ l) (cells-set ts i p at)

pub woken_cell :
    (t : Thread)
    → (t.phase ≡ paused)
    → woken t ≡ record { cell = swap_buffers t.cell; phase = to_work }
unfolding woken
woken_cell t e = rw (woken, e) refl

pub cells-woken : (ts : List Thread) → All IsPaused ts → cells (map woken ts) ≡ cells ts
unfolding swap_buffers
cells-woken [] h = refl
cells-woken (t ∷ ts) h =
    rw (woken_cell t h.0) (ap (λ l. (t.cell.row, t.cell.col) ∷ l) (cells-woken ts h.1))

module _ (m : Memory) (b : Buffer) where
  -- The array written to after a thread has worked.
  abbrev pub with_cell : Thread → List ℕ
  with_cell t =
      set (m (other b)) (t.cell.row * grid_width + t.cell.col)
        (next_char (m b) t.cell.row t.cell.col)

  work_eq :
      (t : Thread) → IsAtCell m b t → thread_work t.cell m ≡ write_buffer m (other b) (with_cell t)
  unfolding thread_work
  work_eq t h = rw (h.src_eq, h.dst_eq) refl

  pub work-reads : (t : Thread) → IsAtCell m b t → thread_work t.cell m b ≡ m b
  work-reads t h = ap (λ (n : Memory). n b) (work_eq t h) ∙ write_beside m b (with_cell t)

  pub work-writes : (t : Thread) → IsAtCell m b t → thread_work t.cell m (other b) ≡ with_cell t
  work-writes t h =
      ap (λ (n : Memory). n (other b)) (work_eq t h) ∙ write_self m (other b) (with_cell t)

  pub work_self :
      (t : Thread)
      → IsAtCell m b t
      → size ≤ length (m (other b))
      → get_elem? (thread_work t.cell m (other b)) (t.cell.row * grid_width + t.cell.col)
        ≡ some (next_char (thread_work t.cell m b) t.cell.row t.cell.col)
  work_self t h room =
      let row = h.row_lt in
      let col = h.col_lt in
      ap (λ l. get_elem? l (t.cell.row * grid_width + t.cell.col)) (work-writes t h)
      ∙ get_elem?-set_self (m (other b)) (t.cell.row * grid_width + t.cell.col) _ (omega arith)
      ∙ ap (λ l. some (next_char l t.cell.row t.cell.col)) (sym (work-reads t h))

  -- A cell that is written stays right when another thread works.
  pub work-keeps :
      (t u : Thread)
      → IsAtCell m b t
      → size ≤ length (m (other b))
      → u.cell.row < grid_height
      → u.cell.col < grid_width
      → get_elem? (m (other b)) (u.cell.row * grid_width + u.cell.col)
        ≡ some (next_char (m b) u.cell.row u.cell.col)
      → get_elem? (thread_work t.cell m (other b)) (u.cell.row * grid_width + u.cell.col)
        ≡ some (next_char (thread_work t.cell m b) u.cell.row u.cell.col)
  work-keeps t u h room row col e =
      let trow = h.row_lt in
      let tcol = h.col_lt in
      ap (λ l. get_elem? l (u.cell.row * grid_width + u.cell.col)) (work-writes t h)
      ∙ (elim (ℕ_discrete (t.cell.row * grid_width + t.cell.col)
          (u.cell.row * grid_width + u.cell.col)) [
            | yes same ↦
                let rows : t.cell.row ≡ u.cell.row = omega arith in
                let cols : t.cell.col ≡ u.cell.col = omega arith in
                ap (get_elem? (with_cell t)) (sym same)
                ∙ get_elem?-set_self (m (other b)) (t.cell.row * grid_width + t.cell.col) _
                    (omega arith)
                ∙ ap (λ r. some (next_char (m b) r t.cell.col)) rows
                ∙ ap (λ c. some (next_char (m b) u.cell.row c)) cols
            | no ne ↦ get_elem?-set_ne (m (other b)) _ ne ∙ e
          ])
      ∙ ap (λ l. some (next_char l u.cell.row u.cell.col)) (sym (work-reads t h))
