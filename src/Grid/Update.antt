-- ===== src/Grid/Update.antt =====
-- lab8/zad01/lib/grid.c: the loops of `update_grid`.
use operating_systems_agh.Prelude.{
  ℕ, zero, suc, ◌+◌, ◌*◌, ◌<◌, ◌≤◌, ◌≡◌, ◌∙◌, ap, sym, refl, List, some, arith, length, length-set,
  get_elem?, get_elem?-set_self, get_elem?-set_ne, set, ℕ_discrete, ◌⊎◌, inl,
}
use operating_systems_agh.Grid.{
  grid_width, grid_height, to_char, is_alive, update_row, update_rows, update_grid,
}

-- The character of a cell in the next generation.
abbrev pub next_char : List ℕ → ℕ → ℕ → ℕ
next_char src i j = to_char (is_alive i j src)

length-update_row :
    (src : List ℕ) (i n j : ℕ) (dst : List ℕ) → length (update_row src i n j dst) ≡ length dst
unfolding update_row
length-update_row src i zero j dst = refl
length-update_row src i (suc n) j dst =
    length-update_row src i n (j + 1) (set dst (i * grid_width + j) (next_char src i j))
    ∙ length-set dst (i * grid_width + j) (next_char src i j)

-- Outside the columns that are left, a row stays as it is.
update_row-keeps :
    (src : List ℕ) (i n j k : ℕ) (dst : List ℕ)
    → (k < i * grid_width + j) ⊎ (i * grid_width + j + n ≤ k)
    → get_elem? (update_row src i n j dst) k ≡ get_elem? dst k
unfolding update_row
update_row-keeps src i zero j k dst out = refl
update_row-keeps src i (suc n) j k dst out =
    update_row-keeps src i n (j + 1) k (set dst (i * grid_width + j) (next_char src i j))
      (omega arith)
    ∙ get_elem?-set_ne dst {i = i * grid_width + j} {j = k} (next_char src i j) (omega arith)

update_row-writes :
    (src : List ℕ) (i n j k : ℕ) (dst : List ℕ)
    → j ≤ k
    → k < j + n
    → i * grid_width + j + n ≤ length dst
    → get_elem? (update_row src i n j dst) (i * grid_width + k) ≡ some (next_char src i k)
unfolding update_row
update_row-writes src i zero j k dst le lt room = absurd (omega arith)
update_row-writes src i (suc n) j k dst le lt room = elim (ℕ_discrete j k) [
  | yes e ↦
      update_row-keeps src i n (j + 1) (i * grid_width + k) _ (inl (omega arith))
      ∙ ap (λ c. get_elem? (set dst (i * grid_width + j) (next_char src i j)) (i * grid_width + c))
          (sym e)
      ∙ get_elem?-set_self dst (i * grid_width + j) (next_char src i j) (omega arith)
      ∙ ap (λ c. some (next_char src i c)) e
  | no ne ↦
      update_row-writes src i n (j + 1) k (set dst (i * grid_width + j) (next_char src i j))
        (omega arith) (omega arith)
        (omega (arith, length-set dst (i * grid_width + j) (next_char src i j)))
]

length-update_rows :
    (src : List ℕ) (n i : ℕ) (dst : List ℕ) → length (update_rows src n i dst) ≡ length dst
unfolding update_rows
length-update_rows src zero i dst = refl
length-update_rows src (suc n) i dst =
    length-update_rows src n (i + 1) (update_row src i grid_width 0 dst)
    ∙ length-update_row src i grid_width 0 dst

update_rows-keeps :
    (src : List ℕ) (n i k : ℕ) (dst : List ℕ)
    → k < i * grid_width
    → get_elem? (update_rows src n i dst) k ≡ get_elem? dst k
unfolding update_rows
update_rows-keeps src zero i k dst lt = refl
update_rows-keeps src (suc n) i k dst lt =
    update_rows-keeps src n (i + 1) k (update_row src i grid_width 0 dst) (omega arith)
    ∙ update_row-keeps src i grid_width 0 k dst (inl (omega arith))

update_rows-writes :
    (src : List ℕ) (n i r c : ℕ) (dst : List ℕ)
    → i ≤ r
    → r < i + n
    → c < grid_width
    → (i + n) * grid_width ≤ length dst
    → get_elem? (update_rows src n i dst) (r * grid_width + c) ≡ some (next_char src r c)
unfolding update_rows
update_rows-writes src zero i r c dst le lt col room = absurd (omega arith)
update_rows-writes src (suc n) i r c dst le lt col room = elim (ℕ_discrete i r) [
  | yes e ↦
      update_rows-keeps src n (i + 1) (r * grid_width + c) _ (omega arith)
      ∙ ap (λ q. get_elem? (update_row src i grid_width 0 dst) (q * grid_width + c)) (sym e)
      ∙ update_row-writes src i grid_width 0 c dst (omega arith) (omega arith) (omega arith)
      ∙ ap (λ q. some (next_char src q c)) e
  | no ne ↦
      update_rows-writes src n (i + 1) r c (update_row src i grid_width 0 dst) (omega arith)
        (omega arith) col (omega (arith, length-update_row src i grid_width 0 dst))
]

-- `update_grid` writes into an array of 900 characters, or more, for every cell of the grid 1 or 0 as the cell lives in
-- the next generation of `src` or not, and does not change the array's size.
pub update_grid_lem :
    (src dst : List ℕ)
    → grid_height * grid_width ≤ length dst
    → (length (update_grid src dst) ≡ length dst)
      × ((r c : ℕ)
          → r < grid_height
          → c < grid_width
          → get_elem? (update_grid src dst) (r * grid_width + c)
            ≡ some (to_char (is_alive r c src)))
unfolding update_grid
update_grid_lem src dst room = (
  length-update_rows src grid_height 0 dst,
  λ r c row col.
      update_rows-writes src grid_height 0 r c dst (omega arith) (omega arith) col (omega arith),
)
