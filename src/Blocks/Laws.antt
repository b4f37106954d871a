-- ===== src/Blocks/Laws.antt =====
-- lab1/zad1/memoryBlock.c: what the operations promise of an array of blocks.
use operating_systems_agh.Prelude.{
  lt_of_get_elem?, ℕ, zero, suc, ◌+◌, ◌<◌, ◌≤◌, ◌≡◌, ◌≢◌, ◌∙◌, sym, ap, refl, true, Option, none,
  some, List, [], ◌∷◌, arith, length, length-replicate, length-set, get_elem?, get_elem?-none,
  get_elem?-some, dec_lt, get_elem?-set_self, get_elem?-set_ne, lt_of_get_elem?, set, replicate,
  pos, negsuc, All,
}
use operating_systems_agh.Blocks.{
  Block, Block, DataBlock, returned, exited, fault, initialize_new_block, index_to_write, names_fit,
  read_block, count_lines_and_words, get_block, delete_block, delete_blocks, delete_data_block,
}

-- The array has as many slots as its capacity says.
pub record IsBlocks (d : DataBlock) : Type 0 where
  pub slots : d.capacity ≡ pos (length d.memory)

-- A new array of a size that is not negative is well-formed, holds nothing, and has that size.
pub initialize_new_block_lem :
    (n : ℕ)
    → let d = initialize_new_block (pos n) in
      IsBlocks d
      × (length d.memory ≡ n)
      × (d.size ≡ 0)
      × ((i : ℕ) → i < n → get_block d (pos i) ≡ exited)
unfolding initialize_new_block get_block
initialize_new_block_lem n = (
  record { slots = ap pos (sym (length-replicate n none)) },
  length-replicate n none,
  refl,
  λ i lt. ground (arith, get_elem?-replicate n i lt),
)
  where
    free_slots : ℕ → List (Option Block)
    free_slots n = replicate n none

    get_elem?-replicate : (n i : ℕ) → i < n → get_elem? (free_slots n) i ≡ some none
    get_elem?-replicate zero i lt = absurd (omega arith)
    get_elem?-replicate (suc n) zero lt = refl
    get_elem?-replicate (suc n) (suc i) lt = get_elem?-replicate n i (omega arith)

-- The first slot that is NULL.
pub record IsFirstFree (bs : List (Option Block)) (i : ℕ) : Type 0 where
  pub free : get_elem? bs i ≡ some none
  pub first : (j : ℕ) → j < i → (b : Block) × (get_elem? bs j ≡ some (some b))

index_to_write-some :
    (bs : List (Option Block)) (i k : ℕ)
    → get_elem? bs k ≡ some none
    → (n : ℕ) × (index_to_write i bs ≡ some (i + n)) × IsFirstFree bs n
unfolding index_to_write
index_to_write-some [] i k e = absurd (cc)
index_to_write-some (none ∷ bs) i k e =
    (0, ap some (omega arith), record { free = refl; first = λ j lt. absurd (omega arith) })
index_to_write-some (some b ∷ bs) i zero e = absurd (cc)
index_to_write-some (some b ∷ bs) i (suc k) e =
    let (n, h, f) = index_to_write-some bs (i + 1) k e in
    (suc n, h ∙ ap some (omega arith), record { free = f.free; first = before n f })
  where
    before :
        (n : ℕ)
        → IsFirstFree bs n
        → (j : ℕ) → j < suc n
        → (c : Block) × (get_elem? (some b ∷ bs) j ≡ some (some c))
    before n f zero lt = (b, refl)
    before n f (suc j) lt = f.first j (omega arith)

index_to_write-none :
    (bs : List (Option Block)) (i : ℕ) → All (λ b. b ≢ none) bs → index_to_write i bs ≡ none
unfolding index_to_write
index_to_write-none [] i h = refl
index_to_write-none (none ∷ bs) i h = absurd (h.0 refl)
index_to_write-none (some b ∷ bs) i h = index_to_write-none bs (i + 1) h.1

-- If some slot is NULL, the names fit into the buffers and the result file opens, counting puts the
-- contents of that file into the first such slot, where `getBlock` finds them; every other index gives what it
-- gave before, the array stays well-formed, and its size grows by one.
pub get_block-count_lines_and_words :
    (d : DataBlock) (filename bytes : List ℕ) (k : ℕ)
    → IsBlocks d
    → names_fit filename ≡ true
    → get_elem? d.memory k ≡ some none
    → (e : DataBlock) × (i : ℕ) × (count_lines_and_words d filename (some bytes) ≡ returned e)
      × IsFirstFree d.memory i
      × (get_block e (pos i) ≡ returned (read_block bytes))
      × ((j : ℕ) → j ≢ i → get_block e (pos j) ≡ get_block d (pos j))
      × IsBlocks e
      × (e.size ≡ d.size + 1)
unfolding count_lines_and_words get_block
get_block-count_lines_and_words d filename bytes k v fit free =
    let (i, h, f) = index_to_write-some d.memory 0 k free in
    (
      record d { memory = set d.memory i (some (read_block bytes)); size = d.size + 1 },
      i,
      ground arith,
      f,
      ground (
        arith,
        v.slots,
        lt_of_get_elem? d.memory i f.free,
        get_elem?-set_self d.memory i (some (read_block bytes)),
      ),
      λ j ne. rw (get_elem?-set_ne d.memory (some (read_block bytes)) (λ e. ne (sym e))),
      record { slots = v.slots ∙ ap pos (sym (length-set d.memory i (some (read_block bytes)))) },
      refl,
    )

-- If no slot is NULL and the names fit, counting ends the process.
pub full_blocks_exit :
    (d : DataBlock) (filename : List ℕ) (result : Option (List ℕ))
    → names_fit filename ≡ true
    → All (λ b. b ≢ none) d.memory
    → count_lines_and_words d filename result ≡ exited
unfolding count_lines_and_words
full_blocks_exit d filename result fit full = ground (arith, index_to_write-none d.memory 0 full)

-- At an index below the capacity, showing gives the block of the slot and ends the process where the slot is NULL, and
-- deleting makes that slot NULL and changes nothing else; a negative index and one above the capacity end the process
-- in both; the capacity itself passes the test and goes outside the array in both.
pub index_bounds :
    (d : DataBlock)
    → IsBlocks d
    → ((i : ℕ) (b : Block)
        → get_elem? d.memory i ≡ some (some b)
        → get_block d (pos i) ≡ returned b)
      × ((i : ℕ) → get_elem? d.memory i ≡ some none → get_block d (pos i) ≡ exited)
      × ((i : ℕ)
          → i < length d.memory
          → delete_block d (pos i) ≡ returned (record d { memory = set d.memory i none }))
      × ((i : ℕ)
          → length d.memory < i
          → (get_block d (pos i) ≡ exited) × (delete_block d (pos i) ≡ exited))
      × ((i : ℕ) → (get_block d (negsuc i) ≡ exited) × (delete_block d (negsuc i) ≡ exited))
      × (get_block d d.capacity ≡ fault)
      × (delete_block d d.capacity ≡ fault)
unfolding get_block delete_block
index_bounds d v = (
  λ i b at. let lt = lt_of_get_elem? d.memory i at in ground arith,
  λ i at. let lt = lt_of_get_elem? d.memory i at in ground arith,
  λ i lt. let (b, e) = get_elem?-some d.memory i lt in ground arith,
  λ i lt. (ground arith, ground arith),
  λ i. (refl, refl),
  ground (arith, v.slots, get_elem?-none d.memory (length d.memory) (omega arith)),
  ground (arith, v.slots, get_elem?-none d.memory (length d.memory) (omega arith)),
)

-- Deleting a slot of the array empties that slot, leaves every other one, and keeps the array
-- well-formed; its size is not counted down.
pub get_block-delete_block :
    (d : DataBlock) (i : ℕ)
    → IsBlocks d
    → i < length d.memory
    → (e : DataBlock) × (delete_block d (pos i) ≡ returned e)
      × (get_block e (pos i) ≡ exited)
      × ((j : ℕ) → j ≢ i → get_block e (pos j) ≡ get_block d (pos j))
      × IsBlocks e
      × (e.size ≡ d.size)
unfolding delete_block get_block
get_block-delete_block d i v lt =
    let (b, at) = get_elem?-some d.memory i lt in
    (
      record d { memory = set d.memory i none },
      ground arith,
      ground (arith, get_elem?-set_self d.memory i none lt),
      λ j ne. rw (get_elem?-set_ne d.memory none (λ e. ne (sym e))),
      record { slots = v.slots ∙ ap pos (sym (length-set d.memory i none)) },
      refl,
    )

-- The slots from `i` on are NULL, `n` of them; those before are as they were.
delete_blocks_lem :
    (n i : ℕ) (d : DataBlock)
    → IsBlocks d
    → i + n ≡ length d.memory
    → ((j : ℕ) → j < i → get_elem? d.memory j ≡ some none)
    → (e : DataBlock) × (delete_blocks n i d ≡ returned e)
      × (length e.memory ≡ length d.memory)
      × ((j : ℕ) → j < length d.memory → get_elem? e.memory j ≡ some none)
unfolding delete_blocks delete_block
delete_blocks_lem zero i d v all done = (d, refl, refl, λ j lt. done j (omega arith))
delete_blocks_lem (suc n) i d v all done =
    let (b, at) = get_elem?-some d.memory i (omega arith) in
    let size : length (set d.memory i none) ≡ length d.memory = length-set d.memory i none in
    let (e, h, len, free) =
      delete_blocks_lem n (i + 1) (record d { memory = set d.memory i none })
        (record { slots = v.slots ∙ ap pos (sym size) }) (omega arith) (cleared) in
    (e, ground arith, len ∙ size, λ j lt. free j (omega arith))
  where
    cleared : (j : ℕ) → j < i + 1 → get_elem? (set d.memory i none) j ≡ some none
    cleared j lt = elim (dec_lt j i) [
      | yes below ↦ get_elem?-set_ne d.memory none (λ e. absurd (omega arith)) ∙ done j below
      | no last ↦
          let same : i ≡ j = omega arith in
          ap (get_elem? (set d.memory i none)) (sym same)
          ∙ get_elem?-set_self d.memory i none (omega arith)
    ]

-- Deleting a well-formed array never ends the process and never leaves the array: it returns with every
-- slot NULL.
pub delete_data_block_lem :
    (d : DataBlock)
    → IsBlocks d
    → (e : DataBlock) × (delete_data_block d ≡ returned e)
      × (length e.memory ≡ length d.memory)
      × ((j : ℕ) → j < length d.memory → get_elem? e.memory j ≡ some none)
unfolding delete_data_block
delete_data_block_lem d v =
    let (e, h, len, free) =
      delete_blocks_lem (length d.memory) 0 d v (omega arith) (λ j lt. absurd (omega arith)) in
    (e, ground (arith, v.slots), len, free)

-- A file name of 113 bytes or more writes past the buffer of the command, whatever the array holds; a
-- shorter one fits into both buffers.
pub long_name_overflows :
    (d : DataBlock) (filename : List ℕ) (result : Option (List ℕ))
    → (113 ≤ length filename → count_lines_and_words d filename result ≡ fault)
      × (length filename ≤ 112 → names_fit filename ≡ true)
unfolding count_lines_and_words names_fit
long_name_overflows d filename result = (λ h. ground arith, λ h. ground arith)
