-- ===== src/Blocks.antt =====
-- lab1/zad1/memoryBlock.c (the same file in lab1/zad2, zad3a and zad3b): an array of blocks, each NULL or
-- the output of `wc` for a file. A block is its bytes. `calloc` is taken to succeed for a size that is
-- not negative, and to return no memory for a negative one; what `wc` writes, and whether its file can
-- be opened, is an argument.
pub mod Laws
pub mod Shell
pub mod Dynamic
mod Tests
use operating_systems_agh.Prelude.{
  ℕ, zero, suc, ◌+◌, ◌*◌, ◌≡◌, Bool, true, false, ◌||◌, Option, none, some, List, [], ◌∷◌, ◌++◌,
  ◌==◌, ltb, if◌then◌else◌, length, get_elem?, set, replicate, ℤ, pos, negsuc, increment,
}

abbrev pub Block : Type 0
Block = List ℕ

-- `dataBlock`
pub record DataBlock : Type 0 where
  pub memory : List (Option Block)
  pub size : ℕ
  pub capacity : ℤ

-- A call returns, ends the process with a failure, or goes outside an array.
pub data Outcome (A : Type 0) : Type 0 where
  returned : A → Outcome A
  exited : Outcome A
  fault : Outcome A

abbrev pub room : ℤ → ℕ
room (pos n) = n
room (negsuc n) = 0

pub initialize_new_block : ℤ → DataBlock
initialize_new_block n = record { memory = replicate (room n) none; size = 0; capacity = n }

-- Lines 28 to 34, from index `i` on: the first NULL.
pub index_to_write : ℕ → List (Option Block) → Option ℕ
index_to_write i [] = none
index_to_write i (none ∷ bs) = some i
index_to_write i (some b ∷ bs) = index_to_write (i + 1) bs

-- Whether the two calls of `sprintf` stay inside `resultFileName` and `command`: the name in "/tmp/" and
-- "-wc-result.txt" with its NUL in 245 bytes, and both names in "wc -clw " and " > " in 256.
pub names_fit : List ℕ → Bool
names_fit filename =
    if ltb 245 (length filename + 20)
    then false
    else if ltb 256 (2 * length filename + 31)
    then false
    else true

-- Line 53 takes eight zero bytes for each byte that is read.
abbrev pub read_block : List ℕ → Block
read_block bytes = bytes ++ replicate (7 * length bytes) 0

-- Lines 36 to 56
abbrev pub store_result : DataBlock → Option ℕ → Option (List ℕ) → Outcome DataBlock
store_result d none result = exited
store_result d (some i) none = exited
store_result d (some i) (some bytes) =
    returned (record d { memory = set d.memory i (some (read_block bytes)); size = d.size + 1 })

pub count_lines_and_words : DataBlock → List ℕ → Option (List ℕ) → Outcome DataBlock
unfolding index_to_write names_fit
count_lines_and_words d filename result =
    if names_fit filename then store_result d (index_to_write 0 d.memory) result else fault

-- `index > capacity || index < 0`
abbrev pub is_out : ℤ → ℤ → Bool
is_out (negsuc i) c = true
is_out (pos i) (pos c) = ltb c i
is_out (pos i) (negsuc c) = true

abbrev pub block_at : ℤ → List (Option Block) → Option (Option Block)
block_at (pos i) bs = get_elem? bs i
block_at (negsuc i) bs = none

-- `none` is a read outside the array.
abbrev pub found_block : Option (Option Block) → Outcome Block
found_block none = fault
found_block (some none) = exited
found_block (some (some b)) = returned b

pub get_block : DataBlock → ℤ → Outcome Block
get_block d index =
    if is_out index d.capacity then exited else found_block (block_at index d.memory)

abbrev pub freed_slot : DataBlock → ℤ → Option (Option Block) → Outcome DataBlock
freed_slot d i none = fault
freed_slot d i (some b) = returned (record d { memory = set d.memory (room i) none })

-- The slot is set to NULL before it is given to `free`, so the block is never given back.
pub delete_block : DataBlock → ℤ → Outcome DataBlock
delete_block d index =
    if is_out index d.capacity then exited else freed_slot d index (block_at index d.memory)

-- The loop of `deleteDataBlock`: `n` rounds left, from index `i` on.
pub delete_blocks : ℕ → ℕ → DataBlock → Outcome DataBlock
unfolding delete_block
delete_blocks zero i d = returned d
delete_blocks (suc n) i d = elim (delete_block d (pos i)) [
  | returned d' ↦ delete_blocks n (i + 1) d'
  | exited ↦ exited
  | fault ↦ fault
]

-- The array as it is when `data` is freed.
pub delete_data_block : DataBlock → Outcome DataBlock
unfolding delete_blocks
delete_data_block d = delete_blocks (room d.capacity) 0 d
