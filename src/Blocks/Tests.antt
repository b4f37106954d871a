-- ===== src/Blocks/Tests.antt =====
-- The array of blocks and its shell on concrete inputs.
use operating_systems_agh.Prelude.{
  set, get_elem?, ℕ, ◌+◌, ◌<◌, ◌≡◌, ◌≢◌, refl, Option, none, some, List, [], ◌∷◌, length, replicate,
  codes, c_str, str_eq, bytes_eq, tokens, atoi, pos, negsuc,
}
use operating_systems_agh.Command.{bsearch, compare_commands, strcmp}
use operating_systems_agh.Blocks.{
  Block, DataBlock, returned, exited, fault, initialize_new_block, names_fit, read_block,
  count_lines_and_words, get_block, delete_block,
}
use operating_systems_agh.Blocks.Laws.{
  IsBlocks, IsFirstFree, get_block-count_lines_and_words, full_blocks_exit, index_bounds,
}
use operating_systems_agh.Blocks.Shell.{
  null, live, next, broken, validate_command, execute, on_tokens, on_line, run,
}
use operating_systems_agh.Blocks.Dynamic.{main, memory_block}
use operating_systems_agh.Blocks.Dynamic.Laws.{main_lem}

abbrev wc_of : List ℕ → Option (List ℕ)
wc_of name = some (codes " 1 2 3 x\n")

-- One block, one free slot.
abbrev half_full : DataBlock
half_full = record { memory = some (codes "abc") ∷ none ∷ []; size = 1; capacity = pos 2 }

half_full-IsBlocks : IsBlocks half_full
half_full-IsBlocks = record { slots = refl }

shell_run :
    run wc_of (codes "init 2\n" ∷ codes "count x\n" ∷ codes "show 0\n" ∷ []) null []
    ≡ next
        (live (record {
          memory = some (read_block (codes " 1 2 3 x\n")) ∷ none ∷ [];
          size = 1;
          capacity = pos 2;
        }))
        (codes " 1 2 3 x\n")
unfolding run on_line on_tokens execute tokens atoi validate_command str_eq bytes_eq c_str bsearch
    compare_commands strcmp initialize_new_block count_lines_and_words get_block
shell_run = refl

get_block-count_lines_and_words_example :
    (e : DataBlock) × (i : ℕ) × (count_lines_and_words half_full (codes "x") (some (codes "1"))
      ≡ returned e)
    × IsFirstFree half_full.memory i
    × (get_block e (pos i) ≡ returned (read_block (codes "1")))
    × ((j : ℕ) → j ≢ i → get_block e (pos j) ≡ get_block half_full (pos j))
    × IsBlocks e
    × (e.size ≡ half_full.size + 1)
unfolding names_fit
get_block-count_lines_and_words_example =
    get_block-count_lines_and_words half_full (codes "x") (codes "1") 1 half_full-IsBlocks refl refl

abbrev long_name : List ℕ
long_name = replicate 120 b'a'

abbrev stuffed : DataBlock
stuffed = record { memory = some (codes "abc") ∷ []; size = 1; capacity = pos 1 }

full_blocks_exit_example : count_lines_and_words stuffed (codes "x") (some (codes "1")) ≡ exited
unfolding names_fit
full_blocks_exit_example =
    full_blocks_exit stuffed (codes "x") (some (codes "1")) refl ((λ e. cc), tt)

index_bounds_example :
    ((i : ℕ) (b : Block)
      → get_elem? half_full.memory i ≡ some (some b)
      → get_block half_full (pos i) ≡ returned b)
    × ((i : ℕ) → get_elem? half_full.memory i ≡ some none → get_block half_full (pos i) ≡ exited)
    × ((i : ℕ)
        → i < length half_full.memory
        → delete_block half_full (pos i)
          ≡ returned (record half_full { memory = set half_full.memory i none }))
    × ((i : ℕ)
        → length half_full.memory < i
        → (get_block half_full (pos i) ≡ exited) × (delete_block half_full (pos i) ≡ exited))
    × ((i : ℕ)
        → (get_block half_full (negsuc i) ≡ exited) × (delete_block half_full (negsuc i) ≡ exited))
    × (get_block half_full half_full.capacity ≡ fault)
    × (delete_block half_full half_full.capacity ≡ fault)
index_bounds_example = index_bounds half_full half_full-IsBlocks

-- The lines "init 2\n", "count x\n" and "show 0\n".
abbrev three_lines : List (List ℕ)
three_lines = codes "init 2\n" ∷ codes "count x\n" ∷ codes "show 0\n" ∷ []

main_lem_example :
    ((input : List (List ℕ)) → main (some memory_block) wc_of input ≡ run wc_of input null [])
    × (main none wc_of (codes "help me\n" ∷ codes "init 2\n" ∷ three_lines) ≡ broken)
unfolding tokens validate_command str_eq bytes_eq c_str
main_lem_example =
    main_lem wc_of (codes "help me\n" ∷ []) three_lines (codes "init 2\n") (codes "init")
      (codes "2\n" ∷ []) ((codes "help", codes "me\n" ∷ [], refl, refl), tt) refl refl refl
