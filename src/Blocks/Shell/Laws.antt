-- ===== src/Blocks/Shell/Laws.antt =====
-- lab1/zad2/zadanie2.c: what the commands do to the array.
use operating_systems_agh.Prelude.{
  ℕ, suc, ◌*◌, ◌≤◌, ◌≡◌, ◌≢◌, ◌∙◌, sym, ap, refl, true, Option, none, some, List, [], ◌∷◌, ◌++◌,
  arith, length, get_elem?, codes, c_str, str_eq, str_eq_iff, bytes_eq, atoi, pos, ◌⊎◌, inl, inr,
  Bool-cases, c_str-append, c_str-replicate, append-nil, replicate,
}
use operating_systems_agh.Command.{Command, strcmp, compare_commands, bsearch}
use operating_systems_agh.Blocks.{
  DataBlock, initialize_new_block, count_lines_and_words, get_block, names_fit, read_block,
}
use operating_systems_agh.Blocks.Shell.{
  validate_command, Pointer, null, live, freed, next, broken, chomp, find_command, execute,
  on_tokens,
}

-- What `validateCommand` accepts is one of the five names.
abbrev pub IsName : List ℕ → Type 0
IsName c =
    (c ≡ codes "init")
    ⊎ ((c ≡ codes "count") ⊎ ((c ≡ codes "delete") ⊎ ((c ≡ codes "destroy") ⊎ (c ≡ codes "show"))))

name_eq : (lit c : List ℕ) → c_str lit ≡ lit → c_str c ≡ c → str_eq lit c ≡ true → c ≡ lit
name_eq lit c l string h = sym string ∙ sym ((str_eq_iff lit c).0 h) ∙ l

pub validate_command-IsName : (c : List ℕ) → c_str c ≡ c → validate_command c ≡ true → IsName c
unfolding validate_command c_str
validate_command-IsName c string h = elim (Bool-cases (str_eq (codes "init") c)) [
  | inl e ↦ inl (name_eq (codes "init") c refl string e)
  | inr a ↦ elim (Bool-cases (str_eq (codes "count") c)) [
    | inl e ↦ inr (inl (name_eq (codes "count") c refl string e))
    | inr b ↦ elim (Bool-cases (str_eq (codes "delete") c)) [
      | inl e ↦ inr (inr (inl (name_eq (codes "delete") c refl string e)))
      | inr d ↦ elim (Bool-cases (str_eq (codes "destroy") c)) [
        | inl e ↦ inr (inr (inr (inl (name_eq (codes "destroy") c refl string e))))
        | inr f ↦ inr (inr (inr (inr (name_eq (codes "show") c refl string (ground arith)))))
      ]
    ]
  ]
]

module _ (wc : List ℕ → Option (List ℕ)) where
  pub find_init : find_command wc (codes "init") ≡ some (record { str = codes "init"; n = 1 })
  unfolding bsearch compare_commands strcmp
  find_init = refl

  pub find_count : find_command wc (codes "count") ≡ some (record { str = codes "count"; n = 2 })
  unfolding bsearch compare_commands strcmp
  find_count = refl

  pub find_show : find_command wc (codes "show") ≡ some (record { str = codes "show"; n = 3 })
  unfolding bsearch compare_commands strcmp
  find_show = refl

  pub find_delete : find_command wc (codes "delete") ≡ some (record { str = codes "delete"; n = 4 })
  unfolding bsearch compare_commands strcmp
  find_delete = refl

  pub find_destroy :
      find_command wc (codes "destroy") ≡ some (record { str = codes "destroy"; n = 5 })
  unfolding bsearch compare_commands strcmp
  find_destroy = refl

  on_tokens-known :
      (t : List ℕ) (ts : List (List ℕ)) (p : Pointer) (c : Command)
      → validate_command (chomp t) ≡ true
      → find_command wc (chomp t) ≡ some c
      → on_tokens wc (t ∷ ts) p ≡ execute wc (some c) (get_elem? ts 0) p
  unfolding on_tokens
  on_tokens-known t ts p c known found = rw (known, found)

  -- No array is there: it was never made, or it was freed.
  abbrev pub IsDead : Pointer → Type 0
  IsDead p = (p ≡ null) ⊎ (p ≡ freed)

  execute-dead :
      (name : List ℕ) (n : ℕ) (arg : Option (List ℕ)) (p : Pointer)
      → 2 ≤ n
      → n ≤ 5
      → IsDead p
      → execute wc (some (record { str = name; n = n })) arg p ≡ broken
  unfolding execute
  execute-dead name n none p lo hi dead = ground arith
  execute-dead name n (some arg) p lo hi dead = ground arith

  breaks :
      (t : List ℕ) (ts : List (List ℕ)) (p : Pointer) (name : List ℕ) (n : ℕ)
      → validate_command (chomp t) ≡ true
      → chomp t ≡ name
      → find_command wc name ≡ some (record { str = name; n = n })
      → 2 ≤ n
      → n ≤ 5
      → IsDead p
      → on_tokens wc (t ∷ ts) p ≡ broken
  breaks t ts p name n known e found lo hi dead =
      on_tokens-known t ts p (record { str = name; n = n }) known (ap (find_command wc) e ∙ found)
      ∙ execute-dead name n (get_elem? ts 0) p lo hi dead

  -- Before an array is made, and after one is destroyed, every known command but "init" goes through a
  -- pointer to no array; `main` does not test it.
  pub dead_pointer_breaks :
      (t : List ℕ) (ts : List (List ℕ)) (p : Pointer)
      → c_str (chomp t) ≡ chomp t
      → validate_command (chomp t) ≡ true
      → chomp t ≢ codes "init"
      → IsDead p
      → on_tokens wc (t ∷ ts) p ≡ broken
  dead_pointer_breaks t ts p string known other dead =
      elim (validate_command-IsName (chomp t) string known) [
        | inl e ↦ absurd (other e)
        | inr (inl e) ↦ breaks t ts p _ 2 known e find_count (omega arith) (omega arith) dead
        | inr (inr (inl e)) ↦ breaks t ts p _ 4 known e find_delete (omega arith) (omega arith) dead
        | inr (inr (inr (inl e))) ↦
            breaks t ts p _ 5 known e find_destroy (omega arith) (omega arith) dead
        | inr (inr (inr (inr e))) ↦
            breaks t ts p _ 3 known e find_show (omega arith) (omega arith) dead
      ]

  abbrev counted : ℕ → List ℕ → DataBlock
  counted n bytes = record {
    memory = some (read_block bytes) ∷ replicate n none;
    size = 1;
    capacity = pos (suc n);
  }

  execute-count :
      (n : ℕ) (name bytes : List ℕ)
      → chomp name ≡ name
      → names_fit name ≡ true
      → wc name ≡ some bytes
      → execute wc
          (some (record { str = codes "count"; n = 2 }))
          (some name)
          (live (initialize_new_block (pos (suc n))))
        ≡ next (live (counted n bytes)) []
  unfolding execute count_lines_and_words initialize_new_block
  execute-count n name bytes one_line fits result = ground arith

  execute-show :
      (n : ℕ) (bytes : List ℕ)
      → execute wc
          (some (record { str = codes "show"; n = 3 }))
          (some (codes "0"))
          (live (counted n bytes))
        ≡ next (live (counted n bytes)) (c_str (read_block bytes))
  unfolding execute get_block atoi
  execute-show n bytes = ground arith

  -- In a new array, counting a file whose name fits and whose result holds no NUL, and then showing the
  -- block 0, prints that result.
  pub show-count :
      (n : ℕ) (name bytes : List ℕ)
      → chomp name ≡ name
      → names_fit name ≡ true
      → wc name ≡ some bytes
      → c_str bytes ≡ bytes
      → (d : DataBlock) × (on_tokens wc
            (codes "count" ∷ name ∷ [])
            (live (initialize_new_block (pos (suc n))))
          ≡ next (live d) [])
        × (on_tokens wc (codes "show" ∷ codes "0" ∷ []) (live d) ≡ next (live d) bytes)
  unfolding validate_command str_eq bytes_eq c_str
  show-count n name bytes one_line fits result string = (
    counted n bytes,
    on_tokens-known (codes "count") (name ∷ []) _ _ refl find_count
        ∙ execute-count n name bytes one_line fits result,
    on_tokens-known (codes "show") (codes "0" ∷ []) _ _ refl find_show
        ∙ execute-show n bytes
        ∙ ap (next (live (counted n bytes))) (
            c_str-append bytes (replicate (7 * length bytes) 0) string
            ∙ ap (λ l. bytes ++ l) (c_str-replicate (7 * length bytes))
            ∙ append-nil bytes),
  )
