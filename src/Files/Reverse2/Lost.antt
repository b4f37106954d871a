-- ===== src/Files/Reverse2/Lost.antt =====
-- What lab2/zad2/reverse2.c does with the start of a file.
use operating_systems_agh.Prelude.{
  ℕ, zero, suc, ◌+◌, ◌-◌, ◌*◌, ◌%◌, ◌<◌, ◌≤◌, ◌≡◌, refl, ap, sym, ◌∙◌, ◌⊎◌, inl, inr, true, false,
  Option, none, some, List, [], ◌∷◌, ◌++◌, ◌==◌, ltb, length, take, drop, overwrite, arith,
  length-append, Bool-cases,
}
use operating_systems_agh.Files.Reverse2.{write_down, blocks, first_position, write_offset, reverse}

drop-append : (xs ys : List ℕ) (n : ℕ) → drop (length xs + n) (xs ++ ys) ≡ drop n ys
drop-append [] ys n = ap (λ n. drop n ys) {x = 0 + n} {y = n} (omega arith)
drop-append (x ∷ xs) ys n =
    ap (λ n. drop n (x ∷ (xs ++ ys))) {x = suc (length xs) + n} {y = suc (length xs + n)}
      (omega arith)
    ∙ drop-append xs ys n

-- A position that the loop takes: the start, or a block's start behind the first `h` bytes.
abbrev IsPlace : ℕ → ℕ → Type 0
IsPlace h pos = (pos ≡ 0) ⊎ ((j : ℕ) × (pos ≡ h + j * 1024))

next-IsPlace :
    (h j pos : ℕ)
    → h ≤ 1024
    → pos ≡ h + j * 1024
    → ltb (pos + 1024) (2 * 1024) ≡ false
    → IsPlace h (pos + 1024 - 2 * 1024)
next-IsPlace h zero pos le e go = inl (ground arith)
next-IsPlace h (suc j) pos le e go = inr (j, omega arith)

-- What is written of the block at a position.
abbrev written_block : List ℕ → ℕ → List ℕ → List ℕ
written_block input pos out = write_down 1023 1 (take 1024 (drop pos input)) out

blocks_last :
    (fuel : ℕ) (input : List ℕ) (pos : ℕ) (out : List ℕ)
    → (pos == 0) ≡ false
    → ltb (pos + 1024) (2 * 1024) ≡ true
    → blocks (suc fuel) input pos out ≡ some (written_block input pos out)
unfolding blocks
blocks_last fuel input pos out inside last = rw (blocks, inside, last) refl

blocks_next :
    (fuel : ℕ) (input : List ℕ) (pos : ℕ) (out : List ℕ)
    → (pos == 0) ≡ false
    → ltb (pos + 1024) (2 * 1024) ≡ false
    → blocks (suc fuel) input pos out
      ≡ blocks fuel input (pos + 1024 - 2 * 1024) (written_block input pos out)
unfolding blocks
blocks_next fuel input pos out inside more = rw (blocks, inside, more) refl

blocks_start :
    (fuel : ℕ) (input : List ℕ) (pos : ℕ) (out : List ℕ)
    → (pos == 0) ≡ true
    → blocks (suc fuel) input pos out ≡ some out
unfolding blocks
blocks_start fuel input pos out e = rw (blocks, e) refl

blocks_total :
    (fuel : ℕ) (input : List ℕ) (pos : ℕ) (out : List ℕ)
    → pos < fuel
    → (o : List ℕ) × (blocks fuel input pos out ≡ some o)
blocks_total zero input pos out lt = absurd (omega arith)
blocks_total (suc fuel) input pos out lt = elim (Bool-cases (pos == 0)) [
  | inl e ↦ (out, blocks_start fuel input pos out e)
  | inr inside ↦ elim (Bool-cases (ltb (pos + 1024) (2 * 1024))) [
    | inl last ↦ (written_block input pos out, blocks_last fuel input pos out inside last)
    | inr more ↦
        let (o, e) =
          blocks_total fuel input (pos + 1024 - 2 * 1024) (written_block input pos out)
            (ground arith) in
        (o, blocks_next fuel input pos out inside more ∙ e)
  ]
]

first_inside : (n : ℕ) → first_position n < suc n
first_inside n = ground arith

reverse_eq :
    (junk input out : List ℕ) (n : ℕ) (w : List ℕ)
    → length input ≡ n
    → blocks (suc n) input (first_position n) out ≡ some w
    → reverse junk input out ≡ some (write_offset junk input (n % 1024) w)
unfolding reverse
reverse_eq junk input out n w len e =
    ap
      (λ (o : Option (List ℕ)). elim o [
        | none ↦ none
        | some w ↦ some (write_offset junk input (length input % 1024) w)
      ])
      (ap (λ n. blocks (suc n) input (first_position n) out) len ∙ e)
    ∙ ap (λ n. some (write_offset junk input (n % 1024) w)) len

module _ (head head' rest : List ℕ) (same : length head ≡ length head')
    (le : length head ≤ 1024) where
  drop_same :
      (n : ℕ) → drop (length head + n) (head ++ rest) ≡ drop (length head + n) (head' ++ rest)
  drop_same n =
      drop-append head rest n
      ∙ sym (drop-append head' rest n)
      ∙ ap (λ h. drop (h + n) (head' ++ rest)) (sym same)

  written_same :
      (j pos : ℕ) (out : List ℕ)
      → pos ≡ length head + j * 1024
      → written_block (head ++ rest) pos out ≡ written_block (head' ++ rest) pos out
  written_same j pos out e =
      rw (e) (ap (λ l. write_down 1023 1 (take 1024 l) out) (drop_same (j * 1024)))

  blocks_same :
      (fuel pos : ℕ) (out : List ℕ)
      → IsPlace (length head) pos
      → pos < fuel
      → blocks fuel (head ++ rest) pos out ≡ blocks fuel (head' ++ rest) pos out
  blocks_same zero pos out place lt = absurd (omega arith)
  blocks_same (suc fuel) pos out (inl e) lt =
      blocks_start fuel (head ++ rest) pos out (ground arith)
      ∙ sym (blocks_start fuel (head' ++ rest) pos out (ground arith))
  blocks_same (suc fuel) pos out (inr (j, e)) lt = elim (Bool-cases (pos == 0)) [
    | inl e ↦
        blocks_start fuel (head ++ rest) pos out e
        ∙ sym (blocks_start fuel (head' ++ rest) pos out e)
    | inr inside ↦ elim (Bool-cases (ltb (pos + 1024) (2 * 1024))) [
      | inl last ↦
          blocks_last fuel (head ++ rest) pos out inside last
          ∙ ap some (written_same j pos out e)
          ∙ sym (blocks_last fuel (head' ++ rest) pos out inside last)
      | inr more ↦
          blocks_next fuel (head ++ rest) pos out inside more
          ∙ ap (blocks fuel (head ++ rest) (pos + 1024 - 2 * 1024)) (written_same j pos out e)
          ∙ blocks_same fuel (pos + 1024 - 2 * 1024) _ (next-IsPlace (length head) j pos le e more)
              (ground arith)
          ∙ sym (blocks_next fuel (head' ++ rest) pos out inside more)
    ]
  ]

  first-IsPlace :
      (m : ℕ)
      → length rest ≡ m * 1024
      → IsPlace (length head) (first_position (length (head ++ rest)))
  first-IsPlace m whole = elim (Bool-cases (ltb (length (head ++ rest)) 1024)) [
    | inl short ↦ inl (rw (first_position, short) refl)
    | inr long ↦ rw (first_position, long) (place m whole long (length-append head rest))
  ]
    where
      place :
          (m : ℕ)
          → length rest ≡ m * 1024
          → ltb (length (head ++ rest)) 1024 ≡ false
          → length (head ++ rest) ≡ length head + length rest
          → IsPlace (length head) (length (head ++ rest) - 1024)
      place zero whole long n = inl (ground arith)
      place (suc m) whole long n = inr (m, omega arith)

  offset_same :
      (m : ℕ) (junk out : List ℕ)
      → length rest ≡ m * 1024
      → write_offset junk (head ++ rest) (length (head ++ rest) % 1024) out
        ≡ write_offset junk (head' ++ rest) (length (head ++ rest) % 1024) out
  unfolding write_offset
  offset_same m junk out whole =
      ap (λ l. write_down (length (head ++ rest) % 1024) 0 (overwrite junk l) out)
        (read_same (length (head ++ rest) % 1024) (omega (arith, length-append head rest)))
    where
      read_same :
          (r : ℕ)
          → (r ≡ 0) ⊎ (r ≡ length head)
          → take r (drop r (head ++ rest)) ≡ take r (drop r (head' ++ rest))
      read_same r (inl e) = rw (e) refl
      read_same r (inr e) = ap (take r) (
          ap (λ n. drop n (head ++ rest)) {x = r} {y = length head + 0} (omega arith)
          ∙ drop_same 0
          ∙ ap (λ n. drop n (head' ++ rest)) {x = length head + 0} {y = r} (omega arith))

  -- Of a file that is some bytes, at most a block of them, before whole blocks the program ends, and what it adds to
  -- the output is the same whatever those bytes are: they are lost.
  pub reverse_loses_start :
      (m : ℕ) (junk out : List ℕ)
      → length rest ≡ m * 1024
      → (o : List ℕ) × (reverse junk (head ++ rest) out ≡ some o)
        × (reverse junk (head' ++ rest) out ≡ some o)
  reverse_loses_start m junk out whole =
      let n = length (head ++ rest) in
      let first = first_position n in
      let inside : first < suc n = first_inside n in
      let (w, e) = blocks_total (suc n) (head ++ rest) first out inside in
      let e' = sym (blocks_same (suc n) first out (first-IsPlace m whole) inside) ∙ e in
      let len : length (head' ++ rest) ≡ n =
        omega (arith, length-append head rest, length-append head' rest) in
      (
        write_offset junk (head ++ rest) (n % 1024) w,
        reverse_eq junk (head ++ rest) out n w refl e,
        reverse_eq junk (head' ++ rest) out n w len e' ∙ ap some (sym (offset_same m junk w whole)),
      )
