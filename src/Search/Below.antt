-- ===== src/Search/Below.antt =====
-- The search of lab3/zad3 against all the files below the directory.
use operating_systems_agh.Prelude.{
  ℕ, zero, suc, ◌<◌, ◌≤◌, ◌≡◌, refl, ◌-◌, if◌then◌else◌, ap, sym, ◌∙◌, Bool, true, false, ◌&&◌,
  List, [], ◌∷◌, ◌++◌, ◌==◌, ltb, arith, length, take, drop, replicate, c_str, str_eq, bytes_eq,
  Bool-cases, inl, inr,
}
use operating_systems_agh.Search.{
  Debbuging, absent, copy, Name, program, debbuging, Object, directory, file, cannot_stat, Entries,
  end, entry, Line, path, buffer_size, is_dot, path_to, begins_with, read_file, search, visit,
}

unfoldable pub is_prefix : List ℕ → List ℕ → Bool
is_prefix [] ys = true
is_prefix (x ∷ xs) [] = false
is_prefix (x ∷ xs) (y ∷ ys) = x == y && is_prefix xs ys

abbrev pub found : List ℕ → List ℕ → List ℕ → List Line
found pattern name bytes = if is_prefix pattern bytes then path name ∷ [] else []

-- Of the levels of directories: this many more, or all.
pub data Depth : Type 0 where
  levels : ℕ → Depth
  all : Depth

unfoldable mutual
  -- The paths of the files below a directory, this many levels of directories down, whose bytes begin with the pattern.
  pub below : Depth → List ℕ → List ℕ → Entries → List Line
  below depth pattern dir end = []
  below depth pattern dir (entry name o rest) =
      let later = below depth pattern dir rest in
      if is_dot name then later else at depth pattern (path_to dir name) o ++ later

  pub at : Depth → List ℕ → List ℕ → Object → List Line
  at all pattern name (directory es) = below all pattern name es
  at (levels zero) pattern name (directory es) = []
  at (levels (suc n)) pattern name (directory es) = below (levels n) pattern name es
  at depth pattern name (file bytes) = found pattern name bytes
  at depth pattern name cannot_stat = []

-- How far the processes go: without the file `debbuging`, those for the directories of a directory are the last.
abbrev pub reach : Debbuging → Name → Depth
reach copy argv = all
reach absent program = levels 1
reach absent debbuging = levels 0

abbrev mutual
  -- Every object has its `stat`, and every file has as many bytes as the pattern.
  pub IsReadable : List ℕ → Entries → Type 0
  IsReadable pattern end = Unit
  IsReadable pattern (entry name o rest) = IsGood pattern o × IsReadable pattern rest

  pub IsGood : List ℕ → Object → Type 0
  IsGood pattern (directory es) = IsReadable pattern es
  IsGood pattern (file bytes) = length pattern ≤ length bytes
  IsGood pattern cannot_stat = ⊥

-- The bytes read, as a string, against the pattern.
prefix_lem :
    (pattern bytes rest : List ℕ)
    → c_str pattern ≡ pattern
    → length pattern ≤ length bytes
    → bytes_eq (c_str (take (length pattern) bytes ++ 0 ∷ rest)) (c_str pattern)
      ≡ is_prefix pattern bytes
unfolding c_str bytes_eq is_prefix
prefix_lem [] bytes rest h l = refl
prefix_lem (p ∷ ps) [] rest h l = absurd (omega arith)
prefix_lem (p ∷ ps) (b ∷ bs) rest h l = ground (arith, prefix_lem ps bs rest)

length-take_eq : (n : ℕ) (l : List ℕ) → n ≤ length l → length (take n l) ≡ n
length-take_eq zero l h = refl
length-take_eq (suc n) [] h = absurd (omega arith)
length-take_eq (suc n) (x ∷ l) h = ap suc (length-take_eq n l (omega arith))

drop-replicate_zeros :
    (n m : ℕ) → n < m → drop {A = ℕ} n (replicate m 0) ≡ 0 ∷ replicate (m - n - 1) 0
drop-replicate_zeros n zero h = absurd (omega arith)
drop-replicate_zeros zero (suc m) h = let e : suc m - 0 - 1 ≡ m = omega arith in rw (e) refl
drop-replicate_zeros (suc n) (suc m) h =
    let e : suc m - suc n - 1 ≡ m - n - 1 = omega arith in
    drop-replicate_zeros n m (omega arith) ∙ ap (λ k. 0 ∷ replicate k 0) (sym e)

-- The comparison with the buffer finds out whether the file begins with the pattern.
begins_with_lem :
    (pattern bytes : List ℕ)
    → c_str pattern ≡ pattern
    → length pattern < buffer_size
    → length pattern ≤ length bytes
    → begins_with bytes pattern ≡ is_prefix pattern bytes
unfolding begins_with str_eq
begins_with_lem pattern bytes h lt le =
    let n = length-take_eq (length pattern) bytes le in
    let d =
      ap (λ k. drop k (replicate buffer_size 0)) n
      ∙ drop-replicate_zeros (length pattern) buffer_size lt in
    ap (λ r. bytes_eq (c_str (take (length pattern) bytes ++ r)) (c_str pattern)) d
    ∙ prefix_lem pattern bytes (replicate (buffer_size - length pattern - 1) 0) h le

module _ (pattern : List ℕ) (string : c_str pattern ≡ pattern)
    (short : length pattern < buffer_size) where
  read_file_lem :
      (name bytes : List ℕ) (later : List Line)
      → length pattern ≤ length bytes
      → read_file pattern name bytes later ≡ found pattern name bytes ++ later
  unfolding read_file
  read_file_lem name bytes later le =
      let e : ltb (length pattern) buffer_size ≡ true = ground arith in
      let f : ltb (length bytes) (length pattern) ≡ false = ground arith in
      let g = begins_with_lem pattern bytes string short le in
      elim (Bool-cases (is_prefix pattern bytes)) [
        | inl y ↦ rw (e, f, g, y, read_file, found) refl
        | inr n ↦ rw (e, f, g, n, read_file, found) refl
      ]

  at_file :
      (depth : Depth) (name bytes : List ℕ)
      → at depth pattern name (file bytes) ≡ found pattern name bytes
  unfolding at
  at_file all name bytes = refl
  at_file (levels zero) name bytes = refl
  at_file (levels (suc n)) name bytes = refl

  mutual
    unfolding search below

    search_entries :
        (f : Debbuging) (argv : Name) (dir : List ℕ) (es : Entries)
        → IsReadable pattern es
        → search f argv pattern dir es ≡ below (reach f argv) pattern dir es
    search_entries f argv dir end h = refl
    search_entries f argv dir (entry name o rest) h =
        let r = search_entries f argv dir rest h.1 in
        let v =
          search_object f argv (path_to dir name) o (below (reach f argv) pattern dir rest) h.0 in
        elim (Bool-cases (is_dot name)) [
          | inl e ↦ rw (e, search, below) r
          | inr e ↦ rw (e, search, below) (ap (visit f argv pattern (path_to dir name) o) r ∙ v)
        ]

    search_object :
        (f : Debbuging) (argv : Name) (name : List ℕ) (o : Object) (later : List Line)
        → IsGood pattern o
        → visit f argv pattern name o later ≡ at (reach f argv) pattern name o ++ later
    search_object copy program name (directory es) later h =
        ap (λ l. l ++ later) (search_entries copy debbuging name es h)
    search_object copy debbuging name (directory es) later h =
        ap (λ l. l ++ later) (search_entries copy debbuging name es h)
    search_object absent program name (directory es) later h =
        ap (λ l. l ++ later) (search_entries absent debbuging name es h)
    search_object absent debbuging name (directory es) later h = refl
    search_object f argv name (file bytes) later h =
        read_file_lem name bytes later h
        ∙ ap (λ l. l ++ later) (sym (at_file (reach f argv) name bytes))
    search_object f argv name cannot_stat later h = absurd h

-- If the pattern is a string shorter than the buffer, `stat` never fails and no file has fewer bytes than the
-- pattern, the search prints the paths of files that begin with the pattern, and nothing else: of all of them
-- below the directory where the working directory has a copy of the program as `debbuging`, and where it has no
-- such file of those in the directory and in its own directories only.
pub search_lem :
    (f : Debbuging) (pattern dir : List ℕ) (es : Entries)
    → c_str pattern ≡ pattern
    → length pattern < buffer_size
    → IsReadable pattern es
    → search f program pattern dir es ≡ below (reach f program) pattern dir es
search_lem f pattern dir es string short h = search_entries pattern string short f program dir es h

-- A file with fewer bytes than the pattern ends the search of its directory: what stands after it is not
-- looked at.
pub short_file_ends :
    (f : Debbuging) (argv : Name) (pattern dir name bytes : List ℕ) (rest : Entries)
    → length pattern < buffer_size
    → is_dot name ≡ false
    → length bytes < length pattern
    → search f argv pattern dir (entry name (file bytes) rest) ≡ []
unfolding search read_file
short_file_ends f argv pattern dir name bytes rest short d h =
    let e : ltb (length pattern) buffer_size ≡ true = ground arith in
    let g : ltb (length bytes) (length pattern) ≡ true = ground arith in
    rw (d, e, g, search, read_file) refl
