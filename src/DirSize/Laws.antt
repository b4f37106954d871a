-- ===== src/DirSize/Laws.antt =====
-- lab2/zad3 and lab2/zad4: the total is the sum of the sizes of the files, in whatever order they come.
use mathlib.Core.List.{Permᴰ}
use operating_systems_agh.Prelude.{
  ℕ, ◌+◌, ◌<◌, ◌≤◌, ◌≡◌, ◌∙◌, ap, refl, false, Option, none, some, List, [], ◌∷◌, ◌++◌, arith,
  append-nil, append_assoc, All, if◌then◌else◌,
}
use operating_systems_agh.DirSize.{
  Stat, Object, Line, file, total_size, Sum, no_sum, limit, read_stat, add_size, count_object,
  note_failure, count_entries, count_size, display_all, exited, overflow, ftw_size,
}

-- The size that an object counts for.
abbrev pub size_of : Object → ℕ
size_of o = if (read_stat o).is_dir then 0 else (read_stat o).size

-- The sum of the sizes of all that is not a directory.
abbrev pub sizes : List Object → ℕ
sizes [] = 0
sizes (o ∷ os) = size_of o + sizes os

-- A line for each of them.
abbrev pub files : List Object → List Line
files [] = []
files (o ∷ os) =
    if (read_stat o).is_dir then files os else file o.name (read_stat o).size ∷ files os

-- After all of them: the sum with the lines, or an overflow.
abbrev IsSum : List Object → Sum → Option Sum → Type 0
IsSum os s r =
    (s.total + sizes os < limit
      → r ≡ some (record { total = s.total + sizes os; lines = s.lines ++ files os }))
    × (limit ≤ s.total + sizes os → r ≡ none)

display_all-IsSum : (os : List Object) (s : Sum) → s.total < limit → IsSum os s (display_all os s)
unfolding display_all count_object add_size
display_all-IsSum [] s h = ground (arith, append-nil s.lines)
display_all-IsSum (o ∷ os) s h =
    let added : Sum = record {
      total = s.total + (read_stat o).size;
      lines = s.lines ++ file o.name (read_stat o).size ∷ [];
    } in
    ground (
      arith,
      display_all-IsSum os s h,
      display_all-IsSum os added,
      append_assoc s.lines (file o.name (read_stat o).size ∷ []) (files os),
    )

-- `stat` succeeds.
abbrev pub IsStated : Object → Type 0
IsStated o = (st : Stat) × (o.stat ≡ some st)

count_entries-display_all :
    (os : List Object) (s : Sum) → All IsStated os → count_entries os s ≡ display_all os s
unfolding count_entries display_all note_failure
count_entries-display_all [] s h = refl
count_entries-display_all (o ∷ os) s ((st, e), h) =
    let noted : note_failure o s ≡ s = ground arith in
    ap (λ s'. elim (count_object o s') [ none ↦ none | some t ↦ count_entries os t ]) noted
    ∙ after (count_object o s) (λ t. count_entries-display_all os t h)
  where
    after :
        (r : Option Sum)
        → ((t : Sum) → count_entries os t ≡ display_all os t)
        → elim r [ none ↦ none | some t ↦ count_entries os t ]
          ≡ elim r [ none ↦ none | some t ↦ display_all os t ]
    after none f = refl
    after (some t) f = f t

sizes-Permᴰ : {os ps : List Object} → Permᴰ os ps → sizes os ≡ sizes ps
sizes-Permᴰ Permᴰ.nil = refl
sizes-Permᴰ (Permᴰ.cons {b = b} {l₁ = os} {l₂ = ps} e p) =
    ap (λ o. size_of o + sizes os) e ∙ ap (λ n. size_of b + n) (sizes-Permᴰ p)
sizes-Permᴰ (Permᴰ.swap {a = a} {b = b} {a' = c} {b' = d} {l = os} e f) =
    ap (λ o. size_of o + (size_of b + sizes os)) e
    ∙ ap (λ o. size_of d + (size_of o + sizes os)) f
    ∙ omega arith
sizes-Permᴰ (Permᴰ.trans p q) = sizes-Permᴰ p ∙ sizes-Permᴰ q

-- In whatever order `ps` the objects `os` come, if `stat` succeeds for each, then countSize.c on them as
-- entries, and zad4.c on them as what a successful `ftw` visits, print a line with name and size for each that
-- is no directory, in that order, and then the sum of the sizes of those in `os`; or that sum is 2 ^ 63 or
-- more, and both overflow.
pub totals_in_any_order :
    (os ps : List Object)
    → All IsStated ps
    → Permᴰ os ps
    → (sizes os < limit
        → (count_size ps ≡ some (files ps ++ total_size (sizes os) ∷ []))
          × (ftw_size 2 ps false ≡ exited 0 (files ps ++ total_size (sizes os) ∷ [])))
      × (limit ≤ sizes os → (count_size ps ≡ none) × (ftw_size 2 ps false ≡ overflow))
unfolding count_size ftw_size
totals_in_any_order os ps h p =
    let counted = count_entries-display_all ps no_sum h in
    ground (arith, sizes-Permᴰ p, display_all-IsSum ps no_sum)
