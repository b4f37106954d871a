-- ===== src/Command/Search.antt =====
-- The search in a sorted table finds the entry of a name, if there is one, and nothing else.
use operating_systems_agh.Prelude.{
  ℕ, zero, suc, ◌+◌, ◌/◌, ◌<◌, ◌≤◌, ◌≡◌, ◌∙◌, ap, sym, List, [], ◌∷◌, Option, none, some, arith,
  All-get_elem?, Has, length, get_elem?, get_elem?-some, lt_of_get_elem?, ltb, ◌⊎◌, inl, inr, ◌↔◌,
  Option-cases, dec_lt, Bool-cases,
}
use operating_systems_agh.Command.{
  less, equal, greater, strcmp, Command, compare_commands, bsearch, qsort, map_command_to_int,
}
use operating_systems_agh.Command.Strings.{strcmp_self, eq_of_strcmp, strcmp-greater_of_less}
use operating_systems_agh.Command.Sort.{
  IsBelow, IsSorted, Order-cases, AreDistinct, qsort-IsSorted, qsort-Has,
}

-- What is found stands in the table under the key's name.
bsearch_sound :
    (f : ℕ) (dict : List Command) (key : Command) (lo hi : ℕ) {c : Command}
    → bsearch f dict key lo hi ≡ some c
    → Has c dict × (key.str ≡ c.str)
unfolding bsearch compare_commands
bsearch_sound zero dict key lo hi h = absurd (cc)
bsearch_sound (suc f) dict key lo hi {c} h = elim (Bool-cases (ltb lo hi)) [
  | inr e ↦ absurd (ground arith)
  | inl lt ↦ elim (Option-cases (get_elem? dict ((lo + hi) / 2))) [
    | inl e ↦ absurd (ground arith)
    | inr (d, e) ↦ elim (Order-cases (strcmp key.str d.str)) [
      | inl o ↦ bsearch_sound f dict key lo ((lo + hi) / 2) (ground arith)
      | inr (inl o) ↦ (((lo + hi) / 2, ground arith), ground (arith, eq_of_strcmp key.str d.str o))
      | inr (inr o) ↦ bsearch_sound f dict key ((lo + hi) / 2 + 1) hi (ground arith)
    ]
  ]
]

-- Entries in order of their places are in order of their names.
IsSorted-get_elem? :
    (dict : List Command) (i j : ℕ) (c d : Command)
    → IsSorted dict
    → i < j
    → get_elem? dict i ≡ some c
    → get_elem? dict j ≡ some d
    → strcmp c.str d.str ≡ less
IsSorted-get_elem? [] i j c d s lt ci dj = absurd (cc)
IsSorted-get_elem? (x ∷ dict) i zero c d s lt ci dj = absurd (omega arith)
IsSorted-get_elem? (x ∷ dict) zero (suc j) c d s lt ci dj =
    let at : IsBelow x d = All-get_elem? (IsBelow x) dict j s.0 dj in
    ap (λ (o : Option Command). strcmp (name o) d.str) (sym ci) ∙ at
  where
    name : Option Command → List ℕ
    name none = []
    name (some c) = c.str
IsSorted-get_elem? (x ∷ dict) (suc i) (suc j) c d s lt ci dj =
    IsSorted-get_elem? dict i j c d s.1 (omega arith) ci dj

-- Where the entry of the name stands, seen from the middle of the range.
middle_side :
    (dict : List Command) (m p : ℕ) (c d : Command) (name : List ℕ)
    → IsSorted dict
    → get_elem? dict m ≡ some d
    → get_elem? dict p ≡ some c
    → c.str ≡ name
    → ((p ≡ m) × (strcmp name d.str ≡ equal))
      ⊎ (((p < m) × (strcmp name d.str ≡ less)) ⊎ ((m < p) × (strcmp name d.str ≡ greater)))
middle_side dict m p c d name s md pc e = elim (dec_lt p m) [
  | yes lt ↦
      inr (inl (lt, ap (λ n. strcmp n d.str) (sym e) ∙ IsSorted-get_elem? dict p m c d s lt pc md))
  | no ge ↦ elim (dec_lt m p) [
    | yes lt ↦ inr (
        inr (
          lt,
          ap (λ n. strcmp n d.str) (sym e)
              ∙ strcmp-greater_of_less d.str c.str (IsSorted-get_elem? dict m p d c s lt md pc),
        ))
    | no le ↦
        let same : p ≡ m = omega arith in
        let cd : c ≡ d = same_entry (sym pc ∙ ap (get_elem? dict) same ∙ md) in
        inl (
          same,
          ap (λ n. strcmp n d.str) (sym e ∙ ap (λ (x : Command). x.str) cd) ∙ strcmp_self d.str,
        )
  ]
]
  where
    same_entry : some c ≡ some d → c ≡ d
    same_entry h = cc

-- The search finds the entry of the name in its range, with more fuel than the range is long.
bsearch_complete :
    (f : ℕ) (dict : List Command) (key : Command) (lo hi p : ℕ) {c : Command}
    → IsSorted dict
    → get_elem? dict p ≡ some c
    → c.str ≡ key.str
    → lo ≤ p
    → p < hi
    → hi ≤ length dict
    → hi < lo + f
    → bsearch f dict key lo hi ≡ some c
unfolding bsearch compare_commands
bsearch_complete zero dict key lo hi p s at e le lt size fuel = absurd (omega arith)
bsearch_complete (suc f) dict key lo hi p {c} s at e le lt size fuel =
    let (d, md) = get_elem?-some dict ((lo + hi) / 2) (omega arith) in
    elim (middle_side dict ((lo + hi) / 2) p c d key.str s md at e) [
      | inl (same, o) ↦ ground arith
      | inr (inl (l, o)) ↦
          ground (arith, bsearch_complete f dict key lo ((lo + hi) / 2) p {c = c} s at e)
      | inr (inr (g, o)) ↦
          ground (arith, bsearch_complete f dict key ((lo + hi) / 2 + 1) hi p {c = c} s at e)
    ]

-- In a table of distinct names that `qsort` has put in order, the search for a name gives an entry
-- exactly when that entry stands in the table under that name: it neither misses nor invents one.
pub map_command_to_int_lem :
    (table : List Command) (name : List ℕ) (c : Command)
    → AreDistinct table
    → (map_command_to_int (qsort table) name ≡ some c) ↔ (Has c table × (c.str ≡ name))
unfolding map_command_to_int
map_command_to_int_lem table name c distinct = (
  λ h.
      let (at, e) =
        bsearch_sound (suc (length (qsort table))) (qsort table) (record { str = name; n = 0 }) 0
          (length (qsort table)) h in
      ((qsort-Has c table).0 at, sym e),
  λ h.
      let (p, at) = (qsort-Has c table).1 h.0 in
      bsearch_complete (suc (length (qsort table))) (qsort table) (record { str = name; n = 0 }) 0
        (length (qsort table)) p (qsort-IsSorted table distinct) at h.1 (omega arith)
        (lt_of_get_elem? (qsort table) p at) (omega arith) (omega arith),
)
