-- ===== src/Command/Sort.antt =====
-- The table in order: what `qsort` does to the entries.
use operating_systems_agh.Prelude.{
  zero, suc, ◌≡◌, ◌≢◌, refl, List, [], ◌∷◌, arith, All, Has, ◌⊎◌, inl, inr, ◌↔◌,
}
use operating_systems_agh.Command.{
  Order, less, equal, greater, strcmp, Command, compare_commands, insert, qsort,
}
use operating_systems_agh.Command.Strings.{strcmp_trans, strcmp-less_of_greater}

abbrev pub IsBelow : Command → Command → Type 0
IsBelow c d = strcmp c.str d.str ≡ less

-- Each entry's name is below those of the entries after it.
abbrev pub IsSorted : List Command → Type 0
IsSorted [] = Unit
IsSorted (c ∷ cs) = All (IsBelow c) cs × IsSorted cs

-- No two entries have the same name.
abbrev pub AreDistinct : List Command → Type 0
AreDistinct [] = Unit
AreDistinct (c ∷ cs) = All (λ d. strcmp d.str c.str ≢ equal) cs × AreDistinct cs

pub Order-cases : (o : Order) → (o ≡ less) ⊎ ((o ≡ equal) ⊎ (o ≡ greater))
Order-cases less = inl refl
Order-cases equal = inr (inl refl)
Order-cases greater = inr (inr refl)

insert-All :
    (P : Command → Type 0) (c : Command) (ds : List Command) → P c → All P ds → All P (insert c ds)
unfolding insert compare_commands
insert-All P c [] p h = (p, tt)
insert-All P c (d ∷ ds) p h = elim (Order-cases (strcmp d.str c.str)) [
  | inl e ↦ rw (e, All) (h.0, insert-All P c ds p h.1)
  | inr (inl e) ↦ rw (e, All) (p, h)
  | inr (inr e) ↦ rw (e, All) (p, h)
]

All-trans :
    (c d : Command) (ds : List Command) → IsBelow c d → All (IsBelow d) ds → All (IsBelow c) ds
All-trans c d [] b h = tt
All-trans c d (e ∷ ds) b h = (strcmp_trans c.str d.str e.str b h.0, All-trans c d ds b h.1)

insert-IsSorted :
    (c : Command) (ds : List Command)
    → All (λ d. strcmp d.str c.str ≢ equal) ds
    → IsSorted ds
    → IsSorted (insert c ds)
unfolding insert compare_commands
insert-IsSorted c [] f s = (tt, tt)
insert-IsSorted c (d ∷ ds) f s = elim (Order-cases (strcmp d.str c.str)) [
  | inl e ↦ rw (e, IsSorted) (insert-All (IsBelow d) c ds e s.0, insert-IsSorted c ds f.1 s.1)
  | inr (inl e) ↦ absurd (f.0 e)
  | inr (inr e) ↦
      let b : IsBelow c d = strcmp-less_of_greater d.str c.str e in
      rw (e, IsSorted) ((b, All-trans c d ds b s.0), s)
]

qsort-All : (P : Command → Type 0) (cs : List Command) → All P cs → All P (qsort cs)
unfolding qsort
qsort-All P [] h = tt
qsort-All P (c ∷ cs) h = insert-All P c (qsort cs) h.0 (qsort-All P cs h.1)

-- `qsort` puts a table of distinct names in strictly rising order.
pub qsort-IsSorted : (cs : List Command) → AreDistinct cs → IsSorted (qsort cs)
unfolding qsort
qsort-IsSorted [] h = tt
qsort-IsSorted (c ∷ cs) h =
    insert-IsSorted c (qsort cs) (qsort-All (λ d. strcmp d.str c.str ≢ equal) cs h.0)
      (qsort-IsSorted cs h.1)

insert-less :
    (c d : Command) (ds : List Command)
    → strcmp d.str c.str ≡ less
    → insert c (d ∷ ds) ≡ d ∷ insert c ds
unfolding insert compare_commands
insert-less c d ds e = ground arith

insert-not_less :
    (c d : Command) (ds : List Command) → strcmp d.str c.str ≢ less → insert c (d ∷ ds) ≡ c ∷ d ∷ ds
unfolding insert compare_commands
insert-not_less c d ds ne = ground arith

-- The first two entries change places.
Has-under :
    (x c d : Command) (es ds : List Command)
    → (Has x es → Has x (c ∷ ds))
    → Has x (d ∷ es)
    → Has x (c ∷ d ∷ ds)
Has-under x c d es ds f (zero, h) = (1, h)
Has-under x c d es ds f (suc n, h) = lift (f (n, h))
  where
    lift : Has x (c ∷ ds) → Has x (c ∷ d ∷ ds)
    lift (zero, e) = (0, e)
    lift (suc m, e) = (suc (suc m), e)

Has-over :
    (x c d : Command) (es ds : List Command)
    → (Has x (c ∷ ds) → Has x es)
    → Has x (c ∷ d ∷ ds)
    → Has x (d ∷ es)
Has-over x c d es ds f (zero, h) = let (n, e) = f (0, h) in (suc n, e)
Has-over x c d es ds f (suc zero, h) = (0, h)
Has-over x c d es ds f (suc (suc m), h) = let (n, e) = f (suc m, h) in (suc n, e)

insert-Has : (x c : Command) (ds : List Command) → Has x (insert c ds) ↔ Has x (c ∷ ds)
insert-Has x c [] = unfold insert in (λ h. h, λ h. h)
insert-Has x c (d ∷ ds) = elim (Order-cases (strcmp d.str c.str)) [
  | inl e ↦ rw (insert-less c d ds e) (
    Has-under x c d (insert c ds) ds (insert-Has x c ds).0,
    Has-over x c d (insert c ds) ds (insert-Has x c ds).1,
  )
  | inr (inl e) ↦ rw (insert-not_less c d ds (λ l. cc)) (λ h. h, λ h. h)
  | inr (inr e) ↦ rw (insert-not_less c d ds (λ l. cc)) (λ h. h, λ h. h)
]

Has-cons_map :
    (x c : Command) (es ds : List Command) → (Has x es → Has x ds) → Has x (c ∷ es) → Has x (c ∷ ds)
Has-cons_map x c es ds f (zero, h) = (0, h)
Has-cons_map x c es ds f (suc n, h) = let (m, e) = f (n, h) in (suc m, e)

-- `qsort` neither loses nor adds an entry.
pub qsort-Has : (x : Command) (cs : List Command) → Has x (qsort cs) ↔ Has x cs
unfolding qsort
qsort-Has x [] = (λ h. h, λ h. h)
qsort-Has x (c ∷ cs) = (
  λ h. Has-cons_map x c (qsort cs) cs (qsort-Has x cs).0 ((insert-Has x c (qsort cs)).0 h),
  λ h. (insert-Has x c (qsort cs)).1 (Has-cons_map x c cs (qsort cs) (qsort-Has x cs).1 h),
)
