-- ===== src/Barber/Queue.antt =====
-- The queue of lab7/zad1/v1/queue.c as a sequence of bytes, first in first out.
use operating_systems_agh.Prelude.{
  ℕ, zero, suc, ◌<◌, ◌≤◌, ◌≡◌, ◌≢◌, refl, true, List, [], ◌∷◌, ◌++◌, arith, length, set, take, drop,
  c_str, is_terminated, length-append, length-drop, ◌==◌, Bool-cases, inl, inr, overwrite,
}
use operating_systems_agh.Barber.{buffer_size}

-- The memory has its size and holds a string.
abbrev pub IsBuffer : List ℕ → Type 0
IsBuffer q = (length q ≡ buffer_size) × (is_terminated q ≡ true)

pub strlen_lt : (q : List ℕ) → is_terminated q ≡ true → length (c_str q) < length q
unfolding c_str is_terminated
strlen_lt [] h = absurd (cc)
strlen_lt (c ∷ s) h = ground (arith, strlen_lt s)

pub is_terminated-set : (q : List ℕ) (n : ℕ) → n < length q → is_terminated (set q n 0) ≡ true
unfolding is_terminated
is_terminated-set [] n h = absurd (omega arith)
is_terminated-set (c ∷ s) zero h = refl
is_terminated-set (c ∷ s) (suc n) h = ground (arith, is_terminated-set s n)

-- A byte and a NUL written at the end of a string.
pub c_str-set_end :
    (q : List ℕ) (b : ℕ)
    → suc (length (c_str q)) < length q
    → b ≢ 0
    → c_str (set (set q (length (c_str q)) b) (suc (length (c_str q))) 0) ≡ c_str q ++ b ∷ []
unfolding c_str
c_str-set_end [] b h ne = absurd (omega arith)
c_str-set_end (c ∷ []) b h ne = absurd (omega arith)
c_str-set_end (c ∷ x ∷ s) b h ne = elim (Bool-cases (c == 0)) [
  | inl e ↦ ground arith
  | inr e ↦ ground (arith, c_str-set_end (x ∷ s) b)
]

pub c_str-set_nul :
    (q : List ℕ) → c_str (set (set q (length (c_str q)) 0) (suc (length (c_str q))) 0) ≡ c_str q
unfolding c_str
c_str-set_nul [] = refl
c_str-set_nul (c ∷ s) = elim (Bool-cases (c == 0)) [
  | inl e ↦ ground arith
  | inr e ↦ ground (arith, c_str-set_nul s)
]

pub c_str-take :
    (s : List ℕ) (n : ℕ) (r : List ℕ)
    → is_terminated s ≡ true
    → length (c_str s) < n
    → c_str (take n s ++ r) ≡ c_str s
unfolding c_str is_terminated
c_str-take [] n r h lt = absurd (cc)
c_str-take (c ∷ s) zero r h lt = absurd (omega arith)
c_str-take (c ∷ s) (suc n) r h lt = ground (arith, c_str-take s n r)

pub is_terminated-take :
    (s : List ℕ) (n : ℕ) (r : List ℕ)
    → is_terminated s ≡ true
    → length (c_str s) < n
    → is_terminated (take n s ++ r) ≡ true
unfolding c_str is_terminated
is_terminated-take [] n r h lt = absurd (cc)
is_terminated-take (c ∷ s) zero r h lt = absurd (omega arith)
is_terminated-take (c ∷ s) (suc n) r h lt = ground (arith, is_terminated-take s n r)

pub length-take_le : (n : ℕ) (s : List ℕ) → length (take n s) ≤ length s
length-take_le zero s = omega arith
length-take_le (suc n) [] = omega arith
length-take_le (suc n) (x ∷ s) = omega (arith, length-take_le n s)

pub length-overwrite : (q m : List ℕ) → length m ≤ length q → length (overwrite q m) ≡ length q
length-overwrite q m h =
    omega (arith, length-append m (drop (length m) q), length-drop (length m) q)
