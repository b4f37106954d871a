-- ===== src/Command/Strings.antt =====
-- The laws of `strcmp`.
use operating_systems_agh.Prelude.{ℕ, ◌≡◌, refl, List, [], ◌∷◌, arith}
use operating_systems_agh.Command.{less, equal, greater, strcmp}

pub strcmp_self : (a : List ℕ) → strcmp a a ≡ equal
unfolding strcmp
strcmp_self [] = refl
strcmp_self (x ∷ xs) = ground (arith, strcmp_self xs)

pub eq_of_strcmp : (a b : List ℕ) → strcmp a b ≡ equal → a ≡ b
unfolding strcmp
eq_of_strcmp [] [] h = refl
eq_of_strcmp [] (y ∷ ys) h = cc
eq_of_strcmp (x ∷ xs) [] h = cc
eq_of_strcmp (x ∷ xs) (y ∷ ys) h = ground (arith, eq_of_strcmp xs ys)

pub strcmp-less_of_greater : (a b : List ℕ) → strcmp a b ≡ greater → strcmp b a ≡ less
unfolding strcmp
strcmp-less_of_greater [] [] h = cc
strcmp-less_of_greater [] (y ∷ ys) h = cc
strcmp-less_of_greater (x ∷ xs) [] h = refl
strcmp-less_of_greater (x ∷ xs) (y ∷ ys) h = ground (arith, strcmp-less_of_greater xs ys)

pub strcmp-greater_of_less : (a b : List ℕ) → strcmp a b ≡ less → strcmp b a ≡ greater
unfolding strcmp
strcmp-greater_of_less [] [] h = cc
strcmp-greater_of_less [] (y ∷ ys) h = refl
strcmp-greater_of_less (x ∷ xs) [] h = cc
strcmp-greater_of_less (x ∷ xs) (y ∷ ys) h = ground (arith, strcmp-greater_of_less xs ys)

pub strcmp_trans : (a b c : List ℕ) → strcmp a b ≡ less → strcmp b c ≡ less → strcmp a c ≡ less
unfolding strcmp
strcmp_trans [] [] c h k = cc
strcmp_trans [] (y ∷ ys) [] h k = cc
strcmp_trans [] (y ∷ ys) (z ∷ zs) h k = refl
strcmp_trans (x ∷ xs) [] c h k = cc
strcmp_trans (x ∷ xs) (y ∷ ys) [] h k = cc
strcmp_trans (x ∷ xs) (y ∷ ys) (z ∷ zs) h k = ground (arith, strcmp_trans xs ys zs)
