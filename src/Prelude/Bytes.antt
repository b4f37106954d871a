-- ===== src/Prelude/Bytes.antt =====
-- Byte arrays of C: the string that an array holds, and the libc calls on them.
use Prim.Native.Nat.{ℕ, zero, suc, ◌<◌, ◌+◌, ◌-◌, ◌*◌, ◌/◌, ◌%◌}
use Prim.Native.Char.{code}
use Prim.Native.String.{String}
use mathlib.Core.Path.{◌≡◌, refl}
use mathlib.Core.Logic.{◌↔◌}
use mathlib.Core.Bool.{Bool, true, false, ◌&&◌, ◌||◌}
use mathlib.Core.List.{List, [], ◌∷◌, ◌++◌}
use native.Mathlib.Omega.{arith}
use operating_systems_agh.Prelude.Tests.{◌==◌, ltb, leb, if◌then◌else◌}
use operating_systems_agh.Prelude.Int.{ℤ, pos, negsuc}
use operating_systems_agh.Prelude.Lists.{length, drop, set, replicate}

-- The bytes of a literal.
abbrev pub codes : String → List ℕ
codes String.[] = []
codes (String.◌∷◌ c s) = code c ∷ codes s

-- The string that starts at the head of an array: what stands before the first NUL.
unfoldable pub c_str : List ℕ → List ℕ
c_str [] = []
c_str (c ∷ s) = if c == 0 then [] else c ∷ c_str s

-- Whether a NUL stands in the array, so that its string ends inside it.
unfoldable pub is_terminated : List ℕ → Bool
is_terminated [] = false
is_terminated (c ∷ s) = c == 0 || is_terminated s

unfoldable pub bytes_eq : List ℕ → List ℕ → Bool
bytes_eq [] [] = true
bytes_eq [] (y ∷ ys) = false
bytes_eq (x ∷ xs) [] = false
bytes_eq (x ∷ xs) (y ∷ ys) = x == y && bytes_eq xs ys

-- `strcmp(a, b) == 0`
unfoldable pub str_eq : List ℕ → List ℕ → Bool
str_eq a b = bytes_eq (c_str a) (c_str b)

-- `memcpy(buf, bytes, length bytes)`, inside the array.
abbrev pub overwrite : List ℕ → List ℕ → List ℕ
overwrite buf bytes = bytes ++ drop (length bytes) buf

pub bytes_eq_iff : (a b : List ℕ) → (bytes_eq a b ≡ true) ↔ (a ≡ b)
unfolding bytes_eq
bytes_eq_iff [] [] = (λ _. refl, λ _. refl)
bytes_eq_iff [] (y ∷ ys) = (λ h. cc, λ h. cc)
bytes_eq_iff (x ∷ xs) [] = (λ h. cc, λ h. cc)
bytes_eq_iff (x ∷ xs) (y ∷ ys) =
    (λ h. ground (arith, bytes_eq_iff xs ys), λ h. ground (arith, bytes_eq_iff xs ys))

-- Equal strings are what `strcmp` finds equal.
pub str_eq_iff : (a b : List ℕ) → (str_eq a b ≡ true) ↔ (c_str a ≡ c_str b)
unfolding str_eq
str_eq_iff a b = bytes_eq_iff (c_str a) (c_str b)

-- A string is its own string.
pub c_str-c_str : (b : List ℕ) → c_str (c_str b) ≡ c_str b
unfolding c_str
c_str-c_str [] = refl
c_str-c_str (c ∷ s) = ground (arith, c_str-c_str s)

-- A NUL written just past a string cuts the array there.
pub c_str-set :
    (s rest : List ℕ) → c_str s ≡ s → 0 < length rest → c_str (set (s ++ rest) (length s) 0) ≡ s
unfolding c_str
c_str-set [] [] h lt = absurd (omega arith)
c_str-set [] (r ∷ rest) h lt = refl
c_str-set (c ∷ s) rest h lt = ground (arith, c_str-set s rest)

pub c_str-append : (a b : List ℕ) → c_str a ≡ a → c_str (a ++ b) ≡ a ++ c_str b
unfolding c_str
c_str-append [] b h = refl
c_str-append (c ∷ a) b h = ground (arith, c_str-append a b)

pub c_str-replicate : (n : ℕ) → c_str (replicate n 0) ≡ []
unfolding c_str
c_str-replicate zero = refl
c_str-replicate (suc n) = refl

-- `%d` of a number that is not negative, on fuel; the digits of `n` are at most `n + 1`.
unfoldable pub decimal_from : ℕ → ℕ → List ℕ
decimal_from zero n = []
decimal_from (suc f) n = elim (ltb n 10) [
  | true ↦ (b'0' + n) ∷ []
  | false ↦ decimal_from f (n / 10) ++ (b'0' + n % 10) ∷ []
]

unfoldable pub decimal : ℕ → List ℕ
unfolding decimal_from
decimal n = decimal_from (suc n) n

-- What `strtok` gives, call after call: the runs of bytes that are no delimiters. `cur` is the run that
-- has begun.
abbrev pub flush : List ℕ → List (List ℕ) → List (List ℕ)
flush [] rest = rest
flush (c ∷ cur) rest = (c ∷ cur) ∷ rest

unfoldable pub tokens_from : (ℕ → Bool) → List ℕ → List ℕ → List (List ℕ)
tokens_from delim cur [] = flush cur []
tokens_from delim cur (c ∷ s) = elim (delim c) [
  | true ↦ flush cur (tokens_from delim [] s)
  | false ↦ tokens_from delim (cur ++ c ∷ []) s
]

unfoldable pub tokens : (ℕ → Bool) → List ℕ → List (List ℕ)
unfolding tokens_from
tokens delim s = tokens_from delim [] s

abbrev pub is_digit : ℕ → Bool
is_digit c = leb b'0' c && leb c b'9'

-- The white space that `atoi` skips.
abbrev pub is_space : ℕ → Bool
is_space c = c == 32 || (leb 9 c && leb c 13)

unfoldable pub digits_from : ℕ → List ℕ → ℕ
digits_from acc [] = acc
digits_from acc (c ∷ s) = elim (is_digit c) [
  | true ↦ digits_from (10 * acc + (c - b'0')) s
  | false ↦ acc
]

abbrev pub negate : ℕ → ℤ
negate zero = pos 0
negate (suc n) = negsuc n

unfoldable pub atoi : List ℕ → ℤ
unfolding digits_from
atoi [] = pos 0
atoi (c ∷ s) = elim (is_space c) [
  | true ↦ atoi s
  | false ↦
      if c == b'-'
      then negate (digits_from 0 s)
      else if c == b'+'
      then pos (digits_from 0 s)
      else pos (digits_from 0 (c ∷ s))
]
