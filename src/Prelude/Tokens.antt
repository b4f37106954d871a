-- ===== src/Prelude/Tokens.antt =====
-- What `strtok` finds in a line of words.
use Prim.Native.Nat.{ℕ, ◌<◌}
use mathlib.Core.Path.{◌≡◌, refl, ap, sym, ◌∙◌}
use mathlib.Core.Logic.{◌≢◌}
use mathlib.Core.Bool.{Bool, false}
use mathlib.Core.List.{List, [], ◌∷◌, ◌++◌, append-nil, append_assoc}
use native.Mathlib.Omega.{arith}
use operating_systems_agh.Prelude.Lists.{length, All}
use operating_systems_agh.Prelude.Bytes.{tokens_from, flush, c_str}

pub flush-word : (w : List ℕ) (rest : List (List ℕ)) → 0 < length w → flush w rest ≡ w ∷ rest
flush-word [] rest h = absurd (omega arith)
flush-word (c ∷ w) rest h = refl

module _ {κ} (P : ℕ → Type κ) where
  -- A word with no delimiter in it goes whole into the token.
  pub tokens_from-word :
      (delim : ℕ → Bool)
      → ((c : ℕ) → P c → delim c ≡ false)
      → (cur w s : List ℕ) → All P w
      → tokens_from delim cur (w ++ s) ≡ tokens_from delim (cur ++ w) s
  unfolding tokens_from
  tokens_from-word delim plain cur [] s h = ap (λ c. tokens_from delim c s) (sym (append-nil cur))
  tokens_from-word delim plain cur (c ∷ w) s h =
      rw (plain c h.0, tokens_from)
        (tokens_from-word delim plain (cur ++ c ∷ []) w s h.1
          ∙ ap (λ c. tokens_from delim c s) (append_assoc cur (c ∷ []) w))

  pub c_str-word : ((c : ℕ) → P c → c ≢ 0) → (w : List ℕ) → All P w → c_str w ≡ w
  unfolding c_str
  c_str-word inside [] h = refl
  c_str-word inside (c ∷ w) h = let n = inside c h.0 in ground (arith, c_str-word inside w h.1)
