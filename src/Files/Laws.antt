-- ===== src/Files/Laws.antt =====
-- What the programs of lab2/zad1 and lab2/zad2/reverse.c leave in the output.
use operating_systems_agh.Prelude.{
  ℕ, zero, suc, ◌+◌, ◌-◌, ◌<◌, ◌≡◌, refl, ap, sym, ◌∙◌, List, [], ◌∷◌, ◌++◌, none, some, length,
  get_or, take, drop, overwrite, map, append_assoc, append-nil, arith, length-append,
}
use operating_systems_agh.Files.{write_byte, Ending, replaced}
use operating_systems_agh.Files.Zamien
use operating_systems_agh.Files.Zamien2
use operating_systems_agh.Files.Reverse.{reverse, reverse_from, main}

-- The list from its end.
abbrev pub backwards : List ℕ → List ℕ
backwards [] = []
backwards (x ∷ xs) = backwards xs ++ x ∷ []

backwards-take :
    (l : List ℕ) (n c : ℕ)
    → n < length l
    → backwards (take (suc n) l) ≡ get_or l n c ∷ backwards (take n l)
backwards-take [] n c h = absurd (omega arith)
backwards-take (x ∷ l) zero c h = refl
backwards-take (x ∷ l) (suc n) c h = ap (λ r. r ++ x ∷ []) (backwards-take l n c (omega arith))

take-length : (l : List ℕ) → take (length l) l ≡ l
take-length [] = refl
take-length (x ∷ l) = ap (λ r. x ∷ r) (take-length l)

reverse_from_lem :
    (n : ℕ) (input : List ℕ) (c : ℕ) (out : List ℕ)
    → n < length input
    → reverse_from n input c out ≡ out ++ backwards (take (suc n) input)
unfolding reverse_from
reverse_from_lem zero input c out h = ap (λ r. out ++ r) (sym (backwards-take input 0 c h))
reverse_from_lem (suc n) input c out h =
    let b = get_or input (suc n) c in
    reverse_from_lem n input b (out ++ b ∷ []) (omega arith)
    ∙ append_assoc out (b ∷ []) (backwards (take (suc n) input))
    ∙ ap (λ r. out ++ r) (sym (backwards-take input (suc n) c h))

-- A file that is not empty is added to the output from its last byte to its first; for an empty one a
-- byte that was never read is added.
pub reverse_lem :
    (junk x : ℕ) (xs out : List ℕ)
    → (main 3 junk (x ∷ xs) out ≡ (0, out ++ backwards (x ∷ xs)))
      × (main 3 junk [] out ≡ (0, out ++ junk ∷ []))
unfolding main reverse reverse_from
reverse_lem junk x xs out =
    let input = x ∷ xs in
    let e : suc (length input - 1) ≡ length input = omega arith in
    let r =
      reverse_from_lem (length input - 1) input junk out (omega arith)
      ∙ ap (λ n. out ++ backwards (take n input)) e
      ∙ ap (λ r. out ++ backwards r) (take-length input) in
    (ap (λ (o : List ℕ). (0, o)) r, refl)

write_byte-append :
    (done rest : List ℕ) (b : ℕ)
    → write_byte (length done) b (done ++ rest) ≡ (done ++ b ∷ []) ++ drop 1 rest
write_byte-append [] [] b = refl
write_byte-append [] (r ∷ rest) b = refl
write_byte-append (d ∷ done) rest b =
    let n : length (d ∷ done) + 1 ≡ suc (length done + 1) = omega arith in
    ap (λ n. take (length (d ∷ done)) (d ∷ done ++ rest) ++ b ∷ drop n (d ∷ done ++ rest)) n
    ∙ ap (λ l. d ∷ l) (write_byte-append done rest b)

drop-drop : (n : ℕ) (l : List ℕ) → drop n (drop 1 l) ≡ drop (suc n) l
drop-drop zero [] = refl
drop-drop (suc n) [] = refl
drop-drop n (x ∷ l) = refl

zamien_copy :
    (s r : ℕ) (input done rest : List ℕ)
    → Zamien.copy s r input (length done) (done ++ rest)
      ≡ done ++ overwrite rest (map (replaced s r) input)
unfolding Zamien.copy
zamien_copy s r [] done rest = refl
zamien_copy s r (c ∷ cs) done rest =
    let b = replaced s r c in
    let n : suc (length done) ≡ length (done ++ b ∷ []) =
      omega (arith, length-append done (b ∷ [])) in
    ap (λ f. Zamien.copy s r cs (suc (length done)) f) (write_byte-append done rest b)
    ∙ ap (λ n. Zamien.copy s r cs n ((done ++ b ∷ []) ++ drop 1 rest)) n
    ∙ zamien_copy s r cs (done ++ b ∷ []) (drop 1 rest)
    ∙ append_assoc done (b ∷ []) (overwrite (drop 1 rest) (map (replaced s r) cs))
    ∙ ap (λ l. done ++ (b ∷ (map (replaced s r) cs ++ l)))
        (drop-drop (length (map (replaced s r) cs)) rest)

zamien2_copy :
    (s r : ℕ) (input out : List ℕ) → Zamien2.copy s r input out ≡ out ++ map (replaced s r) input
unfolding Zamien2.copy
zamien2_copy s r [] out = sym (append-nil out)
zamien2_copy s r (c ∷ cs) out =
    zamien2_copy s r cs (out ++ replaced s r c ∷ [])
    ∙ append_assoc out (replaced s r c ∷ []) (map (replaced s r) cs)

-- On an output that is there, both programs write the input with every byte `s` replaced by `r`: the one over
-- the start of the output, the other at its end. If the output is not there the first fails, and the
-- second makes it.
pub replace_characters_lem :
    (s r : ℕ) (input out : List ℕ)
    → (Zamien.main 5 (s ∷ []) (r ∷ []) (some input) (some out)
        ≡ record { status = 0; output = some (overwrite out (map (replaced s r) input)) })
      × (Zamien2.main 5 (s ∷ []) (r ∷ []) (some input) (some out)
          ≡ record { status = 0; output = some (out ++ map (replaced s r) input) })
      × (Zamien.main 5 (s ∷ []) (r ∷ []) (some input) none ≡ record { status = 1; output = none })
      × (Zamien2.main 5 (s ∷ []) (r ∷ []) (some input) none
          ≡ record { status = 0; output = some (map (replaced s r) input) })
unfolding Zamien.main Zamien.replace_characters Zamien2.main Zamien2.replace_characters
replace_characters_lem s r input out = (
  ap ended (zamien_copy s r input [] out),
  ap ended (zamien2_copy s r input out),
  refl,
  ap ended (zamien2_copy s r input []),
)
  where
    ended : List ℕ → Ending
    ended o = record { status = 0; output = some o }
