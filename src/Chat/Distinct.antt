-- ===== src/Chat/Distinct.antt =====
-- The table of clients of lab10/zad1/server.c where the nicknames that are registered differ.
use operating_systems_agh.Prelude.{
  Bool-cases, inl, inr, true, ℕ, zero, suc, ◌+◌, ◌≡◌, ◌≢◌, ◌∙◌, ap, sym, refl, false, some, List,
  [], ◌∷◌, arith, length, get_elem?, set, take, c_str, str_eq, get_elem?-set_ne, ℕ_discrete,
}
use operating_systems_agh.Chat.{Client, ready, is_taken, nickname_size}

-- A search that finds nothing has compared every other slot.
pub is_taken-false :
    (j : ℕ) (nick : List ℕ) (i : ℕ) (cs : List Client) (k : ℕ) {d : Client}
    → is_taken j nick i cs ≡ false
    → get_elem? cs k ≡ some d
    → i + k ≢ j
    → str_eq (take nickname_size nick) (take nickname_size d.nickname) ≡ false
unfolding is_taken
is_taken-false j nick i [] k h e ne = absurd (cc)
is_taken-false j nick i (c ∷ cs) zero {d} h e ne = ground arith
is_taken-false j nick i (c ∷ cs) (suc k) h e ne =
    is_taken-false j nick (i + 1) cs k (ground arith) e (λ q. ne (omega arith))

-- A search that finds something has found it in another slot.
pub is_taken-true :
    (j : ℕ) (nick : List ℕ) (i : ℕ) (cs : List Client)
    → is_taken j nick i cs ≡ true
    → (k : ℕ) × (d : Client) × (get_elem? cs k ≡ some d)
      × (i + k ≢ j)
      × (str_eq (take nickname_size nick) (take nickname_size d.nickname) ≡ true)
unfolding is_taken
is_taken-true j nick i [] h = absurd (cc)
is_taken-true j nick i (c ∷ cs) h = elim (Bool-cases (is_taken j nick (i + 1) cs)) [
  | inl there ↦
      let (k, d, e, ne, eq) = is_taken-true j nick (i + 1) cs there in
      (suc k, d, e, λ q. ne (omega arith), eq)
  | inr nowhere ↦ (0, c, refl, λ e. absurd (ground arith), ground arith)
]

-- `char nickname[16]`
abbrev pub IsSized : Client → Type 0
IsSized c = length c.nickname ≡ nickname_size

-- No two registered clients have the same nickname.
abbrev pub AreDistinct : List Client → Type 0
AreDistinct cs =
    (i k : ℕ) (c d : Client)
    → get_elem? cs i ≡ some c
    → get_elem? cs k ≡ some d
    → c.state ≡ ready
    → d.state ≡ ready
    → c_str c.nickname ≡ c_str d.nickname
    → i ≡ k

-- The search does not look at the slot that it is made for.
pub is_taken-set :
    (j : ℕ) (nick : List ℕ) (i : ℕ) (cs : List Client) (k : ℕ) (v : Client)
    → i + k ≡ j
    → is_taken j nick i (set cs k v) ≡ is_taken j nick i cs
unfolding is_taken
is_taken-set j nick i [] k v e = refl
is_taken-set j nick i (c ∷ cs) zero v e = ground arith
is_taken-set j nick i (c ∷ cs) (suc k) v e = ground (arith, is_taken-set j nick (i + 1) cs k v)

get_elem?-set_inv :
    (cs : List Client) (j : ℕ) (v : Client) {c : Client} → get_elem? (set cs j v) j ≡ some c → c ≡ v
get_elem?-set_inv [] j v e = absurd (cc)
get_elem?-set_inv (x ∷ cs) zero v e = cc
get_elem?-set_inv (x ∷ cs) (suc j) v e = get_elem?-set_inv cs j v e

-- A write into slot `j` keeps the names distinct, if what it writes is no second holder of a name.
pub AreDistinct-set :
    (cs : List Client) (j : ℕ) (v : Client)
    → AreDistinct cs
    → (v.state ≡ ready
        → (k : ℕ) (d : Client) → k ≢ j
        → get_elem? cs k ≡ some d
        → d.state ≡ ready
        → c_str d.nickname ≢ c_str v.nickname)
    → AreDistinct (set cs j v)
AreDistinct-set cs j v old new i k c d ec ed rc rd same = elim (ℕ_discrete i j) [
  | yes ij ↦ elim (ℕ_discrete k j) [
    | yes kj ↦ ij ∙ sym kj
    | no kj ↦
        let cv : c ≡ v = get_elem?-set_inv cs j v (ap (get_elem? (set cs j v)) (sym ij) ∙ ec) in
        absurd (
          new (ap (λ (x : Client). x.state) (sym cv) ∙ rc) k d kj
            (sym (get_elem?-set_ne cs v (λ e. kj (sym e))) ∙ ed) rd
            (sym same ∙ ap (λ (x : Client). c_str x.nickname) cv))
  ]
  | no ij ↦ elim (ℕ_discrete k j) [
    | yes kj ↦
        let dv : d ≡ v = get_elem?-set_inv cs j v (ap (get_elem? (set cs j v)) (sym kj) ∙ ed) in
        absurd (
          new (ap (λ (x : Client). x.state) (sym dv) ∙ rd) i c ij
            (sym (get_elem?-set_ne cs v (λ e. ij (sym e))) ∙ ec) rc
            (same ∙ ap (λ (x : Client). c_str x.nickname) dv))
    | no kj ↦
        old i k c d (sym (get_elem?-set_ne cs v (λ e. ij (sym e))) ∙ ec)
          (sym (get_elem?-set_ne cs v (λ e. kj (sym e))) ∙ ed) rc rd same
  ]
]
