-- ===== src/Salon/Runs.antt =====
-- Every run of lab7/zad1/v2/main.c is fair until the set of semaphores is removed.
use operating_systems_agh.Prelude.{
  le_count, ℕ, ◌+◌, ◌≤◌, ◌≡◌, refl, ◌∙◌, ◌⊎◌, Bool, true, false, some, List, [], ◌∷◌, ◌++◌, arith,
  length, get_elem?, set, count, count-set, All, All-set, All-get_elem?, length-set, length-append,
  lt_of_get_elem?, Option-cases, inl, inr,
}
use operating_systems_agh.Salon.{
  Shared, Client, at_barbers, cutting, writing, walked_out, client_moves, Salon, Turn, client,
  arrival, interruption, arrives, handle_exit, step, start, Reachable, begin, next, free_sem,
}
use operating_systems_agh.Salon.Invariants.{
  with_barber, on_chair, astray, IsKnown, IsFair, client_moves_lem,
}

-- A turn of a client is a call of his.
pub step-client :
    (w : Salon) (n : ℕ) {v : Salon}
    → step (client n) w ≡ some v
    → (c : Client) × (p : Shared × Client) × (get_elem? w.clients n ≡ some c)
      × (client_moves (n + 1) w.shared c ≡ some p)
      × (v ≡ record w { shared = p.0; clients = set w.clients n p.1 })
unfolding step
step-client w n e = elim (Option-cases (get_elem? w.clients n)) [
  | inl f ↦ absurd (cc)
  | inr (c, f) ↦ elim (Option-cases (client_moves (n + 1) w.shared c)) [
    | inl g ↦ absurd (cc)
    | inr (p, g) ↦ (c, p, f, g, cc)
  ]
]

count-append {ℓ} :
    {A : Type ℓ} (w : A → ℕ) (xs : List A) (y : A) → count w (xs ++ y ∷ []) ≡ count w xs + w y
count-append w [] y = omega arith
count-append w (x ∷ xs) y = omega (arith, count-append w xs y)

-- More clients know no fewer numbers.
IsKnown-mono : (m n : ℕ) (c : Client) → m ≤ n → IsKnown m c → IsKnown n c
IsKnown-mono m n (writing held k) h i = omega arith
IsKnown-mono m n (walked_out k) h i = omega arith
IsKnown-mono m n _ h i = tt

All-arrives :
    (m n : ℕ) (xs : List Client)
    → m ≤ n
    → All (IsKnown m) xs
    → All (IsKnown n) (xs ++ at_barbers ∷ [])
All-arrives m n [] h a = (tt, tt)
All-arrives m n (x ∷ xs) h a = (IsKnown-mono m n x h a.0, All-arrives m n xs h a.1)

abbrev pub IsFairOrRemoved : ℕ → ℕ → ℕ → Salon → Type 0
IsFairOrRemoved b c r w = (w.shared.removed ≡ true) ⊎ ((w.shared.removed ≡ false) × IsFair b c r w)

client-IsFair :
    (b c r n : ℕ) (w : Salon) (x : Client) (p : Shared × Client)
    → get_elem? w.clients n ≡ some x
    → client_moves (n + 1) w.shared x ≡ some p
    → w.shared.removed ≡ false
    → IsFair b c r w
    → (p.0.removed ≡ false)
      × IsFair b c r (record w { shared = p.0; clients = set w.clients n p.1 })
client-IsFair b c r n w x p f g o (i, j, k, l, m, a) =
    let k1 = count-set with_barber w.clients n p.1 f in
    let k2 = count-set on_chair w.clients n p.1 f in
    let k3 = count-set astray w.clients n p.1 f in
    let s = length-set w.clients n p.1 in
    let z : astray x ≡ 0 = omega (arith, le_count astray w.clients n f) in
    let known = All-get_elem? (IsKnown (length w.clients)) w.clients n a f in
    let h =
      client_moves_lem (n + 1) (length w.clients) w.shared x g o z
        (omega (arith, lt_of_get_elem? w.clients n f)) m known in
    (
      h.3,
      (
        omega (arith, h.0),
        omega (arith, h.1),
        omega (arith, h.2),
        omega (arith, h.4),
        omega (arith, h.5),
        rw (s) (All-set (IsKnown (length w.clients)) w.clients n p.1 a h.6),
      ),
    )

removed_stays :
    (id : ℕ) (s : Shared) (x : Client) {p : Shared × Client}
    → client_moves id s x ≡ some p
    → p.0.removed ≡ s.removed
unfolding client_moves
removed_stays id s (cutting held) e = ground arith
removed_stays id s _ e = ground arith

step-IsFair :
    (b c r : ℕ) (t : Turn) (w : Salon) {v : Salon}
    → step t w ≡ some v
    → IsFairOrRemoved b c r w
    → IsFairOrRemoved b c r v
unfolding step
step-IsFair b c r (client n) w e (inl o) =
    let (x, p, f, g, q) = step-client w n e in inl (rw (q) (removed_stays (n + 1) w.shared x g ∙ o))
step-IsFair b c r (client n) w e (inr (o, h)) =
    let (x, p, f, g, q) = step-client w n e in inr (rw (q) (client-IsFair b c r n w x p f g o h))
step-IsFair b c r arrival w {v} e h = arrived w.is_open e h
  where
    arrived : (o : Bool) → arrives o w ≡ some v → IsFairOrRemoved b c r w → IsFairOrRemoved b c r v
    arrived false e h = absurd (cc)
    arrived true e (inl o) =
        let q : record w { clients = w.clients ++ at_barbers ∷ [] } ≡ v = cc in inl (rw (← q) o)
    arrived true e (inr (o, (i, j, k, l, m, a))) =
        let q : record w { clients = w.clients ++ at_barbers ∷ [] } ≡ v = cc in
        let s = length-append w.clients (at_barbers ∷ []) in
        rw (← q) (
          inr (
            o,
            (
              omega (arith, count-append with_barber w.clients at_barbers),
              omega (arith, count-append on_chair w.clients at_barbers),
              k,
              omega (arith, count-append astray w.clients at_barbers),
              omega arith,
              All-arrives (length w.clients) _ w.clients (omega arith) a,
            ),
          ))
step-IsFair b c r interruption w {v} e h = left w.is_open e
  where
    left : (o : Bool) → handle_exit o w ≡ some v → IsFairOrRemoved b c r v
    left false e = absurd (cc)
    left true e =
        let q : record w { shared = record w.shared { removed = true }; is_open = false } ≡ v =
          cc in
        rw (← q) (inl refl)

-- As long as the set of semaphores is not removed, in every reachable state each barber and each chair is
-- free or has one client, nobody is in the waiting room or has seen a call fail, and `*last_served` is at
-- most the number of the last client.
pub Reachable-IsFair : (b c r : ℕ) {w : Salon} → Reachable b c r w → IsFairOrRemoved b c r w
unfolding start free_sem
Reachable-IsFair b c r begin = inr (refl, (omega arith, omega arith, refl, refl, omega arith, tt))
Reachable-IsFair b c r (next {w} t h e) = step-IsFair b c r t w e (Reachable-IsFair b c r h)
