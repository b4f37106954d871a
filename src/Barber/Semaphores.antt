-- ===== src/Barber/Semaphores.antt =====
-- Every reachable state of lab7/zad1/v1 is balanced, and no run of it can get stuck.
use operating_systems_agh.Prelude.{
  count-set, ℕ, ◌≡◌, refl, some, List, arith, get_elem?, set, Option-cases, inl, inr,
}
use operating_systems_agh.Barber.{
  Shared, Client, Barber, Shop, Turn, Reachable, begin, turn, client, barber, step, start,
  client_moves, barber_moves, create_semaphores,
}
use operating_systems_agh.Barber.Invariants.{
  in_lock, arriving, waiting, serving, cutting, IsBalanced, client_moves-balance,
  barber_moves-balance,
}

-- A turn of a client is a call of his.
pub step-client :
    (w : Shop) (n h : ℕ) {w' : Shop}
    → step w (client n h) ≡ some w'
    → (c : Client) × (p : Shared × Client) × (get_elem? w.clients n ≡ some c)
      × (client_moves h w.shared c ≡ some p)
      × (w' ≡ record w { shared = p.0; clients = set w.clients n p.1 })
unfolding step
step-client w n h e = elim (Option-cases (get_elem? w.clients n)) [
  | inl f ↦ absurd (cc)
  | inr (c, f) ↦ elim (Option-cases (client_moves h w.shared c)) [
    | inl g ↦ absurd (cc)
    | inr (p, g) ↦ (c, p, f, g, cc)
  ]
]

pub step-barber :
    (w : Shop) (n : ℕ) {w' : Shop}
    → step w (barber n) ≡ some w'
    → (b : Barber) × (p : Shared × Barber) × (get_elem? w.barbers n ≡ some b)
      × (barber_moves w.shared b ≡ some p)
      × (w' ≡ record w { shared = p.0; barbers = set w.barbers n p.1 })
unfolding step
step-barber w n e = elim (Option-cases (get_elem? w.barbers n)) [
  | inl f ↦ absurd (cc)
  | inr (b, f) ↦ elim (Option-cases (barber_moves w.shared b)) [
    | inl g ↦ absurd (cc)
    | inr (p, g) ↦ (b, p, f, g, cc)
  ]
]

step-IsBalanced :
    (w : Shop) (t : Turn) {w' : Shop} → IsBalanced w → step w t ≡ some w' → IsBalanced w'
step-IsBalanced w (client n h) b e =
    let (c, p, f, g, eq) = step-client w n h e in
    let (x, y, z) = client_moves-balance h w.shared c g in
    let k = count-set in_lock w.clients n p.1 f in
    let l = count-set arriving w.clients n p.1 f in
    let m = count-set waiting w.clients n p.1 f in rw (eq) (omega arith, omega arith, omega arith)
step-IsBalanced w (barber n) b e =
    let (c, p, f, g, eq) = step-barber w n e in
    let (x, y, z) = barber_moves-balance w.shared c g in
    let l = count-set serving w.barbers n p.1 f in
    let m = count-set cutting w.barbers n p.1 f in rw (eq) (omega arith, omega arith, omega arith)

-- In every reachable state one client at most is inside the lock, the places of the queue that are
-- free or held add up to CHAIR_TOTAL, and the clients who wait are those called, served or let go.
pub Reachable-IsBalanced : (memory : List ℕ) {w : Shop} → Reachable memory w → IsBalanced w
unfolding start create_semaphores
Reachable-IsBalanced memory begin = (refl, refl, refl)
Reachable-IsBalanced memory (turn {w} t r e) = step-IsBalanced w t (Reachable-IsBalanced memory r) e
