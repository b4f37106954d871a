-- ===== src/Salon/Progress.antt =====
-- The clients of lab7/zad1/v2/main.c do not block each other for ever.
use operating_systems_agh.Prelude.{
  count_zero, le_count, ℕ, ◌+◌, ◌<◌, ◌≡◌, refl, false, none, some, arith, get_elem?, Option-cases,
  inl, inr,
}
use operating_systems_agh.Salon.{
  Shared, acquire_sem, Client, at_barbers, at_chairs, cutting, freeing, writing, leaving, gone,
  client_moves, Salon, client, step, Reachable,
}
use operating_systems_agh.Salon.Invariants.{with_barber, on_chair, astray}
use operating_systems_agh.Salon.Runs.{Reachable-IsFair}

client_stuck :
    (w : Salon) (n : ℕ) (c : Client)
    → step (client n) w ≡ none
    → get_elem? w.clients n ≡ some c
    → client_moves (n + 1) w.shared c ≡ none
unfolding step
client_stuck w n c h e = elim (Option-cases (client_moves (n + 1) w.shared c)) [
  | inl f ↦ f
  | inr (p, f) ↦ absurd (cc)
]

-- Nobody stands still on a chair.
no_chair : (id : ℕ) (s : Shared) (c : Client) → client_moves id s c ≡ none → on_chair c ≡ 0
unfolding client_moves
no_chair id s (cutting held) e = absurd (cc)
no_chair id s (writing held m) e = absurd (cc)
no_chair id s (freeing held) e = absurd (cc)
no_chair id s _ e = refl

-- With a chair free nobody stands still with a barber.
no_barber :
    (id : ℕ) (s : Shared) (c : Client)
    → s.removed ≡ false
    → 0 < s.chairs
    → client_moves id s c ≡ none
    → with_barber c ≡ 0
unfolding client_moves acquire_sem
no_barber id s at_chairs r h e = absurd (ground arith)
no_barber id s (cutting held) r h e = absurd (cc)
no_barber id s (writing held m) r h e = absurd (cc)
no_barber id s (freeing held) r h e = absurd (cc)
no_barber id s leaving r h e = absurd (cc)
no_barber id s _ r h e = refl

-- With a barber and a chair free only who has gone stands still.
only_gone :
    (id : ℕ) (s : Shared) (c : Client)
    → s.removed ≡ false
    → 0 < s.chairs
    → 0 < s.barbers
    → astray c ≡ 0
    → client_moves id s c ≡ none
    → c ≡ gone
unfolding client_moves acquire_sem
only_gone id s gone r h b a e = refl
only_gone id s at_barbers r h b a e = absurd (ground arith)
only_gone id s at_chairs r h b a e = absurd (ground arith)
only_gone id s (cutting held) r h b a e = absurd (cc)
only_gone id s (writing held m) r h b a e = absurd (cc)
only_gone id s (freeing held) r h b a e = absurd (cc)
only_gone id s leaving r h b a e = absurd (cc)
only_gone id s _ r h b a e = absurd (omega arith)

-- If the set has not been removed and no client can go on, every client has gone.
pub stuck_are_gone :
    (b c r : ℕ) {w : Salon}
    → Reachable b c r w
    → w.shared.removed ≡ false
    → ((n : ℕ) → step (client n) w ≡ none)
    → (n : ℕ) (x : Client) → get_elem? w.clients n ≡ some x
    → x ≡ gone
stuck_are_gone b c r {w} h o stuck n x e = elim (Reachable-IsFair b c r h) [
  | inl f ↦ absurd (cc)
  | inr (f, (i, j, k, l, m, a)) ↦
      let still = λ (n : ℕ) (x : Client) (e : get_elem? w.clients n ≡ some x).
        client_stuck w n x (stuck n) e in
      let chairs =
        count_zero on_chair w.clients (λ n x e. no_chair (n + 1) w.shared x (still n x e)) in
      let free : 0 < w.shared.chairs = omega arith in
      let barbers =
        count_zero with_barber w.clients
          (λ n x e. no_barber (n + 1) w.shared x o free (still n x e)) in
      let z : astray x ≡ 0 = omega (arith, le_count astray w.clients n e) in
      only_gone (n + 1) w.shared x o free (omega arith) z (still n x e)
]
