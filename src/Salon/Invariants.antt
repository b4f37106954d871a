-- ===== src/Salon/Invariants.antt =====
-- What the three semaphores of lab7/zad1/v2/main.c count, and that the waiting room stays empty.
use operating_systems_agh.Prelude.{
  ℕ, ◌+◌, ◌-◌, ◌≤◌, ◌≡◌, Bool, true, false, some, arith, length, count, All,
}
use operating_systems_agh.Salon.{
  Shared, Client, at_barbers, at_chairs, cutting, freeing, writing, at_room, spinning, leaving_room,
  walking_out, leaving, gone, walked_out, turned, turned_spinning, turned_leaving, turned_chairs,
  client_moves, Salon,
}

abbrev pub bit : Bool → ℕ
bit true = 1
bit false = 0

-- A client with a barber.
abbrev pub with_barber : Client → ℕ
with_barber at_chairs = 1
with_barber (cutting held) = bit held
with_barber (writing held m) = bit held
with_barber (freeing held) = bit held
with_barber leaving = 1
with_barber _ = 0

-- A client on a chair.
abbrev pub on_chair : Client → ℕ
on_chair (cutting held) = 1
on_chair (writing held m) = 1
on_chair (freeing held) = 1
on_chair _ = 0

-- A client in a branch after a call that failed.
abbrev pub astray : Client → ℕ
astray at_barbers = 0
astray at_chairs = 0
astray (cutting held) = 1 - bit held
astray (writing held m) = 1 - bit held
astray (freeing held) = 1 - bit held
astray leaving = 0
astray gone = 0
astray _ = 1

-- A number that a client is about to write is that of a client who has come.
abbrev pub IsKnown : ℕ → Client → Type 0
IsKnown n (writing held m) = m ≤ n
IsKnown n (walked_out m) = m ≤ n
IsKnown n _ = Unit

-- Until the set is removed: every barber and every chair is free or has one client, nobody is in the waiting
-- room or has seen a call fail, and `*last_served` is a number that has been given out.
abbrev pub IsFair : ℕ → ℕ → ℕ → Salon → Type 0
IsFair b c r w =
    (w.shared.barbers + count with_barber w.clients ≡ b + 1)
    × (w.shared.chairs + count on_chair w.clients ≡ c + 1)
    × (w.shared.waiting_room ≡ r + 1)
    × (count astray w.clients ≡ 0)
    × (w.shared.last_served ≤ length w.clients)
    × All (IsKnown (length w.clients)) w.clients

-- One turn of a client who has seen no call fail; `n` is the number of clients.
pub client_moves_lem :
    (id n : ℕ) (s : Shared) (x : Client) {p : Shared × Client}
    → client_moves id s x ≡ some p
    → s.removed ≡ false
    → astray x ≡ 0
    → id ≤ n
    → s.last_served ≤ n
    → IsKnown n x
    → (p.0.barbers + with_barber p.1 ≡ s.barbers + with_barber x)
      × (p.0.chairs + on_chair p.1 ≡ s.chairs + on_chair x)
      × (p.0.waiting_room ≡ s.waiting_room)
      × (p.0.removed ≡ false)
      × (astray p.1 ≡ 0)
      × (p.0.last_served ≤ n)
      × IsKnown n p.1
unfolding client_moves
client_moves_lem id n s at_barbers e r a i l k = ground arith
client_moves_lem id n s at_chairs e r a i l k = ground arith
client_moves_lem id n s (cutting held) e r a i l k = ground arith
client_moves_lem id n s (writing held m) e r a i l k = ground arith
client_moves_lem id n s (freeing held) e r a i l k = ground arith
client_moves_lem id n s leaving e r a i l k = ground arith
client_moves_lem id n s gone e r a i l k = absurd (cc)
client_moves_lem id n s at_room e r a i l k = absurd (omega arith)
client_moves_lem id n s spinning e r a i l k = absurd (omega arith)
client_moves_lem id n s leaving_room e r a i l k = absurd (omega arith)
client_moves_lem id n s walking_out e r a i l k = absurd (omega arith)
client_moves_lem id n s (walked_out m) e r a i l k = absurd (omega arith)
client_moves_lem id n s turned e r a i l k = absurd (omega arith)
client_moves_lem id n s turned_spinning e r a i l k = absurd (omega arith)
client_moves_lem id n s turned_leaving e r a i l k = absurd (omega arith)
client_moves_lem id n s turned_chairs e r a i l k = absurd (omega arith)
