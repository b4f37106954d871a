-- ===== src/Chat/Ping.antt =====
-- lab10/zad1/server.c: the rounds of the thread `ping`, who is kept and who is dropped.
use operating_systems_agh.Prelude.{
  ℕ, zero, suc, ◌≡◌, ◌∙◌, ◌++◌, refl, true, false, some, List, [], ◌∷◌, arith, All, get_elem?, set,
  lt_of_get_elem?, get_elem?-set_self, length, ap,
}
use operating_systems_agh.Chat.{
  ◌>>◌, >>-eq-done, done, Server, Client, ready, is_empty, ping_, Garbage, Input, erased, ping_slot,
  ping_slots, ping, on_request, on_client_message,
}

-- A slot that was not asked twice without an answer stays, and nothing but `responding` changes.
get_elem?-ping_slots :
    (cs : List Client) (j : ℕ) {c : Client}
    → get_elem? cs j ≡ some c
    → get_elem? (ping_slots cs).0 j ≡ some (ping_slot c).0
unfolding ping_slots
get_elem?-ping_slots [] j e = absurd (cc)
get_elem?-ping_slots (c ∷ cs) zero e = ground arith
get_elem?-ping_slots (c ∷ cs) (suc j) e = get_elem?-ping_slots cs j e

ping_slot_twice : (c : Client) → is_empty (ping_slot (ping_slot c).0).0.state ≡ true
unfolding ping_slot erased
ping_slot_twice c = ground arith

ping_slots_twice :
    (cs : List Client) → All (λ c. is_empty c.state ≡ true) (ping_slots (ping_slots cs).0).0
unfolding ping_slots
ping_slots_twice [] = tt
ping_slots_twice (c ∷ cs) = (ping_slot_twice c, ping_slots_twice cs)

length-ping_slots : (cs : List Client) → length (ping_slots cs).0 ≡ length cs
unfolding ping_slots
length-ping_slots [] = refl
length-ping_slots (c ∷ cs) = ap suc (length-ping_slots cs)

-- Two rounds of pings with nothing read in between, started with the mutex free, empty every slot
-- of the table, lose no slot and leave the mutex free.
pub two_pings_evict :
    (s : Server)
    → s.locked ≡ false
    → (t : Server) × ((ping >> ping) s ≡ done tt t)
      × All (λ c. is_empty c.state ≡ true) t.clients
      × (length t.clients ≡ length s.clients)
      × (t.locked ≡ false)
unfolding ping
two_pings_evict s free = (
  record s {
    clients = (ping_slots (ping_slots s.clients).0).0;
    locked = false;
    trace = (s.trace ++ (ping_slots s.clients).1) ++ (ping_slots (ping_slots s.clients).0).1;
  },
  rw free,
  ping_slots_twice s.clients,
  length-ping_slots (ping_slots s.clients).0 ∙ length-ping_slots s.clients,
  refl,
)

ping_slot-ready :
    (c : Client)
    → c.state ≡ ready
    → c.responding ≡ true
    → (ping_slot c).0 ≡ record c { responding = false }
unfolding ping_slot
ping_slot-ready c e a = ground arith

-- The state after one round of pings.
abbrev pinged : Server → Server
pinged s = record s {
  clients = (ping_slots s.clients).0;
  locked = false;
  trace = s.trace ++ (ping_slots s.clients).1;
}

ping_lem : (s : Server) → s.locked ≡ false → ping s ≡ done tt (pinged s)
unfolding ping
ping_lem s free = ground arith

abbrev with_slot : Server → ℕ → Client → Server
with_slot s j c = record s { clients = set s.clients j c; locked = false }

pong_lem :
    (g : Garbage) (j : ℕ) (r : Input) (s : Server) {c : Client}
    → s.locked ≡ false
    → get_elem? s.clients j ≡ some c
    → c.state ≡ ready
    → r.message.kind ≡ ping_
    → on_client_message g j r s ≡ done tt (with_slot s j (record c { responding = true }))
unfolding on_client_message on_request
pong_lem g j r s {c} free at state pong = ground arith

-- A registered client that answers a round of pings before the next one is kept: after both rounds
-- its slot holds the same descriptor, state and nickname, and it has been asked again.
pub answered_ping_keeps :
    (g : Garbage) (j : ℕ) (r : Input) (s : Server) {c : Client}
    → s.locked ≡ false
    → get_elem? s.clients j ≡ some c
    → c.state ≡ ready
    → c.responding ≡ true
    → r.message.kind ≡ ping_
    → (t : Server) × ((do ping; on_client_message g j r; ping) s ≡ done tt t)
      × (get_elem? t.clients j ≡ some (record c { responding = false }))
      × (t.locked ≡ false)
answered_ping_keeps g j r s {c} free at state asked pong = (
  pinged answered,
  >>-eq-done ping _ s (ping_lem s free)
      ∙ >>-eq-done (on_client_message g j r) ping (pinged s)
          (pong_lem g j r (pinged s) refl after_ping state pong)
      ∙ ping_lem answered refl,
  get_elem?-ping_slots answered.clients j kept ∙ ap some (ping_slot-ready c1 state refl),
  refl,
)
  where
    after_ping : get_elem? (ping_slots s.clients).0 j ≡ some (record c { responding = false })
    after_ping = get_elem?-ping_slots s.clients j at ∙ ap some (ping_slot-ready c state asked)

    c1 : Client
    c1 = record c { responding = true }

    answered : Server
    answered = with_slot (pinged s) j c1

    kept : get_elem? answered.clients j ≡ some c1
    kept = get_elem?-set_self (ping_slots s.clients).0 j c1 (lt_of_get_elem? _ j after_ping)
