-- ===== src/Chat/Tests.antt =====
-- The chat server on concrete tables and events.
use Prim.Native.String.{String}
use operating_systems_agh.Prelude.{
  ◌≢◌, Has, ℕ, zero, suc, ◌≡◌, refl, true, false, none, some, List, [], ◌∷◌, ◌++◌, arith, All, ◌⊎◌,
  length, get_elem?, set, replicate, codes, c_str, is_terminated, overwrite, str_eq, bytes_eq, map,
  take,
}
use operating_systems_agh.Chat.{
  username_taken, epoll_del, ◌>>◌, done, blocked, fault, Server, Client, init, ready, is_empty,
  MessageType, tone, tall, Garbage, Input, connection, hangup, readable, ping_round, Effect, write,
  close, bare, server_full, sent, get, no_client, start, rejected_name, is_taken, register,
  chat_line, on_client_message, on_event, serve, ping, new_client, find_empty,
}
use operating_systems_agh.Chat.Mutex.{
  IsInside, IsReleased, on_event-IsReleased, full_server_deadlocks,
}
use operating_systems_agh.Chat.Ping.{two_pings_evict}
use operating_systems_agh.Chat.Distinct.{AreDistinct, AreDistinct-set}
use operating_systems_agh.Chat.Names.{IsHeld, rejected_slot, register-AreDistinct, retry_duplicates}
use operating_systems_agh.Chat.Delivery.{Receiver, tone_reaches_named}

abbrev zeroed : Garbage
zeroed = record { spill = []; junk = [] }

abbrev named : String → List ℕ
named s = overwrite (replicate 16 0) (codes s)

abbrev client : ℕ → String → Client
client fd s = record { fd = fd; state = ready; nickname = named s; responding = true }

-- "ann" and "bob" are registered.
abbrev two_clients : Server
two_clients = record start { clients = client 5 "ann" ∷ client 6 "bob" ∷ replicate 14 no_client }

abbrev full : Server
full = record start { clients = replicate 16 (client 5 "ann") }

abbrev says : MessageType → String → String → Input
says k to text = record {
  nick = some (codes text);
  message = record {
    kind = k;
    text = overwrite (replicate 256 0) (codes text);
    other_nickname = overwrite (replicate 256 0) (codes to);
  };
}

on_event-IsReleased_example :
    IsReleased (on_event zeroed (connection 7) two_clients)
    × (IsInside (connection 7) two_clients → on_event zeroed (connection 7) two_clients ≢ fault)
on_event-IsReleased_example =
    on_event-IsReleased zeroed (connection 7) two_clients refl (λ fd e h. absurd (cc (h.1.1.0)))

full_server_deadlocks_example :
    (t : Server) × (on_event zeroed (connection 7) full ≡ done tt t)
    × (t.clients ≡ full.clients)
    × (t.trace ≡ full.trace ++ (write 7 (bare server_full) ∷ close 7 ∷ []))
    × ((fd' : ℕ) → on_event zeroed (connection fd') t ≡ blocked t)
    × ((j : ℕ) → on_event zeroed (hangup j) t ≡ blocked t)
    × (on_event zeroed ping_round t ≡ blocked t)
full_server_deadlocks_example = full_server_deadlocks zeroed 7 full refl (ground arith)

two_pings_evict_example :
    (t : Server) × ((ping >> ping) two_clients ≡ done tt t)
    × All (λ c. is_empty c.state ≡ true) t.clients
    × (length t.clients ≡ length two_clients.clients)
    × (t.locked ≡ false)
two_pings_evict_example = two_pings_evict two_clients refl

abbrev joining : Client
joining = record no_client { fd = 9; state = init; responding = true }

-- A second client joins the first.
abbrev joined : Server
joined = record start { clients = client 5 "ann" ∷ joining ∷ replicate 14 no_client }

get_elem?-replicate : (n i : ℕ) (a c : Client) → get_elem? (replicate n a) i ≡ some c → c ≡ a
get_elem?-replicate zero i a c e = absurd (cc)
get_elem?-replicate (suc n) zero a c e = cc
get_elem?-replicate (suc n) (suc i) a c e = get_elem?-replicate n i a c e

joined-AreDistinct : AreDistinct joined.clients
joined-AreDistinct =
    AreDistinct-set (client 5 "ann" ∷ replicate 15 no_client) 1 joining
      (AreDistinct-set (replicate 16 no_client) 0 (client 5 "ann")
        (λ i k c d ec ed rc. absurd (empty_table i c ec rc))
        (λ _ k d _ ed rd. absurd (empty_table k d ed rd)))
      (λ e. cc)
  where
    empty_table :
        (i : ℕ) (c : Client) → get_elem? (replicate 16 no_client) i ≡ some c → c.state ≡ ready → ⊥
    empty_table i c e r = ground (arith, get_elem?-replicate 16 i no_client c e)

register-AreDistinct_example :
    (t : Server) × (register 1 joining (some (codes "ann")) joined ≡ done tt t)
    × (t.locked ≡ false)
    × AreDistinct t.clients
    × ((k : ℕ) → k ≢ 1 → get_elem? t.clients k ≡ get_elem? joined.clients k)
    × ((¬ IsHeld 1 (codes "ann") joined.clients
          × (get_elem? t.clients 1
              ≡ some (record joining { nickname = named "ann"; state = ready }))
          × (t.trace ≡ []))
        ⊎ (IsHeld 1 (codes "ann") joined.clients
            × (get_elem? t.clients 1 ≡ some (rejected_slot joining (codes "ann")))
            × (t.trace ≡ write 9 (bare username_taken) ∷ epoll_del 9 ∷ close 9 ∷ [])))
unfolding c_str
register-AreDistinct_example =
    register-AreDistinct 1 joining (codes "ann") joined refl (ground arith) refl refl
      joined-AreDistinct

-- The slot of a client that was turned away, with a new client in it.
abbrev returning : Client
returning = record joining { nickname = set (overwrite (named "bob") rejected_name) 0 0 }

abbrev retrying : Server
retrying = record start {
  clients = client 5 "ann" ∷ client 6 "bob" ∷ returning ∷ replicate 13 no_client;
}

retry_duplicates_example :
    (t : Server) × (register 2 returning (some (codes "bob")) retrying ≡ done tt t)
    × ¬ AreDistinct t.clients
unfolding c_str is_taken str_eq bytes_eq
retry_duplicates_example =
    retry_duplicates 2 1 returning (client 6 "bob") (named "bob") (codes "bob") retrying refl refl
      refl refl (omega arith) refl refl (omega arith) refl

-- The whole sequence: "bob" joins, a second "bob" is turned away, and at its second attempt it joins.
bob_twice :
    (elim (serve zeroed
      (connection 5
        ∷ readable 0 (says tone "" "bob")
        ∷ connection 6
        ∷ readable 1 (says tone "" "bob")
        ∷ connection 7
        ∷ readable 1 (says tone "" "bob")
        ∷ [])
      start) [
        | done _ t ↦ map (λ c. c_str c.nickname) (take 3 t.clients)
        | blocked _ ↦ []
        | fault ↦ []
      ])
    ≡ codes "bob" ∷ codes "bob" ∷ [] ∷ []
unfolding serve on_event new_client find_empty on_client_message register is_taken c_str str_eq
    bytes_eq
bob_twice = refl

tone_reaches_named_example :
    (w : List Effect) × (on_client_message zeroed 0 (says tone "bob" "hi") two_clients
      ≡ done tt (record two_clients { trace = w }))
    × ((i : ℕ) (d : Client)
        → get_elem? two_clients.clients i ≡ some d
        → is_empty d.state ≡ false
        → str_eq d.nickname (says tone "bob" "hi").message.other_nickname ≡ true
        → Has (write d.fd (sent [] get (overwrite (replicate 256 0) (codes "ann: hi")))) w)
    × ((e : Effect)
        → Has e w
        → Receiver
            (says tone "bob" "hi").message.other_nickname
            zeroed
            (overwrite (replicate 256 0) (codes "ann: hi"))
            two_clients.clients
            e)
unfolding chat_line is_terminated c_str
tone_reaches_named_example =
    tone_reaches_named zeroed 0 (says tone "bob" "hi") two_clients
      {out = overwrite (replicate 256 0) (codes "ann: hi")} refl refl refl refl

abbrev shout : Input
shout = record {
  nick = none;
  message = record { kind = tall; text = replicate 255 b'a' ++ 0 ∷ []; other_nickname = [] };
}
