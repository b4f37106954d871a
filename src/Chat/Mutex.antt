-- ===== src/Chat/Mutex.antt =====
-- The mutex of the chat server: which handlers release it, and the return that does not.
use operating_systems_agh.Prelude.{
  suc, ◌≢◌, ◌∙◌, ◌<◌, length, ap, get_elem?-some, ℕ, ◌+◌, ◌≡◌, refl, true, false, Option, none,
  some, List, [], ◌∷◌, ◌++◌, arith, All, Bool-cases, Option-cases, inl, inr, get_elem?,
}
use operating_systems_agh.Chat.{
  Outcome, done, blocked, fault, Server, Client, is_empty, is_init, Message, MessageType, ping_,
  disconnect, stop, tall, list, tone, Garbage, Input, Event, connection, hangup, readable,
  ping_round, delete_client, reject_nick, register, on_request, on_client_message, find_empty,
  new_client, ping, on_event, write, close, bare, server_full,
}

-- The call does not wait for ever, and if it comes back the mutex is free.
abbrev pub IsReleased : {A : Type 0} → Outcome A → Type 0
IsReleased (done a s) = s.locked ≡ false
IsReleased (blocked s) = ⊥
IsReleased fault = Unit

-- The branch of a client that is not in the state `init`, on every type of message.
on_request-IsReleased :
    (g : Garbage) (j : ℕ) (c : Client) (m : Message) (k : MessageType) (s : Server)
    → s.locked ≡ false
    → IsReleased (on_request g j c m k s)
unfolding on_request delete_client
on_request-IsReleased g j c m ping_ s h = ground arith
on_request-IsReleased g j c m disconnect s h = ground arith
on_request-IsReleased g j c m stop s h = ground arith
on_request-IsReleased g j c m tall s h = ground arith
on_request-IsReleased g j c m list s h = ground arith
on_request-IsReleased g j c m tone s h = ground arith
on_request-IsReleased g j c m _ s h = h

register-IsReleased :
    (j : ℕ) (c : Client) (nick : Option (List ℕ)) (s : Server)
    → s.locked ≡ false
    → IsReleased (register j c nick s)
unfolding register reject_nick delete_client
register-IsReleased j c none s h = ground arith
register-IsReleased j c (some nick) s h = ground arith

on_client_message-IsReleased :
    (g : Garbage) (j : ℕ) (r : Input) (s : Server)
    → s.locked ≡ false
    → IsReleased (on_client_message g j r s)
unfolding on_client_message
on_client_message-IsReleased g j r s h = elim (Option-cases (get_elem? s.clients j)) [
  | inl e ↦ rw (e, IsReleased) tt
  | inr (c, e) ↦ elim (Bool-cases (is_init c.state)) [
    | inl i ↦ rw (e, i, IsReleased) (register-IsReleased j c r.nick s h)
    | inr i ↦ rw (e, i, IsReleased) (on_request-IsReleased g j c r.message r.message.kind s h)
  ]
]

abbrev pub IsFull : List Client → Type 0
IsFull cs = All (λ c. is_empty c.state ≡ false) cs

find_empty-full : (i : ℕ) (cs : List Client) → IsFull cs → find_empty i cs ≡ none
unfolding find_empty
find_empty-full i [] h = refl
find_empty-full i (c ∷ cs) h = ground (arith, find_empty-full (i + 1) cs h.1)

IsFull-of_find_empty : (i : ℕ) (cs : List Client) → find_empty i cs ≡ none → IsFull cs
unfolding find_empty
IsFull-of_find_empty i [] h = tt
IsFull-of_find_empty i (c ∷ cs) h = elim (Bool-cases (is_empty c.state)) [
  | inl e ↦ absurd (none≢some i (rw e at h))
  | inr e ↦ (e, IsFull-of_find_empty (i + 1) cs (rw e at h))
]
  where
    none≢some : (i : ℕ) → some i ≡ none → ⊥
    none≢some i h = cc

find_empty-slot :
    (i : ℕ) (cs : List Client) {k : ℕ}
    → find_empty i cs ≡ some k
    → (n : ℕ) × (c : Client) × (k ≡ i + n) × (get_elem? cs n ≡ some c)
unfolding find_empty
find_empty-slot i [] h = absurd (cc)
find_empty-slot i (c ∷ cs) {k} h = elim (Bool-cases (is_empty c.state)) [
  | inl e ↦ let here : i ≡ k = some_inj (rw e at h) in (0, c, omega arith, refl)
  | inr e ↦
      let (n, d, eq, at) = find_empty-slot (i + 1) cs (rw e at h) in (suc n, d, omega arith, at)
]
  where
    some_inj : {a b : ℕ} → some a ≡ some b → a ≡ b
    some_inj e = cc

-- Events other than a message, and a hang-up of a slot that there is.
abbrev pub IsInside : Event → Server → Type 0
IsInside (connection fd) s = Unit
IsInside (hangup j) s = j < length s.clients
IsInside (readable j r) s = ⊥
IsInside ping_round s = Unit

-- Unless it is a new connection that finds every slot taken, an event of the loop or a round of pings that starts with
-- the mutex free does not wait for ever; if its handler comes back, and has not gone outside an array, the mutex is
-- free. A new connection, a hang-up of a slot in the table and a round of pings do not go outside an array.
pub on_event-IsReleased :
    (g : Garbage) (e : Event) (s : Server)
    → s.locked ≡ false
    → ((fd : ℕ) → e ≡ connection fd → ¬ IsFull s.clients)
    → IsReleased (on_event g e s) × (IsInside e s → on_event g e s ≢ fault)
unfolding on_event new_client ping delete_client
on_event-IsReleased g (connection fd) s h room = elim (Option-cases (find_empty 0 s.clients)) [
  | inl full ↦ absurd (room fd refl (IsFull-of_find_empty 0 s.clients full))
  | inr (i, e) ↦
      let (n, c, eq, at) = find_empty-slot 0 s.clients e in
      let there : get_elem? s.clients i ≡ some c =
        ap (get_elem? s.clients) {x = i} {y = n} (omega arith) ∙ at in
      (ground arith, λ inside. ground arith)
]
on_event-IsReleased g (hangup j) s h room =
    (ground arith, λ inside. let (c, e) = get_elem?-some s.clients j inside in ground arith)
on_event-IsReleased g (readable j r) s h room =
    (on_client_message-IsReleased g j r s h, λ inside. absurd inside)
on_event-IsReleased g ping_round s h room = (ground arith, λ inside. ground arith)

-- With every slot taken and the mutex free, a new connection is answered server_full and closed,
-- and the mutex stays locked: from then on the next connection, the next round of pings and the
-- next hang-up wait for ever.
pub full_server_deadlocks :
    (g : Garbage) (fd : ℕ) (s : Server)
    → s.locked ≡ false
    → IsFull s.clients
    → (t : Server) × (on_event g (connection fd) s ≡ done tt t)
      × (t.clients ≡ s.clients)
      × (t.trace ≡ s.trace ++ (write fd (bare server_full) ∷ close fd ∷ []))
      × ((fd' : ℕ) → on_event g (connection fd') t ≡ blocked t)
      × ((j : ℕ) → on_event g (hangup j) t ≡ blocked t)
      × (on_event g ping_round t ≡ blocked t)
unfolding on_event new_client ping delete_client
full_server_deadlocks g fd s free full = (
  record s { locked = true; trace = s.trace ++ (write fd (bare server_full) ∷ close fd ∷ []) },
  ground (arith, find_empty-full 0 s.clients full),
  refl,
  refl,
  λ fd'. refl,
  λ j. refl,
  refl,
)
