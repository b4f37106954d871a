-- ===== src/MsgQueue/Foreign.antt =====
-- lab6/zad1/server.c: what the handling of one request does to the queue of a client, the sender's and the others'.
use operating_systems_agh.Prelude.{
  Bool-cases, append_assoc, is_pos, ℕ, zero, suc, ◌+◌, ◌<◌, ◌≡◌, ◌≢◌, ◌∙◌, ap, sym, refl, Bool,
  none, some, List, [], ◌∷◌, ◌++◌, arith, length, get_elem?, append-nil, inl, inr,
}
use operating_systems_agh.MsgQueue.{send_all, Key, Message, Server, assign_slot, clear_slots, to}
use operating_systems_agh.MsgQueue.Table.{holders, taken}

pub to-append : (q : ℕ) (xs ys : List (Key × Message)) → to q (xs ++ ys) ≡ to q xs ++ to q ys
to-append q [] ys = refl
to-append q ((k, m) ∷ xs) ys = ground (arith, to-append q xs ys)

-- From `s` to `t` the queue `q` keeps its slots, and messages are sent to it only if it has one.
pub record IsForeign (q : ℕ) (s t : Server) : Type 0 where
  pub held : holders q t.queues ≡ holders q s.queues
  pub slot : (i : ℕ) → get_elem? s.queues i ≡ some (some q) → get_elem? t.queues i ≡ some (some q)
  pub more : List Message
  pub sent : to q t.sent ≡ to q s.sent ++ more
  pub silent : holders q s.queues ≡ 0 → more ≡ []

pub holders-assign_slot :
    (i q k : ℕ) (qs : List Key) → q ≢ k → holders q (assign_slot i (some k) qs).0 ≡ holders q qs
unfolding assign_slot
holders-assign_slot i q k [] h = refl
holders-assign_slot i q k (none ∷ qs) h = ground arith
holders-assign_slot i q k (some p ∷ qs) h = ground (arith, holders-assign_slot (i + 1) q k qs h)

pub assign_slot-keeps :
    (i q k n : ℕ) (qs : List Key)
    → get_elem? qs n ≡ some (some q)
    → get_elem? (assign_slot i (some k) qs).0 n ≡ some (some q)
unfolding assign_slot
assign_slot-keeps i q k n [] e = absurd (cc)
assign_slot-keeps i q k zero (none ∷ qs) e = absurd (cc)
assign_slot-keeps i q k (suc n) (none ∷ qs) e = e
assign_slot-keeps i q k zero (some p ∷ qs) e = e
assign_slot-keeps i q k (suc n) (some p ∷ qs) e = assign_slot-keeps (i + 1) q k n qs e

-- In a table with a free slot, the key gets one slot more, the one whose number comes back.
pub assign_slot-seat :
    (i k : ℕ) (qs : List Key)
    → taken qs < length qs
    → (n : ℕ) × ((assign_slot i (some k) qs).1 ≡ some (i + n))
      × (get_elem? (assign_slot i (some k) qs).0 n ≡ some (some k))
      × (holders k (assign_slot i (some k) qs).0 ≡ suc (holders k qs))
unfolding assign_slot
assign_slot-seat i k [] h = absurd (omega arith)
assign_slot-seat i k (none ∷ qs) h = (0, ground arith, refl, ground arith)
assign_slot-seat i k (some p ∷ qs) h =
    let (n, a, b, d) = assign_slot-seat (i + 1) k qs (omega arith) in
    (suc n, ground arith, b, omega (arith, d))

pub holders-clear_slots :
    (q k : ℕ) (qs : List Key) → q ≢ k → holders q (clear_slots (some k) qs) ≡ holders q qs
unfolding clear_slots
holders-clear_slots q k [] h = refl
holders-clear_slots q k (none ∷ qs) h = holders-clear_slots q k qs h
holders-clear_slots q k (some p ∷ qs) h = ground (arith, holders-clear_slots q k qs h)

pub clear_slots-keeps :
    (q k n : ℕ) (qs : List Key)
    → q ≢ k
    → get_elem? qs n ≡ some (some q)
    → get_elem? (clear_slots (some k) qs) n ≡ some (some q)
unfolding clear_slots
clear_slots-keeps q k n [] h e = absurd (cc)
clear_slots-keeps q k zero (none ∷ qs) h e = absurd (cc)
clear_slots-keeps q k (suc n) (p ∷ qs) h e = clear_slots-keeps q k n qs h e
clear_slots-keeps q k zero (some p ∷ qs) h e = ground arith

pub holders-ne :
    (q n : ℕ) (qs : List Key) {p : ℕ} → get_elem? qs n ≡ some (some p) → holders q qs ≡ 0 → p ≢ q
holders-ne q n [] e h = absurd (cc)
holders-ne q zero (none ∷ qs) e h = absurd (cc)
holders-ne q (suc n) (none ∷ qs) e h = holders-ne q n qs e h
holders-ne q zero (some x ∷ qs) e h = ground arith
holders-ne q (suc n) (some x ∷ qs) e h = holders-ne q n qs e (omega arith)

-- The loop of _2ALL sends nothing to a queue without a slot, wherever it stops.
pub send_all-to :
    (accepts : List (Key × Message) → Key → Message → Bool) (q i : ℕ) (qs : List Key) (m : Message)
    (s : Server)
    → (l : List (Key × Message)) × ((send_all accepts i qs m s).1.sent ≡ s.sent ++ l)
      × (holders q qs ≡ 0 → to q l ≡ [])
unfolding send_all
send_all-to accepts q i [] m s = ([], sym (append-nil s.sent), λ h. refl)
send_all-to accepts q i (none ∷ qs) m s = send_all-to accepts q (i + 1) qs m s
send_all-to accepts q i (some p ∷ qs) m s = elim (Bool-cases (is_pos m.client_id i)) [
  | inl e ↦
      let (l, a, b) = send_all-to accepts q (i + 1) qs m s in
      (l, rw (e, send_all) a, λ h. b (omega arith))
  | inr e ↦ elim (Bool-cases (accepts s.sent (some p) m)) [
    | inl f ↦
        let (l, a, b) =
          send_all-to accepts q (i + 1) qs m (record s { sent = s.sent ++ (some p, m) ∷ [] }) in
        (
          (some p, m) ∷ l,
          rw (e, f, send_all, f) (a ∙ append_assoc s.sent ((some p, m) ∷ []) l),
          λ h. ground (arith, b (omega arith)),
        )
    | inr f ↦ ([], rw (e, f, send_all) (sym (append-nil s.sent)), λ h. refl)
  ]
]

-- A handler that leaves the table, and sends nothing to a queue without a slot.
pub sending-IsForeign :
    (q : ℕ) (s t : Server) (l : List (Key × Message))
    → t.queues ≡ s.queues
    → t.sent ≡ s.sent ++ l
    → (holders q s.queues ≡ 0 → to q l ≡ [])
    → IsForeign q s t
sending-IsForeign q s t l e f h = record {
  held = ap (holders q) e;
  slot = λ i g. ap (λ qs. get_elem? qs i) e ∙ g;
  more = to q l;
  sent = ap (to q) f ∙ to-append q s.sent l;
  silent = h;
}
