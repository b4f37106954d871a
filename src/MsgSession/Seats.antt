-- ===== src/MsgSession/Seats.antt =====
-- lab6/zad1, server.c and client.c together: each client in its loop has the slot whose number it was given.
use operating_systems_agh.Prelude.{
  ℕ, ◌<◌, ◌≡◌, ◌≢◌, ◌∙◌, ap, sym, refl, Bool, true, false, some, List, [], ◌∷◌, ◌++◌, arith, length,
  get_elem?, set, pos, All, inl, inr, ◌⊎◌, ◌==◌, ==_iff, append-nil, append_assoc, ℤ, Bool-cases,
  get_elem?-set_self, get_elem?-set_ne, lt_of_get_elem?, length-set, All-imp,
}
use operating_systems_agh.MsgQueue.{Key, Message, to}
use operating_systems_agh.MsgQueue.Table.{holders, IsCounted}
use operating_systems_agh.MsgClient
use operating_systems_agh.MsgClient.{Client, ask_in, let_in, on_round, handle_stop_signal, fresh}
use operating_systems_agh.MsgClient.Calls.{IsTalk, IsTalking, IsFarewell, Yields, ask_in-Yields}
use operating_systems_agh.MsgSession.{
  Peer, outside, asking, member, gone, World, settle, begin_move, loop_move,
}
use operating_systems_agh.MsgSession.Fine.{from, IsFine, IsOver}

-- A message with the key `q`.
abbrev pub IsOf : ℕ → Message → Type 0
IsOf q m = m.key ≡ some q

from-append : (q : ℕ) (xs ys : List Message) → from q (xs ++ ys) ≡ from q xs ++ from q ys
from-append q [] ys = refl
from-append q (m ∷ xs) ys = ground (arith, from-append q xs ys)

from_own : (q : ℕ) (ms : List Message) → All (IsOf q) ms → from q ms ≡ ms
from_own q [] h = refl
from_own q (m ∷ ms) h = ground (arith, from_own q ms h.1)

from_other : (p q : ℕ) (ms : List Message) → p ≢ q → All (IsOf q) ms → from p ms ≡ []
from_other p q [] ne h = refl
from_other p q (m ∷ ms) ne h = ground (arith, from_other p q ms ne h.1)

All-join {ℓ κ} :
    {A : Type ℓ} (P : A → Type κ) (xs ys : List A) → All P xs → All P ys → All P (xs ++ ys)
All-join P [] ys h g = g
All-join P (x ∷ xs) ys h g = (h.0, All-join P xs ys h.1 g)

talk-IsOf : (q : ℕ) (ms : List Message) → All (IsTalk q) ms → All (IsOf q) ms
talk-IsOf q [] h = tt
talk-IsOf q (m ∷ ms) h = (h.0.0, talk-IsOf q ms h.1)

farewell-IsOf : (q : ℕ) (ms : List Message) → IsFarewell q ms → All (IsOf q) ms
farewell-IsOf q ms (inl talk) = talk-IsOf q ms talk
farewell-IsOf q ms (inr (l, m, e, talk, stops)) =
    rw e (All-join (IsOf q) l (m ∷ []) (talk-IsOf q l talk) (stops.0, tt))

module _ (qid : ℕ → ℕ) where
  -- The table agrees with its counter, and with the clients and the messages that wait.
  pub record IsSeated (w : World) : Type 0 where
    pub counted : IsCounted w.server
    pub known : All (λ m. (k : ℕ) × (k < length w.peers) × (m.key ≡ some (qid k))) w.inbox
    pub fine :
        (k : ℕ) (p : Peer)
        → get_elem? w.peers k ≡ some p
        → IsFine (qid k) p (from (qid k) w.inbox) w.server.queues (to (qid k) w.server.sent)

pub some_inj : {v w : World} → some v ≡ some w → v ≡ w
some_inj e = cc

module _ (accepts : List (Key × Message) → Key → Message → Bool) (qid : ℕ → ℕ)
    (distinct : (a b : ℕ) → qid a ≡ qid b → a ≡ b) where
  -- A client's call, with what it has sent and where the client stands then.
  settle-IsSeated :
      (w : World) (k : ℕ) (p p' : Peer) (ms : List Message)
      → get_elem? w.peers k ≡ some p
      → IsSeated qid w
      → All (IsOf (qid k)) ms
      → IsFine (qid k) p' (from (qid k) w.inbox ++ ms) w.server.queues (to (qid k) w.server.sent)
      → IsSeated qid (record w { inbox = w.inbox ++ ms; peers = set w.peers k p' })
  settle-IsSeated w k p p' ms at v own f =
      let below = lt_of_get_elem? w.peers k at in
      let same = length-set w.peers k p' in
      record {
        counted = v.counted;
        known =
            All-join _ w.inbox ms
              (All-imp w.inbox (λ m h. (h.0, omega (arith, h.1, same), h.2)) v.known)
              (All-imp ms (λ m e. (k, omega (arith, below, same), e)) own);
        fine = λ j x e. at_index j x e (Bool-cases (k == j));
      }
    where
      self :
          (x : Peer)
          → get_elem? (set w.peers k p') k ≡ some x
          → IsFine
              (qid k)
              x
              (from (qid k) (w.inbox ++ ms))
              w.server.queues
              (to (qid k) w.server.sent)
      self x e =
          let there : x ≡ p' =
            cc (get_elem?-set_self w.peers k p' (lt_of_get_elem? w.peers k at)) in
          rw (there, from-append (qid k) w.inbox ms, from_own (qid k) ms own) f

      other :
          (j : ℕ) (x : Peer)
          → get_elem? (set w.peers k p') j ≡ some x
          → k ≢ j
          → IsFine
              (qid j)
              x
              (from (qid j) (w.inbox ++ ms))
              w.server.queues
              (to (qid j) w.server.sent)
      other j x e ne =
          let none_new : from (qid j) ms ≡ [] =
            from_other (qid j) (qid k) ms (λ g. ne (sym (distinct j k g))) own in
          rw (from-append (qid j) w.inbox ms, none_new, append-nil (from (qid j) w.inbox))
            (v.fine j x (sym (get_elem?-set_ne w.peers p' ne) ∙ e))

      at_index :
          (j : ℕ) (x : Peer)
          → get_elem? (set w.peers k p') j ≡ some x
          → ((k == j) ≡ true) ⊎ ((k == j) ≡ false)
          → IsFine
              (qid j)
              x
              (from (qid j) (w.inbox ++ ms))
              w.server.queues
              (to (qid j) w.server.sent)
      at_index j x e (inl h) =
          rw (sym ((==_iff k j).0 h)) (self x (rw (sym ((==_iff k j).0 h)) at e))
      at_index j x e (inr h) = other j x e (λ g. absurd (ground arith))

  module _ (w : World) (k : ℕ) (v : IsSeated qid w) where
    abbrev waiting : List Message
    waiting = from (qid k) w.inbox

    abbrev IsFineNow : Peer → List Message → Type 0
    IsFineNow p ms = IsFine (qid k) p (waiting ++ ms) w.server.queues (to (qid k) w.server.sent)

    pub settle_step :
        (state : Client → Peer) (p : Peer) (P : Client → Type 0) (R : List Message → Type 0)
        (o : MsgClient.Outcome) (w' : World)
        → get_elem? w.peers k ≡ some p
        → Yields P R o
        → ((c : Client)
            → P c
            → All (IsOf (qid k)) c.sent × IsFineNow (state (record c { sent = [] })) c.sent)
        → ((ms : List Message) → R ms → All (IsOf (qid k)) ms × IsFineNow gone ms)
        → settle state k w o ≡ some w'
        → IsSeated qid w'
    settle_step state p P R (MsgClient.running c) w' at y on on_end e =
        let (own, f) = on c y in
        rw (← some_inj e) (settle-IsSeated w k p (state (record c { sent = [] })) c.sent at v own f)
    settle_step state p P R (MsgClient.exited n c) w' at y on on_end e =
        let (own, f) = on_end c.sent y in
        rw (← some_inj e) (settle-IsSeated w k p gone c.sent at v own f)
    settle_step state p P R MsgClient.fault w' at y on on_end e = absurd (cc)

    pub begin-IsSeated :
        (taken : Bool) (time : ℕ) (line : List ℕ) (p : Peer) (w' : World)
        → get_elem? w.peers k ≡ some p
        → begin_move accepts qid k taken time line w p ≡ some w'
        → IsSeated qid w'
    unfolding begin_move
    begin-IsSeated taken time line outside w' at e =
        let (a, h, l) = v.fine k outside at in
        settle_step asking outside _ (λ ms. ms ≡ []) _ w' at (ask_in-Yields taken time (qid k) line)
          (λ c (key, m, one, kind, own).
            (rw one (own, tt), (key, refl, inl (m, ap (λ z. z ++ c.sent) a ∙ one, kind, h, l))))
          (λ ms none_sent. (rw none_sent tt, inl (rw (a, none_sent) tt))) e
    begin-IsSeated taken time line (asking c) w' at e = absurd (cc)
    begin-IsSeated taken time line (member c) w' at e = absurd (cc)
    begin-IsSeated taken time line gone w' at e = absurd (cc)

    farewell-IsOver :
        (ms : List Message)
        → All (IsTalk (qid k)) waiting
        → holders (qid k) w.server.queues ≡ 1
        → IsFarewell (qid k) ms
        → IsOver (qid k) (waiting ++ ms) w.server.queues
    farewell-IsOver ms talk h (inl t) = inl (All-join _ waiting ms talk t)
    farewell-IsOver ms talk h (inr (l, m, e, t, s)) = inr (
      waiting ++ l,
      m,
      ap (λ z. waiting ++ z) e ∙ sym (append_assoc waiting l (m ∷ [])),
      All-join _ waiting l talk t,
      s,
      h,
    )

    pub loop-IsSeated :
        (call : Client → MsgClient.Outcome) (p : Peer) (w' : World)
        → ((id : ℤ) (c : Client)
            → IsTalking id (qid k) c
            → Yields (IsTalking id (qid k)) (IsFarewell (qid k)) (call c))
        → get_elem? w.peers k ≡ some p
        → loop_move accepts qid k w call p ≡ some w'
        → IsSeated qid w'
    unfolding loop_move
    loop-IsSeated call outside w' y at e = absurd (cc)
    loop-IsSeated call (asking c) w' y at e = absurd (cc)
    loop-IsSeated call (member c) w' y at e =
        let (key, blank, i, id, slot, talk) = v.fine k (member c) at in
        settle_step member (member c) _ _ (call c) w' at (y (pos i) c (key, id, rw blank tt))
          (λ c (key, id, t). (
            talk-IsOf (qid k) c.sent t,
            (key, refl, i, id, slot, All-join _ waiting c.sent talk t),
          ))
          (λ ms f. (farewell-IsOf (qid k) ms f, farewell-IsOver ms talk slot.1 f)) e
    loop-IsSeated call gone w' y at e = absurd (cc)
