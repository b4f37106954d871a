-- ===== src/MsgSession/Fine.antt =====
-- lab6/zad1, server.c and client.c together: how the messages that wait, the table and the answers go with where a
-- client stands.
use operating_systems_agh.Prelude.{
  ℕ, suc, ◌+◌, ◌<◌, ◌≡◌, ◌∙◌, ap, refl, Bool, true, false, some, List, [], ◌∷◌, ◌++◌, arith,
  if◌then◌else◌, length, get_elem?, pos, All, inl, inr, ◌⊎◌, is_pos,
}
use operating_systems_agh.MsgQueue.{
  Key, Message, Server, running, key_eq, to, innit, stop, succes, failure, max_clients, dispatch,
  assign_slot,
}
use operating_systems_agh.MsgQueue.Table.{holders, taken, IsCounted, taken-le-length, After-running}
use operating_systems_agh.MsgQueue.Answer.{IsAnswered, dispatch-IsAnswered, dispatch-KeepsTable}
use operating_systems_agh.MsgQueue.Foreign.{IsForeign, to-append, assign_slot-seat}
use operating_systems_agh.MsgClient.Calls.{IsTalk, IsStop}
use operating_systems_agh.MsgSession.{Peer, outside, asking, member, gone, is_gone}

-- The messages with the key `q`.
abbrev pub from : ℕ → List Message → List Message
from q [] = []
from q (m ∷ ms) = if key_eq m.key (some q) then m ∷ from q ms else from q ms

-- The queue `q` has one slot, the one with the number `i`.
abbrev pub HasSlot : ℕ → ℕ → List Key → Type 0
HasSlot q i t = (get_elem? t i ≡ some (some q)) × (holders q t ≡ 1)

-- The answer to an INNIT of the owner of `q`.
abbrev pub IsVerdict : ℕ → Message → List Key → Type 0
IsVerdict q r t =
    ((r.kind ≡ failure) × (holders q t ≡ 0))
    ⊎ ((r.kind ≡ succes) × (i : ℕ) × (r.client_id ≡ pos i) × HasSlot q i t)

-- The INNIT waits, or the first message for the client is the answer.
abbrev pub IsAsking : ℕ → List Message → List Key → List Message → Type 0
IsAsking q ms t l =
    ((m : Message) × (ms ≡ m ∷ []) × (m.kind ≡ innit) × (holders q t ≡ 0) × (l ≡ []))
    ⊎ ((ms ≡ []) × (r : Message) × (rest : List Message) × (l ≡ r ∷ rest) × IsVerdict q r t)

-- A client that has ended: only talk of it waits, or a STOP comes last and it has its slot.
abbrev pub IsOver : ℕ → List Message → List Key → Type 0
IsOver q ms t =
    All (IsTalk q) ms
    ⊎ ((l : List Message) × (m : Message) × (ms ≡ l ++ m ∷ [])
        × All (IsTalk q) l
        × IsStop q m
        × (holders q t ≡ 1))

-- `ms` are the messages of the owner of `q` that wait, `t` is the table and `l` is what has been sent to `q`.
abbrev pub IsFine : ℕ → Peer → List Message → List Key → List Message → Type 0
IsFine q outside ms t l = (ms ≡ []) × (holders q t ≡ 0) × (l ≡ [])
IsFine q (asking c) ms t l = (c.my_message.key ≡ some q) × (c.sent ≡ []) × IsAsking q ms t l
IsFine q (member c) ms t l =
    (c.my_message.key ≡ some q)
    × (c.sent ≡ [])
    × (i : ℕ) × (c.my_message.client_id ≡ pos i)
    × HasSlot q i t
    × All (IsTalk q) ms
IsFine q gone ms t l = IsOver q ms t

-- A request of another client leaves all that as it is.
module _ (q : ℕ) (s u : Server) (f : IsForeign q s u) where
  HasSlot-IsForeign : (i : ℕ) → HasSlot q i s.queues → HasSlot q i u.queues
  HasSlot-IsForeign i (a, b) = (f.slot i a, f.held ∙ b)

  IsVerdict-IsForeign : (r : Message) → IsVerdict q r s.queues → IsVerdict q r u.queues
  IsVerdict-IsForeign r (inl (k, h)) = inl (k, f.held ∙ h)
  IsVerdict-IsForeign r (inr (k, i, e, h)) = inr (k, i, e, HasSlot-IsForeign i h)

  nothing_sent : holders q s.queues ≡ 0 → to q s.sent ≡ [] → to q u.sent ≡ []
  nothing_sent h e = f.sent ∙ ap (λ l. l ++ f.more) e ∙ f.silent h

  pub IsFine-IsForeign :
      (p : Peer) (ms : List Message)
      → IsFine q p ms s.queues (to q s.sent)
      → IsFine q p ms u.queues (to q u.sent)
  IsFine-IsForeign outside ms (a, h, e) = (a, f.held ∙ h, nothing_sent h e)
  IsFine-IsForeign (asking c) ms (k, z, inl (m, a, b, h, e)) =
      (k, z, inl (m, a, b, f.held ∙ h, nothing_sent h e))
  IsFine-IsForeign (asking c) ms (k, z, inr (a, r, rest, e, v)) =
      (k, z, inr (a, r, rest ++ f.more, f.sent ∙ ap (λ l. l ++ f.more) e, IsVerdict-IsForeign r v))
  IsFine-IsForeign (member c) ms (k, z, i, e, h, t) = (k, z, i, e, HasSlot-IsForeign i h, t)
  IsFine-IsForeign gone ms (inl t) = inl t
  IsFine-IsForeign gone ms (inr (l, m, e, t, b, h)) = inr (l, m, e, t, b, f.held ∙ h)

-- A STOP that is next comes from the owner of one slot.
pub IsFine-stop :
    (q : ℕ) (p : Peer) (m : Message) (ms : List Message) (t : List Key) (l : List Message)
    → IsFine q p (m ∷ ms) t l
    → m.kind ≡ stop
    → holders q t ≡ 1
IsFine-stop q outside m ms t l (a, h, z) e = absurd (cc)
IsFine-stop q (asking c) m ms t l (k, z, inl (x, a, b, h, y)) e = absurd (ground arith)
IsFine-stop q (asking c) m ms t l (k, z, inr (a, r, rest, y, v)) e = absurd (cc)
IsFine-stop q (member c) m ms t l (k, z, i, d, h, talk) e = absurd (omega arith)
IsFine-stop q gone m ms t l (inl talk) e = absurd (omega arith)
IsFine-stop q gone m ms t l (inr ([], x, a, talk, b, h)) e = h
IsFine-stop q gone m ms t l (inr (y ∷ ys, x, a, talk, b, h)) e = h

-- An INNIT that is next comes from a client that waits for its answer.
pub IsFine-innit :
    (q : ℕ) (p : Peer) (m : Message) (ms : List Message) (t : List Key) (l : List Message)
    → IsFine q p (m ∷ ms) t l
    → m.kind ≡ innit
    → is_gone p ≡ false
IsFine-innit q outside m ms t l f e = refl
IsFine-innit q (asking c) m ms t l f e = refl
IsFine-innit q (member c) m ms t l f e = refl
IsFine-innit q gone m ms t l (inl talk) e = absurd (omega arith)
IsFine-innit q gone m ms t l (inr ([], x, a, talk, b, h)) e = absurd (ground arith)
IsFine-innit q gone m ms t l (inr (y ∷ ys, x, a, talk, b, h)) e =
    let here : m ≡ y = cc in absurd (ground arith)

-- What the handling of the next message does for its sender.
module _ (accepts : List (Key × Message) → Key → Message → Bool) (q : ℕ) (s t : Server)
    (key : s.message.key ≡ some q) (run : dispatch accepts s ≡ running t) (v : IsCounted s)
    (taken_by : s.message.kind ≡ innit
      → (m : Message) → accepts s.sent s.message.key m ≡ true) where
  talk-KeepsTable : IsTalk q s.message → t.queues ≡ s.queues
  talk-KeepsTable (k, lo, hi) =
      After-running (λ u. u.queues ≡ s.queues) _ t (dispatch-KeepsTable accepts s lo hi) run

  seated :
      (is_pos s.connected max_clients ≡ false)
      → (r : Message) → r.kind ≡ succes
      → t.queues ≡ (assign_slot 0 s.message.key s.queues).0
      → ((n : ℕ) → (assign_slot 0 s.message.key s.queues).1 ≡ some n → r.client_id ≡ pos n)
      → holders q s.queues ≡ 0
      → IsVerdict q r t.queues
  seated below r kind table id none_held =
      let room : taken s.queues < length s.queues =
        ground (arith, v.size, v.count, taken-le-length s.queues) in
      let (n, a, b, d) = assign_slot-seat 0 q s.queues room in
      let e : t.queues ≡ (assign_slot 0 (some q) s.queues).0 =
        table ∙ ap (λ k. (assign_slot 0 k s.queues).0) key in
      inr (
        kind,
        n,
        id n (
            ap (λ k. (assign_slot 0 k s.queues).1) key
            ∙ a
            ∙ ap (λ (x : ℕ). some x) {x = 0 + n} {y = n} (omega arith)),
        (ap (λ qs. get_elem? qs n) e ∙ b, ap (holders q) e ∙ d ∙ ap suc none_held),
      )

  verdict :
      s.message.kind ≡ innit
      → holders q s.queues ≡ 0
      → to q s.sent ≡ []
      → IsAsking q [] t.queues (to q t.sent)
  verdict kind h e =
      let a =
        After-running (IsAnswered s) _ t (dispatch-IsAnswered accepts s kind (taken_by kind)) run in
      let to_q : to q ((s.message.key, a.reply) ∷ []) ≡ a.reply ∷ [] = ground arith in
      inr (
        refl,
        a.reply,
        [],
        ap (to q) a.sent
            ∙ to-append q s.sent _
            ∙ ap (λ l. l ++ to q ((s.message.key, a.reply) ∷ [])) e
            ∙ to_q,
        judged a.reply a.verdict,
      )
    where
      judged :
          (r : Message)
          → ((r.kind ≡ failure) × (t.queues ≡ s.queues))
            ⊎ ((is_pos s.connected max_clients ≡ false)
                × (r.kind ≡ succes)
                × (t.queues ≡ (assign_slot 0 s.message.key s.queues).0)
                × ((n : ℕ)
                    → (assign_slot 0 s.message.key s.queues).1 ≡ some n
                    → r.client_id ≡ pos n))
          → IsVerdict q r t.queues
      judged r (inl (f, same)) = inl (f, ap (holders q) same ∙ h)
      judged r (inr (below, f, table, id)) = seated below r f table id h

  pub IsFine-own :
      (p : Peer) (ms : List Message)
      → IsFine q p (s.message ∷ ms) s.queues (to q s.sent)
      → IsFine q p ms t.queues (to q t.sent)
  IsFine-own outside ms (a, h, z) = absurd (cc)
  IsFine-own (asking c) ms (k, z, inl (x, a, kind, h, e)) =
      let here : s.message ≡ x = cc in
      let rest : ms ≡ [] = cc in (k, z, rw rest (verdict (ap (λ m. m.kind) here ∙ kind) h e))
  IsFine-own (asking c) ms (k, z, inr (a, r, rest, y, w)) = absurd (cc)
  IsFine-own (member c) ms (k, z, i, d, h, talk) =
      let same = talk-KeepsTable talk.0 in
      (k, z, i, d, (ap (λ qs. get_elem? qs i) same ∙ h.0, ap (holders q) same ∙ h.1), talk.1)
  IsFine-own gone ms (inl talk) = inl talk.1
  IsFine-own gone ms (inr ([], x, a, talk, b, h)) = let rest : ms ≡ [] = cc in inl (rw rest tt)
  IsFine-own gone ms (inr (y ∷ ys, x, a, talk, b, h)) =
      let here : s.message ≡ y = cc in
      inr (ys, x, cc, talk.1, b, ap (holders q) (talk-KeepsTable (rw here (talk.0))) ∙ h)
