-- ===== src/MsgSession/Moves.antt =====
-- lab6/zad1, server.c and client.c together: a client reads the answer to its INNIT.
use operating_systems_agh.Prelude.{
  ℕ, ◌≡◌, ◌∙◌, refl, Bool, some, List, [], ◌∷◌, get_elem?, inl, inr,
}
use operating_systems_agh.MsgQueue.{Key, Message, to}
use operating_systems_agh.MsgClient.{Client, let_in}
use operating_systems_agh.MsgClient.Calls.{let_in-succes, let_in-failure}
use operating_systems_agh.MsgSession.{Peer, outside, asking, member, gone, World, settle, hear_move}
use operating_systems_agh.MsgSession.Seats.{IsSeated, settle_step}
use operating_systems_agh.MsgSession.Fine.{IsVerdict, from, IsFine}

module _ (accepts : List (Key × Message) → Key → Message → Bool) (qid : ℕ → ℕ)
    (distinct : (a b : ℕ) → qid a ≡ qid b → a ≡ b) where
  module _ (w : World) (k : ℕ) (v : IsSeated qid w) where
    -- What the answer makes of the client.
    abbrev IsLetIn : Client → Message → Client → Type 0
    IsLetIn c r d =
        (d.my_message.key ≡ c.my_message.key)
        × (d.my_message.client_id ≡ r.client_id)
        × (d.sent ≡ c.sent)

    heard :
        (c : Client) (m : Message) (w' : World)
        → get_elem? w.peers k ≡ some (asking c)
        → c.my_message.key ≡ some (qid k)
        → c.sent ≡ []
        → from (qid k) w.inbox ≡ []
        → IsVerdict (qid k) m w.server.queues
        → settle member k w (let_in (some m) c) ≡ some w'
        → IsSeated qid w'
    heard c m w' at key blank a (inl (kind, h)) e =
        settle_step accepts qid distinct w k v member (asking c) (λ d. ⊥) (λ ms. ms ≡ [])
          (let_in (some m) c) w' at (rw (let_in-failure m c kind) blank) (λ d h. absurd h)
          (λ ms g. (rw g tt, inl (rw (a, g) tt))) e
    heard c m w' at key blank a (inr (kind, i, id, slot)) e =
        settle_step accepts qid distinct w k v member (asking c) (IsLetIn c m) (λ ms. ⊥)
          (let_in (some m) c) w' at (rw (let_in-succes m c kind) (refl, refl, refl))
          (λ d (same, number, sent).
            let none_sent : d.sent ≡ [] = sent ∙ blank in
            (rw none_sent tt, (same ∙ key, refl, i, number ∙ id, slot, rw (a, none_sent) tt)))
          (λ ms h. absurd h) e

    asked :
        (c : Client) (l : List Message) (w' : World)
        → get_elem? w.peers k ≡ some (asking c)
        → to (qid k) w.server.sent ≡ l
        → hear_move accepts qid k w (asking c) l ≡ some w'
        → IsSeated qid w'
    unfolding hear_move
    asked c [] w' at g e = absurd (cc)
    asked c (m ∷ l) w' at g e = first (v.fine k (asking c) at)
      where
        first :
            IsFine
              (qid k)
              (asking c)
              (from (qid k) w.inbox)
              w.server.queues
              (to (qid k) w.server.sent)
            → IsSeated qid w'
        first (key, blank, inl (x, a, kind, h, z)) = absurd (cc)
        first (key, blank, inr (a, r, rest, z, verdict)) =
            let same : m ≡ r = cc in heard c m w' at key blank a (rw same verdict) e

    pub hear-IsSeated :
        (p : Peer) (w' : World)
        → get_elem? w.peers k ≡ some p
        → hear_move accepts qid k w p (to (qid k) w.server.sent) ≡ some w'
        → IsSeated qid w'
    unfolding hear_move
    hear-IsSeated outside w' at e = absurd (cc)
    hear-IsSeated (asking c) w' at e = asked c (to (qid k) w.server.sent) w' at refl e
    hear-IsSeated (member c) w' at e = absurd (cc)
    hear-IsSeated gone w' at e = absurd (cc)
