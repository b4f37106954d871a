-- ===== src/MsgSession.antt =====
-- lab6/zad1, server.c and client.c together. The server's queue is first in, first out (`msgrcv` with type 0);
-- a client's queue is what the server has sent to its number. Which messages of the server a client has read by
-- a given round, once it is let in, is left open: they are an argument of the round. A client's SIGINT comes
-- before its INNIT, while it waits for the answer, or between two rounds of its loop. A client that ends removes
-- its queue, which takes no messages then. The clients are numbered, and `qid` gives their queues.
pub mod Fine
pub mod Seats
pub mod Moves
pub mod Handling
pub mod Runs
mod Tests
use operating_systems_agh.Prelude.{
  not, ◌&&◌, ◌||◌, ◌+◌, true, false, ℕ, suc, ◌≡◌, Bool, Option, none, some, List, [], ◌∷◌, ◌++◌,
  get_elem?, set, replicate, if◌then◌else◌,
}
use operating_systems_agh.MsgQueue.{
  Key, Message, Server, running, exited, fault, key_eq, received, on_event, to,
}
use operating_systems_agh.MsgQueue
use operating_systems_agh.MsgClient
use operating_systems_agh.MsgClient.{
  Client, Round, ask_in, let_in, on_round, handle_stop_signal, fresh,
}

-- Where a client stands: before its INNIT, waiting for the answer, in its loop, or ended.
pub data Peer : Type 0 where
  outside : Peer
  asking : Client → Peer
  member : Client → Peer
  gone : Peer

-- `inbox` is the server's queue, oldest message first.
pub record World : Type 0 where
  pub server : Server
  pub inbox : List Message
  pub peers : List Peer

abbrev pub is_gone : Peer → Bool
is_gone gone = true
is_gone _ = false

-- After a client's call: what it has sent stands in the server's queue.
abbrev pub settle : (Client → Peer) → ℕ → World → MsgClient.Outcome → Option World
settle state k w (MsgClient.running c) =
    some (record w {
      inbox = w.inbox ++ c.sent;
      peers = set w.peers k (state (record c { sent = [] }));
    })
settle state k w (MsgClient.exited n c) =
    some (record w { inbox = w.inbox ++ c.sent; peers = set w.peers k gone })
settle state k w MsgClient.fault = none

-- A client starts, reads the answer to its INNIT, goes through a round of its loop, is interrupted, or
-- the server handles the next message.
pub data Move : Type 0 where
  begin : ℕ → Bool → ℕ → List ℕ → Move
  hear : ℕ → Move
  act : ℕ → Round → Move
  interrupt : ℕ → Bool → Move
  handle : Move

module _ (accepts : List (Key × Message) → Key → Message → Bool) (qid : ℕ → ℕ) where
  pub begin_move : ℕ → Bool → ℕ → List ℕ → World → Peer → Option World
  begin_move k taken time line w outside =
      settle asking k w (ask_in taken time (fresh (qid k) line))
  begin_move k taken time line w (asking c) = none
  begin_move k taken time line w (member c) = none
  begin_move k taken time line w gone = none

  pub hear_move : ℕ → World → Peer → List Message → Option World
  hear_move k w (asking c) (m ∷ _) = settle member k w (let_in (some m) c)
  hear_move k w _ _ = none

  -- A call of a client in its loop.
  pub loop_move : ℕ → World → (Client → MsgClient.Outcome) → Peer → Option World
  loop_move k w call (member c) = settle member k w (call c)
  loop_move k w call _ = none

  -- SIGINT: before its INNIT the client's message is blank but for what the handler writes.
  pub interrupt_move : ℕ → Bool → World → Peer → Option World
  interrupt_move k taken w outside = settle member k w (handle_stop_signal taken (fresh (qid k) []))
  interrupt_move k taken w (asking c) = settle member k w (handle_stop_signal taken c)
  interrupt_move k taken w (member c) = settle member k w (handle_stop_signal taken c)
  interrupt_move k taken w gone = none

  -- The queue of a client that has ended is removed; `b` is the number of the first client of the list.
  pub is_removed : ℕ → List Peer → Key → Bool
  is_removed b [] q = false
  is_removed b (p ∷ ps) q = (is_gone p && key_eq q (some (qid b))) || is_removed (b + 1) ps q

  -- What `msgsnd` answers: a queue that is removed takes nothing.
  abbrev pub takes : World → List (Key × Message) → Key → Message → Bool
  takes w l q m = not (is_removed 0 w.peers q) && accepts l q m

  pub handle_move : World → List Message → Option World
  handle_move w [] = none
  handle_move w (m ∷ ms) = elim (on_event (takes w) (received m) w.server) [
    | running s ↦ some (record w { server = s; inbox = ms })
    | exited n s ↦ none
    | fault ↦ none
  ]

  abbrev peer : ℕ → World → (Peer → Option World) → Option World
  peer k w f = elim (get_elem? w.peers k) [ none ↦ none | some p ↦ f p ]

  pub step : Move → World → Option World
  unfolding begin_move hear_move loop_move interrupt_move handle_move
  step (begin k taken time line) w = peer k w (begin_move k taken time line w)
  step (hear k) w = peer k w (λ p. hear_move k w p (to (qid k) w.server.sent))
  step (act k r) w = peer k w (loop_move k w (on_round r))
  step (interrupt k taken) w = peer k w (interrupt_move k taken w)
  step handle w = handle_move w w.inbox

  -- A client that is interrupted has been let in.
  abbrev pub IsOrderly : Move → World → Type 0
  IsOrderly (interrupt k taken) w = (c : Client) × (get_elem? w.peers k ≡ some (member c))
  IsOrderly _ w = Unit

  -- The states that `n` clients and the server reach with no client interrupted before it is let in; where the server
  -- has ended or gone outside its table, there are no further ones.
  pub data Orderly (n : ℕ) : World → Type 0 where
    started :
        Orderly n (record { server = MsgQueue.start; inbox = []; peers = replicate n outside })
    next : {v w : World} (t : Move) → Orderly n v → IsOrderly t v → step t v ≡ some w → Orderly n w
