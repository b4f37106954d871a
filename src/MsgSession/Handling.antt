-- ===== src/MsgSession/Handling.antt =====
-- lab6/zad1, server.c and client.c together: the server handles the next message.
use operating_systems_agh.Prelude.{
  ℕ, zero, suc, ◌+◌, false, ◌<◌, ◌≡◌, ◌≢◌, ◌∙◌, ap, sym, refl, Bool, true, none, some, List, [],
  ◌∷◌, arith, length, get_elem?, All, inl, inr, ◌==◌, ==_iff, Bool-cases, get_elem?-some,
}
use operating_systems_agh.MsgQueue.{
  Key, Message, innit, Server, running, exited, fault, key_eq, to, innit, stop, succes, failure,
  dispatch, received, on_event,
}
use operating_systems_agh.MsgQueue
use operating_systems_agh.MsgQueue.Table.{IsCounted, After-running, dispatch-IsCounted}
use operating_systems_agh.MsgQueue.Answer.{on_event-dispatch}
use operating_systems_agh.MsgQueue.Foreign.{IsForeign}
use operating_systems_agh.MsgQueue.Requests.{dispatch-IsForeign}
use operating_systems_agh.MsgSession.{is_gone, is_removed, takes, Peer, World, handle_move}
use operating_systems_agh.MsgSession.Seats.{IsSeated, some_inj}
use operating_systems_agh.MsgSession.Fine.{
  IsFine-innit, from, IsFine, IsFine-IsForeign, IsFine-stop, IsFine-own,
}

module _ (accepts : List (Key × Message) → Key → Message → Bool)
    (always : (l : List (Key × Message)) (q : Key) (m : Message) → accepts l q m ≡ true)
    (qid : ℕ → ℕ) (distinct : (a b : ℕ) → qid a ≡ qid b → a ≡ b) where
  later_kept :
      (b j : ℕ) (ps : List Peer) → j < b → is_removed accepts qid b ps (some (qid j)) ≡ false
  unfolding is_removed
  later_kept b j [] h = refl
  later_kept b j (x ∷ ps) h =
      let apart : qid j ≢ qid b = λ g. absurd (omega (arith, distinct j b g)) in
      ground (arith, later_kept (b + 1) j ps (omega arith))

  -- The queue of a client that has not ended is there.
  not_removed :
      (b k : ℕ) (ps : List Peer) {p : Peer}
      → get_elem? ps k ≡ some p
      → is_gone p ≡ false
      → is_removed accepts qid b ps (some (qid (b + k))) ≡ false
  unfolding is_removed
  not_removed b k [] e g = absurd (cc)
  not_removed b zero (x ∷ ps) {p} e g =
      let here : x ≡ p = cc in
      let rest = later_kept (b + 1) (b + 0) ps (omega arith) in ground arith
  not_removed b (suc k) (x ∷ ps) e g =
      let apart : qid (b + suc k) ≢ qid b = λ f. absurd (omega (arith, distinct (b + suc k) b f)) in
      let rest : is_removed accepts qid (b + 1) ps (some (qid (b + suc k))) ≡ false =
        ap (λ n. is_removed accepts qid (b + 1) ps (some (qid n))) {x = b + suc k} {y = (b + 1) + k}
          (omega arith)
        ∙ not_removed (b + 1) k ps e g in
      ground arith

  -- The next message, its sender, and the state of the server after it.
  module _ (w : World) (v : IsSeated qid w) (m : Message) (ms : List Message)
      (next_is : w.inbox ≡ m ∷ ms) (t : Server) where
    abbrev before : Server
    before = record w.server { message = m }

    abbrev kernel : List (Key × Message) → Key → Message → Bool
    kernel = takes accepts qid w

    module _ (run : dispatch kernel before ≡ running t) (k : ℕ) (p : Peer)
        (at : get_elem? w.peers k ≡ some p) (key : m.key ≡ some (qid k)) where
      before-IsCounted : IsCounted before
      before-IsCounted = record { size = v.counted.size; count = v.counted.count }

      own : IsFine (qid k) p (m ∷ from (qid k) ms) before.queues (to (qid k) before.sent)
      own =
          let e : from (qid k) w.inbox ≡ m ∷ from (qid k) ms =
            ap (from (qid k)) next_is ∙ ground arith in
          rw (← e) (v.fine k p at)

      answer_taken : m.kind ≡ innit → (r : Message) → kernel before.sent before.message.key r ≡ true
      answer_taken kind r =
          let open_queue = not_removed 0 k w.peers at (IsFine-innit (qid k) p m _ _ _ own kind) in
          ground (arith, always before.sent (some (qid k)) r)

      after-IsCounted : IsCounted t
      after-IsCounted =
          After-running IsCounted _ t
            (dispatch-IsCounted kernel before (λ _. (qid k, key))
              (λ e. (qid k, key, IsFine-stop (qid k) p m _ _ _ own e)) before-IsCounted)
            run

      sender-IsFine : IsFine (qid k) p (from (qid k) ms) t.queues (to (qid k) t.sent)
      sender-IsFine =
          IsFine-own kernel (qid k) before t key run before-IsCounted answer_taken p _ own

      other-IsFine :
          (j : ℕ) (x : Peer)
          → get_elem? w.peers j ≡ some x
          → j ≢ k
          → IsFine (qid j) x (from (qid j) ms) t.queues (to (qid j) t.sent)
      other-IsFine j x at' ne =
          let apart : qid j ≢ qid k = λ g. ne (distinct j k g) in
          let e : from (qid j) w.inbox ≡ from (qid j) ms =
            ap (from (qid j)) next_is ∙ ground arith in
          IsFine-IsForeign (qid j) before t
            (After-running (IsForeign (qid j) before) _ t
              (dispatch-IsForeign kernel (qid j) (qid k) apart before key answer_taken) run)
            x _ (rw (← e) (v.fine j x at'))

      peer-IsFine :
          (j : ℕ) (x : Peer)
          → get_elem? w.peers j ≡ some x
          → IsFine (qid j) x (from (qid j) ms) t.queues (to (qid j) t.sent)
      peer-IsFine j x at' = elim (Bool-cases (j == k)) [
        | inl e ↦
            let here : j ≡ k = (==_iff j k).0 e in
            let same : x ≡ p = cc in rw (here, same) sender-IsFine
        | inr e ↦ other-IsFine j x at' (λ g. absurd (ground arith))
      ]

      after-IsSeated : IsSeated qid (record w { server = t; inbox = ms })
      after-IsSeated = record {
        counted = after-IsCounted;
        known = (rw next_is at v.known).1;
        fine = peer-IsFine;
      }

  handled :
      (w w' : World) (ms : List Message)
      → w.inbox ≡ ms
      → IsSeated qid w
      → handle_move accepts qid w ms ≡ some w'
      → IsSeated qid w'
  unfolding handle_move
  handled w w' [] first v e = absurd (cc)
  handled w w' (m ∷ ms) first v e =
      ran (on_event (takes accepts qid w) (received m) w.server)
        (on_event-dispatch (takes accepts qid w) m w.server) e
    where
      known : All (λ m. (k : ℕ) × (k < length w.peers) × (m.key ≡ some (qid k))) (m ∷ ms)
      known = rw first at v.known

      ran :
          (o : MsgQueue.Outcome)
          → o ≡ dispatch (takes accepts qid w) (record w.server { message = m })
          → elim o [
            | running s ↦ some (record w { server = s; inbox = ms })
            | exited n s ↦ none
            | fault ↦ none
          ]
            ≡ some w'
          → IsSeated qid w'
      ran (running t) run e =
          let (k, lt, key) = known.0 in
          let (p, at) = get_elem?-some w.peers k lt in
          rw (← some_inj e) (after-IsSeated w v m ms first t (sym run) k p at key)
      ran (exited n t) run e = absurd (cc)
      ran fault run e = absurd (cc)

  pub handle-IsSeated :
      (w w' : World)
      → IsSeated qid w
      → handle_move accepts qid w w.inbox ≡ some w'
      → IsSeated qid w'
  handle-IsSeated w w' v e = handled w w' w.inbox refl v e
