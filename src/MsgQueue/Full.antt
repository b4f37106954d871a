-- ===== src/MsgQueue/Full.antt =====
-- lab6/zad1/server.c: a full table, stray requests to stop, and a client that comes and goes.
use operating_systems_agh.Prelude.{
  ℕ, ◌<◌, ◌≡◌, ◌∙◌, sym, ap, refl, Bool, true, false, some, List, [], ◌∷◌, ◌++◌, arith, pos,
  increment, decrement, codes, overwrite,
}
use operating_systems_agh.MsgQueue.{
  max_clients, innit, stop, succes, failure, Key, Message, Server, running, assign_slot,
  clear_slots, admitted, refused, greeted, handle_new_connection, handle_stop, dispatch, received,
  serve-cons, stop_entry, innit_entry, on_event, serve,
}
use operating_systems_agh.MsgQueue.Table.{
  taken, holders, IsCounted, clear_slots-no_holder, assign_slot-full, clear_slots-assign_slot,
}

module _ (accepts : List (Key × Message) → Key → Message → Bool) where
  -- A client that finds the table full is told FAILURE, if the kernel takes the reply, and nothing else
  -- changes: neither the table, nor the counter, nor the log.
  pub full_table_refuses :
      (s : Server)
      → IsCounted s
      → taken s.queues ≡ max_clients
      → s.message.kind ≡ innit
      → (t : Server) × (dispatch accepts s ≡ running t)
        × (t.queues ≡ s.queues)
        × (t.connected ≡ s.connected)
        × (t.log ≡ s.log)
        × (accepts s.sent s.message.key (record s.message { kind = failure }) ≡ true
            → t.sent ≡ s.sent ++ (s.message.key, record s.message { kind = failure }) ∷ [])
        × (accepts s.sent s.message.key (record s.message { kind = failure }) ≡ false
            → t.sent ≡ s.sent)
  unfolding dispatch handle_new_connection
  full_table_refuses s v full kind = (
    refused accepts s,
    ground arith,
    ground arith,
    ground arith,
    ground arith,
    λ ok. ground arith,
    λ no_. ground arith,
  )

  -- The reply that an INNIT gets when no slot is free and the counter says that one is.
  abbrev welcomed : Message → Message
  welcomed m = record m { kind = succes; buffer = overwrite m.buffer (codes "SUCCED!" ++ 0 ∷ []) }

  abbrev strayed : Server → Message → Server
  strayed s bye = record s {
    message = bye;
    connected = pos 1;
    log = s.log ++ stop_entry bye.client_id bye.time ∷ [];
  }

  abbrev ghosted : Server → Message → Message → ℕ → ℕ → Server
  ghosted s bye hello k new = record s {
    message = welcomed hello;
    connected = pos 2;
    sent = s.sent ++ (some new, welcomed hello) ∷ [];
    log =
        (s.log ++ stop_entry bye.client_id bye.time ∷ []) ++ innit_entry (some new) hello.time ∷ [];
  }

  stray_stop :
      (s : Server) (bye : Message) (k : ℕ)
      → IsCounted s
      → taken s.queues ≡ max_clients
      → bye.kind ≡ stop
      → bye.key ≡ some k
      → holders k s.queues ≡ 0
      → on_event accepts (received bye) s ≡ running (strayed s bye)
  unfolding on_event dispatch handle_stop
  stray_stop s bye k v full bk key none_ = ground (arith, clear_slots-no_holder k s.queues)

  ghost_innit :
      (s : Server) (bye hello : Message) (k new : ℕ)
      → ((l : List (Key × Message)) (q : Key) (m : Message) → accepts l q m ≡ true)
      → IsCounted s
      → taken s.queues ≡ max_clients
      → hello.kind ≡ innit
      → hello.key ≡ some new
      → on_event accepts (received hello) (strayed s bye) ≡ running (ghosted s bye hello k new)
  unfolding on_event dispatch handle_new_connection admitted
  ghost_innit s bye hello k new always v full hk key =
      ground
        (arith, assign_slot-full 0 (some new) s.queues, always s.sent (some new) (welcomed hello))

  -- A STOP from a queue that is in no slot of a full table lets one more client in: its INNIT is answered
  -- SUCCES, but its queue is put into no slot, and the table stays as it was.
  pub stray_stop_admits_ghost :
      (s : Server) (bye hello : Message) (k new : ℕ)
      → ((l : List (Key × Message)) (q : Key) (m : Message) → accepts l q m ≡ true)
      → IsCounted s
      → taken s.queues ≡ max_clients
      → bye.kind ≡ stop
      → bye.key ≡ some k
      → holders k s.queues ≡ 0
      → hello.kind ≡ innit
      → hello.key ≡ some new
      → (t : Server) × (reply : Message) × (serve accepts (received bye ∷ received hello ∷ []) s
          ≡ running t)
        × (t.queues ≡ s.queues)
        × (t.sent ≡ s.sent ++ (some new, reply) ∷ [])
        × (reply.kind ≡ succes)
        × (t.connected ≡ pos max_clients)
  unfolding serve
  stray_stop_admits_ghost s bye hello k new always v full bk key none_ hk newkey = (
    ghosted s bye hello k new,
    welcomed hello,
    serve-cons accepts (received bye) (received hello ∷ []) s
          (stray_stop s bye k v full bk key none_)
        ∙ serve-cons accepts (received hello) [] (strayed s bye)
            (ghost_innit s bye hello k new always v full hk newkey),
    refl,
    refl,
    refl,
    refl,
  )

  abbrev come : Server → Message → Server
  come s hello = greeted accepts (admitted accepts (record s { message = hello }))

  abbrev stopped : Server → Message → Server
  stopped c bye = record c {
    message = bye;
    connected = decrement c.connected;
    queues = clear_slots bye.key c.queues;
    log = c.log ++ stop_entry bye.client_id bye.time ∷ [];
  }

  on_innit :
      (s : Server) (hello : Message)
      → IsCounted s
      → taken s.queues < max_clients
      → hello.kind ≡ innit
      → on_event accepts (received hello) s ≡ running (come s hello)
  unfolding on_event dispatch handle_new_connection
  on_innit s hello v room kind = ground arith

  on_stop :
      (c : Server) (bye : Message)
      → bye.kind ≡ stop
      → on_event accepts (received bye) c ≡ running (stopped c bye)
  unfolding on_event dispatch handle_stop
  on_stop c bye kind = ground arith

  come-counts :
      (s : Server) (hello : Message)
      → ((come s hello).connected ≡ increment s.connected)
        × ((come s hello).queues ≡ (assign_slot 0 hello.key s.queues).0)
  unfolding admitted
  come-counts s hello = ground arith

  -- A client whose queue is in no slot, that is let in at a table with room and then stops, leaves the
  -- table and the counter as they were.
  pub innit-stop :
      (s : Server) (hello bye : Message) (k : ℕ)
      → IsCounted s
      → taken s.queues < max_clients
      → hello.kind ≡ innit
      → hello.key ≡ some k
      → bye.kind ≡ stop
      → bye.key ≡ some k
      → holders k s.queues ≡ 0
      → (t : Server) × (serve accepts (received hello ∷ received bye ∷ []) s ≡ running t)
        × (t.queues ≡ s.queues)
        × (t.connected ≡ s.connected)
  unfolding serve
  innit-stop s hello bye k v room hk hkey bk bkey fresh = (
    stopped (come s hello) bye,
    serve-cons accepts (received hello) (received bye ∷ []) s (on_innit s hello v room hk)
        ∙ serve-cons accepts (received bye) [] (come s hello) (on_stop (come s hello) bye bk),
    queues_back,
    count_back,
  )
    where
      queues_back : (stopped (come s hello) bye).queues ≡ s.queues
      queues_back =
          ap (λ q. clear_slots q (come s hello).queues) bkey
          ∙ ap (clear_slots (some k)) (come-counts s hello).1
          ∙ ap (λ q. clear_slots (some k) (assign_slot 0 q s.queues).0) hkey
          ∙ clear_slots-assign_slot 0 k s.queues fresh

      count_back : (stopped (come s hello) bye).connected ≡ s.connected
      count_back =
          ap decrement (come-counts s hello).0
          ∙ ap (λ n. decrement (increment n)) v.count
          ∙ sym v.count
