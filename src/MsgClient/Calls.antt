-- ===== src/MsgClient/Calls.antt =====
-- lab6/zad1/client.c: what one call of the client that is let in sends, and whom the client is let in as.
use operating_systems_agh.Prelude.{
  ℕ, ◌<◌, ◌≤◌, ◌≡◌, refl, Bool, true, false, none, some, List, [], ◌∷◌, ◌++◌, arith, codes, ℤ,
  negsuc, c_str, All, Bool-cases, inl, inr, ◌⊎◌, ◌==◌, ltb, length, Option,
}
use operating_systems_agh.Command.{Command, qsort, map_command_to_int}
use operating_systems_agh.MsgQueue.{
  Message, max_buff_size, list_command, to_all, to_one, stop, innit, new_message, failure, succes,
}
use operating_systems_agh.MsgClient.{
  Client, Outcome, running, exited, fault, and_then, Round, dict, end_work, handle_message,
  send_or_end, modify_message, read_line, drain, list_round, all_round, read_number, one_round,
  on_command, on_round, handle_stop_command, handle_stop_signal, ask_in, let_in, fresh,
}
use operating_systems_agh.MsgClient.Requests.{All-append}

-- A request of the loop other than STOP, by the owner of queue `q`.
abbrev pub IsTalk : ℕ → Message → Type 0
IsTalk q m = (m.key ≡ some q) × (0 < m.kind) × (m.kind ≤ to_one)

abbrev pub IsStop : ℕ → Message → Type 0
IsStop q m = (m.key ≡ some q) × (m.kind ≡ stop)

-- The owner of queue `q`, with the number `id`, has sent nothing but talk.
abbrev pub IsTalking : ℤ → ℕ → Client → Type 0
IsTalking id q c =
    (c.my_message.key ≡ some q) × (c.my_message.client_id ≡ id) × All (IsTalk q) c.sent

-- Talk, and a STOP at the end or none.
abbrev pub IsFarewell : ℕ → List Message → Type 0
IsFarewell q ms =
    All (IsTalk q) ms
    ⊎ ((l : List Message) × (m : Message) × (ms ≡ l ++ m ∷ []) × All (IsTalk q) l × IsStop q m)

-- What holds of the client if the process goes on, and of what it has sent if it ends.
abbrev pub Yields : (Client → Type 0) → (List Message → Type 0) → Outcome → Type 0
Yields P R (running c) = P c
Yields P R (exited n c) = R c.sent
Yields P R fault = Unit

Yields-and_then :
    (P P' : Client → Type 0) (R : List Message → Type 0) (o : Outcome) (k : Client → Outcome)
    → Yields P R o
    → ((c : Client) → P c → Yields P' R (k c))
    → Yields P' R (and_then o k)
Yields-and_then P P' R (running c) k h f = f c h
Yields-and_then P P' R (exited n c) k h f = h
Yields-and_then P P' R fault k h f = tt

module _ (id : ℤ) (q : ℕ) where
  abbrev IsCall : Outcome → Type 0
  IsCall = Yields (IsTalking id q) (IsFarewell q)

  handle_message-IsCall :
      (m : Message) (c : Client) → IsTalking id q c → IsCall (handle_message m c)
  unfolding handle_message end_work
  handle_message-IsCall m c h = elim (Bool-cases (m.kind == new_message)) [
    | inl e ↦ rw (e, Yields) h
    | inr e ↦ elim (Bool-cases (m.kind == stop)) [
      | inl f ↦ rw (e, f, Yields) (inl h.2)
      | inr f ↦ elim (Bool-cases (m.kind == failure)) [
        | inl g ↦ rw (e, f, g, Yields) (inl h.2)
        | inr g ↦ rw (e, f, g, Yields) h
      ]
    ]
  ]

  send_or_end-IsCall :
      (taken : Bool) (kind : ℕ) (text : List ℕ) (other : ℤ) (time : ℕ) (c : Client)
      → 0 < kind
      → kind ≤ to_one
      → IsTalking id q c
      → IsCall (send_or_end taken (modify_message kind text other time c))
  unfolding send_or_end end_work modify_message
  send_or_end-IsCall true kind text other time c lo hi (k, i, s) =
      (k, i, All-append (IsTalk q) c.sent _ s (k, lo, hi))
  send_or_end-IsCall false kind text other time c lo hi (k, i, s) = inl s

  read_line-IsCall : (s : List ℕ) (c : Client) → IsTalking id q c → IsCall (read_line s c)
  unfolding read_line
  read_line-IsCall s c h = elim (Bool-cases (ltb (length s) max_buff_size)) [
    | inl e ↦ rw (e, Yields) h
    | inr e ↦ rw (e, Yields) tt
  ]

  drain-IsCall : (ms : List Message) (c : Client) → IsTalking id q c → IsCall (drain ms c)
  unfolding drain
  drain-IsCall [] c h = h
  drain-IsCall (m ∷ ms) c h =
      Yields-and_then _ _ _ (handle_message m c) (drain ms) (handle_message-IsCall m c h)
        (drain-IsCall ms)

  list_round-IsCall : (r : Round) (c : Client) → IsTalking id q c → IsCall (list_round r c)
  unfolding list_round end_work
  list_round-IsCall r c h =
      Yields-and_then _ _ _ (send_or_end r.taken _) _
        (send_or_end-IsCall r.taken list_command (codes "LIST REQUEST") (negsuc 0) r.time c
          (omega arith) (omega arith) h)
        (answered r.reply)
    where
      answered :
          (reply : Option Message) (c : Client)
          → IsTalking id q c
          → IsCall (elim reply [ none ↦ end_work c | some m ↦ handle_message m c ])
      answered none c h = inl h.2
      answered (some m) c h = handle_message-IsCall m c h

  all_round-IsCall : (r : Round) (c : Client) → IsTalking id q c → IsCall (all_round r c)
  unfolding all_round
  all_round-IsCall r c h =
      Yields-and_then _ _ _ (read_line r.text c) _ (read_line-IsCall r.text c h) (λ c h.
        send_or_end-IsCall r.taken to_all (c_str c.line) (negsuc 0) r.time c (omega arith)
          (omega arith) h)

  one_round-IsCall : (r : Round) (c : Client) → IsTalking id q c → IsCall (one_round r c)
  unfolding one_round
  one_round-IsCall r c h = Yields-and_then _ _ _ (read_number r c) _ (number r.number) (λ c h.
      send_or_end-IsCall r.taken to_one (c_str c.line) c.other_id r.time c (omega arith)
        (omega arith) h)
    where
      number :
          (n : Option ℤ)
          → IsCall
              (elim n [ none ↦ running c | some n ↦ read_line r.text (record c { other_id = n }) ])
      number none = h
      number (some n) = read_line-IsCall r.text (record c { other_id = n }) h

  handle_stop_command-IsCall :
      (taken : Bool) (c : Client) → IsTalking id q c → IsCall (handle_stop_command taken c)
  unfolding handle_stop_command end_work
  handle_stop_command-IsCall true c (k, i, s) = inr (c.sent, _, refl, s, (k, refl))
  handle_stop_command-IsCall false c (k, i, s) = inl s

  -- The same for the handler of SIGINT.
  pub handle_stop_signal-IsCall :
      (taken : Bool) (c : Client) → IsTalking id q c → IsCall (handle_stop_signal taken c)
  unfolding handle_stop_signal
  handle_stop_signal-IsCall taken c h = handle_stop_command-IsCall taken c h

  on_command-IsCall :
      (n : ℕ) (r : Round) (c : Client) → IsTalking id q c → IsCall (on_command n r c)
  unfolding on_command
  on_command-IsCall n r c h = elim (Bool-cases (n == list_command)) [
    | inl a ↦ rw (a, Yields) (list_round-IsCall r c h)
    | inr a ↦ elim (Bool-cases (n == to_all)) [
      | inl b ↦ rw (a, b, Yields) (all_round-IsCall r c h)
      | inr b ↦ elim (Bool-cases (n == to_one)) [
        | inl d ↦ rw (a, b, d, Yields) (one_round-IsCall r c h)
        | inr d ↦ elim (Bool-cases (n == stop)) [
          | inl e ↦ rw (a, b, d, e, Yields) (handle_stop_command-IsCall r.taken c h)
          | inr e ↦ rw (a, b, d, e, Yields) h
        ]
      ]
    ]
  ]

  -- A round of the loop sends talk; if it ends the process, a STOP may come last.
  pub on_round-IsCall : (r : Round) (c : Client) → IsTalking id q c → IsCall (on_round r c)
  unfolding on_round
  on_round-IsCall r c h =
      Yields-and_then _ _ _ (read_line r.word c) _ (read_line-IsCall r.word c h)
        (λ c h. found (map_command_to_int (qsort dict) (c_str c.line)) c h)
    where
      found :
          (d : Option Command) (c : Client)
          → IsTalking id q c
          → IsCall (elim d [
            | none ↦ running c
            | some d ↦ and_then (drain r.pending c) (on_command d.n r)
          ])
      found none c h = h
      found (some d) c h =
          Yields-and_then _ _ _ (drain r.pending c) (on_command d.n r) (drain-IsCall r.pending c h)
            (on_command-IsCall d.n r)

-- The start sends one INNIT with the client's queue, or ends with nothing sent.
pub ask_in-Yields :
    (taken : Bool) (time q : ℕ) (line : List ℕ)
    → Yields
        (λ c.
          (c.my_message.key ≡ some q)
          × (m : Message) × (c.sent ≡ m ∷ [])
          × (m.kind ≡ innit)
          × (m.key ≡ some q))
        (λ ms. ms ≡ [])
        (ask_in taken time (fresh q line))
unfolding ask_in send_or_end modify_message end_work
ask_in-Yields true time q line = (refl, _, refl, refl, refl)
ask_in-Yields false time q line = refl

-- A SUCCES lets the client in under the number that it carries; a FAILURE ends it.
pub let_in-succes :
    (m : Message) (c : Client)
    → m.kind ≡ succes
    → let_in (some m) c
      ≡ running (record c { my_message = record c.my_message { client_id = m.client_id } })
unfolding let_in handle_message
let_in-succes m c e = ground arith

pub let_in-failure :
    (m : Message) (c : Client)
    → m.kind ≡ failure
    → let_in (some m) c ≡ exited 0 (record c { removed = true })
unfolding let_in handle_message end_work
let_in-failure m c e = ground arith
