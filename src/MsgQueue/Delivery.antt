-- ===== src/MsgQueue/Delivery.antt =====
-- lab6/zad1/server.c: who is sent the messages of _2ALL, and the end of the server.
use operating_systems_agh.Prelude.{
  ℕ, zero, suc, ◌+◌, ◌≤◌, ◌≡◌, ◌∙◌, ap, refl, Bool, true, false, none, some, List, [], ◌∷◌, ◌++◌,
  arith, if◌then◌else◌, length, get_elem?, get_elem?-none, Has, Has-append, ℤ, pos, negsuc, is_pos,
  Bool-cases, inl, inr, ◌⊎◌, append_assoc, append-nil, All, ◌||◌,
}
use operating_systems_agh.MsgQueue.{
  stop, new_message, to_all, to_one, Key, Message, Server, running, exited, fault, is_free,
  dispatch, interrupted, on_event, send_all, handle_send_to_all, handle_send_to_one, send_to_slot,
  stop_all, handle_stop_signal, msgsnd, all_entry, logged,
}

-- The queues of the slots that are taken, but for the slot with the number `id`; `i` is the number of
-- the first slot of the list.
others : ℤ → ℕ → List Key → List Key
others id i [] = []
others id i (q ∷ qs) =
    if is_free q || is_pos id i then others id (i + 1) qs else q ∷ others id (i + 1) qs

posted : Message → List Key → List (Key × Message)
posted m [] = []
posted m (q ∷ qs) = (q, m) ∷ posted m qs

module _ (accepts : List (Key × Message) → Key → Message → Bool)
    (always : (l : List (Key × Message)) (q : Key) (m : Message) → accepts l q m ≡ true) where
  send_all_lem :
      (i : ℕ) (qs : List Key) (m : Message) (s : Server)
      → send_all accepts i qs m s
        ≡ (true, record s { sent = s.sent ++ posted m (others m.client_id i qs) })
  unfolding send_all others posted
  send_all_lem i [] m s = ground (arith, append-nil s.sent)
  send_all_lem i (q ∷ qs) m s = ground (
    arith,
    always s.sent q m,
    send_all_lem (i + 1) qs m s,
    send_all_lem (i + 1) qs m (msgsnd accepts q m s),
    append_assoc s.sent ((q, m) ∷ []) (posted m (others m.client_id (i + 1) qs)),
  )

-- Slot `j` of the list is not the sender's.
abbrev IsOther : ℤ → ℕ → ℕ → Type 0
IsOther id i j = is_pos id (i + j) ≡ false

IsOther-zero : (id : ℤ) (i : ℕ) → IsOther id i 0 → is_pos id i ≡ false
IsOther-zero id i h = ap (is_pos id) (omega arith) ∙ h

IsOther-suc : (id : ℤ) (i j : ℕ) → IsOther id i (suc j) → IsOther id (i + 1) j
IsOther-suc id i j h = ap (is_pos id) (omega arith) ∙ h

posted-Has :
    (m : Message) (id : ℤ) (i : ℕ) (qs : List Key) (j k : ℕ)
    → get_elem? qs j ≡ some (some k)
    → IsOther id i j
    → Has (some k, m) (posted m (others id i qs))
unfolding posted others
posted-Has m id i [] j k e ne = absurd (cc)
posted-Has m id i (q ∷ qs) zero k e ne = (0, ground (arith, IsOther-zero id i ne))
posted-Has m id i (q ∷ qs) (suc j) k e ne =
    let (n, h) = posted-Has m id (i + 1) qs j k e (IsOther-suc id i j ne) in
    elim (Bool-cases (is_free q || is_pos id i)) [
      | inl skip ↦ (n, ground arith)
      | inr send ↦ (suc n, ground arith)
    ]

-- What was posted went to a taken slot that is not the sender's.
abbrev pub Addressed : ℤ → ℕ → List Key → Message → Key × Message → Type 0
Addressed id i qs m e =
    (j : ℕ) × (k : ℕ) × (get_elem? qs j ≡ some (some k))
    × (is_pos id (i + j) ≡ false)
    × (e ≡ (some k, m))

Addressed-tail :
    (m : Message) (id : ℤ) (i : ℕ) (q : Key) (qs : List Key) (e : Key × Message)
    → Addressed id (i + 1) qs m e
    → Addressed id i (q ∷ qs) m e
Addressed-tail m id i q qs e (j, k, at, ne, eq) =
    (suc j, k, at, ap (is_pos id) (omega arith) ∙ ne, eq)

posted-Addressed :
    (m : Message) (id : ℤ) (i : ℕ) (qs : List Key) (e : Key × Message) (n : ℕ)
    → get_elem? (posted m (others id i qs)) n ≡ some e
    → Addressed id i qs m e
unfolding posted others
posted-Addressed m id i [] e n h = absurd (cc)
posted-Addressed m id i (none ∷ qs) e n h =
    Addressed-tail m id i none qs e (posted-Addressed m id (i + 1) qs e n h)
posted-Addressed m id i (some q ∷ qs) e n h = elim (Bool-cases (is_pos id i)) [
  | inl own ↦
      Addressed-tail m id i (some q) qs e (posted-Addressed m id (i + 1) qs e n (rw own at h))
  | inr other ↦ first n (rw other at h) (λ n'. posted-Addressed m id (i + 1) qs e n') other
]
  where
    first :
        (n : ℕ)
        → get_elem? ((some q, m) ∷ posted m (others id (i + 1) qs)) n ≡ some e
        → ((n' : ℕ)
            → get_elem? (posted m (others id (i + 1) qs)) n' ≡ some e
            → Addressed id (i + 1) qs m e)
        → is_pos id i ≡ false
        → Addressed id i (some q ∷ qs) m e
    first zero h rest other = (0, q, refl, ap (is_pos id) (omega arith) ∙ other, cc)
    first (suc n) h rest other = Addressed-tail m id i (some q) qs e (rest n h)

module _ (accepts : List (Key × Message) → Key → Message → Bool)
    (always : (l : List (Key × Message)) (q : Key) (m : Message) → accepts l q m ≡ true) where
  -- If the kernel takes every message, a _2ALL goes on, is logged, and changes nothing but the queues'
  -- contents: every taken slot but the sender's is sent the message as NEW_MESSAGE, and what is sent
  -- goes to such slots only.
  pub to_all_reaches_others :
      (s : Server)
      → s.message.kind ≡ to_all
      → let m = record s.message { kind = new_message } in
        (w : List (Key × Message)) × (dispatch accepts s
          ≡ running (logged (all_entry m.client_id m.time) (record s { sent = s.sent ++ w })))
        × ((j k : ℕ)
            → get_elem? s.queues j ≡ some (some k)
            → is_pos m.client_id (0 + j) ≡ false
            → Has (some k, m) w)
        × ((e : Key × Message) → Has e w → Addressed m.client_id 0 s.queues m e)
  unfolding dispatch handle_send_to_all
  to_all_reaches_others s kind = (
    posted m (others m.client_id 0 s.queues),
    ground (arith, send_all_lem accepts always 0 s.queues m s),
    λ j k at ne. posted-Has m m.client_id 0 s.queues j k at ne,
    λ e h. posted-Addressed m m.client_id 0 s.queues e h.0 h.1,
  )
    where
      m : Message
      m = record s.message { kind = new_message }

  stop_all_lem :
      (qs : List Key) (i : ℕ) (m : Message) (s : Server)
      → (rest : List Key) × (stop_all accepts qs m s
          ≡ (true, rest, record s { sent = s.sent ++ posted m (others (negsuc 0) i qs) }))
        × All (λ q. q ≡ none) rest
        × (length rest ≡ length qs)
  unfolding stop_all others posted
  stop_all_lem [] i m s = ([], ground (arith, append-nil s.sent), tt, refl)
  stop_all_lem (none ∷ qs) i m s =
      let (rest, e, free, size) = stop_all_lem qs (i + 1) m s in
      (none ∷ rest, ground arith, (refl, free), ap suc size)
  stop_all_lem (some q ∷ qs) i m s =
      let (rest, e, free, size) = stop_all_lem qs (i + 1) m (msgsnd accepts (some q) m s) in
      (
        none ∷ rest,
        ground (
          arith,
          always s.sent (some q) m,
          append_assoc s.sent ((some q, m) ∷ []) (posted m (others (negsuc 0) (i + 1) qs)),
        ),
        (refl, free),
        ap suc size,
      )

  -- If the kernel takes every message, the interrupt ends the server with status 0 and an empty table of
  -- the same size, and every client that was in the table is sent STOP.
  pub interrupt_stops_clients :
      (s : Server)
      → let m = record s.message { kind = stop } in
        (t : Server) × (on_event accepts interrupted s ≡ exited 0 t)
        × All (λ q. q ≡ none) t.queues
        × (length t.queues ≡ length s.queues)
        × ((j k : ℕ) → get_elem? s.queues j ≡ some (some k) → Has (some k, m) t.sent)
  unfolding on_event handle_stop_signal
  interrupt_stops_clients s =
      let (rest, e, free, size) = stop_all_lem s.queues 0 m (record s { message = m }) in
      (
        record s {
          message = m;
          queues = rest;
          sent = s.sent ++ posted m (others (negsuc 0) 0 s.queues);
        },
        ground arith,
        free,
        size,
        λ j k at. Has-append (some k, m) s.sent _ (posted-Has m (negsuc 0) 0 s.queues j k at refl),
      )
    where
      m : Message
      m = record s.message { kind = stop }

-- A _2ONE whose receiver is not a number of a slot reads outside the table.
pub to_one_out_of_range :
    (accepts : List (Key × Message) → Key → Message → Bool) (s : Server)
    → s.message.kind ≡ to_one
    → ((n : ℕ) × (s.message.other_id ≡ negsuc n))
      ⊎ ((n : ℕ) × (s.message.other_id ≡ pos n) × (length s.queues ≤ n))
    → dispatch accepts s ≡ fault
unfolding dispatch handle_send_to_one send_to_slot
to_one_out_of_range accepts s kind (inl (n, id)) = ground arith
to_one_out_of_range accepts s kind (inr (n, id, far)) =
    ground (arith, get_elem?-none s.queues n far)
