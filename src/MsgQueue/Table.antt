-- ===== src/MsgQueue/Table.antt =====
-- lab6/zad1/server.c: the table of queues and the counter of connected clients.
use operating_systems_agh.Prelude.{
  ℕ, suc, ◌+◌, ◌<◌, ◌≤◌, ◌≡◌, ap, refl, Bool, true, false, none, some, List, [], ◌∷◌, arith,
  if◌then◌else◌, length, pos, ==_iff, ◌==◌,
}
use operating_systems_agh.MsgQueue.{
  max_clients, innit, stop, Key, Message, Server, Outcome, running, exited, fault, assign_slot,
  clear_slots, admitted, handle_new_connection, handle_stop, dispatch, send_all, handle_send_to_all,
  send_to_slot, handle_send_to_one, handle_list_command, to_all, to_one, list_command, msgsnd,
  new_message,
}

-- How many slots are taken.
abbrev pub taken : List Key → ℕ
taken [] = 0
taken (none ∷ qs) = taken qs
taken (some k ∷ qs) = suc (taken qs)

-- How many slots hold the key.
abbrev pub holders : ℕ → List Key → ℕ
holders k [] = 0
holders k (none ∷ qs) = holders k qs
holders k (some q ∷ qs) = (if q == k then 1 else 0) + holders k qs

pub taken-le-length : (qs : List Key) → taken qs ≤ length qs
taken-le-length [] = omega arith
taken-le-length (none ∷ qs) = omega (arith, taken-le-length qs)
taken-le-length (some k ∷ qs) = omega (arith, taken-le-length qs)

length-assign_slot : (i : ℕ) (k : Key) (qs : List Key) → length (assign_slot i k qs).0 ≡ length qs
unfolding assign_slot
length-assign_slot i k [] = refl
length-assign_slot i k (none ∷ qs) = refl
length-assign_slot i k (some q ∷ qs) = ap suc (length-assign_slot (i + 1) k qs)

pub taken-assign_slot :
    (i k : ℕ) (qs : List Key)
    → taken qs < length qs
    → taken (assign_slot i (some k) qs).0 ≡ suc (taken qs)
unfolding assign_slot
taken-assign_slot i k [] h = absurd (omega arith)
taken-assign_slot i k (none ∷ qs) h = refl
taken-assign_slot i k (some q ∷ qs) h = ap suc (taken-assign_slot (i + 1) k qs (omega arith))

pub assign_slot-full :
    (i : ℕ) (k : Key) (qs : List Key) → taken qs ≡ length qs → assign_slot i k qs ≡ (qs, none)
unfolding assign_slot
assign_slot-full i k [] h = refl
assign_slot-full i k (none ∷ qs) h = absurd (omega (arith, taken-le-length qs))
assign_slot-full i k (some q ∷ qs) h = ground (arith, assign_slot-full (i + 1) k qs)

length-clear_slots : (k : Key) (qs : List Key) → length (clear_slots k qs) ≡ length qs
unfolding clear_slots
length-clear_slots k [] = refl
length-clear_slots k (q ∷ qs) = ap suc (length-clear_slots k qs)

taken-clear_slots :
    (k : ℕ) (qs : List Key) → taken (clear_slots (some k) qs) + holders k qs ≡ taken qs
unfolding clear_slots
taken-clear_slots k [] = omega arith
taken-clear_slots k (none ∷ qs) = taken-clear_slots k qs
taken-clear_slots k (some q ∷ qs) = ground (arith, taken-clear_slots k qs)

pub clear_slots-no_holder :
    (k : ℕ) (qs : List Key) → holders k qs ≡ 0 → clear_slots (some k) qs ≡ qs
unfolding clear_slots
clear_slots-no_holder k [] h = refl
clear_slots-no_holder k (none ∷ qs) h = ap (λ l. none ∷ l) (clear_slots-no_holder k qs h)
clear_slots-no_holder k (some q ∷ qs) h = ground (arith, clear_slots-no_holder k qs)

pub clear_slots-assign_slot :
    (i k : ℕ) (qs : List Key)
    → holders k qs ≡ 0
    → clear_slots (some k) (assign_slot i (some k) qs).0 ≡ qs
unfolding clear_slots assign_slot
clear_slots-assign_slot i k [] h = refl
clear_slots-assign_slot i k (none ∷ qs) h = ground (arith, clear_slots-no_holder k qs)
clear_slots-assign_slot i k (some q ∷ qs) h = ground (arith, clear_slots-assign_slot (i + 1) k qs)

-- The counter is the number of taken slots of a table of MAX_CLIENTS.
pub record IsCounted (s : Server) : Type 0 where
  pub size : length s.queues ≡ max_clients
  pub count : s.connected ≡ pos (taken s.queues)

-- What holds of the state after a handler, whether the process goes on or ends.
abbrev pub After : (Server → Type 0) → Outcome → Type 0
After P (running s) = P s
After P (exited n s) = P s
After P fault = Unit

pub After-running :
    (P : Server → Type 0) (o : Outcome) (t : Server) → After P o → o ≡ running t → P t
After-running P o t h e = rw e at h

pub After-imp :
    (P R : Server → Type 0) (o : Outcome) → After P o → ((s : Server) → P s → R s) → After R o
After-imp P R (running s) h f = f s h
After-imp P R (exited n s) h f = f s h
After-imp P R fault h f = tt

pub After-if :
    (P : Server → Type 0) (b : Bool) (x y : Outcome)
    → (b ≡ true → After P x)
    → After P y
    → After P (if b then x else y)
After-if P true x y hx hy = hx refl
After-if P false x y hx hy = hy

module _ (accepts : List (Key × Message) → Key → Message → Bool) where
  pub send_all-keeps :
      (i : ℕ) (qs : List Key) (m : Message) (s : Server)
      → let t = (send_all accepts i qs m s).1 in (t.queues ≡ s.queues) × (t.connected ≡ s.connected)
  unfolding send_all
  send_all-keeps i [] m s = (refl, refl)
  send_all-keeps i (q ∷ qs) m s =
      ground
        (arith, send_all-keeps (i + 1) qs m s, send_all-keeps (i + 1) qs m (msgsnd accepts q m s))

  handle_send_to_all-IsCounted :
      (m : Message) (s : Server) → IsCounted s → After IsCounted (handle_send_to_all accepts m s)
  unfolding handle_send_to_all
  handle_send_to_all-IsCounted m s v =
      ground (arith, send_all-keeps 0 s.queues (record m { kind = new_message }) s)

  handle_send_to_one-IsCounted :
      (m : Message) (s : Server) → IsCounted s → After IsCounted (handle_send_to_one accepts m s)
  unfolding handle_send_to_one send_to_slot
  handle_send_to_one-IsCounted m s v = ground arith

  handle_list_command-IsCounted :
      (m : Message) (s : Server) → IsCounted s → After IsCounted (handle_list_command accepts m s)
  unfolding handle_list_command
  handle_list_command-IsCounted m s v = ground arith

  handle_new_connection-IsCounted :
      (k : ℕ) (s : Server)
      → s.message.key ≡ some k
      → IsCounted s
      → After IsCounted (handle_new_connection accepts s)
  unfolding handle_new_connection admitted
  handle_new_connection-IsCounted k s key v = ground (
    arith,
    taken-le-length s.queues,
    length-assign_slot 0 s.message.key s.queues,
    taken-assign_slot 0 k s.queues,
  )

  handle_stop-IsCounted :
      (k : ℕ) (m : Message) (s : Server)
      → m.key ≡ some k
      → holders k s.queues ≡ 1
      → IsCounted s
      → After IsCounted (handle_stop accepts m s)
  unfolding handle_stop
  handle_stop-IsCounted k m s key one v =
      ground (arith, length-clear_slots m.key s.queues, taken-clear_slots k s.queues)

  -- A request that the protocol allows keeps the counter equal to the number of taken slots, whether
  -- the handler returns or ends the process: an INNIT names a queue, and a STOP comes from a client
  -- whose queue is in exactly one slot.
  pub dispatch-IsCounted :
      (s : Server)
      → (s.message.kind ≡ innit → (k : ℕ) × (s.message.key ≡ some k))
      → (s.message.kind ≡ stop → (k : ℕ) × (s.message.key ≡ some k) × (holders k s.queues ≡ 1))
      → IsCounted s
      → After IsCounted (dispatch accepts s)
  unfolding dispatch
  dispatch-IsCounted s on_innit on_stop v =
      After-if IsCounted (s.message.kind == innit) _ _
        (λ e.
          let (k, key) = on_innit ((==_iff _ _).0 e) in handle_new_connection-IsCounted k s key v)
        (After-if IsCounted (s.message.kind == list_command) _ _
          (λ _. handle_list_command-IsCounted s.message s v)
          (After-if IsCounted (s.message.kind == to_all) _ _
            (λ _. handle_send_to_all-IsCounted s.message s v)
            (After-if IsCounted (s.message.kind == to_one) _ _
              (λ _. handle_send_to_one-IsCounted s.message s v)
              (After-if IsCounted (s.message.kind == stop) _ _
                (λ e.
                  let (k, key, one) = on_stop ((==_iff _ _).0 e) in
                  handle_stop-IsCounted k s.message s key one v)
                v))))
