-- ===== src/MsgClient/Requests.antt =====
-- What the client of lab6/zad1/client.c sends, whatever the user types and the server answers.
use operating_systems_agh.Prelude.{
  ℕ, ◌<◌, ◌≤◌, ◌≡◌, Bool, true, false, some, List, [], ◌∷◌, ◌++◌, arith, length, codes, overwrite,
  drop, ℤ, c_str, All, length-append, length-drop, Bool-cases, inl, inr, ◌==◌, ltb,
}
use operating_systems_agh.MsgQueue.{Message, max_buff_size, stop, innit, new_message, failure}
use operating_systems_agh.MsgClient.{
  Client, Outcome, running, exited, fault, and_then, Round, end_work, handle_message, send_or_end,
  handle_stop_command, modify_message, read_line,
}

-- A message that the protocol allows to the owner of queue `q`: one of the five types, its own key, and a buffer of
-- the size that it has.
abbrev pub IsRequest : ℕ → Message → Type 0
IsRequest q m =
    (0 < m.kind) × (m.kind ≤ innit) × (m.key ≡ some q) × (length m.buffer ≡ max_buff_size)

abbrev pub IsSound : ℕ → Client → Type 0
IsSound q c =
    (c.my_message.key ≡ some q)
    × (length c.my_message.buffer ≡ max_buff_size)
    × (length c.line ≡ max_buff_size)
    × All (IsRequest q) c.sent

-- The string in `line` ends inside it.
abbrev pub IsRead : ℕ → Client → Type 0
IsRead q c = IsSound q c × (length (c_str c.line) < max_buff_size)

abbrev pub IsLoaded : ℕ → Client → Type 0
IsLoaded q c = IsSound q c × (0 < c.my_message.kind) × (c.my_message.kind ≤ innit)

-- The process has not written outside an array, has sent requests only, and if it goes on the rest holds too.
abbrev pub After : ℕ → (Client → Type 0) → Outcome → Type 0
After q P (running c) = P c
After q P (exited n c) = All (IsRequest q) c.sent
After q P fault = ⊥

-- What the user types fits in `line`.
abbrev pub IsFitting : Round → Type 0
IsFitting r = (length r.word < max_buff_size) × (length r.text < max_buff_size)

pub After-and_then :
    (q : ℕ) (P R : Client → Type 0) (o : Outcome) (k : Client → Outcome)
    → After q P o
    → ((c : Client) → P c → After q R (k c))
    → After q R (and_then o k)
After-and_then q P R (running c) k h f = f c h
After-and_then q P R (exited n c) k h f = h
After-and_then q P R fault k h f = absurd h

pub length-overwrite :
    (buf s : List ℕ)
    → length buf ≡ max_buff_size
    → length s < max_buff_size
    → length (overwrite buf (s ++ 0 ∷ [])) ≡ max_buff_size
length-overwrite buf s h lt =
    let a = length-append s (0 ∷ []) in
    let b = length-append (s ++ 0 ∷ []) (drop (length (s ++ 0 ∷ [])) buf) in
    omega (arith, a, b, length-drop (length (s ++ 0 ∷ [])) buf)

pub length-c_str : (s r : List ℕ) → length (c_str ((s ++ 0 ∷ []) ++ r)) ≤ length s
unfolding c_str
length-c_str [] r = omega arith
length-c_str (c ∷ s) r = ground (arith, length-c_str s r)

pub All-append {ℓ κ} :
    {A : Type ℓ} (P : A → Type κ) (xs : List A) (x : A) → All P xs → P x → All P (xs ++ x ∷ [])
All-append P [] x h p = (p, tt)
All-append P (y ∷ xs) x h p = (h.0, All-append P xs x h.1 p)

pub modify_message-IsLoaded :
    (q kind : ℕ) (text : List ℕ) (other : ℤ) (time : ℕ) (c : Client)
    → 0 < kind
    → kind ≤ innit
    → length text < max_buff_size
    → IsSound q c
    → IsLoaded q (modify_message kind text other time c)
unfolding modify_message
modify_message-IsLoaded q kind text other time c lo hi lt (k, b, l, s) =
    ((k, length-overwrite c.my_message.buffer text b lt, l, s), lo, hi)

pub send_or_end-IsSound :
    (q : ℕ) (taken : Bool) (c : Client) → IsLoaded q c → After q (IsSound q) (send_or_end taken c)
unfolding send_or_end end_work
send_or_end-IsSound q true c ((k, b, l, s), lo, hi) =
    (k, b, l, All-append (IsRequest q) c.sent c.my_message s (lo, hi, k, b))
send_or_end-IsSound q false c ((k, b, l, s), lo, hi) = s

pub handle_message-After :
    (q : ℕ) (P : Client → Type 0) (m : Message) (c : Client)
    → P c
    → P (record c { shown = c.shown ++ c_str m.buffer ∷ [] })
    → All (IsRequest q) c.sent
    → After q P (handle_message m c)
unfolding handle_message end_work
handle_message-After q P m c h k s = elim (Bool-cases (m.kind == new_message)) [
  | inl e ↦ rw (e, After) k
  | inr e ↦ elim (Bool-cases (m.kind == stop)) [
    | inl f ↦ rw (e, f, After) s
    | inr f ↦ elim (Bool-cases (m.kind == failure)) [
      | inl g ↦ rw (e, f, g, After) s
      | inr g ↦ rw (e, f, g, After) h
    ]
  ]
]

pub handle_stop_command-AreRequests :
    (q : ℕ) (taken : Bool) (c : Client)
    → IsSound q c
    → After q (IsSound q) (handle_stop_command taken c)
unfolding handle_stop_command end_work
handle_stop_command-AreRequests q true c (k, b, l, s) = All-append (IsRequest q) c.sent _ s (
  omega arith,
  omega arith,
  k,
  length-overwrite c.my_message.buffer (codes "Stop command!") b (omega arith),
)
handle_stop_command-AreRequests q false c (k, b, l, s) = s

pub read_line-IsRead :
    (q : ℕ) (s : List ℕ) (c : Client)
    → length s < max_buff_size
    → IsSound q c
    → After q (IsRead q) (read_line s c)
unfolding read_line
read_line-IsRead q s c lt (k, b, l, h) =
    let e : ltb (length s) max_buff_size ≡ true = ground arith in
    rw (e, After)
      (
        (k, b, length-overwrite c.line s l lt, h),
        omega (arith, length-c_str s (drop (length (s ++ 0 ∷ [])) c.line)),
      )
