-- ===== src/Catcher/Order.antt =====
-- lab4/zad3: what the catcher serves, against what the sender was asked to send.
use operating_systems_agh.Prelude.{
  ℕ, zero, suc, ◌+◌, ◌≤◌, ◌≡◌, refl, ap, sym, ◌∙◌, ◌⊎◌, inl, inr, true, false, Option, none, some,
  List, [], ◌∷◌, ◌++◌, ◌==◌, ℤ, pos, All, arith, map, append-nil, length, length-append, Bool-cases,
}
use operating_systems_agh.Catcher.{
  count_to_100, print_actual_time, count_state_change_requests,
  count_actual_time_until_state_change, close_catcher, Line, status, number, actual_time, requests,
  closing, unknown_command, Life, running, closed, failed, Catcher, numbers, serve, handle, Sender,
  looping, sent, suspended, ended, System, woken, catcher_handles,
}

-- The commands of the signals that the catcher has taken, oldest first.
abbrev pub statuses : List Line → List ℕ
statuses [] = []
statuses (status n ∷ ls) = n ∷ statuses ls
statuses (number n ∷ ls) = statuses ls
statuses (actual_time n ∷ ls) = statuses ls
statuses (requests n ∷ ls) = statuses ls
statuses (closing ∷ ls) = statuses ls
statuses (unknown_command ∷ ls) = statuses ls

pub statuses-append : (xs ys : List Line) → statuses (xs ++ ys) ≡ statuses xs ++ statuses ys
statuses-append [] ys = refl
statuses-append (status n ∷ xs) ys = ap (λ l. n ∷ l) (statuses-append xs ys)
statuses-append (number n ∷ xs) ys = statuses-append xs ys
statuses-append (actual_time n ∷ xs) ys = statuses-append xs ys
statuses-append (requests n ∷ xs) ys = statuses-append xs ys
statuses-append (closing ∷ xs) ys = statuses-append xs ys
statuses-append (unknown_command ∷ xs) ys = statuses-append xs ys

pub statuses-numbers : (n i : ℕ) → statuses (numbers n i) ≡ []
unfolding numbers
statuses-numbers zero i = refl
statuses-numbers (suc n) i = statuses-numbers n (i + 1)

abbrev pub IsCommand : ℕ → Type 0
IsCommand n = (1 ≤ n) × (n ≤ 5)

-- A command is served, and what is printed for it is no status.
pub serve-IsCommand :
    (n counter now : ℕ)
    → IsCommand n
    → (ls : List Line) × (serve n counter now ≡ some ls) × (statuses ls ≡ [])
unfolding serve
serve-IsCommand n counter now h = elim (Bool-cases (n == count_to_100)) [
  | inl a ↦ (numbers 100 1, rw (a, serve) refl, statuses-numbers 100 1)
  | inr a ↦ elim (Bool-cases (n == print_actual_time)) [
    | inl b ↦ (actual_time now ∷ [], rw (a, b, serve) refl, refl)
    | inr b ↦ elim (Bool-cases (n == count_state_change_requests)) [
      | inl c ↦ (requests counter ∷ [], rw (a, b, c, serve) refl, refl)
      | inr c ↦ elim (Bool-cases (n == count_actual_time_until_state_change)) [
        | inl d ↦ ([], rw (a, b, c, d, serve) refl, refl)
        | inr d ↦
            let e : (n == close_catcher) ≡ true = ground arith in
            (closing ∷ [], rw (a, b, c, d, e, serve) refl, refl)
      ]
    ]
  ]
]

abbrev pub flight : Option ℕ → List ℕ
flight none = []
flight (some n) = n ∷ []

abbrev pub IsServing : Life → Type 0
IsServing running = Unit
IsServing closed = Unit
IsServing failed = ⊥

abbrev pub IsOver : Life → Type 0
IsOver running = ⊥
IsOver closed = Unit
IsOver failed = Unit

-- The sender waits for a reply: the signal or its reply is on the way or neither is, or the catcher has closed
-- before the signal came.
abbrev pub Awaits : List ℤ → System → List ℤ → Type 0
Awaits left s rest =
    ((rest ≡ left) × ((s.request ≡ none) ⊎ (s.reply ≡ false)))
    ⊎ ((n : ℤ) × (rest ≡ n ∷ left) × (s.request ≡ none) × (s.reply ≡ false) × IsOver s.catcher.life)

abbrev pub Phase : Sender → System → List ℤ → Type 0
Phase (looping left) s rest = (rest ≡ left) × (s.request ≡ none) × (s.reply ≡ false)
Phase (sent left) s rest = Awaits left s rest
Phase (suspended left) s rest = Awaits left s rest
Phase (ended n left) s rest =
    (rest ≡ left) × (s.request ≡ none) × (s.reply ≡ false) × ((n ≡ 0) → left ≡ [])

abbrev pub taken : System → List ℕ
taken s = statuses s.catcher.output ++ flight s.request

-- What the catcher has taken and what is on the way to it are the first arguments, in order; each is a command, and the
-- counter counts those that it has taken.
abbrev pub IsInOrder : List ℤ → System → List ℤ → Type 0
IsInOrder args s rest =
    (map pos (taken s) ++ rest ≡ args)
    × Phase s.sender s rest
    × All IsCommand (taken s)
    × (s.catcher.counter ≡ length (statuses s.catcher.output))
    × IsServing s.catcher.life

pub All-append : (xs ys : List ℕ) → All IsCommand xs → All IsCommand ys → All IsCommand (xs ++ ys)
All-append [] ys h k = k
All-append (x ∷ xs) ys h k = (h.0, All-append xs ys h.1 k)

pub All-last : (xs : List ℕ) (n : ℕ) → All IsCommand (xs ++ n ∷ []) → IsCommand n
All-last [] n h = h.0
All-last (x ∷ xs) n h = All-last xs n h.1

pub map-append_one :
    (xs : List ℕ) (n : ℕ) (rest : List ℤ)
    → map pos (xs ++ n ∷ []) ++ rest ≡ map pos xs ++ pos n ∷ rest
map-append_one [] n rest = refl
map-append_one (x ∷ xs) n rest = ap (λ l. pos x ∷ l) (map-append_one xs n rest)

-- The catcher takes a signal.
pub handle_lem :
    (n now : ℕ) (c : Catcher)
    → IsCommand n
    → (statuses (handle n now c).output ≡ statuses c.output ++ n ∷ [])
      × ((handle n now c).counter ≡ c.counter + 1)
      × ((handle n now c).life ≡ c.life)
unfolding handle
handle_lem n now c h =
    let (ls, e, z) = serve-IsCommand n (c.counter + 1) now h in
    rw (e) (
      statuses-append (c.output ++ status n ∷ []) ls
          ∙ rw (z) (append-nil _ ∙ statuses-append c.output (status n ∷ [])),
      refl,
      refl,
    )

pub Serving-same : (a b : Life) → a ≡ b → IsServing b → IsServing a
Serving-same a b e h = rw (e) h

-- After the catcher has taken a signal the sender still awaits its reply.
pub Phase-handles :
    (d : Sender) (n now : ℕ) (s : System) (rest : List ℤ)
    → s.request ≡ some n
    → Phase d s rest
    → Phase d (catcher_handles n now s) rest
unfolding catcher_handles
Phase-handles (looping left) n now s rest e (r, q, p) = absurd (cc)
Phase-handles (sent left) n now s rest e (inl (r, p)) = inl (r, inl refl)
Phase-handles (sent left) n now s rest e (inr (a, r, q, p, o)) = absurd (cc)
Phase-handles (suspended left) n now s rest e (inl (r, p)) = inl (r, inl refl)
Phase-handles (suspended left) n now s rest e (inr (a, r, q, p, o)) = absurd (cc)
Phase-handles (ended k left) n now s rest e (r, q, p, z) = absurd (cc)

pub catcher_handles-IsInOrder :
    (args : List ℤ) (n now : ℕ) (s : System) (rest : List ℤ)
    → s.request ≡ some n
    → IsInOrder args s rest
    → IsInOrder args (catcher_handles n now s) rest
unfolding catcher_handles
catcher_handles-IsInOrder args n now s rest e (o, p, a, c, v) =
    let t : taken s ≡ statuses s.catcher.output ++ n ∷ [] =
      ap (λ r. statuses s.catcher.output ++ flight r) e in
    let (h, k, l) =
      handle_lem n now s.catcher (All-last (statuses s.catcher.output) n (rw (← t) a)) in
    let u : taken (catcher_handles n now s) ≡ taken s = append-nil _ ∙ h ∙ sym t in
    (
      ap (λ l. map pos l ++ rest) u ∙ o,
      Phase-handles s.sender n now s rest e p,
      rw (u) a,
      k ∙ omega (arith, c, ap (length {0}) h, length-append (statuses s.catcher.output) (n ∷ [])),
      Serving-same _ _ l v,
    )

-- The sender takes its signal.
pub takes_reply-IsInOrder :
    (args : List ℤ) (d : Sender) (s : System) (rest : List ℤ)
    → s.sender ≡ d
    → s.reply ≡ true
    → IsInOrder args s rest
    → IsInOrder args (record s { sender = woken d; reply = false }) rest
takes_reply-IsInOrder args d s rest q e (o, p, a, c, v) = (o, woken_phase d (rw (← q) p), a, c, v)
  where
    woken_phase :
        (d : Sender)
        → Phase d s rest
        → Phase (woken d) (record s { sender = woken d; reply = false }) rest
    woken_phase (looping left) (r, i, j) = (r, i, refl)
    woken_phase (sent left) (inl (r, p)) = inl (r, inr refl)
    woken_phase (sent left) (inr (n, r, i, j, k)) = absurd (cc)
    woken_phase (suspended left) (inl (r, inl i)) = (r, i, refl)
    woken_phase (suspended left) (inl (r, inr j)) = absurd (cc)
    woken_phase (suspended left) (inr (n, r, i, j, k)) = absurd (cc)
    woken_phase (ended n left) (r, i, j, z) = (r, i, refl, z)
