-- ===== src/Catcher/Run.antt =====
-- lab4/zad3: every turn of the two processes keeps the order, and what an end of the sender means.
use operating_systems_agh.Prelude.{
  ℕ, ◌≡◌, refl, ap, sym, ◌∙◌, inl, inr, false, ◌&&◌, Option, none, some, List, [], ◌∷◌, ◌++◌, ◌==◌,
  leb, ℤ, pos, negsuc, arith, map, append-nil, Bool-cases,
}
use operating_systems_agh.Catcher.{
  close_catcher, actual_time, Life, running, closed, failed, Catcher, look, Sender, looping, sent,
  suspended, ended, System, queued, send, sender_moves, woken, catcher_handles, Turn, sender_turn,
  sender_takes, catcher_takes, catcher_looks, takes_request, looks, step, start, Reachable, here,
  next,
}
use operating_systems_agh.Catcher.Order.{
  statuses, statuses-append, IsCommand, flight, IsOver, Phase, taken, IsInOrder, All-append,
  map-append_one, Serving-same, catcher_handles-IsInOrder, takes_reply-IsInOrder,
}

Phase-at :
    (d : Sender) (s : System) (rest : List ℤ)
    → s.sender ≡ d
    → Phase s.sender s rest
    → Phase d s rest
Phase-at d s rest q p = rw (← q) p

-- A command that the sender sends.
sent_command :
    (args : List ℤ) (n : ℕ) (left : List ℤ) (s : System) (l : Life)
    → s.catcher.life ≡ l
    → s.request ≡ none
    → s.reply ≡ false
    → IsCommand n
    → IsInOrder args s (pos n ∷ left)
    → (rest : List ℤ) × IsInOrder args
        (record s { sender = sent left; request = queued l s.request n })
        rest
sent_command args n left s running f i j h (o, p, a, c, v) =
    let t : taken s ≡ statuses s.catcher.output =
      ap (λ r. statuses s.catcher.output ++ flight r) i ∙ append-nil _ in
    (
      left,
      rw (i) (
        map-append_one (statuses s.catcher.output) n left
            ∙ ap (λ l. map pos l ++ pos n ∷ left) (sym t)
            ∙ o,
        inl (refl, inr j),
        All-append (statuses s.catcher.output) (n ∷ []) (rw (← t) a) (h, tt),
        c,
        v,
      ),
    )
sent_command args n left s closed f i j h (o, p, a, c, v) =
    (pos n ∷ left, (o, inr (pos n, refl, i, j, rw (f, IsOver) tt), a, c, v))
sent_command args n left s failed f i j h (o, p, a, c, v) =
    absurd (Serving-same failed s.catcher.life (sym f) v)

-- The sender sends an argument, or ends on one that is no command.
send-IsInOrder :
    (args : List ℤ) (a : ℤ) (left : List ℤ) (s : System)
    → s.request ≡ none
    → s.reply ≡ false
    → IsInOrder args s (a ∷ left)
    → (rest : List ℤ) × IsInOrder args (send a left s) rest
unfolding send
send-IsInOrder args (negsuc n) left s i j (o, p, a, c, v) =
    (negsuc n ∷ left, (o, (refl, i, j, λ z. absurd (omega arith)), a, c, v))
send-IsInOrder args (pos n) left s i j (o, p, a, c, v) = elim (Bool-cases (leb 1 n && leb n 5)) [
  | inl e ↦
      let h : IsCommand n = ground arith in
      rw (e, send) (sent_command args n left s s.catcher.life refl i j h (o, p, a, c, v))
  | inr e ↦ rw (e, send) (pos n ∷ left, (o, (refl, i, j, λ z. absurd (omega arith)), a, c, v))
]

sender_moves-IsInOrder :
    (args : List ℤ) (d : Sender) (s : System) (rest : List ℤ) {t : System}
    → s.sender ≡ d
    → sender_moves d s ≡ some t
    → IsInOrder args s rest
    → (rest' : List ℤ) × IsInOrder args t rest'
unfolding sender_moves
sender_moves-IsInOrder args (looping []) s rest {t} q e (o, p, a, c, v) =
    let (r, i, j) = Phase-at (looping []) s rest q p in
    let f : record s { sender = ended 0 [] } ≡ t = cc in
    rw (← f) (rest, (o, (r, i, j, λ z. refl), a, c, v))
sender_moves-IsInOrder args (looping (x ∷ left)) s rest {t} q e (o, p, a, c, v) =
    let (r, i, j) = Phase-at (looping (x ∷ left)) s rest q p in
    let f : send x left s ≡ t = cc in
    rw (← f) (
      send-IsInOrder args x left s i j
        (ap (λ l. map pos (taken s) ++ l) (sym r) ∙ o, rw (← r) p, a, c, v))
sender_moves-IsInOrder args (sent left) s rest {t} q e (o, p, a, c, v) =
    let f : record s { sender = suspended left } ≡ t = cc in
    rw (← f) (rest, (o, Phase-at (sent left) s rest q p, a, c, v))
sender_moves-IsInOrder args (suspended left) s rest q e h = absurd (cc)
sender_moves-IsInOrder args (ended n left) s rest q e h = absurd (cc)

-- A round of the catcher's loop.
look-IsInOrder :
    (args : List ℤ) (now : ℕ) (s : System) (rest : List ℤ)
    → s.catcher.life ≡ running
    → IsInOrder args s rest
    → IsInOrder args (record s { catcher = look now s.catcher }) rest
unfolding look
look-IsInOrder args now s rest f (o, p, a, c, v) =
    elim (Bool-cases (s.catcher.current_request == close_catcher)) [
      | inl e ↦
          rw (e, look) (o, Phase-life s.sender (record s.catcher { life = closed }) p, a, c, tt)
      | inr e ↦ elim (Bool-cases (s.catcher.current_request == 4)) [
        | inl g ↦
            let h =
              statuses-append s.catcher.output (actual_time now ∷ [])
              ∙ append-nil (statuses s.catcher.output) in
            rw (e, g, look) (rw (h) o, Phase-life s.sender _ p, rw (h) a, rw (h) c, v)
        | inr g ↦ rw (e, g, look) (o, p, a, c, v)
      ]
    ]
  where
    over : IsOver s.catcher.life → ⊥
    over k = rw f at k

    Phase-life :
        (d : Sender) (c : Catcher) → Phase d s rest → Phase d (record s { catcher = c }) rest
    Phase-life (looping left) l p = p
    Phase-life (sent left) l (inl p) = inl p
    Phase-life (sent left) l (inr (n, r, i, j, k)) = absurd (over k)
    Phase-life (suspended left) l (inl p) = inl p
    Phase-life (suspended left) l (inr (n, r, i, j, k)) = absurd (over k)
    Phase-life (ended n left) l p = p

step-IsInOrder :
    (args : List ℤ) (n : Turn) (s : System) (rest : List ℤ) {t : System}
    → step n s ≡ some t
    → IsInOrder args s rest
    → (rest' : List ℤ) × IsInOrder args t rest'
unfolding step
step-IsInOrder args sender_turn s rest e h = sender_moves-IsInOrder args s.sender s rest refl e h
step-IsInOrder args sender_takes s rest {t} e h = elim (Bool-cases s.reply) [
  | inl r ↦
      let f : record s { sender = woken s.sender; reply = false } ≡ t = cc in
      (rest, rw (← f) (takes_reply-IsInOrder args s.sender s rest refl r h))
  | inr r ↦ absurd (cc)
]
step-IsInOrder args (catcher_takes now) s rest {t} e h = requested s.catcher.life s.request refl e
  where
    requested :
        (l : Life) (r : Option ℕ)
        → s.request ≡ r
        → takes_request l r now s ≡ some t
        → (rest' : List ℤ) × IsInOrder args t rest'
    requested running (some n) q e =
        let f : catcher_handles n now s ≡ t = cc in
        (rest, rw (← f) (catcher_handles-IsInOrder args n now s rest q h))
    requested running none q e = absurd (cc)
    requested closed r q e = absurd (cc)
    requested failed r q e = absurd (cc)
step-IsInOrder args (catcher_looks now) s rest {t} e h = looked s.catcher.life refl e
  where
    looked :
        (l : Life)
        → s.catcher.life ≡ l
        → looks l now s ≡ some t
        → (rest' : List ℤ) × IsInOrder args t rest'
    looked running f e =
        let g : record s { catcher = look now s.catcher } ≡ t = cc in
        (rest, rw (← g) (look-IsInOrder args now s rest f h))
    looked closed f e = absurd (cc)
    looked failed f e = absurd (cc)

-- In every state that a run from the start reaches, what the catcher has taken and what is on the way to
-- it are the first arguments of the sender, in order, each a command that it knows, and the counter
-- counts those taken. What is left is what the sender has not sent, but for one command that may have
-- come when the catcher had closed; and a sender that has ended with 0 has nothing left.
pub Reachable-IsInOrder :
    (args : List ℤ) {s : System}
    → Reachable (start args) s
    → (rest : List ℤ) × IsInOrder args s rest
Reachable-IsInOrder args here = (args, (refl, (refl, refl, refl), tt, refl, tt))
Reachable-IsInOrder args (next {t} n r e) =
    let (rest, h) = Reachable-IsInOrder args r in step-IsInOrder args n t rest e h
