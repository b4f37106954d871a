-- ===== src/Catcher/Lost.antt =====
-- lab4/zad3: a reply that comes before `sigsuspend` is lost.
use operating_systems_agh.Prelude.{
  ℕ, ◌≡◌, refl, ap, ◌∙◌, true, false, ◌&&◌, none, some, List, ◌∷◌, leb, ℤ, pos, arith,
}
use operating_systems_agh.Catcher.{
  Life, running, closed, failed, handle, look, sent, suspended, System, send, sender_moves,
  catcher_handles, takes_request, takes_reply, looks, Turn, sender_turn, sender_takes,
  catcher_takes, catcher_looks, step, start, Reachable, here, next,
}
use operating_systems_agh.Catcher.Order.{IsCommand, handle_lem}

-- The sender waits, and no signal is on its way.
abbrev IsLost : List ℤ → System → Type 0
IsLost left s = (s.sender ≡ suspended left) × (s.request ≡ none) × (s.reply ≡ false)

step-IsLost :
    (left : List ℤ) (n : Turn) (s : System) {t : System}
    → step n s ≡ some t
    → IsLost left s
    → IsLost left t
unfolding step
step-IsLost left sender_turn s e (d, q, r) =
    let f : sender_moves s.sender s ≡ none = ap (λ x. sender_moves x s) d in absurd (cc)
step-IsLost left sender_takes s e (d, q, r) =
    let f : takes_reply s.reply s ≡ none = ap (λ x. takes_reply x s) r in absurd (cc)
step-IsLost left (catcher_takes now) s e (d, q, r) =
    let f : takes_request s.catcher.life s.request now s ≡ none =
      ap (λ x. takes_request s.catcher.life x now s) q ∙ idle s.catcher.life in
    absurd (cc)
  where
    idle : (l : Life) → takes_request l none now s ≡ none
    idle running = refl
    idle closed = refl
    idle failed = refl
step-IsLost left (catcher_looks now) s {t} e (d, q, r) = looked s.catcher.life e
  where
    looked : (l : Life) → looks l now s ≡ some t → IsLost left t
    looked running e =
        let f : record s { catcher = look now s.catcher } ≡ t = cc in rw (← f) (d, q, r)
    looked closed e = absurd (cc)
    looked failed e = absurd (cc)

Reachable-IsLost : (left : List ℤ) {s t : System} → IsLost left s → Reachable s t → IsLost left t
Reachable-IsLost left h here = h
Reachable-IsLost left h (next {t} n r e) = step-IsLost left n t e (Reachable-IsLost left h r)

-- The state after a reply that was lost.
abbrev pub lost : ℕ → List ℤ → System
lost n left = record {
  catcher = handle n 0 (start left).catcher;
  sender = suspended left;
  request = none;
  reply = false;
}

-- The reply to the first command, taken by the sender before its `sigsuspend`.
lose_reply : (n : ℕ) (left : List ℤ) → IsCommand n → Reachable (start (pos n ∷ left)) (lost n left)
unfolding step send sender_moves catcher_handles
lose_reply n left h =
    let e : (leb 1 n && leb n 5) ≡ true = ground arith in
    let c = handle n 0 (start left).catcher in
    let l : c.life ≡ running = (handle_lem n 0 (start left).catcher h).2 in
    let a : System = record (start left) { sender = sent left; request = some n } in
    let b : System = record (start left) { catcher = c; sender = sent left; reply = true } in
    let d : System = record (start left) { catcher = c; sender = sent left } in
    let a' : Reachable (start (pos n ∷ left)) a = next sender_turn here (rw (e, step, send) refl) in
    let b' : Reachable (start (pos n ∷ left)) b = next (catcher_takes 0) a' (rw (l, step) refl) in
    let d' : Reachable (start (pos n ∷ left)) d = next sender_takes b' refl in
    next sender_turn d' refl

-- Whatever the first command and the arguments after it, a run reaches a state from which every run leaves
-- the sender in `sigsuspend`: its signal was served, and the reply came before it waited.
pub lost_reply :
    (n : ℕ) (left : List ℤ) (t : System)
    → IsCommand n
    → Reachable (lost n left) t
    → Reachable (start (pos n ∷ left)) (lost n left) × (t.sender ≡ suspended left)
lost_reply n left t h r = (lose_reply n left h, (Reachable-IsLost left (refl, refl, refl) r).0)
