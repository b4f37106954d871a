-- ===== src/Barber/Fifo.antt =====
-- The queue of lab7/zad1/v1/queue.c keeps its memory sound and is first in, first out.
use operating_systems_agh.Prelude.{
  ℕ, zero, suc, ◌+◌, ◌<◌, ◌≡◌, ◌≢◌, refl, ap, sym, ◌∙◌, true, false, List, [], ◌∷◌, ◌++◌, arith,
  length, get_or, set, take, drop, c_str, is_terminated, length-set, length-append, ◌==◌,
  Bool-cases, inl, inr, overwrite, All, append_assoc, append-nil,
}
use operating_systems_agh.Barber.{
  buffer_size, strlen, queue_full, queue_empty, queue_pop, queue_push,
}
use operating_systems_agh.Barber.Queue.{
  IsBuffer, strlen_lt, is_terminated-set, c_str-set_end, c_str-set_nul, c_str-take,
  is_terminated-take, length-take_le, length-overwrite,
}

nil_of_length : (l : List ℕ) → length l ≡ 0 → l ≡ []
nil_of_length [] h = refl
nil_of_length (x ∷ l) h = absurd (omega arith)

queue_push-full : (q : List ℕ) (b : ℕ) → queue_full q ≡ true → queue_push q b ≡ q
unfolding queue_push
queue_push-full q b e = rw (e, queue_push) refl

queue_push-room :
    (q : List ℕ) (b : ℕ)
    → queue_full q ≡ false
    → queue_push q b ≡ set (set q (strlen q) b) (suc (strlen q)) 0
unfolding queue_push
queue_push-room q b e = rw (e, queue_push) (ap (λ n. set (set q (strlen q) b) n 0) (omega arith))

pub queue_pop-empty : (q : List ℕ) → queue_empty q ≡ true → queue_pop q ≡ (q, 0)
unfolding queue_pop
queue_pop-empty q e = rw (e, queue_pop) refl

pub queue_pop-first :
    (q : List ℕ)
    → queue_empty q ≡ false
    → queue_pop q ≡ (overwrite q (take (strlen q + 1) (drop 1 q)), get_or q 0 0)
unfolding queue_pop
queue_pop-first q e = rw (e, queue_pop) refl

pub queue_push-IsBuffer : (q : List ℕ) (b : ℕ) → IsBuffer q → IsBuffer (queue_push q b)
unfolding queue_full
queue_push-IsBuffer q b (n, t) = elim (Bool-cases (queue_full q)) [
  | inl e ↦ rw (queue_push-full q b e) (n, t)
  | inr e ↦
      let l = length-set q (strlen q) b in
      let lt = strlen_lt q t in
      rw (queue_push-room q b e) (
        omega (arith, length-set (set q (strlen q) b) (suc (strlen q)) 0),
        is_terminated-set (set q (strlen q) b) (suc (strlen q)) (ground arith),
      )
]

-- A byte that is not 0 goes to the end, if there is room.
pub queue_push-c_str :
    (q : List ℕ) (b : ℕ)
    → IsBuffer q
    → strlen q + 1 < buffer_size
    → b ≢ 0
    → c_str (queue_push q b) ≡ c_str q ++ b ∷ []
unfolding queue_full
queue_push-c_str q b (n, t) h ne = elim (Bool-cases (queue_full q)) [
  | inl e ↦ absurd (ground arith)
  | inr e ↦ rw (queue_push-room q b e) (c_str-set_end q b (omega arith) ne)
]

-- A byte 0 is lost.
pub queue_push-nul : (q : List ℕ) → c_str (queue_push q 0) ≡ c_str q
queue_push-nul q = elim (Bool-cases (queue_full q)) [
  | inl e ↦ rw (queue_push-full q 0 e) refl
  | inr e ↦ rw (queue_push-room q 0 e) (c_str-set_nul q)
]

pub queue_pop-IsBuffer : (q : List ℕ) → IsBuffer q → IsBuffer (queue_pop q).0
unfolding queue_empty c_str is_terminated
queue_pop-IsBuffer q (n, t) = elim (Bool-cases (queue_empty q)) [
  | inl e ↦ rw (queue_pop-empty q e) (n, t)
  | inr e ↦ rw (queue_pop-first q e) (moved q e n t)
]
  where
    moved :
        (q : List ℕ)
        → queue_empty q ≡ false
        → length q ≡ buffer_size
        → is_terminated q ≡ true
        → IsBuffer (overwrite q (take (strlen q + 1) (drop 1 q)))
    moved [] e n t = absurd (cc)
    moved (c ∷ s) e n t =
        let k = strlen (c ∷ s) + 1 in
        let m = take k s in
        let l = length-take_le k s in
        let u : is_terminated s ≡ true = ground arith in
        let lt : length (c_str s) < k = ground arith in
        (
          length-overwrite (c ∷ s) m (omega arith) ∙ n,
          is_terminated-take s k (drop (length m) (c ∷ s)) u lt,
        )

-- The first byte is handed out and taken away.
pub queue_pop-c_str :
    (q : List ℕ) (b : ℕ) (s : List ℕ)
    → IsBuffer q
    → c_str q ≡ b ∷ s
    → (c_str (queue_pop q).0 ≡ s) × ((queue_pop q).1 ≡ b)
unfolding queue_empty c_str is_terminated
queue_pop-c_str [] b s h e = absurd (cc)
queue_pop-c_str (c ∷ q) b s (n, t) e = elim (Bool-cases (c == 0)) [
  | inl z ↦ absurd (ground arith)
  | inr z ↦
      let k = strlen (c ∷ q) + 1 in
      let m = take k q in
      let u : is_terminated q ≡ true = ground arith in
      let lt : length (c_str q) < k = ground arith in
      let v = c_str-take q k (drop (length m) (c ∷ q)) u lt in
      let ne : queue_empty (c ∷ q) ≡ false = ground arith in
      let w : (c_str q ≡ s) × (c ≡ b) = ground arith in
      rw (queue_pop-first (c ∷ q) ne) (v ∙ w.0, w.1)
]

-- `queue_push` for one byte after another.
abbrev pub push_each : List ℕ → List ℕ → List ℕ
push_each q [] = q
push_each q (b ∷ bs) = push_each (queue_push q b) bs

-- What `n` calls of `queue_pop` hand out.
abbrev pub pop_times : ℕ → List ℕ → List ℕ
pop_times zero q = []
pop_times (suc n) q = (queue_pop q).1 ∷ pop_times n (queue_pop q).0

-- A byte that the queue can tell from its end.
abbrev pub IsByte : ℕ → Type 0
IsByte b = b ≢ 0

push_each-c_str :
    (q bs : List ℕ)
    → IsBuffer q
    → All IsByte bs
    → strlen q + length bs < buffer_size
    → IsBuffer (push_each q bs) × (c_str (push_each q bs) ≡ c_str q ++ bs)
push_each-c_str q [] h ne lt = (h, sym (append-nil (c_str q)))
push_each-c_str q (b ∷ bs) h ne lt =
    let e = queue_push-c_str q b h (omega arith) ne.0 in
    let n = ap (length {0}) e in
    let m = length-append (c_str q) (b ∷ []) in
    let (i, r) =
      push_each-c_str (queue_push q b) bs (queue_push-IsBuffer q b h) ne.1 (omega arith) in
    (i, r ∙ ap (λ l. l ++ bs) e ∙ append_assoc (c_str q) (b ∷ []) bs)

pop_times-c_str : (q bs : List ℕ) → IsBuffer q → c_str q ≡ bs → pop_times (length bs) q ≡ bs
pop_times-c_str q [] h e = refl
pop_times-c_str q (b ∷ bs) h e =
    let (r, f) = queue_pop-c_str q b bs h e in
    rw (f) (ap (λ l. b ∷ l) (pop_times-c_str (queue_pop q).0 bs (queue_pop-IsBuffer q h) r))

-- On an empty queue, pushing bytes that are not 0, fewer than fit, and popping as many times hands
-- out the same bytes in the same order.
pub pop_times-push_each :
    (q bs : List ℕ)
    → IsBuffer q
    → queue_empty q ≡ true
    → All IsByte bs
    → length bs < buffer_size
    → pop_times (length bs) (push_each q bs) ≡ bs
unfolding queue_empty
pop_times-push_each q bs h e ne lt =
    let z : strlen q ≡ 0 = ground arith in
    let (i, r) = push_each-c_str q bs h ne (omega arith) in
    pop_times-c_str (push_each q bs) bs i (r ∙ ap (λ l. l ++ bs) (nil_of_length (c_str q) z))
