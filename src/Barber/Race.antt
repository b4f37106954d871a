-- ===== src/Barber/Race.antt =====
-- Two barbers inside `queue_pop` of lab7/zad1/v1/queue.c at once, as barber.c allows, which takes no lock: the read of the
-- first byte is one turn, the move of the others another.
use operating_systems_agh.Prelude.{
  ℕ, ◌+◌, ◌≡◌, refl, ap, ◌∙◌, Bool, true, false, List, [], ◌∷◌, arith, get_or, take, drop, c_str,
  overwrite, if◌then◌else◌,
}
use operating_systems_agh.Barber.{strlen, queue_empty, queue_pop}
use operating_systems_agh.Barber.Queue.{IsBuffer}
use operating_systems_agh.Barber.Fifo.{queue_pop-first, queue_pop-IsBuffer, queue_pop-c_str}

-- Where a call of `queue_pop` stands: before the test, with `byte` read, or after the `return`.
pub data Popping : Type 0 where
  at_test : Popping
  to_move : ℕ → Popping
  popped : ℕ → Popping

-- The queue with the two calls.
pub record Two : Type 0 where
  pub queue : List ℕ
  pub first : Popping
  pub second : Popping

-- The next turn of a call.
pub pop_turn : List ℕ → Popping → List ℕ × Popping
unfolding queue_empty
pop_turn q at_test = if queue_empty q then (q, popped 0) else (q, to_move (get_or q 0 0))
pop_turn q (to_move byte) = (overwrite q (take (strlen q + 1) (drop 1 q)), popped byte)
pop_turn q (popped byte) = (q, popped byte)

-- The turns in the order given: true is one of the first call.
pub pop_turns : List Bool → Two → Two
unfolding pop_turn
pop_turns [] t = t
pop_turns (true ∷ bs) t =
    let (q, p) = pop_turn t.queue t.first in pop_turns bs (record t { queue = q; first = p })
pop_turns (false ∷ bs) t =
    let (q, p) = pop_turn t.queue t.second in pop_turns bs (record t { queue = q; second = p })

turn_reads :
    (q : List ℕ) → queue_empty q ≡ false → pop_turn q at_test ≡ (q, to_move (queue_pop q).1)
unfolding pop_turn
turn_reads q e = rw (queue_pop-first q e, e) refl

turn_moves :
    (q : List ℕ) (b : ℕ)
    → queue_empty q ≡ false
    → pop_turn q (to_move b) ≡ ((queue_pop q).0, popped b)
unfolding pop_turn
turn_moves q b e = rw (queue_pop-first q e) refl

not_empty : (q : List ℕ) (a : ℕ) (s : List ℕ) → c_str q ≡ a ∷ s → queue_empty q ≡ false
unfolding queue_empty
not_empty q a s e = ground arith

abbrev pub two : List ℕ → Popping → Popping → Two
two q p o = record { queue = q; first = p; second = o }

first_turn :
    (q : List ℕ) (p o : Popping) (bs : List Bool) {q' : List ℕ} {p' : Popping}
    → pop_turn q p ≡ (q', p')
    → pop_turns (true ∷ bs) (two q p o) ≡ pop_turns bs (two q' p' o)
unfolding pop_turns
first_turn q p o bs e = ap (λ (r : List ℕ × Popping). pop_turns bs (two r.0 r.1 o)) e

second_turn :
    (q : List ℕ) (p o : Popping) (bs : List Bool) {q' : List ℕ} {p' : Popping}
    → pop_turn q p ≡ (q', p')
    → pop_turns (false ∷ bs) (two q o p) ≡ pop_turns bs (two q' o p')
unfolding pop_turns
second_turn q p o bs e = ap (λ (r : List ℕ × Popping). pop_turns bs (two r.0 o r.1)) e

no_turn : {t : Two} → pop_turns [] t ≡ t
unfolding pop_turns
no_turn = refl

module _ (q : List ℕ) (e : queue_empty q ≡ false) (f : queue_empty (queue_pop q).0 ≡ false) where
  one_after_other :
      pop_turns (true ∷ true ∷ false ∷ false ∷ []) (two q at_test at_test)
      ≡ two
          (queue_pop (queue_pop q).0).0
          (popped (queue_pop q).1)
          (popped (queue_pop (queue_pop q).0).1)
  one_after_other =
      first_turn q at_test at_test (true ∷ false ∷ false ∷ []) (turn_reads q e)
      ∙ first_turn q (to_move (queue_pop q).1) at_test (false ∷ false ∷ [])
          (turn_moves q (queue_pop q).1 e)
      ∙ second_turn (queue_pop q).0 at_test (popped (queue_pop q).1) (false ∷ [])
          (turn_reads (queue_pop q).0 f)
      ∙ second_turn (queue_pop q).0 (to_move (queue_pop (queue_pop q).0).1) (popped (queue_pop q).1)
          [] (turn_moves (queue_pop q).0 (queue_pop (queue_pop q).0).1 f)
      ∙ no_turn

  interleaved :
      pop_turns (true ∷ false ∷ true ∷ false ∷ []) (two q at_test at_test)
      ≡ two (queue_pop (queue_pop q).0).0 (popped (queue_pop q).1) (popped (queue_pop q).1)
  interleaved =
      first_turn q at_test at_test (false ∷ true ∷ false ∷ []) (turn_reads q e)
      ∙ second_turn q at_test (to_move (queue_pop q).1) (true ∷ false ∷ []) (turn_reads q e)
      ∙ first_turn q (to_move (queue_pop q).1) (to_move (queue_pop q).1) (false ∷ [])
          (turn_moves q (queue_pop q).1 e)
      ∙ second_turn (queue_pop q).0 (to_move (queue_pop q).1) (popped (queue_pop q).1) []
          (turn_moves (queue_pop q).0 (queue_pop q).1 f)
      ∙ no_turn

-- On a queue that starts with two bytes, the calls one after the other hand out the one and the other; where both
-- read before one of them moves, both hand out the first byte, the second is handed out by none, and the queue
-- is the same in the end.
pub race_loses_second :
    (q : List ℕ) (a b : ℕ) (s : List ℕ)
    → IsBuffer q
    → c_str q ≡ a ∷ b ∷ s
    → (r : List ℕ) × (c_str r ≡ s)
      × (pop_turns (true ∷ true ∷ false ∷ false ∷ []) (two q at_test at_test)
          ≡ two r (popped a) (popped b))
      × (pop_turns (true ∷ false ∷ true ∷ false ∷ []) (two q at_test at_test)
          ≡ two r (popped a) (popped a))
race_loses_second q a b s h e =
    let (rest, one) = queue_pop-c_str q a (b ∷ s) h e in
    let (last, second) = queue_pop-c_str (queue_pop q).0 b s (queue_pop-IsBuffer q h) rest in
    let ne = not_empty q a (b ∷ s) e in
    let ne' = not_empty (queue_pop q).0 b s rest in
    (
      (queue_pop (queue_pop q).0).0,
      last,
      one_after_other q ne ne' ∙ rw (one, second) refl,
      interleaved q ne ne' ∙ rw (one) refl,
    )
