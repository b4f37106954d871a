-- ===== src/Catcher/Tests.antt =====
-- Runs of lab4/zad3.
use operating_systems_agh.Prelude.{◌≡◌, refl, none, List, [], ◌∷◌, ℤ, pos, arith, false}
use operating_systems_agh.Catcher.{
  System, suspended, ended, running, status, requests, closing, sender_turn, sender_takes,
  catcher_takes, catcher_looks, step, start, Reachable, here, next, handle, serve, look, send,
  sender_moves, catcher_handles,
}
use operating_systems_agh.Catcher.Order.{IsInOrder}
use operating_systems_agh.Catcher.Run.{Reachable-IsInOrder}
use operating_systems_agh.Catcher.Lost.{lost, lost_reply}

-- The commands 3 and 5, each reply taken in `sigsuspend`.
abbrev over : System
over = record {
  catcher = record {
    current_request = 5;
    counter = 2;
    life = running;
    output = status 3 ∷ requests 1 ∷ status 5 ∷ closing ∷ [];
  };
  sender = ended 0 [];
  request = none;
  reply = false;
}

over-Reachable : Reachable (start (pos 3 ∷ pos 5 ∷ [])) over
unfolding step handle serve look send sender_moves catcher_handles
over-Reachable =
    let a = next sender_turn here refl in
    let b = next sender_turn a refl in
    let c = next (catcher_takes 0) b refl in
    let d = next sender_takes c refl in
    let e = next sender_turn d refl in
    let f = next (catcher_takes 0) e refl in
    let g = next sender_turn f refl in let h = next sender_takes g refl in next sender_turn h refl

Reachable-IsInOrder_example : (rest : List ℤ) × IsInOrder (pos 3 ∷ pos 5 ∷ []) over rest
Reachable-IsInOrder_example = Reachable-IsInOrder (pos 3 ∷ pos 5 ∷ []) over-Reachable

abbrev quiet : System
unfolding look
quiet = record (lost 2 (pos 5 ∷ [])) { catcher = look 9 (lost 2 (pos 5 ∷ [])).catcher }

lost_reply_example :
    Reachable (start (pos 2 ∷ pos 5 ∷ [])) (lost 2 (pos 5 ∷ []))
    × (quiet.sender ≡ suspended (pos 5 ∷ []))
unfolding step handle serve look
lost_reply_example =
    lost_reply 2 (pos 5 ∷ []) quiet (omega arith) (next (catcher_looks 9) here refl)
