-- ===== src/MsgSession/Tests.antt =====
-- Two clients that are let in.
use operating_systems_agh.Prelude.{
  ℕ, ◌≡◌, refl, Bool, true, none, some, List, ◌∷◌, [], replicate, negsuc,
}
use operating_systems_agh.MsgQueue.{
  Key, Message, on_event, dispatch, handle_new_connection, admitted, assign_slot, handle_stop,
  clear_slots,
}
use operating_systems_agh.MsgQueue
use operating_systems_agh.MsgClient.{
  ask_in, let_in, modify_message, send_or_end, handle_message, handle_stop_signal,
  handle_stop_command, end_work,
}
use operating_systems_agh.MsgSession.{
  interrupt, interrupt_move, is_removed, World, outside, Move, begin, hear, handle, step,
  begin_move, hear_move, handle_move,
}

abbrev takes_all : List (Key × Message) → Key → Message → Bool
takes_all l q m = true

abbrev own_number : ℕ → ℕ
own_number k = k

abbrev blank_line : List ℕ
blank_line = replicate 255 0

abbrev at_start : World
at_start = record { server = MsgQueue.start; inbox = []; peers = replicate 2 outside }

abbrev moved : Move → World → World
moved t w = elim (step takes_all own_number t w) [ none ↦ w | some w' ↦ w' ]

-- Both ask, then both are answered, then both read their answers.
abbrev both_asked : World
both_asked = moved (begin 1 true 6 blank_line) (moved (begin 0 true 5 blank_line) at_start)

abbrev both_answered : World
both_answered = moved handle (moved handle both_asked)

abbrev both_in : World
both_in = moved (hear 0) (moved (hear 1) both_answered)

-- The two slots.
both_in_slots : both_in.server.queues ≡ some 0 ∷ some 1 ∷ []
unfolding step begin_move hear_move handle_move ask_in let_in modify_message send_or_end
    handle_message on_event dispatch handle_new_connection admitted assign_slot is_removed
both_in_slots = refl

-- A client that is interrupted before its INNIT sends a STOP, which counts a client down that was not counted.
early_interrupt : (moved handle (moved (interrupt 0 true) at_start)).server.connected ≡ negsuc 0
unfolding step interrupt_move handle_move handle_stop_signal handle_stop_command end_work on_event
    dispatch handle_stop clear_slots is_removed
early_interrupt = refl
