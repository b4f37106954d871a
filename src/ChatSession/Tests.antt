-- ===== src/ChatSession/Tests.antt =====
-- A line that one of two registered clients types for the other.
use Prim.Native.String.{String}
use operating_systems_agh.Prelude.{
  ℕ, ◌≡◌, refl, true, false, none, List, [], ◌∷◌, arith, Has, replicate, codes, c_str,
  is_terminated, overwrite,
}
use operating_systems_agh.Chat.{
  done, Server, Client, ready, Garbage, Effect, Message, write, bare, ping_, no_client, start,
  on_client_message,
}
use operating_systems_agh.ChatClient.{on_stdin, send, puts, on_message}
use operating_systems_agh.ChatClient.Parser.{typed, letter_ne}
use operating_systems_agh.ChatSession.{typed_line_is_shown}

abbrev client : ℕ → String → Client
client fd s = record {
  fd = fd;
  state = ready;
  nickname = overwrite (replicate 16 0) (codes s);
  responding = true;
}

abbrev ann_and_bob : Server
ann_and_bob = record start { clients = client 5 "ann" ∷ client 6 "bob" ∷ replicate 14 no_client }

abbrev no_garbage : Garbage
no_garbage = record { spill = []; junk = [] }

typed_line_is_shown_example :
    (m m' : Message) × (w : List Effect) × (on_stdin
        (bare ping_)
        (typed (codes "2ONE" ∷ codes "hi" ∷ codes "bob" ∷ []))
      ≡ send m)
    × (on_client_message no_garbage 0 (record { nick = none; message = m }) ann_and_bob
        ≡ done tt (record ann_and_bob { trace = w }))
    × Has (write 6 m') w
    × (on_message false m' ≡ puts (codes "ann: hi"))
unfolding c_str is_terminated
typed_line_is_shown_example =
    typed_line_is_shown (bare ping_) no_garbage ann_and_bob 1 0 (client 5 "ann") (client 6 "bob")
      (codes "hi") (codes "bob") refl refl refl refl refl refl
      (
        omega arith,
        ((refl, letter_ne 104 (omega arith)), ((refl, letter_ne 105 (omega arith)), tt)),
      )
      (
        omega arith,
        (
          (refl, letter_ne 98 (omega arith)),
          ((refl, letter_ne 111 (omega arith)), ((refl, letter_ne 98 (omega arith)), tt)),
        ),
      )
      (omega arith) (omega arith) (omega arith)
