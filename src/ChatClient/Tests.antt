-- ===== src/ChatClient/Tests.antt =====
-- A line typed at the client of lab10/zad1/client.c.
use operating_systems_agh.Prelude.{refl, [], ◌∷◌, codes, arith, str_eq, bytes_eq, c_str}
use operating_systems_agh.Chat.{bare, tone, ping_}
use operating_systems_agh.ChatClient.{on_stdin, command}
use operating_systems_agh.ChatClient.Parser.{IsSent, typed, on_stdin-IsSent, letter_ne, tone-IsWord}

on_stdin-IsSent_example :
    IsSent tone
      (codes "hi")
      (codes "bob")
      (on_stdin (bare ping_) (typed (codes "2ONE" ∷ codes "hi" ∷ codes "bob" ∷ [])))
unfolding command str_eq bytes_eq c_str
on_stdin-IsSent_example =
    on_stdin-IsSent (bare ping_) (codes "2ONE") (codes "hi") (codes "bob") tone refl tone-IsWord
      (
        omega arith,
        ((refl, letter_ne 104 (omega arith)), ((refl, letter_ne 105 (omega arith)), tt)),
      )
      (
        omega arith,
        (
          (refl, letter_ne 98 (omega arith)),
          ((refl, letter_ne 111 (omega arith)), ((refl, letter_ne 98 (omega arith)), tt)),
        ),
      )
      (omega arith) (omega arith) (omega arith)
