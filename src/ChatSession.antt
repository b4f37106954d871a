-- ===== src/ChatSession.antt =====
-- lab10/zad1, server.c and client.c together: a line that one user types goes through the server to the terminal of
-- another. What one process writes with `write` the other reads whole.
mod Tests
use operating_systems_agh.Prelude.{
  ℕ, suc, ◌+◌, ◌<◌, ◌≤◌, ◌≡◌, ◌∙◌, ap, sym, refl, true, false, ◌||◌, none, some, List, [], ◌∷◌,
  ◌++◌, ◌==◌, arith, length, drop, take, take-all, get_elem?, Has, c_str, codes, is_terminated,
  str_eq, str_eq_iff, overwrite, All, length-append, replicate, bytes_eq, ◌≢◌, ◌-◌,
}
use operating_systems_agh.Chat.{
  Effect, Message, MessageType, get, tone, done, Server, Client, ready, is_empty, Garbage, Input,
  write, sent, msg_len, on_client_message, chat_line,
}
use operating_systems_agh.Chat.Delivery.{tone_reaches_named, chat_line_lem, line, chat_line-fits}
use operating_systems_agh.ChatClient.{buffer_size, on_stdin, send, puts, on_message, command}
use operating_systems_agh.ChatClient.Parser.{
  IsWord, IsLetter, typed, c_str-overwrite, on_stdin-send, tone-IsWord,
}

is_terminated-nul : (s r : List ℕ) → is_terminated ((s ++ 0 ∷ []) ++ r) ≡ true
unfolding is_terminated
is_terminated-nul [] r = refl
is_terminated-nul (c ∷ s) r = ground (arith, is_terminated-nul s r)

-- What the terminal of another user shows.
abbrev shown_line : List ℕ → List ℕ → List ℕ
shown_line name text = name ++ (codes ": " ++ text)

-- The message that the client makes of the line.
abbrev to_send : Message → List ℕ → List ℕ → Message
to_send junk text nick = record {
  kind = tone;
  text = overwrite junk.text (text ++ 0 ∷ []);
  other_nickname = overwrite junk.other_nickname (nick ++ 0 ∷ []);
}

-- A message `get` with a line that the server has built is shown as that line.
get-shown :
    (nick text spare : List ℕ) {out : List ℕ}
    → chat_line nick text ≡ some out
    → on_message false (sent spare get out) ≡ puts (line nick text)
unfolding on_message
get-shown nick text spare {out} h =
    let (_, _, _, size, string) = chat_line_lem nick text h in
    ap (λ l. puts (c_str l)) (take-all 256 out (omega arith)) ∙ ap puts string

command_tone : command (codes "2ONE") ≡ some tone
unfolding command str_eq bytes_eq c_str
command_tone = refl

-- A registered client types the line "2ONE text nick": two words that leave room for the NUL in their arrays, in
-- `buffer` and, with the client's nickname and ": ", in `out`. The client sends a message on which the server comes
-- back with no slot changed, having written to the client of slot `i`, whose nickname is `nick`, a message on
-- which that one shows the sender's nickname, ": " and the text.
pub typed_line_is_shown :
    (junk : Message) (g : Garbage) (s : Server) (i j : ℕ) (c d : Client) (text nick : List ℕ)
    → get_elem? s.clients j ≡ some c
    → c.state ≡ ready
    → is_terminated c.nickname ≡ true
    → get_elem? s.clients i ≡ some d
    → is_empty d.state ≡ false
    → c_str d.nickname ≡ nick
    → IsWord text
    → IsWord nick
    → length (c_str c.nickname) + 2 + length text < msg_len
    → length nick < msg_len
    → length (typed (codes "2ONE" ∷ text ∷ nick ∷ [])) < buffer_size
    → (m m' : Message) × (w : List Effect) × (on_stdin junk
          (typed (codes "2ONE" ∷ text ∷ nick ∷ []))
        ≡ send m)
      × (on_client_message g j (record { nick = none; message = m }) s
          ≡ done tt (record s { trace = s.trace ++ w }))
      × Has (write d.fd m') w
      × (on_message false m' ≡ puts (shown_line (c_str c.nickname) text))
typed_line_is_shown junk g s i j c d text nick at state closed at' live name t n short short' fits =
    let string = c_str-overwrite junk.text text t.1 in
    let ended = is_terminated-nul text (drop (length (text ++ 0 ∷ [])) junk.text) in
    let m = to_send junk text nick in
    let built = chat_line-fits c.nickname m.text closed ended (rw string short) in
    let (w, run, reach, _) =
      tone_reaches_named g j (record { nick = none; message = m }) s at state refl built in
    (
      m,
      sent g.junk get
          (line c.nickname m.text ++ replicate (msg_len - length (line c.nickname m.text)) 0),
      w,
      on_stdin-send junk (codes "2ONE") text nick tone command_tone tone-IsWord t n (omega arith)
          short' fits,
      run,
      reach i d at' live (
          (str_eq_iff d.nickname m.other_nickname).1
            (name ∙ sym (c_str-overwrite junk.other_nickname nick n.1))),
      get-shown c.nickname m.text g.junk built
          ∙ ap (λ l. puts (shown_line (c_str c.nickname) l)) string,
    )
