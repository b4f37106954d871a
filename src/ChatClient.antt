-- ===== src/ChatClient.antt =====
-- lab10/zad1/client.c: the chat client. What the user types becomes a message for the server, and a message of the
-- server ends the client, is answered or is shown.
pub mod Parser
mod Tests
use operating_systems_agh.Prelude.{
  ℕ, zero, suc, ◌+◌, ◌≡◌, Bool, true, false, ◌||◌, Option, none, some, List, [], ◌∷◌, ◌++◌, ◌==◌,
  ltb, length, codes, overwrite, replicate, c_str, str_eq, tokens, is_terminated, set,
  if◌then◌else◌,
}
use operating_systems_agh.Chat.{
  Message, MessageType, msg_len, list, tall, tone, stop, ping_, username_taken, server_full, get,
  disconnect, bare,
}

-- `char buffer[512]`
abbrev pub buffer_size : ℕ
buffer_size = 512

-- `korektor`
abbrev pub korektor : ℕ → Bool
korektor c = c == 32 || (c == 9 || c == 10)

-- `type`, `text` and `other_nickname` while the line is read; no type is -1.
pub record Draft : Type 0 where
  pub kind : Option MessageType
  pub text : List ℕ
  pub other_nickname : List ℕ

-- What becomes of a line: a message for the server, nothing, or a write outside an array.
pub data Reading : Type 0 where
  send : Message → Reading
  skipped : Reading
  fault : Reading

-- A token is taken, the line is given up, or the token is written outside its array.
pub data Step : Type 0 where
  taken : Draft → Step
  broke : Step
  outside : Step

-- Lines 101 to 109
unfoldable pub command : List ℕ → Option MessageType
command token = elim (str_eq token (codes "LIST")) [
  | true ↦ some list
  | false ↦ elim (str_eq token (codes "2ALL")) [
    | true ↦ some tall
    | false ↦ elim (str_eq token (codes "2ONE")) [
      | true ↦ some tone
      | false ↦ elim (str_eq token (codes "STOP")) [ true ↦ some stop | false ↦ none ]
    ]
  ]
]

-- `memcpy` of a token and the NUL after it
abbrev pub copy_token : List ℕ → List ℕ → List ℕ
copy_token array token = overwrite array (token ++ 0 ∷ [])

abbrev pub fits : List ℕ → Bool
fits token = ltb (length token) msg_len

-- The `switch (idx)`; a fourth token breaks off.
pub on_token : ℕ → List ℕ → Draft → Step
unfolding command
on_token zero token d = elim (command token) [
  | none ↦ broke
  | some k ↦ taken (record d { kind = some k })
]
on_token (suc zero) token d = elim (fits token) [
  | true ↦ taken (record d { text = copy_token d.text token })
  | false ↦ outside
]
on_token (suc (suc zero)) token d = elim (fits token) [
  | true ↦ taken (record d { other_nickname = copy_token d.other_nickname token })
  | false ↦ outside
]
on_token (suc (suc (suc n))) token d = broke

-- Lines 136 to 141: `junk` is the message on the stack, not written before.
abbrev pub written : Message → Draft → Reading
written junk d = elim d.kind [
  | none ↦ skipped
  | some k ↦ send (record {
    kind = k;
    text = overwrite junk.text (c_str d.text ++ 0 ∷ []);
    other_nickname = overwrite junk.other_nickname (c_str d.other_nickname ++ 0 ∷ []);
  })
]

-- The loop over the tokens, from index `idx` on.
pub on_tokens : Message → ℕ → List (List ℕ) → Draft → Reading
unfolding on_token
on_tokens junk idx [] d = written junk d
on_tokens junk idx (t ∷ ts) d = elim (on_token idx t d) [
  | taken d' ↦ on_tokens junk (suc idx) ts d'
  | broke ↦ skipped
  | outside ↦ fault
]

abbrev pub no_draft : Draft
no_draft = record { kind = none; text = replicate msg_len 0; other_nickname = replicate msg_len 0 }

-- Lines 73 to 141, on the bytes that `read` gives; 512 of them leave no room for the NUL.
pub on_stdin : Message → List ℕ → Reading
unfolding on_tokens
on_stdin junk bytes = elim (ltb (length bytes) buffer_size) [
  | false ↦ fault
  | true ↦ on_tokens junk 0 (tokens korektor (c_str bytes)) no_draft
]

-- What the client does on a message of the server.
pub data Reaction : Type 0 where
  closed_exit : Reaction
  bare_exit : Reaction
  answer : Message → Reaction
  puts : List ℕ → Reaction
  nothing : Reaction

abbrev pub refuses : MessageType → Bool
refuses username_taken = true
refuses server_full = true
refuses _ = false

-- The chain of tests after the first two; `hup` is whether the event has EPOLLHUP.
abbrev pub by_type : MessageType → Message → Reaction
by_type ping_ m = answer m
by_type stop m = closed_exit
by_type get m = puts (c_str m.text)
by_type _ m = nothing

-- Lines 149 to 167
unfoldable pub on_message : Bool → Message → Reaction
on_message hup m = elim (refuses m.kind) [
  | true ↦ closed_exit
  | false ↦ elim hup [ true ↦ bare_exit | false ↦ by_type m.kind m ]
]

-- What the handler of SIGINT writes before the exit.
abbrev pub on_interrupt : Message
on_interrupt = bare disconnect
