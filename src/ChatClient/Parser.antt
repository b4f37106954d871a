-- ===== src/ChatClient/Parser.antt =====
-- The parser of lab10/zad1/client.c reads back what is typed.
use operating_systems_agh.Prelude.{
  tokens_from-word, flush-word, c_str-word, ℕ, ◌<◌, ◌≡◌, ◌≢◌, refl, ap, ◌∙◌, true, false, some,
  List, [], ◌∷◌, ◌++◌, ltb, length, overwrite, replicate, drop, c_str, tokens, tokens_from, All,
  arith, append_assoc, append-nil, c_str-append, codes,
}
use operating_systems_agh.Chat.{Message, MessageType, msg_len}
use operating_systems_agh.ChatClient.{
  buffer_size, korektor, Reading, send, skipped, fault, command, fits, on_token, on_tokens,
  no_draft, on_stdin,
}

-- A byte that is part of a word.
abbrev pub IsLetter : ℕ → Type 0
IsLetter c = (korektor c ≡ false) × (c ≢ 0)

abbrev pub IsWord : List ℕ → Type 0
IsWord w = (0 < length w) × All IsLetter w

pub letter_ne : (c : ℕ) → 0 < c → c ≢ 0
letter_ne c h e = omega arith

pub tone-IsWord : IsWord (codes "2ONE")
tone-IsWord = (
  omega arith,
  (
    (refl, letter_ne 50 (omega arith)),
    (
      (refl, letter_ne 79 (omega arith)),
      ((refl, letter_ne 78 (omega arith)), ((refl, letter_ne 69 (omega arith)), tt)),
    ),
  ),
)

-- The words as they are typed: a blank between two, and a line feed at the end.
abbrev pub typed : List (List ℕ) → List ℕ
typed [] = 10 ∷ []
typed (w ∷ []) = w ++ 10 ∷ []
typed (w ∷ v ∷ ws) = w ++ 32 ∷ typed (v ∷ ws)

tokens-typed : (ws : List (List ℕ)) → All IsWord ws → tokens korektor (typed ws) ≡ ws
unfolding tokens tokens_from
tokens-typed [] h = refl
tokens-typed (w ∷ []) h =
    tokens_from-word IsLetter korektor (λ c l. l.0) [] w (10 ∷ []) h.0.1 ∙ flush-word w [] h.0.0
tokens-typed (w ∷ v ∷ ws) h =
    tokens_from-word IsLetter korektor (λ c l. l.0) [] w (32 ∷ typed (v ∷ ws)) h.0.1
    ∙ flush-word w (tokens_from korektor [] (typed (v ∷ ws))) h.0.0
    ∙ ap (λ r. w ∷ r) (tokens-typed (v ∷ ws) h.1)

c_str-typed : (ws : List (List ℕ)) → All IsWord ws → c_str (typed ws) ≡ typed ws
unfolding c_str
c_str-typed [] h = refl
c_str-typed (w ∷ []) h = c_str-append w (10 ∷ []) (c_str-word IsLetter (λ c l. l.1) w h.0.1)
c_str-typed (w ∷ v ∷ ws) h =
    c_str-append w (32 ∷ typed (v ∷ ws)) (c_str-word IsLetter (λ c l. l.1) w h.0.1)
    ∙ ap (λ s. w ++ 32 ∷ s) (c_str-typed (v ∷ ws) h.1)

-- A word copied into an array is the string in it.
pub c_str-overwrite :
    (array w : List ℕ) → All IsLetter w → c_str (overwrite array (w ++ 0 ∷ [])) ≡ w
unfolding c_str
c_str-overwrite array w h =
    let rest = drop (length (w ++ 0 ∷ [])) array in
    ap c_str (append_assoc w (0 ∷ []) rest)
    ∙ c_str-append w (0 ∷ rest) (c_str-word IsLetter (λ c l. l.1) w h)
    ∙ append-nil w

-- What the server gets of a message: the type and the two strings.
abbrev pub IsSent : MessageType → List ℕ → List ℕ → Reading → Type 0
IsSent k text nick (send m) = (m.kind ≡ k) × (c_str m.text ≡ text) × (c_str m.other_nickname ≡ nick)
IsSent k text nick skipped = ⊥
IsSent k text nick fault = ⊥

on_stdin-tokens :
    (junk : Message) (ws : List (List ℕ))
    → All IsWord ws
    → length (typed ws) < buffer_size
    → on_stdin junk (typed ws) ≡ on_tokens junk 0 ws no_draft
unfolding on_stdin
on_stdin-tokens junk ws h lt =
    let e : ltb (length (typed ws)) buffer_size ≡ true = ground arith in
    rw (e, on_stdin)
      (ap (λ s. on_tokens junk 0 (tokens korektor s) no_draft) (c_str-typed ws h)
        ∙ ap (λ ts. on_tokens junk 0 ts no_draft) (tokens-typed ws h))

-- The message that is sent for a command word, a word of text and a nickname.
pub on_stdin-send :
    (junk : Message) (word text nick : List ℕ) (k : MessageType)
    → command word ≡ some k
    → IsWord word
    → IsWord text
    → IsWord nick
    → length text < msg_len
    → length nick < msg_len
    → length (typed (word ∷ text ∷ nick ∷ [])) < buffer_size
    → on_stdin junk (typed (word ∷ text ∷ nick ∷ []))
      ≡ send (record {
        kind = k;
        text = overwrite junk.text (text ++ 0 ∷ []);
        other_nickname = overwrite junk.other_nickname (nick ++ 0 ∷ []);
      })
unfolding on_tokens on_token
on_stdin-send junk word text nick k e w t n tl nl lt =
    let ft : fits text ≡ true = ground arith in
    let fn : fits nick ≡ true = ground arith in
    let ct = c_str-overwrite (replicate msg_len 0) text t.1 in
    let cn = c_str-overwrite (replicate msg_len 0) nick n.1 in
    rw
      (
        on_stdin-tokens junk (word ∷ text ∷ nick ∷ []) (w, (t, (n, tt))) lt,
        e,
        ft,
        fn,
        ct,
        cn,
        on_tokens,
      )
      refl

-- A typed line of a command word, a word of text and a nickname, with a blank between two and a line feed at
-- the end, 511 bytes at most and each of the two shorter than MSG_LEN, is sent as a message of the command's
-- type with the two words as its strings.
pub on_stdin-IsSent :
    (junk : Message) (word text nick : List ℕ) (k : MessageType)
    → command word ≡ some k
    → IsWord word
    → IsWord text
    → IsWord nick
    → length text < msg_len
    → length nick < msg_len
    → length (typed (word ∷ text ∷ nick ∷ [])) < buffer_size
    → IsSent k text nick (on_stdin junk (typed (word ∷ text ∷ nick ∷ [])))
on_stdin-IsSent junk word text nick k e w t n tl nl lt =
    rw (on_stdin-send junk word text nick k e w t n tl nl lt)
      (refl, c_str-overwrite junk.text text t.1, c_str-overwrite junk.other_nickname nick n.1)
