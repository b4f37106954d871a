-- ===== src/Chat/Delivery.antt =====
-- lab10/zad1/server.c, lines 72 to 100: who receives a message of 2ALL and of 2ONE.
use operating_systems_agh.Prelude.{
  Has, ℕ, zero, suc, ◌+◌, ◌<◌, ◌≤◌, ◌≡◌, ◌∙◌, ap, refl, true, false, none, some, List, [], ◌∷◌,
  ◌++◌, arith, length, get_elem?, c_str, codes, is_terminated, str_eq, Bool-cases, inl, inr,
  length-append, length-replicate, c_str-append, c_str-c_str, c_str-replicate, append-nil, ◌⊎◌,
  replicate, ◌-◌,
}
use operating_systems_agh.Chat.{
  done, fault, Server, Client, ready, is_empty, Garbage, Input, Effect, write, sent, get, tall,
  tone, msg_len, on_client_message, on_request, chat_line, tone_writes,
}

tone_writes-Has :
    (g : Garbage) (name out : List ℕ) (cs : List Client) (i : ℕ) {c : Client}
    → get_elem? cs i ≡ some c
    → is_empty c.state ≡ false
    → str_eq c.nickname name ≡ true
    → Has (write c.fd (sent g.junk get out)) (tone_writes g name out cs)
unfolding tone_writes
tone_writes-Has g name out [] i e live eq = absurd (cc)
tone_writes-Has g name out (x ∷ cs) zero e live eq = (0, ground arith)
tone_writes-Has g name out (x ∷ cs) (suc i) e live eq =
    let (n, h) = tone_writes-Has g name out cs i e live eq in
    elim (Bool-cases (is_empty x.state)) [
      | inl a ↦ (n, ground arith)
      | inr a ↦ elim (Bool-cases (str_eq x.nickname name)) [
        | inl b ↦ (suc n, ground arith)
        | inr b ↦ (n, ground arith)
      ]
    ]

-- Who a message goes to.
pub record Receiver (name : List ℕ) (g : Garbage) (out : List ℕ) (cs : List Client) (e : Effect)
    : Type 0 where
  pub index : ℕ
  pub client : Client
  pub found : get_elem? cs index ≡ some client
  pub live : is_empty client.state ≡ false
  pub named : str_eq client.nickname name ≡ true
  pub sent_to : e ≡ write client.fd (sent g.junk get out)

module _ (name : List ℕ) (g : Garbage) (out : List ℕ) (x : Client) (cs : List Client)
    (e : Effect) where
  Receiver-tail : Receiver name g out cs e → Receiver name g out (x ∷ cs) e
  Receiver-tail r = record {
    index = suc r.index;
    client = r.client;
    found = r.found;
    live = r.live;
    named = r.named;
    sent_to = r.sent_to;
  }

  Receiver-cons :
      is_empty x.state ≡ false
      → str_eq x.nickname name ≡ true
      → (w : List Effect) → (Has e w → Receiver name g out cs e)
      → Has e (write x.fd (sent g.junk get out) ∷ w)
      → Receiver name g out (x ∷ cs) e
  Receiver-cons a b w rest (zero, h) = record {
    index = 0;
    client = x;
    found = refl;
    live = a;
    named = b;
    sent_to = cc;
  }
  Receiver-cons a b w rest (suc n, h) = Receiver-tail (rest (n, h))

tone_writes-from :
    (g : Garbage) (name out : List ℕ) (cs : List Client) (e : Effect)
    → Has e (tone_writes g name out cs)
    → Receiver name g out cs e
unfolding tone_writes
tone_writes-from g name out [] e (n, h) = absurd (cc)
tone_writes-from g name out (x ∷ cs) e (n, h) = elim (Bool-cases (is_empty x.state)) [
  | inl a ↦ Receiver-tail name g out x cs e (tone_writes-from g name out cs e (n, rw a at h))
  | inr a ↦ elim (Bool-cases (str_eq x.nickname name)) [
    | inl b ↦
        Receiver-cons name g out x cs e a b (tone_writes g name out cs)
          (tone_writes-from g name out cs e) (n, rw (a, b) at h)
    | inr b ↦ Receiver-tail name g out x cs e (tone_writes-from g name out cs e (n, rw (a, b) at h))
  ]
]

tone_lem :
    (g : Garbage) (j : ℕ) (r : Input) (s : Server) {c : Client} {out : List ℕ}
    → get_elem? s.clients j ≡ some c
    → c.state ≡ ready
    → r.message.kind ≡ tone
    → chat_line c.nickname r.message.text ≡ some out
    → on_client_message g j r s
      ≡ done tt
          (record s { trace = s.trace ++ tone_writes g r.message.other_nickname out s.clients })
unfolding on_client_message on_request
tone_lem g j r s at state kind fits = ground arith

-- A registered client's 2ONE whose line fits into `out` changes no slot and takes no lock. Every
-- client in the table, registered or not yet, whose nickname is the one asked for is sent the line,
-- and what is sent goes to such clients only.
pub tone_reaches_named :
    (g : Garbage) (j : ℕ) (r : Input) (s : Server) {c : Client} {out : List ℕ}
    → get_elem? s.clients j ≡ some c
    → c.state ≡ ready
    → r.message.kind ≡ tone
    → chat_line c.nickname r.message.text ≡ some out
    → (w : List Effect) × (on_client_message g j r s ≡ done tt (record s { trace = s.trace ++ w }))
      × ((i : ℕ) (d : Client)
          → get_elem? s.clients i ≡ some d
          → is_empty d.state ≡ false
          → str_eq d.nickname r.message.other_nickname ≡ true
          → Has (write d.fd (sent g.junk get out)) w)
      × ((e : Effect) → Has e w → Receiver r.message.other_nickname g out s.clients e)
tone_reaches_named g j r s {out = out} at state kind fits = (
  tone_writes g r.message.other_nickname out s.clients,
  tone_lem g j r s at state kind fits,
  λ i d e live eq. tone_writes-Has g r.message.other_nickname out s.clients i e live eq,
  λ e h. tone_writes-from g r.message.other_nickname out s.clients e h,
)

abbrev pub line : List ℕ → List ℕ → List ℕ
line nick text = c_str nick ++ (codes ": " ++ c_str text)

line-c_str : (nick text : List ℕ) → c_str (line nick text) ≡ line nick text
unfolding c_str
line-c_str nick text =
    c_str-append (c_str nick) (codes ": " ++ c_str text) (c_str-c_str nick)
    ∙ ap (λ l. c_str nick ++ (codes ": " ++ l)) (c_str-c_str text)

chat_line-some :
    (nick text : List ℕ) {out : List ℕ}
    → chat_line nick text ≡ some out
    → out ≡ line nick text ++ replicate (msg_len - length (line nick text)) 0
unfolding chat_line
chat_line-some nick text h = ground arith

-- If the three calls of `strcat` stay inside the arrays, both strings end inside theirs, the line
-- with its NUL fits into MSG_LEN bytes, and the array holds the two strings with ": " between.
pub chat_line_lem :
    (nick text : List ℕ) {out : List ℕ}
    → chat_line nick text ≡ some out
    → (is_terminated nick ≡ true)
      × (is_terminated text ≡ true)
      × (length (line nick text) < msg_len)
      × (length out ≡ msg_len)
      × (c_str out ≡ line nick text)
unfolding chat_line
chat_line_lem nick text {out} h = (ground arith, ground arith, fits, size, string)
  where
    zeros : List ℕ
    zeros = replicate (msg_len - length (line nick text)) 0

    fits : length (line nick text) < msg_len
    fits = ground arith

    size : length out ≡ msg_len
    size = omega (
      arith,
      fits,
      ap (length {0}) (chat_line-some nick text h),
      length-append (line nick text) zeros,
      length-replicate {A = ℕ} (msg_len - length (line nick text)) 0,
    )

    string : c_str out ≡ line nick text
    string =
        ap c_str (chat_line-some nick text h)
        ∙ c_str-append (line nick text) zeros (line-c_str nick text)
        ∙ ap (λ l. line nick text ++ l) (c_str-replicate (msg_len - length (line nick text)))
        ∙ append-nil (line nick text)

-- The line that `strcat` makes where everything fits.
pub chat_line-fits :
    (nick text : List ℕ)
    → is_terminated nick ≡ true
    → is_terminated text ≡ true
    → length (c_str nick) + 2 + length (c_str text) < msg_len
    → chat_line nick text ≡ some (line nick text ++ replicate (msg_len - length (line nick text)) 0)
unfolding chat_line
chat_line-fits nick text n t short =
    ground (arith, length-append (c_str nick) (codes ": " ++ c_str text))

chat_line-none :
    (nick text : List ℕ)
    → msg_len ≤ length (c_str nick) + 2 + length (c_str text)
    → chat_line nick text ≡ none
unfolding chat_line
chat_line-none nick text long =
    ground (arith, length-append (c_str nick) (codes ": " ++ c_str text))

-- A 2ALL or a 2ONE of a registered client, whose nickname and text with ": " between make 256 bytes
-- or more, writes past the end of `out`.
pub long_line_overflows :
    (g : Garbage) (j : ℕ) (r : Input) (s : Server) {c : Client}
    → get_elem? s.clients j ≡ some c
    → c.state ≡ ready
    → (r.message.kind ≡ tall) ⊎ (r.message.kind ≡ tone)
    → msg_len ≤ length (c_str c.nickname) + 2 + length (c_str r.message.text)
    → on_client_message g j r s ≡ fault
unfolding on_client_message on_request
long_line_overflows g j r s {c} at state (inl kind) long =
    ground (arith, chat_line-none c.nickname r.message.text long)
long_line_overflows g j r s {c} at state (inr kind) long =
    ground (arith, chat_line-none c.nickname r.message.text long)
