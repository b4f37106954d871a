-- ===== src/Chat/Names.antt =====
-- lab10/zad1/server.c, lines 42 to 58: the nickname that a client registers, and the search for one
-- that is taken.
use operating_systems_agh.Prelude.{
  ◌+◌, str_eq, take-all, ℕ, zero, suc, ◌<◌, ◌≤◌, ◌≡◌, ◌≢◌, ◌∙◌, ap, sym, refl, true, false, some,
  List, [], ◌∷◌, ◌++◌, arith, length, get_elem?, set, take, drop, All, All-get_elem?, length-append,
  length-drop, ◌⊎◌, c_str, str_eq_iff, c_str-set, c_str-c_str, overwrite, get_elem?-set_self,
  get_elem?-set_ne, lt_of_get_elem?, set-set, length-set, Bool-cases, inl, inr,
}
use operating_systems_agh.Chat.{
  done, Server, Client, ready, empty, erased, is_taken, register, reject_nick, delete_client,
  rejected_name, nickname_size, write, bare, username_taken, epoll_del, close,
}
use operating_systems_agh.Chat.Distinct.{
  is_taken-false, is_taken-true, IsSized, AreDistinct, is_taken-set, AreDistinct-set,
}

-- The slot after line 43, and after line 48.
abbrev read_slot : Client → List ℕ → Client
read_slot c nick = record c { nickname = overwrite c.nickname nick }

abbrev named_slot : Client → List ℕ → Client
named_slot c nick = record c {
  nickname = set (overwrite c.nickname nick) (length nick) 0;
  state = ready;
}

register-accepts :
    (j : ℕ) (c : Client) (nick : List ℕ) (s : Server)
    → s.locked ≡ false
    → is_taken j (overwrite c.nickname nick) 0 s.clients ≡ false
    → register j c (some nick) s
      ≡ done tt (record s { clients = set s.clients j (named_slot c nick); locked = false })
unfolding register
register-accepts j c nick s free new = ground (
  arith,
  is_taken-set j (overwrite c.nickname nick) 0 s.clients j (read_slot c nick),
  set-set s.clients j (read_slot c nick) (named_slot c nick),
)

abbrev pub rejected_slot : Client → List ℕ → Client
rejected_slot c nick = record c {
  nickname = set (overwrite (overwrite c.nickname nick) rejected_name) 0 0;
  state = empty;
}

register-rejects :
    (j : ℕ) (c : Client) (nick : List ℕ) (s : Server)
    → s.locked ≡ false
    → j < length s.clients
    → is_taken j (overwrite c.nickname nick) 0 s.clients ≡ true
    → register j c (some nick) s
      ≡ done tt (record s {
        clients = set s.clients j (rejected_slot c nick);
        locked = false;
        trace =
            (s.trace ++ (write c.fd (bare username_taken) ∷ []))
            ++ (epoll_del c.fd ∷ close c.fd ∷ []);
      })
unfolding register reject_nick delete_client erased
register-rejects j c nick s free lt old = ground (
  arith,
  is_taken-set j (overwrite c.nickname nick) 0 s.clients j (read_slot c nick),
  set-set s.clients j (read_slot c nick) renamed,
  get_elem?-set_self s.clients j renamed lt,
  set-set s.clients j renamed (rejected_slot c nick),
)
  where
    renamed : Client
    renamed = record c { nickname = overwrite (overwrite c.nickname nick) rejected_name }

set-get_elem? : (xs : List ℕ) (i v : ℕ) → get_elem? xs i ≡ some v → set xs i v ≡ xs
set-get_elem? [] i v e = refl
set-get_elem? (x ∷ xs) zero v e = cc
set-get_elem? (x ∷ xs) (suc i) v e = ap (λ l. x ∷ l) (set-get_elem? xs i v e)

get_elem?-overwrite :
    (buf nick : List ℕ) {v : ℕ}
    → get_elem? buf (length nick) ≡ some v
    → get_elem? (overwrite buf nick) (length nick) ≡ some v
get_elem?-overwrite buf [] e = e
get_elem?-overwrite [] (x ∷ nick) e = absurd (cc)
get_elem?-overwrite (b ∷ buf) (x ∷ nick) e = get_elem?-overwrite buf nick e

length-overwrite :
    (buf nick : List ℕ) → length nick ≤ length buf → length (overwrite buf nick) ≡ length buf
length-overwrite buf nick h =
    omega (arith, length-append nick (drop (length nick) buf), length-drop (length nick) buf)

-- A slot other than `j`, whether its client is registered or not, has that nickname in its array.
abbrev pub IsHeld : ℕ → List ℕ → List Client → Type 0
IsHeld j name cs =
    (k : ℕ) × (d : Client) × (get_elem? cs k ≡ some d) × (k ≢ j) × (c_str d.nickname ≡ name)

-- A client in the state `init` sends a nickname of at most 15 bytes, the mutex is free, the registered
-- nicknames are distinct, and the slot's array holds a NUL just past the nickname, as it does in a
-- slot that was never used. Then the call comes back with the mutex free, the registered nicknames
-- distinct and every other slot as it was. If no other slot holds the new name, the client is registered
-- under it and nothing is sent; if one does, the client is sent username_taken and closed, and its slot is
-- emptied.
pub register-AreDistinct :
    (j : ℕ) (c : Client) (nick : List ℕ) (s : Server)
    → s.locked ≡ false
    → All IsSized s.clients
    → get_elem? s.clients j ≡ some c
    → get_elem? c.nickname (length nick) ≡ some 0
    → AreDistinct s.clients
    → (t : Server) × (register j c (some nick) s ≡ done tt t)
      × (t.locked ≡ false)
      × AreDistinct t.clients
      × ((k : ℕ) → k ≢ j → get_elem? t.clients k ≡ get_elem? s.clients k)
      × ((¬ IsHeld j (c_str (overwrite c.nickname nick)) s.clients
            × (get_elem? t.clients j
                ≡ some (record c { nickname = overwrite c.nickname nick; state = ready }))
            × (t.trace ≡ s.trace))
          ⊎ (IsHeld j (c_str (overwrite c.nickname nick)) s.clients
              × (get_elem? t.clients j ≡ some (rejected_slot c nick))
              × (t.trace
                  ≡ (s.trace ++ (write c.fd (bare username_taken) ∷ []))
                    ++ (epoll_del c.fd ∷ close c.fd ∷ []))))
register-AreDistinct j c nick s free sized at nul old =
    elim (Bool-cases (is_taken j (overwrite c.nickname nick) 0 s.clients)) [
      | inl taken ↦ (
        _,
        register-rejects j c nick s free lt taken,
        refl,
        AreDistinct-set s.clients j (rejected_slot c nick) old (λ e. cc),
        λ k ne. get_elem?-set_ne s.clients (rejected_slot c nick) (λ e. ne (sym e)),
        inr (
          held (is_taken-true j (overwrite c.nickname nick) 0 s.clients taken),
          get_elem?-set_self s.clients j (rejected_slot c nick) lt,
          refl,
        ),
      )
      | inr new ↦ (
        _,
        register-accepts j c nick s free new,
        refl,
        AreDistinct-set s.clients j (named_slot c nick) old
            (λ _ k d kj ed rd same. not_held new (k, d, ed, kj, same ∙ ap c_str same_bytes)),
        λ k ne. get_elem?-set_ne s.clients (named_slot c nick) (λ e. ne (sym e)),
        inl (
          not_held new,
          get_elem?-set_self s.clients j (named_slot c nick) lt ∙ ap some clean,
          refl,
        ),
      )
    ]
  where
    lt : j < length s.clients
    lt = lt_of_get_elem? s.clients j at

    size : length (overwrite c.nickname nick) ≡ nickname_size
    size = omega (
      arith,
      length-overwrite c.nickname nick,
      lt_of_get_elem? c.nickname (length nick) nul,
      All-get_elem? IsSized s.clients j sized at,
    )

    same_bytes : set (overwrite c.nickname nick) (length nick) 0 ≡ overwrite c.nickname nick
    same_bytes = set-get_elem? _ (length nick) 0 (get_elem?-overwrite c.nickname nick nul)

    clean : named_slot c nick ≡ record c { nickname = overwrite c.nickname nick; state = ready }
    clean = λ i. record c { nickname = same_bytes i; state = ready }

    true≢false : true ≡ false → ⊥
    true≢false h = cc

    whole : take nickname_size (overwrite c.nickname nick) ≡ overwrite c.nickname nick
    whole = take-all nickname_size _ (omega (arith, size))

    whole_slot :
        (k : ℕ) (d : Client)
        → get_elem? s.clients k ≡ some d
        → take nickname_size d.nickname ≡ d.nickname
    whole_slot k d e =
        take-all nickname_size d.nickname (omega (arith, All-get_elem? IsSized s.clients k sized e))

    held :
        (k : ℕ) × (d : Client) × (get_elem? s.clients k ≡ some d)
          × (0 + k ≢ j)
          × (str_eq (take nickname_size (overwrite c.nickname nick)) (take nickname_size d.nickname)
              ≡ true)
        → IsHeld j (c_str (overwrite c.nickname nick)) s.clients
    held (k, d, e, ne, eq) = (
      k,
      d,
      e,
      λ q. ne (omega arith),
      ap c_str (sym (whole_slot k d e)) ∙ sym ((str_eq_iff _ _).0 eq) ∙ ap c_str whole,
    )

    not_held :
        is_taken j (overwrite c.nickname nick) 0 s.clients ≡ false
        → ¬ IsHeld j (c_str (overwrite c.nickname nick)) s.clients
    not_held new (k, d, e, ne, same) = true≢false (
        sym ((str_eq_iff _ _).1 (ap c_str whole ∙ sym same ∙ ap c_str (sym (whole_slot k d e))))
        ∙ is_taken-false j (overwrite c.nickname nick) 0 s.clients k new e (omega arith))

-- The retry. Slot `j` holds what the rejection of a nickname leaves in its array, and its new client
-- sends a nickname of less than ten bytes that another registered client has. Unless someone has
-- the name that ends in the rest of "new client", the client is registered: two clients have the name.
pub retry_duplicates :
    (j k : ℕ) (c d : Client) (buf nick : List ℕ) (s : Server)
    → s.locked ≡ false
    → get_elem? s.clients j ≡ some c
    → c.nickname ≡ set (overwrite buf rejected_name) 0 0
    → get_elem? s.clients k ≡ some d
    → k ≢ j
    → d.state ≡ ready
    → c_str d.nickname ≡ nick
    → length nick < 10
    → is_taken j (overwrite c.nickname nick) 0 s.clients ≡ false
    → (t : Server) × (register j c (some nick) s ≡ done tt t) × ¬ AreDistinct t.clients
retry_duplicates j k c d buf nick s free at stale dk kj rd name short new = (
  _,
  register-accepts j c nick s free new,
  λ all. kj (
      all k j d (named_slot c nick) (get_elem?-set_ne s.clients _ (λ e. kj (sym e)) ∙ dk)
        (get_elem?-set_self s.clients j _ (lt_of_get_elem? s.clients j at)) rd refl
        (name ∙ sym cut)),
)
  where
    cut : c_str (named_slot c nick).nickname ≡ nick
    cut =
        c_str-set nick (drop (length nick) c.nickname)
          (ap c_str (sym name) ∙ c_str-c_str d.nickname ∙ name)
          (omega (
            arith,
            length-drop (length nick) c.nickname,
            ap (length {0}) stale,
            length-set (overwrite buf rejected_name) 0 0,
            length-append rejected_name (drop (length rejected_name) buf),
          ))
