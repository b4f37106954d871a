-- ===== src/Mail/Laws.antt =====
-- All branches of lab5/zad1/program.c.
use operating_systems_agh.Prelude.{
  ℕ, zero, suc, ◌<◌, ◌≤◌, ◌≡◌, ◌≢◌, refl, ap, ◌∙◌, Bool, true, false, Option, none, some, List, [],
  ◌∷◌, ◌++◌, ◌==◌, length, take, take-all, codes, c_str, length-append, All, arith, Has,
  Option-cases, Bool-cases, inl, inr,
}
use operating_systems_agh.Command.{
  Command, map_command_to_int, bsearch, qsort, insert, compare_commands, strcmp,
}
use operating_systems_agh.Command.Sort.{AreDistinct}
use operating_systems_agh.Command.Search.{map_command_to_int_lem}
use operating_systems_agh.Mail.{
  greeted, greeting, sender_error, menu, commands, failure, fgets, copy_lines, show_output,
  show_mails_handle, mail_line, send_mail, main,
}

abbrev pub IsText : List ℕ → Type 0
IsText s = All (λ c. c ≢ 0) s

fgets-append : (room : ℕ) (s : List ℕ) → (fgets room s).0 ++ (fgets room s).1 ≡ s
unfolding fgets
fgets-append zero s = refl
fgets-append (suc room) [] = refl
fgets-append (suc room) (c ∷ s) = elim (Bool-cases (c == 10)) [
  | inl e ↦ rw (e) refl
  | inr e ↦ rw (e) (ap (λ l. c ∷ l) (fgets-append room s))
]

c_str-fgets : (room : ℕ) (s : List ℕ) → IsText s → c_str (fgets room s).0 ≡ (fgets room s).0
unfolding fgets c_str
c_str-fgets zero s h = refl
c_str-fgets (suc room) [] h = refl
c_str-fgets (suc room) (c ∷ s) h =
    let byte : (c == 0) ≡ false = ground (arith, h.0) in
    elim (Bool-cases (c == 10)) [
      | inl e ↦ rw (e, byte) refl
      | inr e ↦ rw (e, byte) (ap (λ l. c ∷ l) (c_str-fgets room s h.1))
    ]

fgets-IsText : (room : ℕ) (s : List ℕ) → IsText s → IsText (fgets room s).1
unfolding fgets
fgets-IsText zero s h = h
fgets-IsText (suc room) [] h = h
fgets-IsText (suc room) (c ∷ s) h = elim (Bool-cases (c == 10)) [
  | inl e ↦ rw (e) h.1
  | inr e ↦ rw (e) (fgets-IsText room s h.1)
]

fgets-shorter : (room : ℕ) (s : List ℕ) → length (fgets room s).1 ≤ length s
fgets-shorter room s =
    omega (
      arith,
      ap (length {0}) (fgets-append room s),
      length-append (fgets room s).0 (fgets room s).1,
    )

fgets-progress : (room c : ℕ) (s : List ℕ) → length (fgets (suc room) (c ∷ s)).1 ≤ length s
unfolding fgets
fgets-progress room c s = elim (Bool-cases (c == 10)) [
  | inl e ↦ rw (e) (omega arith)
  | inr e ↦ rw (e) (fgets-shorter room s)
]

fgets-lt :
    (room c : ℕ) (s : List ℕ) (fuel : ℕ)
    → suc (length s) < suc fuel
    → length (fgets (suc room) (c ∷ s)).1 < fuel
fgets-lt room c s fuel lt = omega (arith, fgets-progress room c s)

copy_lines-IsText :
    (fuel : ℕ) (s : List ℕ) → IsText s → length s < fuel → copy_lines fuel s ≡ some s
unfolding copy_lines
copy_lines-IsText zero s h lt = absurd (omega arith)
copy_lines-IsText (suc fuel) [] h lt = refl
copy_lines-IsText (suc fuel) (c ∷ s) h lt =
    rw
      (
        copy_lines,
        copy_lines-IsText fuel (fgets 1023 (c ∷ s)).1 (fgets-IsText 1023 (c ∷ s) h)
            (fgets-lt 1022 c s fuel lt),
        c_str-fgets 1023 (c ∷ s) h,
      )
      (ap some (fgets-append 1023 (c ∷ s)))

qsort-commands : qsort commands ≡ commands
unfolding qsort insert compare_commands strcmp
qsort-commands = refl

commands-AreDistinct : AreDistinct commands
unfolding strcmp
commands-AreDistinct = ground arith

other_entry :
    (c : Command) (name : List ℕ)
    → c.str ≡ name
    → name ≢ codes "date"
    → name ≢ codes "sender"
    → Has c commands
    → ⊥
other_entry c name e nd ns (zero, at) = nd (cc)
other_entry c name e nd ns (suc zero, at) = ns (cc)
other_entry c name e nd ns (suc (suc n), at) = cc

unknown_command :
    (name : List ℕ)
    → name ≢ codes "date"
    → name ≢ codes "sender"
    → map_command_to_int commands name ≡ none
unknown_command name nd ns = elim (Option-cases (map_command_to_int commands name)) [
  | inl e ↦ e
  | inr (c, e) ↦
      let (at, same) =
        (map_command_to_int_lem commands name c commands-AreDistinct).0
          (ap (λ t. map_command_to_int t name) qsort-commands ∙ e) in
      absurd (other_entry c name same nd ns at)
]

take-append : (n : ℕ) (xs ys : List ℕ) → n ≤ length xs → take n (xs ++ ys) ≡ take n xs
take-append zero xs ys h = refl
take-append (suc n) [] ys h = absurd (omega arith)
take-append (suc n) (x ∷ xs) ys h = ap (λ l. x ∷ l) (take-append n xs ys (omega arith))

-- The line as the array holds it.
abbrev pub cut_line : List ℕ → List ℕ → List ℕ → List ℕ
cut_line address title content = take 1023 (mail_line address title content)

module _ (popen_read : List ℕ → Option (List ℕ)) (popen_write : List ℕ → Bool) where
  show_output-text :
      (line out : List ℕ)
      → popen_read line ≡ some out
      → IsText out
      → show_output popen_read popen_write line
        ≡ some (record { ran = line ∷ []; printed = out; status = 0 })
  unfolding show_output
  show_output-text line out e text =
      rw (show_output, e, copy_lines-IsText (suc (length out)) out text (omega arith)) refl

  show_mails_handle-unknown :
      (name : List ℕ)
      → name ≢ codes "date"
      → name ≢ codes "sender"
      → show_mails_handle popen_read popen_write name ≡ some (failure menu)
  unfolding show_mails_handle
  show_mails_handle-unknown name nd ns = rw (show_mails_handle, unknown_command name nd ns) refl

  wrong_count :
      (args : List (List ℕ))
      → length args ≢ 1
      → length args ≢ 3
      → main popen_read popen_write args ≡ some (failure menu)
  unfolding main
  wrong_count [] one three = refl
  wrong_count (a ∷ []) one three = absurd (one refl)
  wrong_count (a ∷ b ∷ []) one three = refl
  wrong_count (a ∷ b ∷ c ∷ []) one three = absurd (three refl)
  wrong_count (a ∷ b ∷ c ∷ d ∷ args) one three = refl

  -- One argument: "date" shows all that `mail -H` writes, "sender" all that its sorted list has, where popen can run
  -- them and they write text, and any other ends with the menu and a failure. Three arguments: the first 1023 bytes of
  -- the line are printed and run, or the program ends with a failure where popen cannot run them; they are the whole
  -- line where it is that short, and only the start of it, with neither the title nor the address, where the content is
  -- 1017 bytes or more. Every other count of arguments ends with the menu and a failure.
  pub main_mails :
      (mails sorted other : List ℕ)
      → popen_read (codes "mail -H") ≡ some mails
      → popen_read (codes "mail -H | sort -k 3") ≡ some sorted
      → IsText mails
      → IsText sorted
      → other ≢ codes "date"
      → other ≢ codes "sender"
      → (main popen_read popen_write (codes "date" ∷ [])
          ≡ some (record { ran = codes "mail -H" ∷ []; printed = greeting ++ mails; status = 0 }))
        × (main popen_read popen_write (codes "sender" ∷ [])
            ≡ some (record {
              ran = codes "mail -H | sort -k 3" ∷ [];
              printed = greeting ++ sorted;
              status = 0;
            }))
        × (main popen_read popen_write (other ∷ []) ≡ some (failure (greeting ++ menu)))
        × ((args : List (List ℕ))
            → length args ≢ 1
            → length args ≢ 3
            → main popen_read popen_write args ≡ some (failure menu))
        × ((address title content : List ℕ)
            → (popen_write (cut_line address title content) ≡ true
                → main popen_read popen_write (address ∷ title ∷ content ∷ [])
                  ≡ some (record {
                    ran = cut_line address title content ∷ [];
                    printed = cut_line address title content ++ 10 ∷ [];
                    status = 0;
                  }))
              × (popen_write (cut_line address title content) ≡ false
                  → main popen_read popen_write (address ∷ title ∷ content ∷ [])
                    ≡ some (failure (cut_line address title content ++ 10 ∷ sender_error)))
              × (length (mail_line address title content) ≤ 1023
                  → cut_line address title content ≡ mail_line address title content)
              × (1017 ≤ length content
                  → cut_line address title content ≡ codes "echo \"" ++ take 1017 content))
  unfolding main show_mails_handle send_mail map_command_to_int bsearch compare_commands strcmp
  main_mails mails sorted other reads sorts text text' nd ns = (
    ap (greeted) (show_output-text (codes "mail -H") mails reads text),
    ap (greeted) (show_output-text (codes "mail -H | sort -k 3") sorted sorts text'),
    ap (greeted) (show_mails_handle-unknown other nd ns),
    wrong_count,
    λ address title content. (
      λ ok. rw ok refl,
      λ no. rw no refl,
      λ short. take-all 1023 _ short,
      λ long. ap (λ l. codes "echo \"" ++ l) (take-append 1017 content _ long),
    ),
  )
