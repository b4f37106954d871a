-- ===== src/Mail.antt =====
-- lab5/zad1/program.c: the mails shown or sent through other programs, which popen runs. What a program writes,
-- and whether popen can start it, are parameters; what goes to stderr is left out.
pub mod Laws
mod Tests
use operating_systems_agh.Prelude.{
  ℕ, zero, suc, ◌≡◌, Bool, true, false, Option, none, some, List, [], ◌∷◌, ◌++◌, ◌==◌,
  if◌then◌else◌, length, take, codes, c_str,
}
use operating_systems_agh.Command.{Command, map_command_to_int}

abbrev pub commands : List Command
commands = record { str = codes "date"; n = 12 } ∷ record { str = codes "sender"; n = 11 } ∷ []

-- The commands that were given to popen, what was printed on the output, and the exit status.
pub record Report : Type 0 where
  pub ran : List (List ℕ)
  pub printed : List ℕ
  pub status : ℕ

-- What `print_menu` prints.
abbrev pub menu : List ℕ
menu = codes "PROGRAM USAGE:\n<sender|date> | <email> <title> <content> \n"

-- `exit(EXIT_FAILURE)`, after what was printed.
abbrev pub failure : List ℕ → Report
failure printed = record { ran = []; printed = printed; status = 1 }

abbrev pub greeting : List ℕ
greeting = codes "Showing mails...\n"

abbrev pub sender_error : List ℕ
sender_error = codes "ERROR: Sender could not sent new mail!\n"

-- `fgets` into an array of one byte more than `room`: the line, and what is left.
pub fgets : ℕ → List ℕ → List ℕ × List ℕ
fgets zero s = ([], s)
fgets (suc room) [] = ([], [])
fgets (suc room) (c ∷ s) = if c == 10 then (c ∷ [], s) else (c ∷ (fgets room s).0, (fgets room s).1)

-- The loop that prints what `fgets` reads, on fuel.
pub copy_lines : ℕ → List ℕ → Option (List ℕ)
unfolding c_str fgets
copy_lines zero s = none
copy_lines (suc fuel) [] = some []
copy_lines (suc fuel) (c ∷ s) = elim (copy_lines fuel (fgets 1023 (c ∷ s)).1) [
  | none ↦ none
  | some rest ↦ some (c_str (fgets 1023 (c ∷ s)).0 ++ rest)
]

-- The line as `snprintf` is asked to print it.
abbrev pub mail_line : List ℕ → List ℕ → List ℕ → List ℕ
mail_line email_adress title content =
    codes "echo \""
    ++ (content ++ (codes "\" | mail -s \"" ++ (title ++ (codes "\" " ++ email_adress))))

-- What `main` prints before the mails.
abbrev pub greeted : Option Report → Option Report
greeted none = none
greeted (some r) = some (record r { printed = greeting ++ r.printed })

module _ (popen_read : List ℕ → Option (List ℕ)) (popen_write : List ℕ → Bool) where
  -- A program run for what it writes; `fgets` goes through a NULL stream where popen failed.
  pub show_output : List ℕ → Option Report
  unfolding copy_lines
  show_output line = elim (popen_read line) [
    | none ↦ none
    | some out ↦ elim (copy_lines (suc (length out)) out) [
      | none ↦ none
      | some text ↦ some (record { ran = line ∷ []; printed = text; status = 0 })
    ]
  ]

  pub show_mails_handle : List ℕ → Option Report
  unfolding show_output
  show_mails_handle sort_by = elim (map_command_to_int commands sort_by) [
    | none ↦ some (failure menu)
    | some result ↦
        if result.n == 11
        then show_output (codes "mail -H | sort -k 3")
        else if result.n == 12
        then show_output (codes "mail -H")
        else some (failure menu)
  ]

  -- `puts` of the line comes before popen.
  pub send_mail : List ℕ → List ℕ → List ℕ → Option Report
  send_mail email_adress title content =
      let line = take 1023 (mail_line email_adress title content) in
      if popen_write line
      then some (record { ran = line ∷ []; printed = line ++ 10 ∷ []; status = 0 })
      else some (failure (line ++ 10 ∷ sender_error))

  -- `main` on its arguments after the name of the program.
  pub main : List (List ℕ) → Option Report
  unfolding show_mails_handle send_mail
  main (sort_by ∷ []) = greeted (show_mails_handle sort_by)
  main (email_adress ∷ title ∷ content ∷ []) = send_mail email_adress title content
  main _ = some (failure menu)
