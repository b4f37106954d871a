-- ===== src/Mail/Tests.antt =====
-- lab5/zad1/program.c with a mailbox of two lines.
use operating_systems_agh.Prelude.{
  ℕ, ◌≡◌, refl, Bool, Option, some, List, [], ◌∷◌, ◌++◌, take, length, true, false, ◌≢◌, ◌≤◌, codes,
  arith,
}
use operating_systems_agh.Mail.{greeting, menu, sender_error, failure, mail_line, send_mail, main}
use operating_systems_agh.Mail.Laws.{main_mails, cut_line}

abbrev mailbox : List ℕ → Option (List ℕ)
mailbox line = some (codes "U 1 ann\nU 2 bob\n")

abbrev runs_all : List ℕ → Bool
runs_all line = true

-- The text of a mail is read by the shell: its quotes end the argument of `echo`.
shell_reads_content :
    main mailbox runs_all (codes "ann" ∷ codes "t" ∷ codes "\"; reboot; \"" ∷ [])
    ≡ some (record {
      ran = codes "echo \"\"; reboot; \"\" | mail -s \"t\" ann" ∷ [];
      printed = codes "echo \"\"; reboot; \"\" | mail -s \"t\" ann\n";
      status = 0;
    })
unfolding main send_mail
shell_reads_content = refl

main_mails_example :
    (main mailbox runs_all (codes "date" ∷ [])
      ≡ some (record {
        ran = codes "mail -H" ∷ [];
        printed = codes "Showing mails...\nU 1 ann\nU 2 bob\n";
        status = 0;
      }))
    × (main mailbox runs_all (codes "sender" ∷ [])
        ≡ some (record {
          ran = codes "mail -H | sort -k 3" ∷ [];
          printed = codes "Showing mails...\nU 1 ann\nU 2 bob\n";
          status = 0;
        }))
    × (main mailbox runs_all (codes "dates" ∷ []) ≡ some (failure (greeting ++ menu)))
    × ((args : List (List ℕ))
        → length args ≢ 1
        → length args ≢ 3
        → main mailbox runs_all args ≡ some (failure menu))
    × ((address title content : List ℕ)
        → (runs_all (cut_line address title content) ≡ true
            → main mailbox runs_all (address ∷ title ∷ content ∷ [])
              ≡ some (record {
                ran = cut_line address title content ∷ [];
                printed = cut_line address title content ++ 10 ∷ [];
                status = 0;
              }))
          × (runs_all (cut_line address title content) ≡ false
              → main mailbox runs_all (address ∷ title ∷ content ∷ [])
                ≡ some (failure (cut_line address title content ++ 10 ∷ sender_error)))
          × (length (mail_line address title content) ≤ 1023
              → cut_line address title content ≡ mail_line address title content)
          × (1017 ≤ length content
              → cut_line address title content ≡ codes "echo \"" ++ take 1017 content))
main_mails_example =
    main_mails mailbox runs_all _ _ (codes "dates") refl refl (ground arith) (ground arith)
      (λ e. cc) (λ e. cc)
