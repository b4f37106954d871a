-- ===== src/Handlers/Tests.antt =====
-- lab4/zad2/zadanie2.c from its start.
use operating_systems_agh.Prelude.{◌≡◌, refl, Option, some, none, List, [], ◌∷◌, false, arith}
use operating_systems_agh.Handlers.{
  Process, Line, started, ended, info, heading, sa_siginfo, sa_nodefer, sa_restart, info_handler,
  main, raise, deliver, call_again, unmask,
}
use operating_systems_agh.Handlers.Depth.{idle, nested, chained, with_flags, raise_lem}

abbrev fresh : Process
fresh = record {
  call_id = 0;
  call_depth = 0;
  flags = sa_siginfo;
  handler = info_handler;
  blocked = false;
  pending = false;
  output = [];
}

raise_lem_example :
    (raise 13 (with_flags sa_nodefer fresh) ≡ some (idle sa_nodefer 4 0 (nested 4 0 0)))
    × (raise 13 (with_flags sa_restart fresh) ≡ some (idle sa_restart 4 0 (chained 4 0 0)))
raise_lem_example = raise_lem 13 fresh refl refl (omega arith)

abbrev shown : Option Process → List Line
shown none = []
shown (some p) = p.output

main_prints :
    shown (main 13 fresh)
    ≡ heading sa_siginfo
      ∷ info
      ∷ heading sa_nodefer
      ∷ started 0 0
      ∷ started 1 1
      ∷ started 2 2
      ∷ started 3 3
      ∷ ended 3 3
      ∷ ended 2 2
      ∷ ended 1 1
      ∷ ended 0 0
      ∷ heading sa_restart
      ∷ started 0 0
      ∷ ended 0 0
      ∷ started 1 0
      ∷ ended 1 0
      ∷ started 2 0
      ∷ ended 2 0
      ∷ started 3 0
      ∷ ended 3 0
      ∷ []
unfolding main raise deliver call_again unmask
main_prints = refl
