-- ===== src/Signals/Tests.antt =====
-- lab4/zad1/zadanie1.c on concrete arguments.
use operating_systems_agh.Prelude.{refl, true, false, [], codes}
use operating_systems_agh.Signals.{Process, by_default, main}
use operating_systems_agh.Signals.Inheritance.{IsAlive, main-IsAlive}

abbrev fresh : Process
fresh = record {
  pid = 7;
  disposition = by_default;
  blocked = false;
  pending = false;
  alive = true;
  output = [];
}

main-IsAlive_example : IsAlive (main 3 8 (codes "handler") (codes "fork") fresh)
main-IsAlive_example = main-IsAlive 3 8 (codes "handler") (codes "fork") fresh refl
