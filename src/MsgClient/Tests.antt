-- ===== src/MsgClient/Tests.antt =====
-- A session of the client of lab6/zad1/client.c.
use operating_systems_agh.Prelude.{refl, true, none, some, [], ◌∷◌, codes, replicate, arith, pos}
use operating_systems_agh.MsgQueue.{Message, blank, succes, new_message}
use operating_systems_agh.MsgClient.{Round, main}
use operating_systems_agh.MsgClient.Requests.{After, IsSound}
use operating_systems_agh.MsgClient.Session.{main-After}

abbrev welcome : Message
welcome = record blank { kind = succes; client_id = pos 3 }

abbrev list_first : Round
list_first = record {
  word = codes "LIST";
  pending = [];
  number = none;
  text = [];
  time = 5;
  taken = true;
  reply = some (record blank { kind = new_message });
}

abbrev then_one : Round
then_one = record {
  word = codes "2ONE";
  pending = welcome ∷ [];
  number = some (pos 2);
  text = codes "hello there";
  time = 6;
  taken = true;
  reply = none;
}

abbrev then_stop : Round
then_stop = record {
  word = codes "STOP";
  pending = [];
  number = none;
  text = [];
  time = 7;
  taken = true;
  reply = none;
}

main-After_example :
    After 40
      (IsSound 40)
      (main 40 (replicate 255 0) true (some welcome) 1 (list_first ∷ then_one ∷ then_stop ∷ []))
main-After_example =
    main-After 40 (replicate 255 0) true (some welcome) 1 (list_first ∷ then_one ∷ then_stop ∷ [])
      refl
      ((omega arith, omega arith), ((omega arith, omega arith), ((omega arith, omega arith), tt)))
