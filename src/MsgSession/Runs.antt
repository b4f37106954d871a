-- ===== src/MsgSession/Runs.antt =====
-- lab6/zad1, server.c and client.c together: what holds in every state that the clients and the server reach.
use operating_systems_agh.MsgQueue.{
  Server, running, exited, fault, key_eq, to, innit, stop, succes, failure, dispatch, received,
  on_event,
}
use operating_systems_agh.MsgQueue
