-- ===== src/LogServer/Server.antt =====
-- exp1/server6.c, lines 12-25 and 68-143: the server as a program of the event loop.
use rnd.Common.{Bool, Option, none, some, List, [], if◌then◌else◌}
use rnd.Common.Setup.{Calls}
use rnd.EventLoop.Start.{start_server}
use rnd.EventLoop.State.{Program, Event, start_with, handle_events}
use rnd.LogServer.State.{Connection, Entry, new_connection, handle_connection}

-- Lines 13 and 139-140.
unfoldable pub log_program : Program Connection (List Entry)
log_program = record {
  max_connections = 1000;
  new_connection = new_connection;
  handle = λ r c output. handle_connection r (c, output);
}

-- Lines 111-143: the log after the events of a run.
unfoldable pub log_of : List Event → List Entry
log_of es = (handle_events log_program es (start_with [])).shared

-- Lines 68-143: the log, or nothing where `main` returns 1. `fopen` succeeds or not.
unfoldable pub main : Calls → Bool → List Event → Option (List Entry)
unfolding log_of
main c opens es = elim (start_server c) [
  | none ↦ none
  | some l ↦ if opens then some (log_of es) else none
]
