-- ===== src/NumberServer/Server.antt =====
-- exp1/server8 copy.c, lines 11-92 and 147-183: the server as a program of the event loop; and
-- exp1/client9copy.c, line 39: the packet.
use rnd.Common.{ℕ, ◌+◌, Option, none, some, List, length}
use rnd.Common.Int.{ℤ}
use rnd.Common.Lines.{each_line}
use rnd.EventLoop.State.{Recv, failed, ended, received, Program, Server, Event, handle_events}
use rnd.SequenceServer.Tracker.{Tracker, track_int}
use rnd.Common.Text.{c_string}
use rnd.SequenceServer.Text.{◌>>=◌, scan_int, print_int}

-- `sscanf(start, "%d", &packet_seq)`, where it returns 1.
unfoldable pub scan_number : List ℕ → Option ℤ
scan_number line = do (packet_seq, rest) ← scan_int (c_string line); some packet_seq

-- The body of the loop over the lines.
unfoldable pub read_number : List ℕ → Tracker → Tracker
read_number line t = elim (scan_number line) [ none ↦ t | some packet_seq ↦ track_int packet_seq t ]

unfoldable pub read_numbers : List ℕ → Tracker → Tracker
read_numbers bytes t = (each_line read_number (length bytes + 1) bytes t).0

unfoldable pub handle_connection : Recv → ℕ → Tracker → Option ℕ × Tracker
handle_connection failed fd t = (none, t)
handle_connection ended fd t = (none, t)
handle_connection (received bytes) fd t = (some fd, read_numbers bytes t)

unfoldable pub number_program : Program ℕ Tracker
number_program = record {
  max_connections = 10000;
  new_connection = λ fd. fd;
  handle = handle_connection;
}

-- Lines 149-182, for the events of a run.
unfoldable pub serve : List Event → Server ℕ Tracker → Server ℕ Tracker
serve es s = handle_events number_program es s

-- `sprintf(msg, "%d\n", id)`, without its newline.
unfoldable pub number_message : ℕ → List ℕ
number_message id = print_int id
