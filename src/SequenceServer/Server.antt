-- ===== src/SequenceServer/Server.antt =====
-- exp1/server_final.c, lines 12-33, 35-104 and 145-181: the server as a program of the event loop, with
-- the signal that ends it, which exp1/server8 copy.c has too (lines 95-106 and 147-183). A `Connection` is its descriptor: `buf_used` is never changed, and each `recv`
-- writes the buffer from its start.
use rnd.Common.{
  ℕ, ◌+◌, Bool, true, false, Option, none, some, List, [], ◌∷◌, ◌++◌, if◌then◌else◌, length,
}
use rnd.Common.Lines.{each_line}
use rnd.EventLoop.State.{
  Recv, failed, ended, received, Program, Server, Event, start_with, handle_events,
}
use rnd.SequenceServer.Tracker.{Tracker, start, track_int}
use rnd.SequenceServer.Text.{scan_packet}

-- Lines 62-87.
unfoldable pub read_line : List ℕ → Tracker → Tracker
unfolding scan_packet
read_line line t = elim (scan_packet line) [ none ↦ t | some packet_seq ↦ track_int packet_seq t ]

-- Lines 51-90.
unfoldable pub read_lines : List ℕ → Tracker → Tracker
read_lines bytes t = (each_line read_line (length bytes + 1) bytes t).0

-- Lines 35-91: the connection, if it has not been freed, and the tracker.
unfoldable pub handle_connection : Recv → ℕ → Tracker → Option ℕ × Tracker
handle_connection failed fd t = (none, t)
handle_connection ended fd t = (none, t)
handle_connection (received bytes) fd t = (some fd, read_lines bytes t)

-- Lines 12, 161-164 and 176-178.
unfoldable pub sequence_program : Program ℕ Tracker
sequence_program = record {
  max_connections = 10000;
  new_connection = λ fd. fd;
  handle = handle_connection;
}

-- The signal, or the events of one `epoll_wait`.
pub data Input : Type 0 where
  signal : Input
  events : List Event → Input

-- `printed` has the lists of numbers that the handler of the signal has printed.
pub record Run : Type 0 where
  pub running : Bool
  pub server : Server ℕ Tracker
  pub printed : List (List ℕ)

unfoldable pub init : Run
init = record { running = true; server = start_with start; printed = [] }

-- Lines 93-104.
unfoldable pub handle_signal : Run → Run
handle_signal r = record r {
  running = false;
  printed = r.printed ++ r.server.shared.out_of_order ∷ [];
}

module _ (p : Program ℕ Tracker) where
  -- Lines 145-181: a signal, which arrives between two passes, or one pass of the loop.
  unfoldable pub step : Input → Run → Run
  step signal r = handle_signal r
  step (events es) r = if r.running then record r { server = handle_events p es r.server } else r

  unfoldable pub run : List Input → Run → Run
  run [] r = r
  run (i ∷ is) r = run is (step i r)
