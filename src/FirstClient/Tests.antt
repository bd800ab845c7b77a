-- ===== src/FirstClient/Tests.antt =====
-- exp1/client.c: the theorem at a concrete run.
use rnd.Common.{ℕ, ◌++◌, true, some, List, [], ◌∷◌, ◌≡◌, refl, arith, take, drop, length, All, ◌≤◌}
use rnd.SequenceServer.Text.{print_int, print_digits}
use rnd.EventLoop.State.{Event, incoming, readable, received}
use rnd.LogServer.Chunks.{entries, concat}
use rnd.LogServer.Server.{log_of}
use rnd.LogServer.Streams.{entries_of}
use rnd.FirstClient.State.{Calls, Trace, message, send_packet, send_all, connect, main}
use rnd.FirstClient.Packets.{bytes_on, lines_of, packets_logged}

abbrev calls : Calls
calls = record {
  socket1 = some 3;
  socket2 = some 4;
  socket3 = some 5;
  socket4 = some 6;
  connect1 = true;
  connect2 = true;
  connect3 = true;
  connect4 = true;
}

abbrev trace : Trace
trace = record (send_all (record { sent = []; closed = [] })) { closed = 3 ∷ 4 ∷ 5 ∷ 6 ∷ [] }

main-trace : main calls ≡ some trace
unfolding main connect
main-trace = refl

abbrev second_bytes : List ℕ
second_bytes = bytes_on 2 trace.sent

-- The second connection's data comes in two pieces, and another client sends between them.
abbrev arriving : List Event
arriving =
    incoming (7 ∷ 8 ∷ [])
    ∷ readable 7 (received (take 5 second_bytes))
    ∷ readable 8 (received (b'x' ∷ b'\n' ∷ []))
    ∷ readable 7 (received (drop 5 second_bytes))
    ∷ []

in_pieces : take 5 second_bytes ++ concat (drop 5 second_bytes ∷ []) ≡ bytes_on 2 trace.sent
unfolding send_all send_packet message print_int print_digits
in_pieces = refl

some_bytes : All (λ bytes. 1 ≤ length bytes) (take 5 second_bytes ∷ drop 5 second_bytes ∷ [])
unfolding send_all send_packet message print_int print_digits
some_bytes = (omega arith, (omega arith, tt))

packets_logged_example : entries_of 7 (log_of arriving) ≡ entries 7 0 (lines_of 2)
packets_logged_example =
    packets_logged calls trace 2 7 (take 5 second_bytes) (drop 5 second_bytes ∷ []) arriving
      main-trace (omega arith) (omega arith) (omega arith) some_bytes in_pieces refl
