-- ===== src/SequenceServer/Tests.antt =====
-- exp1/server_final.c: runs on concrete packets, and the theorems at concrete inputs.
use rnd.Common.{
  ℕ, ◌+◌, false, true, none, some, if◌then◌else◌, List, [], ◌∷◌, ◌++◌, ◌≡◌, refl, length, arith,
  ◌≤◌,
}
use rnd.Common.Int.{pos}
use rnd.SequenceServer.Tracker.{start, note, note_gap, track, max_out_of_order}
use rnd.SequenceServer.Gaps.{
  track_all, max_of, new_highs, count, between, gaps_partition, expected_and_room,
}
use rnd.SequenceServer.Text.{scan_packet, message}
use rnd.SequenceServer.RoundTrip.{scan_packet-message}
use rnd.EventLoop.State.{Event, incoming, readable, received, ended, start_with, handle_events}
use rnd.SequenceServer.Server.{read_lines, sequence_program, signal}
use rnd.SequenceServer.Main.{main, has_signal, main_returns}
use rnd.Common.Setup.{Calls}
use rnd.EventLoop.Start.{starts}
use rnd.SequenceServer.Streams.{stream, read_lines-partial}
use rnd.SequenceServer.Memory.{run_is_defined}

skips_noted :
    track_all (3 ∷ 1 ∷ 6 ∷ []) start
    ≡ record { global_expected_seq = 7; out_of_order = 1 ∷ 2 ∷ 4 ∷ 5 ∷ [] }
unfolding track_all start track note_gap note
skips_noted = refl

old_kept_noted : (track_all (2 ∷ 1 ∷ []) start).out_of_order ≡ 1 ∷ []
unfolding track_all start track note_gap note
old_kept_noted = refl

gaps_partition_example :
    count 2 (track_all (3 ∷ 1 ∷ 6 ∷ []) start).out_of_order + count 2 (new_highs 1 (3 ∷ 1 ∷ 6 ∷ []))
    ≡ between 1 (track_all (3 ∷ 1 ∷ 6 ∷ []) start).global_expected_seq 2
gaps_partition_example = gaps_partition (3 ∷ 1 ∷ 6 ∷ []) 2 (omega arith)

expected_and_room_example :
    ((track_all (3 ∷ 1 ∷ 6 ∷ []) start).global_expected_seq ≡ max_of (3 ∷ 1 ∷ 6 ∷ []) + 1)
    × (length (track_all (3 ∷ 1 ∷ 6 ∷ []) start).out_of_order ≤ max_out_of_order)
expected_and_room_example = expected_and_room (3 ∷ 1 ∷ 6 ∷ [])

scan_packet-message_example : scan_packet (message 4 106) ≡ some (pos 106)
scan_packet-message_example = scan_packet-message 4 106

abbrev two_packets : List (ℕ × ℕ)
two_packets = (1, 1) ∷ (2, 3) ∷ []

-- A line that is not a packet, and the start of one.
abbrev noise : List ℕ
noise = b'x' ∷ []

abbrev cut_packet : List ℕ
cut_packet = b'T' ∷ b'C' ∷ b'P' ∷ b':' ∷ b'1' ∷ []

read_lines-partial_example :
    read_lines (noise ++ b'\n' ∷ cut_packet) start ≡ read_lines (noise ++ b'\n' ∷ []) start
read_lines-partial_example =
    read_lines-partial noise cut_packet start (refl, (refl, (refl, (refl, (refl, tt)))))

abbrev one_client : List Event
one_client =
    incoming (7 ∷ 8 ∷ [])
    ∷ readable 7 (received (stream two_packets))
    ∷ readable 8 ended
    ∷ readable 7 ended
    ∷ incoming (7 ∷ [])
    ∷ readable 7 (received cut_packet)
    ∷ []

run_is_defined_example :
    (handle_events sequence_program one_client (start_with start)).is_undefined ≡ false
run_is_defined_example =
    run_is_defined one_client
      ((omega arith, (omega arith, tt)), (refl, (refl, (refl, ((omega arith, tt), (refl, tt))))))

abbrev no_bind : Calls
no_bind = record {
  socket = some 3;
  binds = false;
  listens = true;
  epoll_create = some 4;
  registers = true;
}

main_returns_example :
    (main sequence_program no_bind (signal ∷ [])).status
    ≡ (if starts no_bind then (if has_signal (signal ∷ []) then some 0 else none) else some 1)
main_returns_example = main_returns sequence_program no_bind (signal ∷ [])
