-- ===== src/RoundClient/Tests.antt =====
-- exp1/client8.c: the theorems at a concrete run.
use rnd.Common.{ℕ, ◌*◌, ◌<◌, Bool, true, ◌≡◌, refl, length, arith}
use rnd.RoundClient.State.{tcp_conn, State, init, send_packet, Reachable, started, step}
use rnd.RoundClient.Rounds.{rounds, sent_in_rounds}

abbrev all_connected : ℕ → Bool
all_connected c = true

abbrev one_sent : State
one_sent = send_packet true 1 init

one_sent_reached : Reachable 2 all_connected one_sent
unfolding init
one_sent_reached = step true 1 started (record {
  is_started = (omega arith, omega arith);
  is_connected = refl;
  has_packets = omega arith;
  has_turn = (refl, refl);
})

sent_in_rounds_example : one_sent.sent ≡ rounds (length one_sent.sent)
sent_in_rounds_example = sent_in_rounds one_sent_reached

packets_left : length one_sent.sent < tcp_conn * 2
unfolding init send_packet
packets_left = omega arith
