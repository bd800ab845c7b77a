-- ===== src/TurnClient/Tests.antt =====
-- exp1/client_final.c: the theorems at concrete runs of the threads.
use rnd.Common.Packets.{of_connection}
use rnd.Common.Lines.{complete_lines}
use rnd.Common.{
  List, ◌++◌, ◌<◌, length, map, ◌∷◌, ℕ, ◌+◌, ◌-◌, ◌≤◌, Bool, true, some, [], ◌≡◌, refl, arith,
}
use rnd.TurnClient.State.{
  client_op, client_final, State, init, send_packet, CanSend, Reachable, started, step,
}
use rnd.TurnClient.Turn.{schedule}
use rnd.TurnClient.Order.{packets_in_order}
use rnd.TurnClient.Message.{
  numbers_of, template, write_numbers, write_int, read_int, OpState, op_init, send_message,
  OpReachable, op_started, op_step, messages_in_turn,
}
use rnd.EventLoop.State.{Event, incoming}
use rnd.EventLoop.Arrivals.{data_events}
use rnd.SequenceServer.Server.{sequence_program, signal, events}
use rnd.SequenceServer.Arrivals.{packet_events, session}
use rnd.SequenceServer.Ending.{concat_events}
use rnd.Common.Setup.{Calls}
use rnd.SequenceServer.Main.{main}
use rnd.NumberServer.Main.{number_main}
use rnd.NumberServer.Server.{number_program}
use rnd.TurnClient.Delivery.{four_conns}
use rnd.TurnClient.Printed.{number_session, final_prints_none, main_prints_none}
use rnd.TurnClient.Unique.{Reached, just_one_state}

abbrev all_connected : ℕ → Bool
all_connected c = true

abbrev one_sent : State
one_sent = send_packet client_final 1 init

one_sent-Reachable :
    (connected : ℕ → Bool) → connected 1 ≡ true → Reachable client_final connected one_sent
unfolding init
one_sent-Reachable connected up = step 1 started (record {
  is_started = (omega arith, omega arith);
  is_connected = up;
  has_packets = omega arith;
  has_turn = refl;
})

packets_in_order_example : one_sent.sent ≡ schedule client_final (one_sent.global_packet_id - 1)
packets_in_order_example = packets_in_order (omega arith) (one_sent-Reachable all_connected refl)

abbrev two_batches : List (List Event)
two_batches =
    (incoming (5 ∷ 6 ∷ 7 ∷ 8 ∷ []) ∷ [])
    ∷ data_events (packet_events (λ c. c + 4) one_sent.sent)
    ∷ []

two_batches-session : concat_events two_batches ≡ session (λ c. c + 4) four_conns one_sent.sent
unfolding init send_packet
two_batches-session = refl

below_limit : (c : ℕ) → 1 ≤ c → c ≤ client_final.tcp_conn → c + 4 < sequence_program.max_connections
unfolding sequence_program
below_limit c lo hi = omega arith

abbrev calls : Calls
calls = record {
  socket = some 3;
  binds = true;
  listens = true;
  epoll_create = some 4;
  registers = true;
}

final_prints_none_example :
    ((main sequence_program calls (map events two_batches ++ signal ∷ [])).status ≡ some 0)
    × ((main sequence_program calls (map events two_batches ++ signal ∷ [])).loop.printed ≡ [] ∷ [])
final_prints_none_example =
    final_prints_none calls (λ c. c + 4) two_batches refl (one_sent-Reachable all_connected refl)
      below_limit two_batches-session

abbrev number_batches : List (List Event)
number_batches = number_session (λ c. c + 4) one_sent.sent ∷ []

number_batches-session : concat_events number_batches ≡ number_session (λ c. c + 4) one_sent.sent
unfolding init send_packet
number_batches-session = refl

below_table : (c : ℕ) → 1 ≤ c → c ≤ client_final.tcp_conn → c + 4 < number_program.max_connections
unfolding number_program
below_table c lo hi = omega arith

main_prints_none_example :
    ((number_main calls (map events number_batches ++ signal ∷ [])).status ≡ some 0)
    × ((number_main calls (map events number_batches ++ signal ∷ [])).loop.printed ≡ [] ∷ [])
main_prints_none_example =
    main_prints_none calls (λ c. c + 4) number_batches refl (one_sent-Reachable all_connected refl)
      below_table number_batches-session

just_one_state_example : IsContr (Reached client_final all_connected (5 + 1))
just_one_state_example =
    just_one_state client_final all_connected (omega arith) (λ c lo hi. refl) 5 (omega arith)

abbrev two_messages : OpState
two_messages = send_message 2 (send_message 1 op_init)

two_messages-OpReachable : OpReachable all_connected two_messages
unfolding op_init send_message init send_packet
two_messages-OpReachable =
    let first : CanSend client_op all_connected 1 init = record {
      is_started = (omega arith, omega arith);
      is_connected = refl;
      has_packets = omega arith;
      has_turn = refl;
    } in
    let second : CanSend client_op all_connected 2 (send_packet client_op 1 init) = record {
      is_started = (omega arith, omega arith);
      is_connected = refl;
      has_packets = omega arith;
      has_turn = refl;
    } in
    op_step 2 (op_step 1 op_started first) second

messages_in_turn_example :
    map numbers_of (two_messages.wire 2)
    ≡ of_connection 2 (schedule client_op (two_messages.turns.global_packet_id - 1))
messages_in_turn_example = messages_in_turn two_messages-OpReachable 2

two_messages-wire : map numbers_of (two_messages.wire 2) ≡ (2, 2) ∷ []
unfolding op_init send_message init send_packet write_numbers write_int read_int
two_messages-wire = refl

-- Packet 10 has two newlines in its message.
packet_10_lines : length (complete_lines [] (write_numbers 2 10 template)) ≡ 2
unfolding write_numbers write_int
packet_10_lines = refl

op_schedule : schedule client_op 3 ≡ (1, 1) ∷ (2, 2) ∷ (1, 3) ∷ []
op_schedule = refl
