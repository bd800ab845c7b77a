-- ===== src/TurnClient/LifeTests.antt =====
-- exp1/client_final.c: the theorems on `main` at concrete runs.
use rnd.Common.{ℕ, ◌+◌, ◌*◌, ◌≤◌, ltb, Bool, true, ◌≡◌, refl, arith}
use rnd.Threads.State.{
  Process, begin, open_socket, give_up, close_socket, connects, fails, sends, ends, Runs, begun,
  next, Onward, HasJoined,
}
use rnd.Threads.Stages.{count, joined-IsStuck}
use rnd.Threads.Steps.{steps}
use rnd.TurnClient.State.{Client, State, init, send_packet}
use rnd.TurnClient.Turn.{schedule}
use rnd.TurnClient.Worker.{turn_worker, pass}
use rnd.TurnClient.Life.{main_joins, main_waits}
use rnd.TurnClient.Progress.{main_ends}

abbrev all_connect : ℕ → Bool
all_connect c = true

-- Two connections with one packet each.
abbrev two_threads : Client
two_threads = record { tcp_conn = 2; packets = 1 }

abbrev both_open : Process State
both_open = open_socket 2 (open_socket 1 (begin init))

abbrev one_sent : Process State
one_sent = record both_open { shared = send_packet two_threads 1 init }

abbrev both_sent : Process State
both_sent = record one_sent { shared = send_packet two_threads 2 one_sent.shared }

abbrev both_closed : Process State
both_closed = close_socket 1 (close_socket 2 both_sent)

both_open_run : Runs (turn_worker two_threads) all_connect init both_open
unfolding turn_worker begin open_socket
both_open_run =
    let one : Runs (turn_worker two_threads) all_connect init (open_socket 1 (begin init)) =
      next begun (connects 1 (omega arith) (omega arith) refl refl) in
    next one (connects 2 (omega arith) (omega arith) refl refl)

both_sent_run : Runs (turn_worker two_threads) all_connect init both_sent
unfolding turn_worker begin open_socket init send_packet
both_sent_run =
    let one : Runs (turn_worker two_threads) all_connect init one_sent =
      next both_open_run (sends 1 (omega arith) (omega arith) refl (pass (omega arith) refl)) in
    next one (sends 2 (omega arith) (omega arith) refl (pass (omega arith) refl))

both_closed_run : Runs (turn_worker two_threads) all_connect init both_closed
unfolding turn_worker begin open_socket close_socket init send_packet
both_closed_run =
    let one : Runs (turn_worker two_threads) all_connect init (close_socket 2 both_sent) =
      next both_sent_run (ends 2 (omega arith) (omega arith) refl (omega arith)) in
    next one (ends 1 (omega arith) (omega arith) refl (omega arith))

both_closed-HasJoined : HasJoined (turn_worker two_threads) both_closed
unfolding turn_worker begin open_socket close_socket
both_closed-HasJoined c lo hi = ground arith

main_joins_example :
    HasJoined (turn_worker two_threads) both_closed
    × (both_closed.shared.sent ≡ schedule two_threads (2 * 1))
    × ((c : ℕ) → 1 ≤ c → c ≤ 2 → count c both_closed.closed ≡ 1)
main_joins_example =
    main_joins two_threads (omega arith) (λ c lo hi. refl) both_closed_run
      (joined-IsStuck (turn_worker two_threads) all_connect both_closed-HasJoined)

-- From the state in which both threads have connected.
main_ends_example :
    (steps both_open_run ≤ 2 * 1 + 2 * 2)
    × ((q : Process State) × Onward (turn_worker two_threads) all_connect both_open q
        × HasJoined (turn_worker two_threads) q)
main_ends_example = main_ends two_threads (omega arith) (λ c lo hi. refl) both_open_run

-- Two packets each; the second thread's `connect` fails, and the first has sent its packet.
abbrev two_packets : Client
two_packets = record { tcp_conn = 2; packets = 2 }

abbrev first_connects : ℕ → Bool
first_connects c = ltb c 2

abbrev first_sent : Process State
first_sent = record (give_up 2 (open_socket 1 (begin init))) {
  shared = send_packet two_packets 1 init;
}

first_sent_run : Runs (turn_worker two_packets) first_connects init first_sent
unfolding turn_worker begin open_socket give_up init
first_sent_run =
    let one : Runs (turn_worker two_packets) first_connects init (open_socket 1 (begin init)) =
      next begun (connects 1 (omega arith) (omega arith) refl refl) in
    let two : Runs (turn_worker two_packets) first_connects init
        (give_up 2 (open_socket 1 (begin init))) =
      next one (fails 2 (omega arith) (omega arith) refl refl) in
    next two (sends 1 (omega arith) (omega arith) refl (pass (omega arith) refl))

main_waits_example : ¬ HasJoined (turn_worker two_packets) first_sent
main_waits_example =
    main_waits two_packets (omega arith) 2 1 (omega arith) (omega arith) refl (omega arith)
      (omega arith) refl (omega arith) first_sent_run
