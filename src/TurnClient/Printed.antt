-- ===== src/TurnClient/Printed.antt =====
-- exp1/client_final.c and exp1/server_final.c, and exp1/client9copy.c and exp1/server8 copy.c, together, from the start of the server's `main` to its return.
use rnd.Common.{ℕ, ◌≤◌, ◌<◌, Bool, true, some, List, [], ◌∷◌, ◌++◌, map, ◌≡◌, ap, sym, ◌∙◌}
use rnd.Common.Setup.{Calls}
use rnd.EventLoop.State.{Event, incoming, start_with, handle_events, handle_event, accept_all}
use rnd.EventLoop.Arrivals.{accept_all-shared}
use rnd.EventLoop.Start.{starts}
use rnd.SequenceServer.Tracker.{Tracker, start}
use rnd.SequenceServer.Server.{sequence_program, signal, events}
use rnd.SequenceServer.Arrivals.{session}
use rnd.SequenceServer.Ending.{concat_events, printed-concat_events}
use rnd.SequenceServer.Main.{main, main_prints}
use rnd.NumberServer.Server.{number_program, read_numbers, serve}
use rnd.NumberServer.Streams.{number-IsReader, arrivals}
use rnd.NumberServer.Main.{number_main}
use rnd.TurnClient.State.{client_final, State, Reachable}
use rnd.TurnClient.Delivery.{four_conns, four-IsConnected, no_gap_printed}
use rnd.TurnClient.Arrivals.{one_by_one, turns_leave_no_gap}

-- If socket, bind and listen succeed, the server accepts the four connections at descriptors
-- below MAX_CONNECTIONS, and the packets that the threads have sent in any state reached arrive
-- one by one in their order, in whatever batches of events, then after a signal main returns 0
-- and no number is printed.
pub final_prints_none :
    (c : Calls) (fd : ℕ → ℕ) {connected : ℕ → Bool} {s : State} (ess : List (List Event))
    → starts c ≡ true
    → Reachable client_final connected s
    → ((c : ℕ) → 1 ≤ c → c ≤ client_final.tcp_conn → fd c < sequence_program.max_connections)
    → concat_events ess ≡ session fd four_conns s.sent
    → ((main sequence_program c (map events ess ++ signal ∷ [])).status ≡ some 0)
      × ((main sequence_program c (map events ess ++ signal ∷ [])).loop.printed ≡ [] ∷ [])
final_prints_none c fd ess up r below all =
    let (status, printed) = main_prints sequence_program c ess up in
    (
      status,
      printed
          ∙ sym (printed-concat_events sequence_program ess)
          ∙ no_gap_printed fd ess r below all,
    )

-- The server accepts the four connections, and the packets arrive one by one.
abbrev pub number_session : (ℕ → ℕ) → List (ℕ × ℕ) → List Event
number_session fd sent = incoming (map fd four_conns) ∷ arrivals (one_by_one fd sent)

session-shared :
    (fd : ℕ → ℕ) {connected : ℕ → Bool} {s : State}
    → Reachable client_final connected s
    → ((c : ℕ) → 1 ≤ c → c ≤ client_final.tcp_conn → fd c < number_program.max_connections)
    → (handle_events number_program (number_session fd s.sent) (start_with start)).shared
      ≡ record { global_expected_seq = s.global_packet_id; out_of_order = [] }
unfolding handle_events handle_event serve start_with
session-shared fd r below =
    let server = accept_all number_program (map fd four_conns) (start_with start) in
    turns_leave_no_gap fd server r
      (four-IsConnected number_program read_numbers number-IsReader fd below)
      (accept_all-shared number_program read_numbers number-IsReader (map fd four_conns)
        (start_with start))

-- The same of exp1/server8 copy.c and the packets of exp1/client9copy.c: if socket, bind and
-- listen succeed, the four connections are accepted at descriptors below MAX_CONNECTIONS, and
-- the packets sent in any state reached arrive one by one in their order, in whatever batches,
-- then after a signal main returns 0 and no number is printed.
pub main_prints_none :
    (c : Calls) (fd : ℕ → ℕ) {connected : ℕ → Bool} {s : State} (ess : List (List Event))
    → starts c ≡ true
    → Reachable client_final connected s
    → ((c : ℕ) → 1 ≤ c → c ≤ client_final.tcp_conn → fd c < number_program.max_connections)
    → concat_events ess ≡ number_session fd s.sent
    → ((number_main c (map events ess ++ signal ∷ [])).status ≡ some 0)
      × ((number_main c (map events ess ++ signal ∷ [])).loop.printed ≡ [] ∷ [])
unfolding number_main
main_prints_none c fd ess up r below all =
    let (status, printed) = main_prints number_program c ess up in
    (
      status,
      printed
          ∙ ap
              (λ (es : List Event).
                (handle_events number_program es (start_with start)).shared.out_of_order ∷ [])
              all
          ∙ ap (λ (t : Tracker). t.out_of_order ∷ []) (session-shared fd r below),
    )
