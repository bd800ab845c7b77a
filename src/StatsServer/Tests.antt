-- ===== src/StatsServer/Tests.antt =====
-- server_epx3.c: a run of the server on concrete events, and the theorems at concrete states.
use rnd.Common.{
  ℕ, ◌+◌, ◌*◌, ◌≤◌, ◌<◌, true, false, some, List, [], ◌∷◌, ◌++◌, ◌≡◌, refl, ap, arith, replicate,
  map, ◌⊎◌, ◌&&◌, ltb, if◌then◌else◌, none, All,
}
use rnd.Common.Int.{ℤ, pos, ◌-ℤ◌}
use rnd.Common.Float.{fixed_point, of_ℕ}
use rnd.Common.Time.{Timeval, time_zero}
use rnd.Common.Setup.{Calls}
use rnd.StatsServer.Setup.{set_up, listen_on, watch}
use rnd.StatsServer.Main.{finish, main, HasReleased, main_releases}
use rnd.StatsServer.State.{
  Connection, ConnectionStats, Server, init, zero_stats, zero_totals, zero_session,
  no_event_timeout, summary_interval, max_non_persistent,
}
use rnd.StatsServer.Session.{time_diff, end_session}
use rnd.StatsServer.Accept.{client, accept_client}
use rnd.StatsServer.Receive.{is_some, receive}
use rnd.StatsServer.Bytes.{is_misplaced}
use rnd.StatsServer.Close.{disconnect}
use rnd.StatsServer.Loop.{
  Event, incoming, readable, bytes, ready, Round, Input, signal, round, no_events, events_of,
  handle_event, handle_events, expire_inactive, run_round, run,
}
use rnd.StatsServer.Shutdown.{save_remaining, shut_down_server}
use rnd.StatsServer.Report.{start_conn, end_conn}
use rnd.StatsServer.Bounds.{InBounds, run-InBounds}
use rnd.StatsServer.Clients.{IsBalanced, run-IsBalanced}
use rnd.StatsServer.Pairs.{PairsAgree, run-PairsAgree}
use rnd.StatsServer.Counts.{picked, run-Counted}
use rnd.StatsServer.Graded.{events_in}
use rnd.StatsServer.Waiting.{waiting, if_joins, others, first_fd, queue_in_order}
use rnd.StatsServer.Stops.{IsIdle, event-running, IdleAfter, stamped, round-stops, quiet_round}
use rnd.StatsServer.Stale.{HoldsPick, Data, data_event, Keeps, stale_after_session}
use rnd.StatsServer.Summaries.{summary_range}

abbrev at : ℕ → Timeval
at n = record { tv_sec = n; tv_usec = 0 }

abbrev no_connection : Connection
no_connection = record { fd = 0; connect_time = time_zero }

abbrev empty_queue : List Connection
empty_queue = replicate 10 no_connection

abbrev empty_stats : List (ConnectionStats ℤ)
empty_stats = replicate 200 (zero_stats fixed_point)

abbrev new_server : Server ℤ
new_server = init fixed_point empty_queue empty_stats (at 0)

abbrev at_time : ℕ → List Event → Input
at_time n es =
    round (record { wait = ready es; current_time = at n; event_time = at n; added = true })

abbrev arrives : ℕ → ℕ → Event
arrives fd n = incoming (client fd (at n) true)

abbrev sends : ℕ → ℕ → ℕ → Event
sends fd n c = readable fd (bytes (replicate 1024 c)) (at n) (at n) true

abbrev leaves : ℕ → ℕ → Event
leaves fd n = readable fd (bytes []) (at n) (at n) true

-- Client 5 is the persistent one; 6 is served, and 7 after it.
abbrev visit : List Input
visit =
    at_time 1 (arrives 5 1 ∷ arrives 6 1 ∷ arrives 7 2 ∷ [])
    ∷ at_time 3 (sends 5 3 b'P' ∷ sends 6 3 b'N' ∷ sends 5 3 b'P' ∷ sends 6 3 b'N' ∷ [])
    ∷ at_time 4 (leaves 6 4 ∷ sends 7 4 b'N' ∷ sends 5 4 b'P' ∷ [])
    ∷ []

visited :
    let s = run fixed_point visit new_server in
    (s.persistent_fd ≡ some 5)
    × (s.non_persistent_fd ≡ some 7)
    × (s.totals.all_both ≡ 3)
    × (s.connection_count ≡ 1)
    × (s.active_clients ≡ pos 2)
    × (s.totals.all_per_bytes ≡ 3072)
unfolding run init zero_stats zero_totals zero_session fixed_point ◌-ℤ◌
visited = (refl, refl, refl, refl, refl, refl)

run-InBounds_example :
    InBounds
      (save_remaining (run fixed_point visit (init fixed_point empty_queue empty_stats (at 0))))
run-InBounds_example = run-InBounds fixed_point empty_queue empty_stats (at 0) visit refl refl

run-IsBalanced_example :
    IsBalanced (run fixed_point visit new_server)
    × IsBalanced (shut_down_server (run fixed_point visit new_server))
run-IsBalanced_example = run-IsBalanced fixed_point empty_queue empty_stats (at 0) visit

run-PairsAgree_example : PairsAgree (save_remaining (run fixed_point visit new_server))
run-PairsAgree_example = run-PairsAgree fixed_point empty_queue empty_stats (at 0) visit refl refl

run-Counted_example :
    let s = run fixed_point visit new_server in
    (s.totals.all_only_persistent_count + s.totals.all_only_non_persistent_count
      ≤ events_in visit 0)
    × (2 * s.totals.all_both + picked s.pick
        ≤ s.totals.all_only_persistent_count + s.totals.all_only_non_persistent_count)
run-Counted_example = run-Counted fixed_point empty_queue empty_stats (at 0) visit (omega arith)

-- Persistent client 5 and non-persistent client 6, with 7 and 8 in the queue.
abbrev client_7 : Connection
client_7 = record { fd = 7; connect_time = at 2 }

abbrev client_8 : Connection
client_8 = record { fd = 8; connect_time = at 3 }

abbrev busy : Server ℤ
busy = record new_server {
  persistent_fd = some 5;
  non_persistent_fd = some 6;
  pick = some 9;
  non_persistent_queue = client_7 ∷ client_8 ∷ replicate 8 no_connection;
  queue_count = 2;
  active_clients = pos 4;
}

busy-InBounds : InBounds busy
unfolding init
busy-InBounds = omega arith

-- With both slots taken, client 10 joins behind 7 and 8; 7 follows client 6.
queue_in_order_example :
    (waiting (accept_client (client 10 (at 4) true) busy)
      ≡ waiting busy
        ++ if_joins
            (is_some busy.persistent_fd
              && (is_some busy.non_persistent_fd && ltb busy.queue_count max_non_persistent))
            (record { fd = 10; connect_time = at 4 }))
    × (waiting (receive 5 (b'N' ∷ []) (at 4) (at 4) busy)
        ≡ waiting busy
          ++ if_joins
              (is_misplaced 5 (b'N' ∷ []) busy
                && (is_some busy.non_persistent_fd && ltb busy.queue_count max_non_persistent))
              (record { fd = 5; connect_time = busy.conn1_start }))
    × (waiting (end_session fixed_point true busy).0 ≡ others (waiting busy))
    × ((end_session fixed_point true busy).0.non_persistent_fd
        ≡ (if true then first_fd (waiting busy) else none))
queue_in_order_example =
    queue_in_order fixed_point busy 10 5 (b'N' ∷ []) (at 4) (at 4) true busy-InBounds

abbrev alone : Server ℤ
alone = record new_server { persistent_fd = some 5; active_clients = pos 1 }

event-running_example : IsIdle (handle_event fixed_point (leaves 5 4) alone)
unfolding init
event-running_example =
    event-running fixed_point (leaves 5 4) alone refl (unfold handle_event disconnect ◌-ℤ◌ in refl)

abbrev quiet : Round
quiet = record { wait = ready []; current_time = at 200; event_time = at 200; added = true }

quiet_round_example : run_round fixed_point quiet busy ≡ record busy { running = false }
unfolding init fixed_point time_diff
quiet_round_example = quiet_round fixed_point quiet busy refl refl

round-stops_example :
    ((no_events quiet.wait ≡ true)
      × (fixed_point.le
            (of_ℕ fixed_point no_event_timeout)
            (time_diff fixed_point busy.last_event_time quiet.current_time)
          ≡ true))
    ⊎ IdleAfter fixed_point
        (events_of quiet.wait)
        (expire_inactive fixed_point quiet.current_time quiet.added (stamped quiet busy)).0
round-stops_example =
    round-stops fixed_point quiet busy (unfold init in refl)
      (ap (λ s. s.running) quiet_round_example)

-- The slots are 5's and 6's. 6 sends and leaves; 7 takes its slot, and both go on sending.
abbrev later : List Data
later =
    record { fd = 7; head = b'N'; tail = []; start = at 3; end = at 3 }
    ∷ record { fd = 5; head = b'P'; tail = []; start = at 4; end = at 4 }
    ∷ []

abbrev unpicked : Server ℤ
unpicked = record busy { pick = none }

unpicked-InBounds : InBounds unpicked
unfolding init
unpicked-InBounds = omega arith

later-Keeps : All (Keeps 5) later
later-Keeps = (λ (e : 7 ≡ 5). absurd (omega arith), (λ (e : 5 ≡ 5). refl, tt))

stale_after_session_example :
    let after =
      handle_events fixed_point
        (readable 6 (bytes (b'N' ∷ [])) (at 1) (at 1) true
          ∷ readable 6 (bytes []) (at 2) (at 2) true
          ∷ map data_event later)
        unpicked in
    HoldsPick 5 7 6 after
    × (after.totals.all_both ≡ unpicked.totals.all_both)
    × (after.session.both ≡ 0)
stale_after_session_example =
    stale_after_session fixed_point 5 6 b'N' [] (at 1) (at 1) (at 2) client_7 (client_8 ∷ []) later
      unpicked unpicked-InBounds refl refl refl refl (omega arith) (omega arith) later-Keeps

summary_range_example :
    let n = (run fixed_point visit new_server).connection_count in
    (start_conn 0 < end_conn n 0)
    × (end_conn n 0 ≤ start_conn 0 + summary_interval)
    × (end_conn n 0 ≤ n)
unfolding run init zero_stats zero_totals zero_session fixed_point ◌-ℤ◌ save_remaining
summary_range_example =
    summary_range fixed_point empty_queue empty_stats (at 0) visit 0 (omega arith) (omega arith)

abbrev calls : Calls
calls = record {
  socket = some 3;
  binds = true;
  listens = true;
  epoll_create = some 4;
  registers = true;
}

-- The visit of a client, and the signal.
abbrev visit_and_signal : List Input
visit_and_signal = visit ++ signal ∷ []

visit_ends :
    (main fixed_point true true true calls empty_queue empty_stats (at 0) visit_and_signal).status
    ≡ some 0
unfolding main finish set_up listen_on watch run init fixed_point ◌-ℤ◌
visit_ends = refl

main_releases_example :
    HasReleased fixed_point true
      (run fixed_point visit_and_signal (init fixed_point empty_queue empty_stats (at 0)))
      0
      (main fixed_point true true true calls empty_queue empty_stats (at 0) visit_and_signal)
main_releases_example =
    main_releases fixed_point true true true calls empty_queue empty_stats (at 0) visit_and_signal 0
      visit_ends
