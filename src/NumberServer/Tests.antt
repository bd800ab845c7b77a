-- ===== src/NumberServer/Tests.antt =====
-- exp1/server8 copy.c: the theorem at a concrete run.
use rnd.Common.{ℕ, List, [], ◌∷◌, ◌≡◌, refl}
use rnd.EventLoop.State.{Server, accept_all, start_with, add_connection}
use rnd.SequenceServer.Tracker.{Tracker, start}
use rnd.SequenceServer.Gaps.{track_all}
use rnd.NumberServer.Server.{number_program, serve}
use rnd.EventLoop.Arrivals.{IsConnected}
use rnd.NumberServer.Streams.{arrivals, all_numbers, arrivals_tracked}

abbrev two_clients : Server ℕ Tracker
two_clients = accept_all number_program (5 ∷ 6 ∷ []) (start_with start)

-- Client 6 is ahead.
abbrev out_of_turn : List (ℕ × List ℕ)
out_of_turn = (5, 1 ∷ 2 ∷ []) ∷ (6, 4 ∷ []) ∷ (5, 3 ∷ []) ∷ []

five-IsConnected : IsConnected two_clients 5
unfolding accept_all add_connection number_program
five-IsConnected = refl

six-IsConnected : IsConnected two_clients 6
unfolding accept_all add_connection number_program
six-IsConnected = refl

arrivals_tracked_example :
    (serve (arrivals out_of_turn) two_clients).shared
    ≡ track_all (all_numbers out_of_turn) two_clients.shared
arrivals_tracked_example =
    arrivals_tracked out_of_turn two_clients
      (five-IsConnected, (six-IsConnected, (five-IsConnected, tt)))
