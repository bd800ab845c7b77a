-- ===== src/OrderServer/Tests.antt =====
-- serverexp2.c: a run on concrete events, and the theorems at concrete inputs.
use rnd.Common.{ℕ, ◌≤◌, true, some, List, [], ◌∷◌, ◌≡◌, refl}
use rnd.Common.Int.{pos, ◌+ℤ◌, ◌-ℤ◌}
use rnd.Common.Time.{time_zero}
use rnd.OrderServer.State.{Server, init}
use rnd.OrderServer.Loop.{Event, incoming, readable, client, Input, events, read_client, run}
use rnd.OrderServer.Order.{OrderCounts, run-OrderCounts}
use rnd.OrderServer.Clients.{accepts, closes, stops_when_closed}

abbrev sends : ℕ → ℕ → Event
sends fd n = readable fd (pos n) time_zero time_zero

abbrev two_clients : List Input
two_clients =
    events (incoming (client 5 true) ∷ incoming (client 6 true) ∷ [])
    ∷ events (sends 5 60 ∷ sends 6 120 ∷ sends 6 60 ∷ sends 5 60 ∷ sends 5 60 ∷ [])
    ∷ events (sends 6 0 ∷ [])
    ∷ []

counts_order :
    let s = run two_clients init in
    (s.socket1_before_socket2 ≡ 1)
    × (s.socket2_before_socket1 ≡ 1)
    × (s.both ≡ 2)
    × (s.conn1_bytes ≡ 180)
    × (s.conn2_packets ≡ 3)
    × (s.active_clients ≡ pos 1)
    × (s.running ≡ true)
unfolding run init ◌+ℤ◌ ◌-ℤ◌
counts_order = (refl, refl, refl, refl, refl, refl, refl)

run-OrderCounts_example : OrderCounts (run two_clients init)
run-OrderCounts_example = run-OrderCounts two_clients

stops_when_closed_example :
    accepts (read_client 5 (pos 0) time_zero time_zero (run two_clients init)).calls
    ≤ closes (read_client 5 (pos 0) time_zero time_zero (run two_clients init)).calls
unfolding run init read_client ◌+ℤ◌ ◌-ℤ◌
stops_when_closed_example = stops_when_closed two_clients 5 (pos 0) time_zero time_zero refl refl

abbrev connected : Server
connected = record init {
  first_socket = some 5;
  second_socket = some 6;
  count = 2;
  active_clients = pos 2;
}
