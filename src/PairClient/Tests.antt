-- ===== src/PairClient/Tests.antt =====
-- clientexp2.c: the theorems at concrete connections.
use rnd.Common.{ℕ, ◌≤◌, ltb, ◌==◌, if◌then◌else◌, ◌≡◌}
use rnd.PairClient.State.{
  num_messages, Attempt, no_socket, refused, connected, persistent_connection, frequent_connection,
}
use rnd.PairClient.Batches.{sockets_closed}

-- The connection at 3000 is refused; on each other one the calls of `send` fail from the fifth on.
abbrev some_fail : ℕ → Attempt
some_fail i = if i == 3000 then refused 8 else connected 8 (λ j. ltb j 5)

sockets_closed_example :
    ((persistent_connection no_socket).closed ≡ (persistent_connection no_socket).opened)
    × ((persistent_connection no_socket).sent ≤ num_messages)
    × ((frequent_connection some_fail).closed ≡ (frequent_connection some_fail).opened)
    × ((frequent_connection some_fail).sent ≤ num_messages)
sockets_closed_example = sockets_closed no_socket some_fail
