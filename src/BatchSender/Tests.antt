-- ===== src/BatchSender/Tests.antt =====
-- non.c: the theorems at concrete runs.
use rnd.Common.{List, [], ◌∷◌}
use rnd.Common.Int.{ℤ, pos}
use rnd.Common.Float.{fixed_point}
use rnd.BatchSender.State.{
  room, would_block, Attempt, no_socket, refused, connected, signal, init, run,
}
use rnd.BatchSender.Batches.{Shares, messages_shared}

-- Two messages on the first connection, one and a part on the second.
abbrev two_batches : List (Attempt ℤ)
two_batches =
    connected (room 1024 ∷ room 600 ∷ would_block ∷ room 2000 ∷ []) (pos 1)
    ∷ refused (pos 2)
    ∷ no_socket
    ∷ connected (room 1024 ∷ room 10 ∷ []) (pos 3)
    ∷ signal
    ∷ []

messages_shared_example :
    Shares 1 (run fixed_point 60 (pos 2) two_batches (init fixed_point)).totals
messages_shared_example = messages_shared fixed_point 60 1 two_batches
