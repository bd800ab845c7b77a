-- ===== src/Sender/Tests.antt =====
-- per.c: the theorem at a concrete run.
use rnd.Common.{◌+◌, some, List, [], ◌∷◌, ◌≡◌, refl, true, arith}
use rnd.Common.Int.{ℤ, pos}
use rnd.Common.Float.{fixed_point}
use rnd.Sender.State.{
  Input, signal, pass, room, would_block, failed, init, count_sent, read_clock, send_some, send_all,
}
use rnd.Sender.Packets.{IsExact, sent_exactly}
use rnd.Common.Word.{u64}
use rnd.Common.Time.{time_zero}
use rnd.StatsServer.State.{Server, zero_totals, init as new_server}
use rnd.StatsServer.Loop.{readable, bytes, handle_events}
use rnd.StatsServer.Bytes.{total_bytes}
use rnd.Sender.Swapped.{HasOther, clients_swapped}
use rnd.Sender.Wire.{wire}
use rnd.Sender.AtServer.{Piece, data_of, arrive, KeepsSlots, bytes_at_server}

abbrev some_passes : List (Input ℤ)
some_passes =
    pass (room 600) (pos 0)
    ∷ pass would_block (pos 0)
    ∷ pass (room 5000) (pos 0)
    ∷ pass (room 24) (pos 0)
    ∷ signal
    ∷ pass failed (pos 0)
    ∷ []

sent_exactly_example : IsExact (send_all fixed_point 60 some_passes (init fixed_point))
sent_exactly_example = sent_exactly fixed_point 60 some_passes

-- The socket takes three bytes, and then two.
abbrev five_bytes : List (Input ℤ)
five_bytes = pass (room 3) (pos 0) ∷ pass would_block (pos 0) ∷ pass (room 2) (pos 0) ∷ []

-- They arrive in two pieces, of four bytes and of one.
abbrev two_pieces : List Piece
two_pieces =
    record { head = b'P'; tail = b'P' ∷ b'P' ∷ b'P' ∷ []; start = time_zero; end = time_zero }
    ∷ record { head = b'P'; tail = []; start = time_zero; end = time_zero }
    ∷ []

abbrev one_client : Server ℤ
one_client = record (new_server fixed_point [] [] time_zero) { persistent_fd = some 5 }

five_bytes-wire : data_of two_pieces ≡ wire fixed_point 10 five_bytes (init fixed_point)
unfolding wire init send_some count_sent read_clock fixed_point
five_bytes-wire = refl

bytes_at_server_example :
    KeepsSlots one_client (handle_events fixed_point (arrive 5 two_pieces) one_client)
    × (total_bytes (handle_events fixed_point (arrive 5 two_pieces) one_client)
        ≡ u64 (
            total_bytes one_client
            + (send_all fixed_point 10 five_bytes (init fixed_point)).total_bytes_sent))
bytes_at_server_example =
    bytes_at_server 5 fixed_point 10 five_bytes two_pieces one_client refl five_bytes-wire

-- Descriptor 5 is a client of non.c.
abbrev two_clients : Server ℤ
two_clients = record one_client { non_persistent_fd = some 6 }

abbrev first_data : Piece
first_data = record { head = b'N'; tail = b'N' ∷ []; start = time_zero; end = time_zero }

clients_swapped_example : HasOther 6 1 0 (
    handle_events fixed_point
      (readable 5 (bytes (b'N' ∷ b'N' ∷ [])) time_zero time_zero true ∷ arrive 6 two_pieces)
      two_clients)
unfolding new_server zero_totals
clients_swapped_example =
    clients_swapped 5 6 fixed_point first_data two_pieces two_clients
      (λ e. absurd (omega (arith, e))) refl refl (omega arith) (λ e. absurd (omega (arith, e)))
