-- ===== src/LogServer/Tests.antt =====
-- exp1/server6.c: a stream in pieces, and the theorem at a concrete input.
use rnd.Common.{ℕ, some, List, [], ◌∷◌, ◌++◌, ◌≡◌, map, refl, arith}
use rnd.Common.Lines.{complete_lines, each_line, split_line}
use rnd.Common.Text.{c_string}
use rnd.EventLoop.State.{Event, incoming, readable, received}
use rnd.LogServer.Server.{log_of}
use rnd.LogServer.Streams.{entries_of, log_of_connection}
use rnd.LogServer.State.{Connection, handle_all, new_connection, append_data, log_line}
use rnd.LogServer.Chunks.{entries, after, logged, concat, within-AllFit, handle_all-pieces}

abbrev waiting : Connection
waiting = record { fd = 5; buffer = b'a' ∷ []; packet_count = 2 }

abbrev first_piece : List ℕ
first_piece = b'b' ∷ b'\n' ∷ b'c' ∷ []

abbrev other_pieces : List (List ℕ)
other_pieces = (b'd' ∷ []) ∷ (b'\n' ∷ b'\n' ∷ []) ∷ []

handle_all-pieces_example : handle_all (map received (first_piece ∷ other_pieces)) (waiting, []) ≡ (
  some (after waiting (first_piece ++ concat other_pieces)),
  [] ++ logged waiting (first_piece ++ concat other_pieces),
)
handle_all-pieces_example = handle_all-pieces first_piece other_pieces waiting [] (
    within-AllFit waiting (first_piece ∷ other_pieces)
      (omega arith, (omega arith, (omega arith, tt))) (omega arith))

-- Two connections whose data is interleaved.
abbrev interleaved : List Event
interleaved =
    incoming (5 ∷ 6 ∷ [])
    ∷ readable 5 (received (b'a' ∷ []))
    ∷ readable 6 (received (b'x' ∷ b'\n' ∷ []))
    ∷ readable 5 (received (b'b' ∷ b'\n' ∷ []))
    ∷ []

log_of_connection_example :
    entries_of 5 (log_of interleaved)
    ≡ entries 5 0 (complete_lines [] ((b'a' ∷ []) ++ concat ((b'b' ∷ b'\n' ∷ []) ∷ [])))
unfolding new_connection
log_of_connection_example =
    log_of_connection 5 (b'a' ∷ []) ((b'b' ∷ b'\n' ∷ []) ∷ []) interleaved (omega arith)
      ((omega arith, omega arith), ((omega arith, omega arith), tt)) refl

-- `%s` stops at a NUL.
nul_cut :
    (append_data (b'a' ∷ 0 ∷ b'b' ∷ b'\n' ∷ []) (new_connection 5, [])).1
    ≡ record { conn = 5; pkt = 1; content = b'a' ∷ [] } ∷ []
unfolding append_data log_line new_connection each_line split_line c_string
nul_cut = refl
