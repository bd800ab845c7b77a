-- ===== src/SequenceServer/Streams.antt =====
-- exp1/server_final.c, lines 51-90, on what the clients of exp1/client_final.c send.
use rnd.Common.{ℕ, ◌+◌, List, [], ◌∷◌, ◌++◌, ◌≡◌, refl, sym, ap, ◌∙◌, length, All, arith}
use rnd.Common.Lines.{
  each_line-lines, complete_lines, last_part, over_lines, complete_lines-append, IsPart,
  complete_lines-part, complete_lines-none,
}
use rnd.SequenceServer.Tracker.{Tracker, track, track_int}
use rnd.SequenceServer.Gaps.{track_all}
use rnd.SequenceServer.Text.{message}
use rnd.SequenceServer.RoundTrip.{scan_packet-message, message-IsPart}
use rnd.SequenceServer.Server.{read_line, read_lines}

-- `send` of one packet after the other: the connection's number and the packet's.
abbrev pub stream : List (ℕ × ℕ) → List ℕ
stream [] = []
stream ((conn_id, id) ∷ ps) = message conn_id id ++ b'\n' ∷ stream ps

abbrev pub numbers : List (ℕ × ℕ) → List ℕ
numbers [] = []
numbers ((conn_id, id) ∷ ps) = id ∷ numbers ps

read_lines-lines :
    (bytes : List ℕ) (t : Tracker)
    → read_lines bytes t ≡ over_lines read_line (complete_lines [] bytes) t
unfolding read_lines
read_lines-lines bytes t =
    ap (λ r. r.0) (each_line-lines read_line (length bytes + 1) bytes t (omega arith))

read_line-message : (conn_id id : ℕ) (t : Tracker) → read_line (message conn_id id) t ≡ track id t
unfolding read_line track_int
read_line-message conn_id id t = rw (scan_packet-message conn_id id, read_line) refl

over_lines-stream :
    (ps : List (ℕ × ℕ)) (t : Tracker)
    → over_lines read_line (complete_lines [] (stream ps)) t ≡ track_all (numbers ps) t
unfolding track_all
over_lines-stream [] t = refl
over_lines-stream ((conn_id, id) ∷ ps) t =
    rw
      (
        complete_lines-part [] (message conn_id id) (stream ps) (message-IsPart conn_id id),
        over_lines,
        read_line-message conn_id id t,
      )
      (over_lines-stream ps (track id t))

-- Reading the messages of any packets, one after the other, tracks the packets' numbers in turn.
pub read_lines-stream :
    (ps : List (ℕ × ℕ)) (t : Tracker) → read_lines (stream ps) t ≡ track_all (numbers ps) t
read_lines-stream ps t = read_lines-lines (stream ps) t ∙ over_lines-stream ps t

-- What follows the last newline of the data received is dropped: the tracker is the same without
-- it.
pub read_lines-partial :
    (xs part : List ℕ) (t : Tracker)
    → All IsPart part
    → read_lines (xs ++ b'\n' ∷ part) t ≡ read_lines (xs ++ b'\n' ∷ []) t
read_lines-partial xs part t h =
    read_lines-lines (xs ++ b'\n' ∷ part) t
    ∙ ap (λ ls. over_lines read_line ls t)
        (complete_lines-append [] xs (b'\n' ∷ part)
          ∙ ap (λ ls. complete_lines [] xs ++ last_part [] xs ∷ ls) (complete_lines-none [] part h)
          ∙ sym (complete_lines-append [] xs (b'\n' ∷ [])))
    ∙ sym (read_lines-lines (xs ++ b'\n' ∷ []) t)
