-- ===== src/NumberServer/Streams.antt =====
-- exp1/server8 copy.c on what the threads of exp1/client9copy.c send.
use rnd.Common.{ℕ, ◌+◌, some, List, [], ◌∷◌, ◌++◌, ◌≡◌, refl, sym, ap, ◌∙◌, length, All, arith}
use mathlib.Core.List.{append-nil}
use rnd.Common.Int.{pos}
use rnd.Common.Lines.{each_line-lines, complete_lines, over_lines, IsPart, complete_lines-part}
use rnd.EventLoop.State.{Event, Server}
use rnd.EventLoop.Arrivals.{IsReader, data_events, read_all, IsConnected, arrivals_read}
use rnd.SequenceServer.Tracker.{Tracker, track, track_int}
use rnd.SequenceServer.Gaps.{track_all, track_all-append}
use rnd.SequenceServer.Text.{print_int}
use rnd.SequenceServer.RoundTrip.{scan_int-print_int, c_string-text, print_int-IsText, text-IsPart}
use rnd.NumberServer.Server.{
  scan_number, read_number, read_numbers, handle_connection, number_program, serve, number_message,
}

pub scan_number-message : (id : ℕ) → scan_number (number_message id) ≡ some (pos id)
unfolding scan_number number_message
scan_number-message id =
    rw
      (
        c_string-text (print_int id) (print_int-IsText id),
        sym (append-nil (print_int id)),
        scan_int-print_int id [] refl,
      )
      refl

abbrev pub number_stream : List ℕ → List ℕ
number_stream [] = []
number_stream (id ∷ ids) = number_message id ++ b'\n' ∷ number_stream ids

read_number-message : (id : ℕ) (t : Tracker) → read_number (number_message id) t ≡ track id t
unfolding read_number track_int
read_number-message id t = rw (scan_number-message id, read_number) refl

number_message-IsPart : (id : ℕ) → All IsPart (number_message id)
unfolding number_message
number_message-IsPart id = text-IsPart (print_int id) (print_int-IsText id)

over_lines-numbers :
    (ids : List ℕ) (t : Tracker)
    → over_lines read_number (complete_lines [] (number_stream ids)) t ≡ track_all ids t
unfolding track_all
over_lines-numbers [] t = refl
over_lines-numbers (id ∷ ids) t =
    rw
      (
        complete_lines-part [] (number_message id) (number_stream ids) (number_message-IsPart id),
        over_lines,
        read_number-message id t,
      )
      (over_lines-numbers ids (track id t))

pub read_numbers-stream :
    (ids : List ℕ) (t : Tracker) → read_numbers (number_stream ids) t ≡ track_all ids t
unfolding read_numbers
read_numbers-stream ids t =
    let bytes = number_stream ids in
    ap (λ r. r.0) (each_line-lines read_number (length bytes + 1) bytes t (omega arith))
    ∙ over_lines-numbers ids t

pub number-IsReader : IsReader number_program read_numbers
unfolding number_program handle_connection
number-IsReader = record { makes = λ fd. refl; keeps = λ bytes fd t. refl }

abbrev as_streams : List (ℕ × List ℕ) → List (ℕ × List ℕ)
as_streams [] = []
as_streams ((fd, ids) ∷ rest) = (fd, number_stream ids) ∷ as_streams rest

-- Data that arrives in turn: the descriptor and the numbers of one `recv`.
abbrev pub arrivals : List (ℕ × List ℕ) → List Event
arrivals sent = data_events (as_streams sent)

abbrev pub all_numbers : List (ℕ × List ℕ) → List ℕ
all_numbers [] = []
all_numbers ((fd, ids) ∷ rest) = ids ++ all_numbers rest

as_streams-All :
    (P : ℕ → Type 0) (sent : List (ℕ × List ℕ))
    → All (λ (fd, ids). P fd) sent
    → All (λ (fd, bytes). P fd) (as_streams sent)
as_streams-All P [] h = tt
as_streams-All P ((fd, ids) ∷ sent) h = (h.0, as_streams-All P sent h.1)

read_all-track_all :
    (sent : List (ℕ × List ℕ)) (t : Tracker)
    → read_all read_numbers (as_streams sent) t ≡ track_all (all_numbers sent) t
unfolding track_all
read_all-track_all [] t = refl
read_all-track_all ((fd, ids) ∷ sent) t =
    ap (read_all read_numbers (as_streams sent)) (read_numbers-stream ids t)
    ∙ read_all-track_all sent (track_all ids t)
    ∙ sym (track_all-append ids (all_numbers sent) t)

-- If the descriptors have connections in memory, data that arrives in turn, each time any number
-- of whole packets, tracks the numbers in the order of their arrival.
pub arrivals_tracked :
    (sent : List (ℕ × List ℕ)) (s : Server ℕ Tracker)
    → All (λ (fd, ids). IsConnected s fd) sent
    → (serve (arrivals sent) s).shared ≡ track_all (all_numbers sent) s.shared
unfolding serve
arrivals_tracked sent s h =
    arrivals_read number_program read_numbers number-IsReader (as_streams sent) s
      (as_streams-All (IsConnected s) sent h)
    ∙ read_all-track_all sent s.shared
