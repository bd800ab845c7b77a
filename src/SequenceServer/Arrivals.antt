-- ===== src/SequenceServer/Arrivals.antt =====
-- exp1/server_final.c, lines 35-91 and 145-181: packets that arrive on several connections.
use rnd.Common.{ℕ, List, [], ◌∷◌, ◌≡◌, refl, ap, ◌∙◌, All, map}
use rnd.EventLoop.State.{Event, incoming, accept_all, start_with, handle_event, handle_events}
use rnd.EventLoop.Arrivals.{
  IsReader, data_events, read_all, IsConnected, arrivals_read, accept_all-shared,
}
use rnd.SequenceServer.Tracker.{Tracker, track, start}
use rnd.SequenceServer.Gaps.{track_all}
use rnd.SequenceServer.Server.{read_lines, handle_connection, sequence_program}
use rnd.SequenceServer.Streams.{stream, numbers, read_lines-stream}

pub sequence-IsReader : IsReader sequence_program read_lines
unfolding sequence_program handle_connection
sequence-IsReader = record { makes = λ fd. refl; keeps = λ bytes fd t. refl }

-- The packets one by one, at the descriptors that the server has for their connections.
abbrev pub packet_events : (ℕ → ℕ) → List (ℕ × ℕ) → List (ℕ × List ℕ)
packet_events fd [] = []
packet_events fd ((c, id) ∷ sent) = (fd c, stream ((c, id) ∷ [])) ∷ packet_events fd sent

read_all-track_all :
    (fd : ℕ → ℕ) (sent : List (ℕ × ℕ)) (t : Tracker)
    → read_all read_lines (packet_events fd sent) t ≡ track_all (numbers sent) t
unfolding track_all
read_all-track_all fd [] t = refl
read_all-track_all fd ((c, id) ∷ sent) t =
    ap (read_all read_lines (packet_events fd sent)) (read_lines-stream ((c, id) ∷ []) t)
    ∙ read_all-track_all fd sent (track id t)

-- The server that has just started accepts the descriptors, and the packets arrive one by one.
abbrev pub session : (ℕ → ℕ) → List ℕ → List (ℕ × ℕ) → List Event
session fd conns sent = incoming (map fd conns) ∷ data_events (packet_events fd sent)

packet_events-All :
    (P : ℕ → Type 0) (fd : ℕ → ℕ) (sent : List (ℕ × ℕ))
    → All (λ (c, id). P (fd c)) sent
    → All (λ (g, bytes). P g) (packet_events fd sent)
packet_events-All P fd [] h = tt
packet_events-All P fd ((c, id) ∷ sent) h = (h.0, packet_events-All P fd sent h.1)

-- A server that has accepted the connections into memory and then receives packets of them one by one
-- tracks their numbers in the order of their arrival.
pub session_tracked :
    (fd : ℕ → ℕ) (conns : List ℕ) (sent : List (ℕ × ℕ))
    → All
        (λ (c, id).
          IsConnected (accept_all sequence_program (map fd conns) (start_with start)) (fd c))
        sent
    → (handle_events sequence_program (session fd conns sent) (start_with start)).shared
      ≡ track_all (numbers sent) start
unfolding handle_events handle_event start_with
session_tracked fd conns sent h =
    let s = accept_all sequence_program (map fd conns) (start_with start) in
    arrivals_read sequence_program read_lines sequence-IsReader (packet_events fd sent) s
      (packet_events-All (IsConnected s) fd sent h)
    ∙ ap (read_all read_lines (packet_events fd sent)) (
        accept_all-shared sequence_program read_lines sequence-IsReader (map fd conns)
          (start_with start))
    ∙ read_all-track_all fd sent start
