-- ===== src/FirstClient/Packets.antt =====
-- exp1/client.c, and what exp1/server6.c logs of it.
use rnd.Common.{
  ℕ, zero, suc, ◌≤◌, ◌<◌, Option, none, some, List, [], ◌∷◌, ◌++◌, ◌≡◌, refl, ap, ◌∙◌, arith, ◌==◌,
  if◌then◌else◌, map, Bool, true, false, ◌&&◌, All, length,
}
use rnd.Common.Lines.{complete_lines}
use rnd.SequenceServer.Text.{print_int, print_digits}
use rnd.EventLoop.State.{Event, incoming}
use rnd.EventLoop.Isolation.{only}
use rnd.LogServer.State.{new_connection}
use rnd.LogServer.Server.{log_of}
use rnd.LogServer.Chunks.{entries, concat, within-AllFit}
use rnd.LogServer.Streams.{entries_of, deliveries, log_of_connection}
use rnd.FirstClient.State.{
  Calls, Trace, label_spaced, label_indented, message, send_packet, send_all, connect, main,
}

-- The bytes sent on one connection.
abbrev pub bytes_on : ℕ → List (ℕ × List ℕ) → List ℕ
bytes_on conn [] = []
bytes_on conn ((d, bytes) ∷ sent) =
    let rest = bytes_on conn sent in if d == conn then bytes ++ rest else rest

-- A packet's line.
abbrev pub line_of : List ℕ → ℕ → List ℕ
line_of label digit = label ++ b'-' ∷ digit ∷ []

-- The four lines of a connection.
abbrev pub lines_of : ℕ → List (List ℕ)
lines_of conn =
    if conn == 1
    then four (label_spaced b'1') (label_spaced b'1')
    else if conn == 2
    then four (label_spaced b'2') (label_indented b'2')
    else if conn == 3
    then four (label_indented b'3') (label_indented b'3')
    else four (label_indented b'4') (label_indented b'4')
  where
    four : List ℕ → List ℕ → List (List ℕ)
    four a b = line_of a b'1' ∷ line_of a b'2' ∷ line_of b b'3' ∷ line_of b b'4' ∷ []

abbrev nothing_sent : Trace
nothing_sent = record { sent = []; closed = [] }

main-sent : (c : Calls) (t : Trace) → main c ≡ some t → t.sent ≡ (send_all nothing_sent).sent
unfolding main connect
main-sent c t h = ground arith

abbrev is_some : {A : Type 0} → Option A → Bool
is_some none = false
is_some (some a) = true

-- Every call succeeds.
abbrev pub all_calls : Calls → Bool
all_calls c =
    is_some c.socket1
    && (is_some c.socket2
        && (is_some c.socket3
            && (is_some c.socket4 && (c.connect1 && (c.connect2 && (c.connect3 && c.connect4))))))

-- The program comes to its end exactly if every call succeeds.
pub first_main_returns : (c : Calls) → is_some (main c) ≡ all_calls c
unfolding main connect
first_main_returns c = ground arith

-- At its end the program has closed the four sockets that it has opened, in their order.
pub first_main_closes :
    (c : Calls) (t : Trace)
    → main c ≡ some t
    → map some t.closed ≡ c.socket1 ∷ c.socket2 ∷ c.socket3 ∷ c.socket4 ∷ []
unfolding main connect
first_main_closes c t h = ground arith

sent-lines :
    (conn : ℕ)
    → 1 ≤ conn
    → conn ≤ 4
    → complete_lines [] (bytes_on conn (send_all nothing_sent).sent) ≡ lines_of conn
unfolding send_all send_packet message print_int print_digits
sent-lines zero lo hi = absurd (omega arith)
sent-lines (suc zero) lo hi = refl
sent-lines (suc (suc zero)) lo hi = refl
sent-lines (suc (suc (suc zero))) lo hi = refl
sent-lines (suc (suc (suc (suc zero)))) lo hi = refl
sent-lines (suc (suc (suc (suc (suc n))))) lo hi = absurd (omega arith)

sent-length :
    (conn : ℕ) → 1 ≤ conn → conn ≤ 4 → length (bytes_on conn (send_all nothing_sent).sent) ≡ 72
unfolding send_all send_packet message print_int print_digits
sent-length zero lo hi = absurd (omega arith)
sent-length (suc zero) lo hi = refl
sent-length (suc (suc zero)) lo hi = refl
sent-length (suc (suc (suc zero))) lo hi = refl
sent-length (suc (suc (suc (suc zero)))) lo hi = refl
sent-length (suc (suc (suc (suc (suc n))))) lo hi = absurd (omega arith)

-- If no call of exp1/client.c fails, and what it has sent on one of its four connections reaches
-- exp1/server6.c in any pieces that are not empty, at a descriptor below MAX_CONNECTIONS that
-- has no other events than its acceptance and these, then the log's lines for it are the
-- connection's four packets, numbered from 1, whatever other connections do.
pub packets_logged :
    (c : Calls) (t : Trace) (conn fd : ℕ) (x : List ℕ) (pieces : List (List ℕ)) (es : List Event)
    → main c ≡ some t
    → 1 ≤ conn
    → conn ≤ 4
    → fd < 1000
    → All (λ bytes. 1 ≤ length bytes) (x ∷ pieces)
    → x ++ concat pieces ≡ bytes_on conn t.sent
    → only fd es ≡ incoming (fd ∷ []) ∷ deliveries fd (x ∷ pieces)
    → entries_of fd (log_of es) ≡ entries fd 0 (lines_of conn)
packets_logged c t conn fd x pieces es done lo hi below some_bytes all own =
    log_of_connection fd x pieces es below
      (within-AllFit (new_connection fd) (x ∷ pieces) some_bytes (
        unfold new_connection in
        omega (
          arith,
          ap length (all ∙ ap (bytes_on conn) (main-sent c t done)),
          sent-length conn lo hi,
        )))
      own
    ∙ ap (λ bytes. entries fd 0 (complete_lines [] bytes))
        (all ∙ ap (bytes_on conn) (main-sent c t done))
    ∙ ap (entries fd 0) (sent-lines conn lo hi)
