-- ===== src/RoundClient/State.antt =====
-- exp1/client8.c, lines 11-23 and 25-91: the threads. A thread holds `send_mutex` from the return of line 50
-- to line 83, so what it does there is one step; the log's mutex is taken and released within it.
use rnd.Common.{ℕ, ◌+◌, ◌≤◌, Bool, true, List, [], ◌∷◌, ◌++◌, ◌≡◌, ◌==◌, if◌then◌else◌}

abbrev pub tcp_conn : ℕ
tcp_conn = 4

-- `i` gives each thread's loop variable. `sent` and `logged` have connections and packet numbers.
pub record State : Type 0 where
  pub current_packet : ℕ
  pub current_conn : ℕ
  pub i : ℕ → ℕ
  pub logged : List (ℕ × ℕ)
  pub sent : List (ℕ × ℕ)

unfoldable pub init : State
init = record { current_packet = 1; current_conn = 1; i = λ conn_id. 1; logged = []; sent = [] }

-- Lines 60-69; the file may not open.
unfoldable pub log_packet : Bool → ℕ → ℕ → State → State
log_packet opens connection_id i s =
    if opens then record s { logged = s.logged ++ (connection_id, i) ∷ [] } else s

-- Lines 72-77.
unfoldable pub pass_turn : State → State
pass_turn s =
    if s.current_conn == tcp_conn
    then record s { current_conn = 1; current_packet = s.current_packet + 1 }
    else record s { current_conn = s.current_conn + 1 }

-- Lines 53-83 and the loop's `i++`, by the thread `connection_id`.
unfoldable pub send_packet : Bool → ℕ → State → State
unfolding log_packet pass_turn
send_packet opens connection_id s =
    let t = pass_turn (log_packet opens connection_id (s.i connection_id) s) in
    record t {
      sent = s.sent ++ (connection_id, s.i connection_id) ∷ [];
      i = λ c. if c == connection_id then s.i c + 1 else s.i c;
    }

-- The thread is one of those started, has connected, has packets to send, and line 49 lets it go on.
pub record CanSend (thread_packets : ℕ) (connected : ℕ → Bool) (connection_id : ℕ) (s : State)
    : Type 0 where
  pub is_started : (1 ≤ connection_id) × (connection_id ≤ tcp_conn)
  pub is_connected : connected connection_id ≡ true
  pub has_packets : s.i connection_id ≤ thread_packets
  pub has_turn : (s.current_conn ≡ connection_id) × (s.current_packet ≡ s.i connection_id)

-- The states that the threads reach, whatever the scheduler does.
pub data Reachable (thread_packets : ℕ) (connected : ℕ → Bool) : State → Type 0 where
  started : Reachable thread_packets connected init
  step :
      {s : State} (opens : Bool) (connection_id : ℕ)
      → Reachable thread_packets connected s
      → CanSend thread_packets connected connection_id s
      → Reachable thread_packets connected (send_packet opens connection_id s)
