-- ===== src/TurnClient/State.antt =====
-- exp1/client_final.c, lines 11-18 and 20-51, exp1/client9copy.c and client_op.c, which differ in the two
-- constants and in the message: the threads that send in turn. A thread holds the mutex from before its
-- test of the turn, or from the return of the wait, until it has passed the turn on, so what it does there
-- is one step; where it waits, it does nothing.
use rnd.Common.{ℕ, ◌+◌, ◌%◌, ◌<◌, ◌≤◌, Bool, true, List, [], ◌∷◌, ◌++◌, ◌≡◌, ◌==◌, if◌then◌else◌}

-- TCP_CONN, the number of threads, and PACKETS, how many each sends.
pub record Client : Type 0 where
  pub tcp_conn : ℕ
  pub packets : ℕ

-- The constants of exp1/client_final.c, which exp1/client9copy.c has too.
abbrev pub client_final : Client
client_final = record { tcp_conn = 4; packets = 16 }

-- Those of client_op.c.
abbrev pub client_op : Client
client_op = record { tcp_conn = 2; packets = 20 }

-- `i` gives each thread's loop variable; `sent` is what has been sent: connection and packet number.
pub record State : Type 0 where
  pub global_packet_id : ℕ
  pub current_conn : ℕ
  pub i : ℕ → ℕ
  pub sent : List (ℕ × ℕ)

unfoldable pub init : State
init = record { global_packet_id = 1; current_conn = 1; i = λ conn_id. 0; sent = [] }

module _ (client : Client) where
  -- Lines 38-45 and the loop's `i++`, by the thread `conn_id`.
  unfoldable pub send_packet : ℕ → State → State
  send_packet conn_id s = record {
    global_packet_id = s.global_packet_id + 1;
    current_conn = s.current_conn % client.tcp_conn + 1;
    i = λ c. if c == conn_id then s.i c + 1 else s.i c;
    sent = s.sent ++ (conn_id, s.global_packet_id) ∷ [];
  }

-- The thread `conn_id` is one of those started, has connected, has packets to send and has its turn.
pub record CanSend (client : Client) (connected : ℕ → Bool) (conn_id : ℕ) (s : State) : Type 0 where
  pub is_started : (1 ≤ conn_id) × (conn_id ≤ client.tcp_conn)
  pub is_connected : connected conn_id ≡ true
  pub has_packets : s.i conn_id < client.packets
  pub has_turn : s.current_conn ≡ conn_id

-- The states that the threads reach, whatever the scheduler does.
pub data Reachable (client : Client) (connected : ℕ → Bool) : State → Type 0 where
  started : Reachable client connected init
  step :
      {s : State} (conn_id : ℕ)
      → Reachable client connected s
      → CanSend client connected conn_id s
      → Reachable client connected (send_packet client conn_id s)
