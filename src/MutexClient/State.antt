-- ===== src/MutexClient/State.antt =====
-- exp1/client7.c, lines 12-16, 21-70 and 79-92: the threads. A thread holds the mutex from line 51 to line 63,
-- so what it does there is one step.
use rnd.Common.{ℕ, ◌+◌, ◌<◌, Bool, true, false, List, [], ◌∷◌, ◌++◌, ◌≡◌, leb, ◌==◌, if◌then◌else◌}
use rnd.Common.Int.{ℤ, pos, negsuc, ◌+ℤ◌}

abbrev pub connections : ℕ
connections = 2

-- Lines 12-16. The second field is set and not read.
pub record ThreadArgs : Type 0 where
  pub connection_id : ℕ
  pub total_packets : ℤ
  pub thread_packets : ℤ

-- Lines 88-90, with the argument of the program. The sum is 2 * packets_per_conn.
unfoldable pub thread_args : ℤ → ℕ → ThreadArgs
thread_args packets_per_conn i = record {
  connection_id = i + 1;
  total_packets = packets_per_conn +ℤ packets_per_conn;
  thread_packets = packets_per_conn;
}

-- `next` gives each thread's loop variable, `logfile` its file; `sent` is what has been sent. A packet is
-- its connection and number.
pub record State : Type 0 where
  pub next : ℕ → ℕ
  pub sent : List (ℕ × ℕ)
  pub logfile : ℕ → List (ℕ × ℕ)

unfoldable pub init : State
init = record { next = λ i. 1; sent = []; logfile = λ i. [] }

-- `i <= targs->thread_packets`
abbrev pub up_to : ℕ → ℤ → Bool
up_to i (pos n) = leb i n
up_to i (negsuc n) = false

-- Lines 51-63 and the loop's `i++`, by the thread with the number `i` and its arguments.
unfoldable pub send_packet : ℕ → ThreadArgs → State → State
send_packet i targs s =
    let packet : ℕ × ℕ = (targs.connection_id, s.next i) in
    record {
      next = λ j. if j == i then s.next j + 1 else s.next j;
      sent = s.sent ++ packet ∷ [];
      logfile = λ j. if j == i then s.logfile j ++ packet ∷ [] else s.logfile j;
    }

-- The thread is one of those started, its connection and its file are open, and it has packets to send.
pub record CanSend (packets_per_conn : ℤ) (opened : ℕ → Bool) (i : ℕ) (s : State) : Type 0 where
  pub is_started : i < connections
  pub is_opened : opened i ≡ true
  pub has_packets : up_to (s.next i) (thread_args packets_per_conn i).thread_packets ≡ true

-- The states that the threads reach, whatever the scheduler does.
pub data Reachable (packets_per_conn : ℤ) (opened : ℕ → Bool) : State → Type 0 where
  started : Reachable packets_per_conn opened init
  step :
      {s : State} (i : ℕ)
      → Reachable packets_per_conn opened s
      → CanSend packets_per_conn opened i s
      → Reachable packets_per_conn opened (send_packet i (thread_args packets_per_conn i) s)
