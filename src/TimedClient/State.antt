-- ===== src/TimedClient/State.antt =====
-- clientexp2_time.c, lines 14-27 and 58-93: two threads that send in turn. A thread holds the mutex while
-- it sends and passes the turn on, so that is one step.
use rnd.Common.{
  ℕ, ◌+◌, ◌%◌, ◌*◌, ◌≤◌, ◌<◌, Bool, ◌&&◌, leb, List, [], ◌∷◌, ◌++◌, ◌≡◌, ◌==◌, if◌then◌else◌,
}

abbrev pub tcp_conn : ℕ
tcp_conn = 2

-- EXPERIMENT_DURATION, in microseconds.
abbrev pub experiment_duration : ℕ
experiment_duration = 60 * 1000000

-- A thread is at the head of its loop; or it has found that time is left and waits for its turn; or it
-- has left the loop.
pub data Phase : Type 0 where
  checking : Phase
  waiting : Phase
  finished : Phase

-- `now` is the time in microseconds; `sent` has the connections that have sent, in order.
pub record State : Type 0 where
  pub now : ℕ
  pub current_conn : ℕ
  pub successful_responses : ℕ → ℕ
  pub phase : ℕ → Phase
  pub sent : List ℕ

-- Lines 22-28 and 48-52: a thread whose `connect` fails returns at once.
unfoldable pub init : (ℕ → Bool) → State
init connected = record {
  now = 0;
  current_conn = 1;
  successful_responses = λ conn_id. 0;
  phase = λ c. if connected c && (leb 1 c && leb c tcp_conn) then checking else finished;
  sent = [];
}

abbrev pub set_phase : ℕ → Phase → State → State
set_phase conn_id p s = record s { phase = λ c. if c == conn_id then p else s.phase c }

-- Lines 82-87.
unfoldable pub send_packet : ℕ → State → State
send_packet conn_id s = record s {
  current_conn = s.current_conn % tcp_conn + 1;
  successful_responses =
      λ c. if c == conn_id then s.successful_responses c + 1 else s.successful_responses c;
  phase = λ c. if c == conn_id then checking else s.phase c;
  sent = s.sent ++ conn_id ∷ [];
}

-- `start_time` is what each thread read at line 59.
pub data Step (start_time : ℕ → ℕ) (s : State) : State → Type 0 where
  tick : (t : ℕ) → s.now ≤ t → Step start_time s (record s { now = t })
  go_on :
      (conn_id : ℕ)
      → s.phase conn_id ≡ checking
      → start_time conn_id ≤ s.now
      → s.now < start_time conn_id + experiment_duration
      → Step start_time s (set_phase conn_id waiting s)
  stop :
      (conn_id : ℕ)
      → s.phase conn_id ≡ checking
      → start_time conn_id + experiment_duration ≤ s.now
      → Step start_time s (set_phase conn_id finished s)
  send :
      (conn_id : ℕ)
      → s.phase conn_id ≡ waiting
      → s.current_conn ≡ conn_id
      → Step start_time s (send_packet conn_id s)

pub data Steps (start_time : ℕ → ℕ) (s : State) : State → Type 0 where
  here : Steps start_time s s
  next : {t u : State} → Steps start_time s t → Step start_time t u → Steps start_time s u
