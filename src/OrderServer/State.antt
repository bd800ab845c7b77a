-- ===== src/OrderServer/State.antt =====
-- serverexp2.c, lines 27-65 and 279-282: the globals and the locals of `main` that the loop uses.
-- `socket1_count`, `socket2_count`, `total_processed`, `last_socket`, `start_time` and `end_time` are
-- never changed by code that is not commented out, and are left out.
use rnd.Common.{ℕ, Bool, true, false, Option, none, List, []}
use rnd.Common.Int.{ℤ, pos}
use rnd.Common.Time.{Timeval, time_zero}

abbrev pub packet_size : ℕ
packet_size = 60

-- The values -1, 1 and 2 of `pick`.
pub data Pick : Type 0 where
  nobody : Pick
  first : Pick
  second : Pick

-- What the loop does with a client's descriptor.
pub data Call : Type 0 where
  accepted : ℕ → Call
  closed : ℕ → Call

pub record Server : Type 0 where
  pub running : Bool
  -- `exit` was called.
  pub exited : Bool
  -- A descriptor variable that holds -1 is `none`.
  pub first_socket : Option ℕ
  pub second_socket : Option ℕ
  pub pick : Pick
  pub count : ℕ
  pub active_clients : ℤ
  pub socket1_before_socket2 : ℕ
  pub socket2_before_socket1 : ℕ
  pub both : ℕ
  pub socket1total_count : ℕ
  pub socket2total_count : ℕ
  pub total_data_bytes : ℕ
  pub conn1_bytes : ℕ
  pub conn2_bytes : ℕ
  pub conn1_packets : ℕ
  pub conn2_packets : ℕ
  pub conn1_start : Timeval
  pub conn1_end : Timeval
  pub conn2_start : Timeval
  pub conn2_end : Timeval
  pub conn1_started : Bool
  pub conn2_started : Bool
  -- The calls made so far, the latest first.
  pub calls : List Call

unfoldable pub init : Server
init = record {
  running = true;
  exited = false;
  first_socket = none;
  second_socket = none;
  pick = nobody;
  count = 0;
  active_clients = pos 0;
  socket1_before_socket2 = 0;
  socket2_before_socket1 = 0;
  both = 0;
  socket1total_count = 0;
  socket2total_count = 0;
  total_data_bytes = 0;
  conn1_bytes = 0;
  conn2_bytes = 0;
  conn1_packets = 0;
  conn2_packets = 0;
  conn1_start = time_zero;
  conn1_end = time_zero;
  conn2_start = time_zero;
  conn2_end = time_zero;
  conn1_started = false;
  conn2_started = false;
  calls = [];
}
