-- ===== src/StatsServer/State.antt =====
-- server_epx3.c, lines 18-71 and 262-270: the constants, the globals and the locals of `main`.
use rnd.Common.{ℕ, Bool, true, false, Option, none, List, []}
use rnd.Common.Time.{Timeval, time_zero}
use rnd.Common.Int.{ℤ, pos}
use rnd.Common.Float.{FloatOps, of_ℕ}

abbrev pub max_connections : ℕ
max_connections = 10000

abbrev pub max_non_persistent : ℕ
max_non_persistent = 10

abbrev pub packet_size : ℕ
packet_size = 1024

abbrev pub no_event_timeout : ℕ
no_event_timeout = 180

abbrev pub inactive_timeout : ℕ
inactive_timeout = 10

abbrev pub summary_interval : ℕ
summary_interval = 50

-- The capacity of `stats_array`, MAX_CONNECTIONS / SUMMARY_INTERVAL.
abbrev pub stats_capacity : ℕ
stats_capacity = 200

pub record Connection : Type 0 where
  pub fd : ℕ
  pub connect_time : Timeval

pub record ConnectionStats (D : Type 0) : Type 0 where
  pub non_persistent_count : ℕ
  pub persistent_count : ℕ
  pub total_when_both_present : ℕ
  pub only_persistent_count : ℕ
  pub only_non_persistent_count : ℕ
  pub per_total_bytes_read : ℕ
  pub nonper_total_bytes_read : ℕ
  pub persistent_ratio : D
  pub non_persistent_ratio : D
  pub oneconn2_duration : D
  pub throughput_mbpsper : D
  pub throughput_mbpsnonper : D
  pub per_packets : ℕ
  pub nonper_packets : ℕ

-- `memset(&temp_stats, 0, sizeof(ConnectionStats))`.
unfoldable pub zero_stats : {D : Type 0} → FloatOps D → ConnectionStats D
zero_stats fp = record {
  non_persistent_count = 0;
  persistent_count = 0;
  total_when_both_present = 0;
  only_persistent_count = 0;
  only_non_persistent_count = 0;
  per_total_bytes_read = 0;
  nonper_total_bytes_read = 0;
  persistent_ratio = of_ℕ fp 0;
  non_persistent_ratio = of_ℕ fp 0;
  oneconn2_duration = of_ℕ fp 0;
  throughput_mbpsper = of_ℕ fp 0;
  throughput_mbpsnonper = of_ℕ fp 0;
  per_packets = 0;
  nonper_packets = 0;
}

-- The globals that count over the whole run.
pub record Totals : Type 0 where
  pub all_persistent_count : ℕ
  pub all_non_persistent_count : ℕ
  pub all_only_persistent_count : ℕ
  pub all_only_non_persistent_count : ℕ
  pub all_both : ℕ
  pub all_per_bytes : ℕ
  pub all_nonper_bytes : ℕ
  pub all_perpackets : ℕ
  pub all_nonpacktes : ℕ

unfoldable pub zero_totals : Totals
zero_totals = record {
  all_persistent_count = 0;
  all_non_persistent_count = 0;
  all_only_persistent_count = 0;
  all_only_non_persistent_count = 0;
  all_both = 0;
  all_per_bytes = 0;
  all_nonper_bytes = 0;
  all_perpackets = 0;
  all_nonpacktes = 0;
}

-- The locals of `main` that are set to 0 when a non-persistent connection ends.
pub record Session : Type 0 where
  pub non_persistent_count : ℕ
  pub persistent_count : ℕ
  pub both : ℕ
  pub onepertotal_count : ℕ
  pub onenonpertotal_count : ℕ
  pub per_bytes_read : ℕ
  pub nonper_bytes_read : ℕ
  pub per_packets : ℕ
  pub nonper_packets : ℕ

unfoldable pub zero_session : Session
zero_session = record {
  non_persistent_count = 0;
  persistent_count = 0;
  both = 0;
  onepertotal_count = 0;
  onenonpertotal_count = 0;
  per_bytes_read = 0;
  nonper_bytes_read = 0;
  per_packets = 0;
  nonper_packets = 0;
}

-- The system calls that change a client's descriptor.
pub data Call : Type 0 where
  accepted : ℕ → Call
  epoll_add : ℕ → Call
  epoll_del : ℕ → Call
  shut_down : ℕ → Call
  closed : ℕ → Call

pub record Server (D : Type 0) : Type 0 where
  pub running : Bool
  -- A descriptor variable that holds -1 is `none`.
  pub persistent_fd : Option ℕ
  pub non_persistent_fd : Option ℕ
  pub pick : Option ℕ
  pub non_persistent_connect_time : Timeval
  pub non_persistent_queue : List Connection
  pub queue_count : ℕ
  pub active_clients : ℤ
  pub rejected : ℕ
  pub conn1_start : Timeval
  pub conn1_end : Timeval
  pub conn2_start : Timeval
  pub conn2_end : Timeval
  pub conn1_started : Bool
  pub conn2_started : Bool
  pub last_event_time : Timeval
  pub session : Session
  pub totals : Totals
  pub temp_stats : ConnectionStats D
  pub stats_array : List (ConnectionStats D)
  pub stats_count : ℕ
  pub connection_count : ℕ
  pub conn2_duration : D
  -- The calls made so far, the latest first.
  pub calls : List Call

-- The state before the loop: `queue` and `stats` are the arrays as they are allocated, and `now` is
-- the clock reading of line 272.
unfoldable pub init :
    {D : Type 0} → FloatOps D → List Connection → List (ConnectionStats D) → Timeval → Server D
init fp queue stats now = record {
  running = true;
  persistent_fd = none;
  non_persistent_fd = none;
  pick = none;
  non_persistent_connect_time = time_zero;
  non_persistent_queue = queue;
  queue_count = 0;
  active_clients = pos 0;
  rejected = 0;
  conn1_start = time_zero;
  conn1_end = time_zero;
  conn2_start = time_zero;
  conn2_end = time_zero;
  conn1_started = false;
  conn2_started = false;
  last_event_time = now;
  session = zero_session;
  totals = zero_totals;
  temp_stats = zero_stats fp;
  stats_array = stats;
  stats_count = 0;
  connection_count = 0;
  conn2_duration = of_ℕ fp 0;
  calls = [];
}
