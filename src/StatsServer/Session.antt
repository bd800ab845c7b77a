-- ===== src/StatsServer/Session.antt =====
-- server_epx3.c, lines 297-354 and the same text at lines 507-564: what happens to the counters when
-- a non-persistent connection ends, and how the next one leaves the queue.
use rnd.Common.{
  ℕ, ◌+◌, ◌-◌, ◌%◌, Bool, true, false, ◌&&◌, none, some, ◌∷◌, ltb, ◌==◌, if◌then◌else◌, get_elem?,
  set,
}
use rnd.Common.Int.{pos, sub_ℕ, ◌-ℤ◌}
use rnd.Common.Word.{u64, sub64}
use rnd.Common.Float.{FloatOps, of_ℕ}
use rnd.Common.Time.{Timeval}
use rnd.StatsServer.State.{
  ConnectionStats, Session, Server, epoll_add, closed, zero_stats, zero_session, summary_interval,
  stats_capacity,
}
use rnd.StatsServer.Queue.{shift}

module _ {D : Type 0} (fp : FloatOps D) where
  -- `time_diff`, lines 77-79.
  unfoldable pub time_diff : Timeval → Timeval → D
  time_diff start end =
      fp.add (fp.of_ℤ (sub_ℕ end.tv_sec start.tv_sec))
        (fp.div (fp.of_ℤ (sub_ℕ end.tv_usec start.tv_usec)) (of_ℕ fp 1000000))

  -- `x > 0 ? y : 0.0`.
  unfoldable pub or_zero : D → D → D
  or_zero x y = if fp.lt (of_ℕ fp 0) x then y else of_ℕ fp 0

  -- `(bytes * 8.0) / (duration * 1e6)`, and 0.0 where the duration is not positive.
  unfoldable pub mbps : ℕ → D → D
  unfolding or_zero
  mbps bytes duration =
      or_zero duration
        (fp.div (fp.mul (of_ℕ fp bytes) (of_ℕ fp 8)) (fp.mul duration (of_ℕ fp 1000000)))

  -- `temp_stats` with the ended connection's counters added.
  unfoldable pub add_session : D → Session → ConnectionStats D → ConnectionStats D
  unfolding or_zero mbps
  add_session oneconn2_duration e t = record {
    non_persistent_count = u64 (t.non_persistent_count + e.non_persistent_count);
    persistent_count = u64 (t.persistent_count + e.persistent_count);
    total_when_both_present = u64 (t.total_when_both_present + e.both);
    only_persistent_count = u64 (t.only_persistent_count + sub64 e.onepertotal_count e.both);
    only_non_persistent_count =
        u64 (t.only_non_persistent_count + sub64 e.onenonpertotal_count e.both);
    per_total_bytes_read = u64 (t.per_total_bytes_read + e.per_bytes_read);
    nonper_total_bytes_read = u64 (t.nonper_total_bytes_read + e.nonper_bytes_read);
    persistent_ratio =
        or_zero (of_ℕ fp e.both) (fp.div (of_ℕ fp e.persistent_count) (of_ℕ fp e.both));
    non_persistent_ratio =
        or_zero (of_ℕ fp e.both) (fp.div (of_ℕ fp e.non_persistent_count) (of_ℕ fp e.both));
    oneconn2_duration = fp.add t.oneconn2_duration oneconn2_duration;
    throughput_mbpsper = mbps e.per_bytes_read oneconn2_duration;
    throughput_mbpsnonper = mbps e.nonper_bytes_read oneconn2_duration;
    per_packets = u64 (t.per_packets + e.per_packets);
    nonper_packets = u64 (t.nonper_packets + e.nonper_packets);
  }

  -- `stats_array[stats_count++] = temp_stats; memset(&temp_stats, 0, …);` on every fiftieth
  -- connection, as long as the array has room.
  unfoldable pub flush_stats : Server D → Server D
  flush_stats s =
      if s.connection_count % summary_interval == 0 && ltb s.stats_count stats_capacity
      then record s {
        stats_array = set s.stats_array s.stats_count s.temp_stats;
        stats_count = s.stats_count + 1;
        temp_stats = zero_stats fp;
      }
      else s

  -- Lines 297-316.
  unfoldable pub sum_session : Server D → Server D
  unfolding time_diff add_session
  sum_session s =
      let oneconn2_duration = time_diff s.conn2_start s.conn2_end in
      record s {
        conn2_duration = fp.add s.conn2_duration oneconn2_duration;
        connection_count = u64 (s.connection_count + 1);
        temp_stats = add_session oneconn2_duration s.session s.temp_stats;
      }

  -- Lines 297-322.
  unfoldable pub count_connection : Server D → Server D
  unfolding sum_session flush_stats
  count_connection s = flush_stats (sum_session s)

module _ {D : Type 0} where
  -- Lines 324-334.
  unfoldable pub reset_session : Server D → Server D
  reset_session s = record s {
    non_persistent_fd = none;
    session = zero_session;
    conn2_started = false;
  }

  -- `q[0]` moves to the slot; the others move down.
  unfoldable pub dequeue : Server D → Server D
  unfolding shift
  dequeue s = elim (get_elem? s.non_persistent_queue 0) [
    | none ↦ s
    | some c ↦ record s {
      non_persistent_fd = some c.fd;
      non_persistent_connect_time = c.connect_time;
      non_persistent_queue = shift (s.queue_count - 1) 0 s.non_persistent_queue;
      queue_count = s.queue_count - 1;
      session = record (s.session) { nonper_bytes_read = 0; nonper_packets = 0 };
      calls = epoll_add c.fd ∷ s.calls;
    }
  ]

  -- The promoted connection is dropped where `epoll_ctl` fails.
  unfoldable pub drop_promoted : Server D → Server D
  drop_promoted s = elim s.non_persistent_fd [
    | none ↦ s
    | some fd ↦ record s {
      non_persistent_fd = none;
      active_clients = s.active_clients -ℤ pos 1;
      calls = closed fd ∷ s.calls;
    }
  ]

  -- Lines 336-354. `added` says that `epoll_ctl` succeeds; the second result is false where the code
  -- goes on with `continue`.
  unfoldable pub promote : Bool → Server D → Server D × Bool
  unfolding dequeue drop_promoted
  promote added s =
      if ltb 0 s.queue_count
      then (if added then (dequeue s, true) else (drop_promoted (dequeue s), false))
      else (s, true)

  -- Lines 507-564.
  unfoldable pub end_session : FloatOps D → Bool → Server D → Server D × Bool
  unfolding count_connection reset_session promote
  end_session fp added s = promote added (reset_session (count_connection fp s))
