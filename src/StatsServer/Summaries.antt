-- ===== src/StatsServer/Summaries.antt =====
-- server_epx3.c: each summary saved stands for fifty connections, the last one for the rest.
use rnd.Common.{ℕ, ◌+◌, ◌*◌, ◌≤◌, ◌<◌, Bool, List, arith}
use rnd.Common.Float.{FloatOps}
use rnd.Common.Time.{Timeval}
use rnd.StatsServer.State.{
  Connection, ConnectionStats, Server, summary_interval, stats_capacity, init,
}
use rnd.StatsServer.Session.{count_connection, reset_session, promote, end_session}
use rnd.StatsServer.Accept.{Accept, accept_client}
use rnd.StatsServer.Receive.{receive, hang_up}
use rnd.StatsServer.Loop.{Input, run}
use rnd.StatsServer.Shutdown.{save_remaining}
use rnd.StatsServer.Report.{start_conn, end_conn}
use rnd.StatsServer.Runs.{IsKept, run_inv}

-- While the array has room, its entries are the full fifties of the connections that have ended.
abbrev pub InStep : {D : Type 0} → Server D → Type 0
InStep s =
    s.stats_count < stats_capacity
    → (s.stats_count * summary_interval ≤ s.connection_count)
      × (s.connection_count < s.stats_count * summary_interval + summary_interval)

module _ {D : Type 0} where
  accept-InStep : (a : Accept) (s : Server D) → InStep s → InStep (accept_client a s)
  unfolding accept_client
  accept-InStep a s h = ground arith

  receive-InStep :
      (fd : ℕ) (bs : List ℕ) (t u : Timeval) (s : Server D)
      → InStep s
      → InStep (receive fd bs t u s)
  unfolding receive
  receive-InStep fd bs t u s h = ground arith

  promote-InStep : (b : Bool) (s : Server D) → InStep s → InStep (promote b s).0
  unfolding promote
  promote-InStep b s h = ground arith

module _ {D : Type 0} (fp : FloatOps D) where
  count-InStep : (s : Server D) → InStep s → InStep (reset_session (count_connection fp s))
  unfolding count_connection reset_session
  count-InStep s h = ground arith

  end-InStep : (b : Bool) (s : Server D) → InStep s → InStep (end_session fp b s).0
  unfolding end_session
  end-InStep b s h = promote-InStep b (reset_session (count_connection fp s)) (count-InStep s h)

  InStep-IsKept : IsKept fp InStep
  InStep-IsKept = record {
    on_accept = accept-InStep;
    on_receive = receive-InStep;
    on_hang_up = λ fd s h. unfold hang_up in h;
    on_leave = λ t s h. h;
    on_end = end-InStep;
    on_stop = λ s h. h;
    on_stamp = λ t s h. h;
  }

  range_of_InStep :
      (s : Server D) (i : ℕ)
      → InStep s
      → s.stats_count < stats_capacity
      → i < (save_remaining s).stats_count
      → (start_conn i < end_conn s.connection_count i)
        × (end_conn s.connection_count i ≤ start_conn i + summary_interval)
        × (end_conn s.connection_count i ≤ s.connection_count)
  unfolding save_remaining
  range_of_InStep s i h room lt = ground (arith, h room)

  -- After a run that has not filled the array, the range of each summary that is saved is not
  -- empty, spans at most fifty connections and ends within the connections that have ended.
  pub summary_range :
      (q : List Connection) (st : List (ConnectionStats D)) (now : Timeval) (is : List Input)
      (i : ℕ)
      → (run fp is (init fp q st now)).stats_count < stats_capacity
      → i < (save_remaining (run fp is (init fp q st now))).stats_count
      → let n = (run fp is (init fp q st now)).connection_count in
        (start_conn i < end_conn n i)
        × (end_conn n i ≤ start_conn i + summary_interval)
        × (end_conn n i ≤ n)
  summary_range q st now is i room lt =
      range_of_InStep (run fp is s) i
        (run_inv fp InStep InStep-IsKept is s (unfold init in omega arith)) room lt
    where
      s : Server D
      s = init fp q st now
