-- ===== src/StatsServer/Bounds.antt =====
-- server_epx3.c: indices stay inside `non_persistent_queue` and `stats_array`.
use rnd.Common.{ℕ, Bool, List, ◌≤◌, ◌≡◌, length, length-set, arith}
use rnd.Common.Float.{FloatOps}
use rnd.Common.Time.{Timeval}
use rnd.StatsServer.State.{
  Connection, ConnectionStats, Server, max_non_persistent, stats_capacity, init,
}
use rnd.StatsServer.Queue.{length-shift}
use rnd.StatsServer.Session.{count_connection, reset_session, promote, end_session}
use rnd.StatsServer.Accept.{Accept, accept_client}
use rnd.StatsServer.Receive.{receive, hang_up}
use rnd.StatsServer.Loop.{Input, run}
use rnd.StatsServer.Shutdown.{save_remaining}
use rnd.StatsServer.Runs.{IsKept, run_inv}

pub record InBounds {D : Type 0} (s : Server D) : Type 0 where
  pub queue_size : length s.non_persistent_queue ≡ max_non_persistent
  pub queue_fits : s.queue_count ≤ max_non_persistent
  pub stats_size : length s.stats_array ≡ stats_capacity
  pub stats_fits : s.stats_count ≤ stats_capacity

module _ {D : Type 0} where
  accept-InBounds : (a : Accept) (s : Server D) → InBounds s → InBounds (accept_client a s)
  unfolding accept_client
  accept-InBounds a s h = grind (arith, length-set)

  pub receive-InBounds :
      (fd : ℕ) (bs : List ℕ) (t u : Timeval) (s : Server D)
      → InBounds s
      → InBounds (receive fd bs t u s)
  unfolding receive
  receive-InBounds fd bs t u s h = grind (arith, length-set)

  promote-InBounds : (b : Bool) (s : Server D) → InBounds s → InBounds (promote b s).0
  unfolding promote
  promote-InBounds b s h = grind (arith, length-shift)

  reset-InBounds : (s : Server D) → InBounds s → InBounds (reset_session s)
  unfolding reset_session
  reset-InBounds s h = ground arith

  pub hang_up-InBounds : (fd : ℕ) (s : Server D) → InBounds s → InBounds (hang_up fd s)
  unfolding hang_up
  hang_up-InBounds fd s h = ground arith

module _ {D : Type 0} (fp : FloatOps D) where
  counted-InBounds : (s : Server D) → InBounds s → InBounds (count_connection fp s)
  unfolding count_connection
  counted-InBounds s h = grind (arith, length-set)

  pub count-InBounds :
      (s : Server D) → InBounds s → InBounds (reset_session (count_connection fp s))
  count-InBounds s h = reset-InBounds (count_connection fp s) (counted-InBounds s h)

  end-InBounds : (b : Bool) (s : Server D) → InBounds s → InBounds (end_session fp b s).0
  unfolding end_session
  end-InBounds b s h =
      promote-InBounds b (reset_session (count_connection fp s)) (count-InBounds s h)

  pub InBounds-IsKept : IsKept fp InBounds
  InBounds-IsKept = record {
    on_accept = accept-InBounds;
    on_receive = receive-InBounds;
    on_hang_up = hang_up-InBounds;
    on_leave = λ t s h. ground arith;
    on_end = end-InBounds;
    on_stop = λ s h. ground arith;
    on_stamp = λ t s h. ground arith;
  }

  -- With arrays of their declared sizes, after any run and the saving of what remains, both
  -- arrays have these sizes, the queue count is at most MAX_NON_PERSISTENT and the summary count
  -- at most the array's capacity.
  pub run-InBounds :
      (q : List Connection) (st : List (ConnectionStats D)) (now : Timeval) (is : List Input)
      → length q ≡ max_non_persistent
      → length st ≡ stats_capacity
      → InBounds (save_remaining (run fp is (init fp q st now)))
  unfolding init save_remaining
  run-InBounds q st now is hq hs =
      grind (
        arith,
        length-set,
        run_inv fp InBounds InBounds-IsKept is (init fp q st now) (ground arith),
      )
