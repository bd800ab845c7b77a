-- ===== src/StatsServer/Pairs.antt =====
-- server_epx3.c: the pair counters agree, for the current connection, for the summary in progress,
-- over the whole run and in every summary saved.
use rnd.Common.{ℕ, ◌+◌, Bool, List, [], ◌∷◌, ◌≡◌, arith, length, take, All, All-append}
use rnd.Common.Word.{u64}
use rnd.Common.Float.{FloatOps}
use rnd.Common.Time.{Timeval}
use rnd.StatsServer.State.{
  Connection, ConnectionStats, Server, max_non_persistent, stats_capacity, zero_stats, zero_session,
  zero_totals, init,
}
use rnd.StatsServer.Queue.{take-set}
use rnd.StatsServer.Session.{
  add_session, sum_session, flush_stats, count_connection, reset_session, promote, end_session,
}
use rnd.StatsServer.Accept.{Accept, accept_client}
use rnd.StatsServer.Receive.{receive, hang_up}
use rnd.StatsServer.Loop.{Input, run}
use rnd.StatsServer.Shutdown.{save_remaining}
use rnd.StatsServer.Runs.{IsKept, run_inv}
use rnd.StatsServer.Bounds.{InBounds, InBounds-IsKept}

abbrev pub StatsAgree : {D : Type 0} → ConnectionStats D → Type 0
StatsAgree t = u64 (t.persistent_count + t.non_persistent_count) ≡ u64 t.total_when_both_present

pub record PairsAgree {D : Type 0} (s : Server D) : Type 0 where
  pub of_session :
      u64 (s.session.persistent_count + s.session.non_persistent_count) ≡ u64 s.session.both
  pub of_run :
      u64 (s.totals.all_persistent_count + s.totals.all_non_persistent_count)
      ≡ u64 s.totals.all_both
  pub in_progress : StatsAgree s.temp_stats
  pub saved : All StatsAgree (take s.stats_count s.stats_array)

module _ {D : Type 0} where
  accept-PairsAgree : (a : Accept) (s : Server D) → PairsAgree s → PairsAgree (accept_client a s)
  unfolding accept_client
  accept-PairsAgree a s h = ground arith

  receive-PairsAgree :
      (fd : ℕ) (bs : List ℕ) (t u : Timeval) (s : Server D)
      → PairsAgree s
      → PairsAgree (receive fd bs t u s)
  unfolding receive
  receive-PairsAgree fd bs t u s h = ground arith

  promote-PairsAgree : (b : Bool) (s : Server D) → PairsAgree s → PairsAgree (promote b s).0
  unfolding promote
  promote-PairsAgree b s h = ground arith

  hang_up-PairsAgree : (fd : ℕ) (s : Server D) → PairsAgree s → PairsAgree (hang_up fd s)
  unfolding hang_up
  hang_up-PairsAgree fd s h = ground arith

module _ {D : Type 0} (fp : FloatOps D) where
  flush-PairsAgree : (s : Server D) → InBounds s → PairsAgree s → PairsAgree (flush_stats fp s)
  unfolding flush_stats zero_stats
  flush-PairsAgree s b h = ground (
    arith,
    take-set s.stats_count s.stats_array s.temp_stats,
    All-append StatsAgree (take s.stats_count s.stats_array) (s.temp_stats ∷ []) h.saved
        (h.in_progress, tt),
  )

  sum-PairsAgree : (s : Server D) → PairsAgree s → PairsAgree (sum_session fp s)
  unfolding sum_session add_session
  sum-PairsAgree s h = ground arith

  sum-InBounds : (s : Server D) → InBounds s → InBounds (sum_session fp s)
  unfolding sum_session
  sum-InBounds s h = ground arith

  reset-PairsAgree : (s : Server D) → PairsAgree s → PairsAgree (reset_session s)
  unfolding reset_session zero_session
  reset-PairsAgree s h = ground arith

  count-PairsAgree :
      (s : Server D)
      → InBounds s
      → PairsAgree s
      → PairsAgree (reset_session (count_connection fp s))
  unfolding count_connection
  count-PairsAgree s b h =
      reset-PairsAgree (count_connection fp s)
        (flush-PairsAgree (sum_session fp s) (sum-InBounds s b) (sum-PairsAgree s h))

  end-PairsAgree :
      (c : Bool) (s : Server D) → InBounds s → PairsAgree s → PairsAgree (end_session fp c s).0
  unfolding end_session
  end-PairsAgree c s b h =
      promote-PairsAgree c (reset_session (count_connection fp s)) (count-PairsAgree s b h)

  abbrev Both : Server D → Type 0
  Both s = InBounds s × PairsAgree s

  Both-IsKept : IsKept fp Both
  Both-IsKept = record {
    on_accept = λ a s h. (bounds.on_accept a s h.0, accept-PairsAgree a s h.1);
    on_receive =
        λ fd bs t u s h. (bounds.on_receive fd bs t u s h.0, receive-PairsAgree fd bs t u s h.1);
    on_hang_up = λ fd s h. (bounds.on_hang_up fd s h.0, hang_up-PairsAgree fd s h.1);
    on_leave = λ t s h. ground arith;
    on_end = λ c s h. (bounds.on_end c s h.0, end-PairsAgree c s h.0 h.1);
    on_stop = λ s h. ground arith;
    on_stamp = λ t s h. ground arith;
  }
    where
      bounds : IsKept fp InBounds
      bounds = InBounds-IsKept fp

  save-PairsAgree : (s : Server D) → Both s → PairsAgree (save_remaining s)
  unfolding save_remaining
  save-PairsAgree s h = ground (
    arith,
    take-set s.stats_count s.stats_array s.temp_stats,
    All-append StatsAgree (take s.stats_count s.stats_array) (s.temp_stats ∷ []) h.1.saved
        (h.1.in_progress, tt),
  )

  -- With arrays of their declared sizes, after any run and the saving of what remains, the two
  -- kinds of pairs add up to the pair counter modulo 2^64: for the connection at hand, over the
  -- run, in the summary in progress and in every summary saved.
  pub run-PairsAgree :
      (q : List Connection) (st : List (ConnectionStats D)) (now : Timeval) (is : List Input)
      → length q ≡ max_non_persistent
      → length st ≡ stats_capacity
      → PairsAgree (save_remaining (run fp is (init fp q st now)))
  run-PairsAgree q st now is hq hs = save-PairsAgree (run fp is (init fp q st now)) (
      run_inv fp Both Both-IsKept is (init fp q st now)
        (unfold init zero_stats zero_session zero_totals in ground arith))
