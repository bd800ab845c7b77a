-- ===== src/StatsServer/Shutdown.antt =====
-- server_epx3.c, lines 575-585: what is saved and closed after the loop.
use rnd.Common.{
  ℕ, zero, suc, ◌+◌, ◌%◌, not, ◌&&◌, none, some, ltb, ◌==◌, if◌then◌else◌, get_elem?, set,
}
use rnd.StatsServer.State.{Server, summary_interval, stats_capacity}
use rnd.StatsServer.Accept.{close_client}

module _ {D : Type 0} where
  -- Lines 576-578.
  unfoldable pub save_remaining : Server D → Server D
  save_remaining s =
      if not (s.connection_count % summary_interval == 0)
        && (ltb s.stats_count stats_capacity && ltb 0 s.temp_stats.total_when_both_present)
      then record s {
        stats_array = set s.stats_array s.stats_count s.temp_stats;
        stats_count = s.stats_count + 1;
      }
      else s

  -- `close(non_persistent_queue[i].fd); active_clients--;`
  unfoldable pub close_queued_at : ℕ → Server D → Server D
  unfolding close_client
  close_queued_at i s = elim (get_elem? s.non_persistent_queue i) [
    | none ↦ s
    | some c ↦ close_client c.fd s
  ]

  -- `for (i = lo; i < lo + n; i++) …`
  unfoldable pub close_queued : ℕ → ℕ → Server D → Server D
  unfolding close_queued_at
  close_queued zero lo s = s
  close_queued (suc n) lo s = close_queued n (lo + 1) (close_queued_at lo s)

  -- Lines 575-585.
  unfoldable pub shut_down_server : Server D → Server D
  unfolding save_remaining close_queued
  shut_down_server s =
      let t = save_remaining s in record (close_queued t.queue_count 0 t) { queue_count = 0 }
