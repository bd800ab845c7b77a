-- ===== src/StatsServer/Report.antt =====
-- server_epx3.c, lines 109-187: the statistics file, as the list of its lines. A line has its label
-- and its value; how `printf` rounds a `double` is not modelled.
use Prim.Native.String.{String}
use rnd.Common.{
  ℕ, zero, suc, ◌+◌, ◌*◌, ◌-◌, Bool, Option, none, some, List, [], ◌∷◌, ◌++◌, ltb, if◌then◌else◌,
  get_elem?,
}
use rnd.Common.Word.{sub64}
use rnd.Common.Float.{FloatOps, of_ℕ}
use rnd.StatsServer.State.{ConnectionStats, Server, summary_interval}
use rnd.StatsServer.Session.{time_diff, mbps}

pub data Line (D : Type 0) : Type 0 where
  -- `Summary for Connections %zu to %zu:`
  heading : ℕ → ℕ → Line D
  count : String → ℕ → Line D
  value : String → D → Line D
  title : String → Line D

-- Lines 143-145.
abbrev pub start_conn : ℕ → ℕ
start_conn i = i * summary_interval

abbrev pub end_conn : ℕ → ℕ → ℕ
end_conn connection_count i =
    let last = (i + 1) * summary_interval in
    if ltb connection_count last then connection_count else last

module _ {D : Type 0} (fp : FloatOps D) where
  -- `x / count`.
  abbrev over : ℕ → ℕ → D
  over x n = fp.div (of_ℕ fp x) (of_ℕ fp n)

  -- Lines 109-129. The caller has `start < end`.
  unfoldable pub write_summary_to_file : ConnectionStats D → ℕ → ℕ → List (Line D)
  write_summary_to_file stats start end =
      heading (start + 1) end
      ∷ value "Avg Non-persistent count" (over stats.non_persistent_count (end - start))
      ∷ value "Avg Persistent count" (over stats.persistent_count (end - start))
      ∷ value "Avg Total when both present" (over stats.total_when_both_present (end - start))
      ∷ value "Avg Only persistent count" (over stats.only_persistent_count (end - start))
      ∷ value "Avg Only non-persistent count" (over stats.only_non_persistent_count (end - start))
      ∷ value "Avg Persistent bytes read" (over stats.per_total_bytes_read (end - start))
      ∷ value "Avg Non-persistent bytes read" (over stats.nonper_total_bytes_read (end - start))
      ∷ value "Avg Persistent ratio" stats.persistent_ratio
      ∷ value "Avg Non-persistent ratio" stats.non_persistent_ratio
      ∷ value "Avg Connection 2 duration" (fp.div stats.oneconn2_duration (of_ℕ fp (end - start)))
      ∷ value "Avg Throughput Persistent" stats.throughput_mbpsper
      ∷ value "Avg Throughput Non-Persistent" stats.throughput_mbpsnonper
      ∷ value "Avg Persistent packets" (over stats.per_packets (end - start))
      ∷ value "Avg Non-Persistent packets" (over stats.nonper_packets (end - start))
      ∷ []

  -- The summary of entry `i`; the caller has `i` below the array's length.
  unfoldable pub write_entry : ℕ → ℕ → Option (ConnectionStats D) → List (Line D)
  unfolding write_summary_to_file
  write_entry connection_count i none = []
  write_entry connection_count i (some t) =
      write_summary_to_file t (start_conn i) (end_conn connection_count i)

  -- Lines 142-147, `for (i = lo; i < lo + n; i++)`.
  unfoldable pub write_summaries : List (ConnectionStats D) → ℕ → ℕ → ℕ → List (Line D)
  unfolding write_entry
  write_summaries stats_array connection_count zero lo = []
  write_summaries stats_array connection_count (suc n) lo =
      write_entry connection_count lo (get_elem? stats_array lo)
      ++ write_summaries stats_array connection_count n (lo + 1)

  -- `n > 0 ? (double)x / n : 0.0`.
  unfoldable pub per : ℕ → ℕ → D
  per n x = if ltb 0 n then over x n else of_ℕ fp 0

  -- Lines 150-183.
  unfoldable pub overall : Server D → List (Line D)
  unfolding per time_diff mbps
  overall s =
      title "Overall Statistics (Averaged)"
      ∷ value "Average events when both were present" (per n all_both)
      ∷ value "Average Persistent count" (per n all_persistent_count)
      ∷ value "Average Non-Persistent count" (per n all_non_persistent_count)
      ∷ value "Average Persistent Ratio" (per all_both all_persistent_count)
      ∷ value "Average Non-Persistent Ratio" (per all_both all_non_persistent_count)
      ∷ count "Rejected connections" s.rejected
      ∷ value "Average Only Persistent count" (per n (sub64 all_only_persistent_count all_both))
      ∷ value "Average Only Non Persistent count"
          (per n (sub64 all_only_non_persistent_count all_both))
      ∷ value "Average persistent bytes per connection" (per n all_per_bytes)
      ∷ value "Average non-persistent bytes per connection" (per n all_nonper_bytes)
      ∷ value "Average persistent packets per connection" (per n all_perpackets)
      ∷ value "Average non-persistent packets per connection" (per n all_nonpacktes)
      ∷ value "Total persistent duration" oneconn1_duration
      ∷ value "Total non-persistent duration" s.conn2_duration
      ∷ value "Average Throughput Persistent" (mbps fp all_per_bytes oneconn1_duration)
      ∷ value "Average Throughput Non-Persistent" (mbps fp all_nonper_bytes s.conn2_duration)
      ∷ []
    where
      open s.totals use {
        all_persistent_count, all_non_persistent_count, all_only_persistent_count,
        all_only_non_persistent_count, all_both, all_per_bytes, all_nonper_bytes, all_perpackets,
        all_nonpacktes,
      }

      n : ℕ
      n = s.connection_count

      oneconn1_duration : D
      oneconn1_duration = time_diff fp s.conn1_start s.conn1_end

  -- Lines 131-187; `none` where `fopen` fails.
  unfoldable pub write_stats_to_file : Bool → Server D → Option (List (Line D))
  unfolding write_summaries overall
  write_stats_to_file opened s =
      if opened
      then some (write_summaries s.stats_array s.connection_count s.stats_count 0 ++ overall s)
      else none
