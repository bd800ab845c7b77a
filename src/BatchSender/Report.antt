-- ===== src/BatchSender/Report.antt =====
-- non.c, lines 159-168: the statistics printed at the end.
use rnd.Common.{ℕ, Bool, List, [], ◌∷◌, ltb, if◌then◌else◌}
use rnd.Common.Float.{FloatOps, of_ℕ}
use rnd.BatchSender.State.{Client}

-- `terminated` has whether the reason printed is the time limit.
pub data Line (D : Type 0) : Type 0 where
  connections : ℕ → Line D
  messages : ℕ → Line D
  packets : ℕ → Line D
  average : D → Line D
  running_time : D → Line D
  msgs_per_sec : D → Line D
  incomplete : ℕ → Line D
  terminated : Bool → Line D

-- Lines 160-168.
unfoldable pub report : {D : Type 0} → FloatOps D → ℕ → Client D → List (Line D)
report fp runtime c =
    let t = c.totals in
    let sent = of_ℕ fp t.total_msgs_sent in
    connections t.total_connections
    ∷ messages t.total_msgs_sent
    ∷ packets t.total_packets_sent
    ∷ average
        (if ltb 0 t.total_connections then fp.div sent (of_ℕ fp t.total_connections) else of_ℕ fp 0)
    ∷ running_time c.elapsed
    ∷ msgs_per_sec (if fp.lt (of_ℕ fp 0) c.elapsed then fp.div sent c.elapsed else of_ℕ fp 0)
    ∷ incomplete t.non_complete
    ∷ terminated (fp.le (of_ℕ fp runtime) c.elapsed)
    ∷ []
