-- ===== src/Sender/Report.antt =====
-- per.c, lines 135-144: the statistics printed at the end.
use rnd.Common.{ℕ, Bool, List, [], ◌∷◌, if◌then◌else◌}
use rnd.Common.Float.{FloatOps, of_ℕ}
use rnd.Sender.State.{Sender}

-- `terminated` has whether the reason printed is the time limit.
pub data Line (D : Type 0) : Type 0 where
  total_messages : ℕ → Line D
  total_packets : ℕ → Line D
  total_bytes : ℕ → Line D
  msgs_per_sec : D → Line D
  mbps : D → Line D
  terminated : Bool → Line D

module _ {D : Type 0} (fp : FloatOps D) where
  -- The two conditional expressions of lines 142-143.
  abbrev pub if_positive : D → D → D
  if_positive elapsed d = if fp.lt (of_ℕ fp 0) elapsed then d else of_ℕ fp 0

  -- Lines 136-144; `elapsed` comes from the reading of line 136.
  unfoldable pub report : ℕ → D → Sender D → List (Line D)
  report max elapsed s =
      total_messages s.total_msgs_sent
      ∷ total_packets s.total_packets_sent
      ∷ total_bytes s.total_bytes_sent
      ∷ msgs_per_sec (if_positive elapsed (fp.div (of_ℕ fp s.total_msgs_sent) elapsed))
      ∷ mbps (
          if_positive elapsed (
            fp.div (fp.mul (of_ℕ fp s.total_bytes_sent) (of_ℕ fp 8))
              (fp.mul elapsed (of_ℕ fp 1000000))))
      ∷ terminated (fp.le (of_ℕ fp max) elapsed)
      ∷ []
