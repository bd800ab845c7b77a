-- ===== src/SequenceServer/Tracker.antt =====
-- exp1/server_final.c, lines 31-33 and 66-86 (the same text is in exp1/server7.c, lines 27-29 and
-- 62-82): the next number expected, and the numbers that were passed over.
use rnd.Common.{ℕ, zero, suc, ◌+◌, ◌-◌, List, [], ◌∷◌, ◌++◌, ltb, ◌==◌, if◌then◌else◌, length}
use rnd.Common.Int.{ℤ, pos, negsuc}

abbrev pub max_out_of_order : ℕ
max_out_of_order = 1000000

-- `out_of_order` has the first `out_of_order_count` entries of the array.
pub record Tracker : Type 0 where
  pub global_expected_seq : ℕ
  pub out_of_order : List ℕ

unfoldable pub start : Tracker
start = record { global_expected_seq = 1; out_of_order = [] }

-- Lines 79-82.
unfoldable pub note : ℕ → Tracker → Tracker
note i t =
    if ltb (length t.out_of_order) max_out_of_order
    then record t { out_of_order = t.out_of_order ++ i ∷ [] }
    else t

-- `for (i = lo; i < lo + n; i++) …`
unfoldable pub note_gap : ℕ → ℕ → Tracker → Tracker
unfolding note
note_gap zero lo t = t
note_gap (suc n) lo t = note_gap n (lo + 1) (note lo t)

-- Lines 66-86, for a number that is not negative.
unfoldable pub track : ℕ → Tracker → Tracker
track packet_seq t =
    if packet_seq == t.global_expected_seq
    then record t { global_expected_seq = t.global_expected_seq + 1 }
    else if ltb packet_seq t.global_expected_seq
    then t
    else record (note_gap (packet_seq - t.global_expected_seq) t.global_expected_seq t) {
      global_expected_seq = packet_seq + 1;
    }

-- A negative number is below the one expected.
unfoldable pub track_int : ℤ → Tracker → Tracker
unfolding track
track_int (pos n) t = track n t
track_int (negsuc n) t = t
