-- ===== src/OrderServer/Report.antt =====
-- serverexp2.c, lines 140-186: what is printed at the end, as a list of labelled values. How `printf`
-- rounds a `double` is not modelled.
use Prim.Native.String.{String}
use rnd.Common.{◌+◌, ◌*◌, List, [], ◌∷◌, if◌then◌else◌}
use rnd.Common.Int.{ℤ, pos, sub_ℕ}
use rnd.Common.Word.{u64}
use rnd.Common.Time.{Timeval}
use rnd.Common.Float.{FloatOps, of_ℕ}
use rnd.OrderServer.State.{Server}

pub data Line (D : Type 0) : Type 0 where
  count : String → ℤ → Line D
  value : String → D → Line D

-- `socket1total_count - (socket1_before_socket2 + socket2_before_socket1)`.
unfoldable pub first_only : Server → ℤ
first_only s = sub_ℕ s.socket1total_count (s.socket1_before_socket2 + s.socket2_before_socket1)

unfoldable pub second_only : Server → ℤ
second_only s = sub_ℕ s.socket2total_count (s.socket1_before_socket2 + s.socket2_before_socket1)

module _ {D : Type 0} (fp : FloatOps D) where
  -- Lines 144-146.
  unfoldable pub time_diff : Timeval → Timeval → D
  time_diff start end =
      fp.add (fp.of_ℤ (sub_ℕ end.tv_sec start.tv_sec))
        (fp.div (fp.of_ℤ (sub_ℕ end.tv_usec start.tv_usec)) (of_ℕ fp 1000000))

  -- `x / (d * 1e6)`.
  unfoldable pub mega : D → D → D
  mega x d = fp.div x (fp.mul d (of_ℕ fp 1000000))

  unfoldable pub print_order_ratio : Server → List (Line D)
  unfolding time_diff mega first_only second_only
  print_order_ratio s =
      value "Throughput Conn1" (mega (fp.mul (of_ℕ fp s.conn1_bytes) (of_ℕ fp 8)) conn1_duration)
      ∷ value "Throughput Conn2" (mega (fp.mul (of_ℕ fp s.conn2_bytes) (of_ℕ fp 8)) conn2_duration)
      ∷ count "Socket 1 before Socket 2" (pos s.socket1_before_socket2)
      ∷ count "Socket 2 before Socket 1" (pos s.socket2_before_socket1)
      ∷ count "Socket 2 and Socket 1" (pos s.both)
      ∷ count "First Socket Count" (first_only s)
      ∷ count "Second Socket Count" (second_only s)
      ∷ count "Conn1 bytes" (pos s.conn1_bytes)
      ∷ count "Conn2 bytes" (pos s.conn2_bytes)
      ∷ count "Conn1 packets" (pos s.conn1_packets)
      ∷ count "Conn2 packets" (pos s.conn2_packets)
      ∷ value "Conn1 duration" conn1_duration
      ∷ value "Conn2 duration" conn2_duration
      ∷ value "Total Time" total_time
      ∷ value "Ratio (Socket 1 before Socket 2 / Total)"
          (fp.div (of_ℕ fp s.socket1_before_socket2) pairs)
      ∷ value "Ratio (Socket 2 before Socket 1 / Total)"
          (fp.div (of_ℕ fp s.socket2_before_socket1) pairs)
      ∷ throughput
    where
      conn1_duration : D
      conn1_duration = time_diff s.conn1_start s.conn1_end

      conn2_duration : D
      conn2_duration = time_diff s.conn2_start s.conn2_end

      total_time : D
      total_time = fp.add conn1_duration conn2_duration

      pairs : D
      pairs = of_ℕ fp (s.socket1_before_socket2 + s.socket2_before_socket1)

      -- Lines 178-185; the bytes are multiplied as a 64-bit word.
      throughput : List (Line D)
      throughput =
          if fp.lt (of_ℕ fp 0) total_time
          then value "Throughput" (mega (of_ℕ fp (u64 (s.total_data_bytes * 8))) total_time) ∷ []
          else []
