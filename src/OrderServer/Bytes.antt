-- ===== src/OrderServer/Bytes.antt =====
-- serverexp2.c: what one `recv` does to the byte counts, and when it ends the connection.
use rnd.Common.{ℕ, suc, ◌+◌, true, ◌||◌, ◌∷◌, ◌≡◌, ◌≢◌, arith}
use rnd.Common.Int.{pos}
use rnd.Common.Word.{u64}
use rnd.Common.Time.{Timeval}
use rnd.OrderServer.State.{Server, closed}
use rnd.OrderServer.Loop.{is_fd, read_client}

-- The two connections' bytes add up to the total.
abbrev pub BytesAgree : Server → Type 0
BytesAgree s = u64 (s.conn1_bytes + s.conn2_bytes) ≡ u64 s.total_data_bytes

module _ (fd n : ℕ) (t u : Timeval) (s : Server) where
  -- After two accepts, data of either client keeps the sum of the two byte counts equal to the
  -- total modulo 2^64, adds its length to the total, and closes nothing.
  pub counted_once :
      s.count ≡ 2
      → (is_fd s.first_socket fd || is_fd s.second_socket fd) ≡ true
      → BytesAgree s
      → BytesAgree (read_client fd (pos (suc n)) t u s)
        × ((read_client fd (pos (suc n)) t u s).total_data_bytes ≡ u64 (s.total_data_bytes + suc n))
        × ((read_client fd (pos (suc n)) t u s).calls ≡ s.calls)
        × ((read_client fd (pos (suc n)) t u s).active_clients ≡ s.active_clients)
  unfolding read_client
  counted_once two known h = (ground arith, ground arith, ground arith, ground arith)

  -- Unless the number of accepts is two, data closes its connection, is not added to the total,
  -- and leaves the client count as it is.
  pub closed_unless_two :
      s.count ≢ 2
      → ((read_client fd (pos (suc n)) t u s).calls ≡ closed fd ∷ s.calls)
        × ((read_client fd (pos (suc n)) t u s).active_clients ≡ s.active_clients)
        × ((read_client fd (pos (suc n)) t u s).total_data_bytes ≡ s.total_data_bytes)
  unfolding read_client
  closed_unless_two other = (ground arith, ground arith, ground arith)
