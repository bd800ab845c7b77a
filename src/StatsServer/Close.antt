-- ===== src/StatsServer/Close.antt =====
-- server_epx3.c, lines 496-570: a client closed its connection or `recv` failed.
use rnd.Common.{ℕ, Bool, true, false, ◌&&◌, none, ◌==◌, if◌then◌else◌}
use rnd.Common.Int.{is_zero}
use rnd.Common.Float.{FloatOps}
use rnd.Common.Time.{Timeval}
use rnd.StatsServer.State.{Server}
use rnd.StatsServer.Session.{end_session}
use rnd.StatsServer.Receive.{is_fd, hang_up}

module _ {D : Type 0} where
  -- Lines 567-569.
  unfoldable pub stop_if_idle : Server D → Server D
  stop_if_idle s =
      if is_zero s.active_clients && s.queue_count == 0 then record s { running = false } else s

  -- Lines 502-565; the second result is false where the code goes on with `continue`.
  unfoldable pub release_slot : FloatOps D → ℕ → Timeval → Bool → Server D → Server D × Bool
  unfolding end_session
  release_slot fp fd end added s =
      if is_fd s.persistent_fd fd
      then (record s { conn1_end = end; persistent_fd = none; conn1_started = false }, true)
      else if is_fd s.non_persistent_fd fd
      then end_session fp added s
      else (s, true)

  unfoldable pub disconnect : FloatOps D → ℕ → Timeval → Bool → Server D → Server D
  unfolding hang_up release_slot stop_if_idle
  disconnect fp fd end added s =
      let (t, go_on) = release_slot fp fd end added (hang_up fd s) in
      if go_on then stop_if_idle t else t
