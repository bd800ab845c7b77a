-- ===== src/StatsServer/Faults.antt =====
-- server_epx3.c: states in which the server does not do what it means to.
use rnd.Common.{
  ℕ, ◌+◌, ◌-◌, ◌<◌, Bool, false, none, some, List, ◌∷◌, ◌≡◌, ◌≢◌, refl, ap, lt→ltb, Option, arith,
}
use rnd.Common.Int.{pos, ◌-ℤ◌}
use rnd.Common.Word.{u64, u64_mod}
use rnd.Common.Float.{FloatOps}
use rnd.Common.Time.{Timeval}
use rnd.StatsServer.State.{
  Connection, Server, accepted, epoll_add, epoll_del, shut_down, closed, zero_session,
}
use rnd.StatsServer.Session.{sum_session, dequeue, drop_promoted, promote}
use rnd.StatsServer.Accept.{client, accept_client}
use rnd.StatsServer.Receive.{is_fd, receive, hang_up}
use rnd.StatsServer.Close.{release_slot, stop_if_idle, disconnect}
use rnd.StatsServer.Bounds.{InBounds}
use rnd.StatsServer.Stale.{HoldsPick}
use rnd.StatsServer.Waiting.{waiting, waiting-drop_promoted, dequeue-head}

is_fd_of_ne : (o : Option ℕ) (fd : ℕ) → o ≢ some fd → is_fd o fd ≡ false
is_fd_of_ne none fd h = refl
is_fd_of_ne (some p) fd h = ground (arith, λ (e : p ≡ fd). h (ap some e))

module _ {D : Type 0} (fp : FloatOps D) where
  -- Half-closed: the descriptor's owner has gone, and no slot knew of it.
  leave_stranger :
      (fd : ℕ) (t : Timeval) (b : Bool) (s : Server D)
      → s.persistent_fd ≢ some fd
      → s.non_persistent_fd ≢ some fd
      → disconnect fp fd t b s ≡ stop_if_idle (hang_up fd s)
  unfolding disconnect hang_up release_slot
  leave_stranger fd t b s h g =
      let p = is_fd_of_ne s.persistent_fd fd h in
      let q = is_fd_of_ne s.non_persistent_fd fd g in rw (p, q)

  stop_if_idle-unchanged :
      (s : Server D)
      → (waiting (stop_if_idle s) ≡ waiting s)
        × ((stop_if_idle s).calls ≡ s.calls)
        × ((stop_if_idle s).active_clients ≡ s.active_clients)
  unfolding stop_if_idle
  stop_if_idle-unchanged s = (ground arith, ground arith, ground arith)

  -- A client in neither slot that closes its connection is closed and subtracted from the client
  -- count, and the list of waiting connections stays as it is.
  pub closed_client_waits :
      (fd : ℕ) (t : Timeval) (b : Bool) (s : Server D)
      → s.persistent_fd ≢ some fd
      → s.non_persistent_fd ≢ some fd
      → (waiting (disconnect fp fd t b s) ≡ waiting s)
        × ((disconnect fp fd t b s).calls ≡ closed fd ∷ shut_down fd ∷ epoll_del fd ∷ s.calls)
        × ((disconnect fp fd t b s).active_clients ≡ s.active_clients -ℤ pos 1)
  closed_client_waits fd t b s h g =
      rw (leave_stranger fd t b s h g) (unfold hang_up in stop_if_idle-unchanged (hang_up fd s))

  -- Where both slots are taken by different descriptors, `pick` holds the persistent one and the
  -- session counts are zero, data of the non-persistent client followed by the end of its
  -- session adds 2^64 - 1 modulo 2^64 to the count of events of the persistent client alone.
  pub carried_pick :
      (p np : ℕ) (c : ℕ) (bs : List ℕ) (t u : Timeval) (s : Server D)
      → p ≢ np
      → HoldsPick p np p s
      → s.session ≡ zero_session
      → (sum_session fp (receive np (c ∷ bs) t u s)).temp_stats.only_persistent_count
        ≡ u64 (s.temp_stats.only_persistent_count + (u64_mod - 1))
  unfolding receive sum_session zero_session
  carried_pick p np c bs t u s h k z =
      let none_yet : (receive np (c ∷ bs) t u s).session.onepertotal_count ≡ 0 = ground arith in
      let one_pair : (receive np (c ∷ bs) t u s).session.both ≡ 1 = ground arith in
      let kept : (receive np (c ∷ bs) t u s).temp_stats.only_persistent_count
          ≡ s.temp_stats.only_persistent_count =
        ground arith in
      rw (none_yet, one_pair, kept)

module _ {D : Type 0} where
  drop_promoted-calls :
      (fd : ℕ) (s : Server D)
      → s.non_persistent_fd ≡ some fd
      → ((drop_promoted s).calls ≡ closed fd ∷ s.calls)
        × ((drop_promoted s).active_clients ≡ s.active_clients -ℤ pos 1)
        × ((drop_promoted s).non_persistent_fd ≡ none)
  unfolding drop_promoted
  drop_promoted-calls fd s h = (ground arith, ground arith, ground arith)

  -- Where a connection waits and its registration fails, its descriptor is closed, the client
  -- count falls, the non-persistent slot is empty and the others go on waiting.
  pub promote_fails :
      (c : Connection) (ws : List Connection) (s : Server D)
      → InBounds s
      → 0 < s.queue_count
      → waiting s ≡ c ∷ ws
      → ((promote false s).0.calls ≡ closed c.fd ∷ epoll_add c.fd ∷ s.calls)
        × ((promote false s).0.active_clients ≡ s.active_clients -ℤ pos 1)
        × ((promote false s).0.non_persistent_fd ≡ none)
        × (waiting (promote false s).0 ≡ ws)
  promote_fails c ws s b h e =
      let (head, list, fd, time, calls, active) = dequeue-head s b h in
      let (dropped, fewer, empty) = drop_promoted-calls head.fd (dequeue s) fd in
      let wait = waiting-drop_promoted (dequeue s) in
      let failed : promote false s ≡ (drop_promoted (dequeue s), false) =
        unfold promote in rw (lt→ltb _ _ h) in
      rw failed (cc, cc, empty, cc)

  -- Where the registration of a new client fails and the persistent slot was empty, the client's
  -- descriptor is closed and the slot holds it.
  pub failed_add_keeps_slot :
      (fd : ℕ) (t : Timeval) (s : Server D)
      → s.persistent_fd ≡ none
      → ((accept_client (client fd t false) s).persistent_fd ≡ some fd)
        × ((accept_client (client fd t false) s).calls
            ≡ closed fd ∷ epoll_add fd ∷ accepted fd ∷ s.calls)
  unfolding accept_client
  failed_add_keeps_slot fd t s h = (ground arith, ground arith)

  -- Where only the non-persistent slot is empty, a new client takes it and the waiting
  -- connections stay where they are.
  pub newcomer_overtakes :
      (fd p : ℕ) (t : Timeval) (b : Bool) (s : Server D)
      → s.persistent_fd ≡ some p
      → s.non_persistent_fd ≡ none
      → ((accept_client (client fd t b) s).non_persistent_fd ≡ some fd)
        × (waiting (accept_client (client fd t b) s) ≡ waiting s)
  unfolding accept_client
  newcomer_overtakes fd p t b s h g = (ground arith, ground arith)
