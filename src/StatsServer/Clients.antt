-- ===== src/StatsServer/Clients.antt =====
-- server_epx3.c: `active_clients` against the descriptors that were accepted and closed.
use rnd.Common.{ℕ, zero, suc, ◌+◌, Bool, List, [], ◌∷◌, ◌≡◌, arith}
use rnd.Common.Int.{sub_ℕ, pos_part, neg_part, +ℤ_parts, -ℤ_parts}
use rnd.Common.Float.{FloatOps}
use rnd.Common.Time.{Timeval}
use rnd.StatsServer.State.{Connection, ConnectionStats, Call, accepted, closed, Server, init}
use rnd.StatsServer.Session.{count_connection, reset_session, promote, end_session}
use rnd.StatsServer.Accept.{Accept, accept_client}
use rnd.StatsServer.Receive.{receive, hang_up}
use rnd.StatsServer.Loop.{Input, run}
use rnd.StatsServer.Shutdown.{save_remaining, close_queued_at, close_queued, shut_down_server}
use rnd.StatsServer.Runs.{IsKept, run_inv}

abbrev pub accepts : List Call → ℕ
accepts [] = 0
accepts (accepted fd ∷ cs) = suc (accepts cs)
accepts (c ∷ cs) = accepts cs

abbrev pub closes : List Call → ℕ
closes [] = 0
closes (closed fd ∷ cs) = suc (closes cs)
closes (c ∷ cs) = closes cs

-- The clients that were accepted, less the calls of `close` on a client's descriptor.
abbrev pub IsBalanced : {D : Type 0} → Server D → Type 0
IsBalanced s = s.active_clients ≡ sub_ℕ (accepts s.calls) (closes s.calls)

-- The same, in the form that linear arithmetic reads.
abbrev Balance : {D : Type 0} → Server D → Type 0
Balance s = pos_part s.active_clients + closes s.calls ≡ neg_part s.active_clients + accepts s.calls

Balance→IsBalanced : {D : Type 0} (s : Server D) → Balance s → IsBalanced s
Balance→IsBalanced s h = ground arith

module _ {D : Type 0} where
  accept-Balance : (a : Accept) (s : Server D) → Balance s → Balance (accept_client a s)
  unfolding accept_client
  accept-Balance a s h = grind (arith, -ℤ_parts, +ℤ_parts)

  receive-Balance :
      (fd : ℕ) (bs : List ℕ) (t u : Timeval) (s : Server D)
      → Balance s
      → Balance (receive fd bs t u s)
  unfolding receive
  receive-Balance fd bs t u s h = grind (arith, -ℤ_parts)

  hang_up-Balance : (fd : ℕ) (s : Server D) → Balance s → Balance (hang_up fd s)
  unfolding hang_up
  hang_up-Balance fd s h = grind (arith, -ℤ_parts)

  promote-Balance : (b : Bool) (s : Server D) → Balance s → Balance (promote b s).0
  unfolding promote
  promote-Balance b s h = grind (arith, -ℤ_parts)

  close_queued_at-Balance : (i : ℕ) (s : Server D) → Balance s → Balance (close_queued_at i s)
  unfolding close_queued_at
  close_queued_at-Balance i s h = grind (arith, -ℤ_parts)

  close_queued-Balance : (n lo : ℕ) (s : Server D) → Balance s → Balance (close_queued n lo s)
  unfolding close_queued
  close_queued-Balance zero lo s h = h
  close_queued-Balance (suc n) lo s h =
      close_queued-Balance n (lo + 1) (close_queued_at lo s) (close_queued_at-Balance lo s h)

  shut_down-Balance : (s : Server D) → Balance s → Balance (shut_down_server s)
  unfolding shut_down_server
  shut_down-Balance s h =
      let t = save_remaining s in close_queued-Balance t.queue_count 0 t (saved h)
    where
      saved : Balance s → Balance (save_remaining s)
      saved h = unfold save_remaining in ground arith

module _ {D : Type 0} (fp : FloatOps D) where
  count-Balance : (s : Server D) → Balance s → Balance (reset_session (count_connection fp s))
  unfolding count_connection reset_session
  count-Balance s h = ground arith

  end-Balance : (b : Bool) (s : Server D) → Balance s → Balance (end_session fp b s).0
  unfolding end_session
  end-Balance b s h = promote-Balance b (reset_session (count_connection fp s)) (count-Balance s h)

  Balance-IsKept : IsKept fp Balance
  Balance-IsKept = record {
    on_accept = accept-Balance;
    on_receive = receive-Balance;
    on_hang_up = hang_up-Balance;
    on_leave = λ t s h. h;
    on_end = end-Balance;
    on_stop = λ s h. h;
    on_stamp = λ t s h. h;
  }

  -- Over any run from the start, and after the shutdown, `active_clients` is the number of
  -- clients accepted less the number of `close` calls on client descriptors.
  pub run-IsBalanced :
      (q : List Connection) (st : List (ConnectionStats D)) (now : Timeval) (is : List Input)
      → IsBalanced (run fp is (init fp q st now))
        × IsBalanced (shut_down_server (run fp is (init fp q st now)))
  unfolding init
  run-IsBalanced q st now is = (
    Balance→IsBalanced s kept,
    Balance→IsBalanced (shut_down_server s) (shut_down-Balance s kept),
  )
    where
      s : Server D
      s = run fp is (init fp q st now)

      kept : Balance s
      kept = run_inv fp Balance Balance-IsKept is (init fp q st now) (omega arith)
