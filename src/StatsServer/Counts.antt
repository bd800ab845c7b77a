-- ===== src/StatsServer/Counts.antt =====
-- server_epx3.c: a pair takes two events.
use rnd.Common.{ℕ, suc, ◌+◌, ◌*◌, ◌≤◌, ◌<◌, Bool, Option, none, some, List, arith, length, if_rule}
use rnd.Common.Word.{u64_mod}
use rnd.Common.Float.{FloatOps}
use rnd.Common.Time.{Timeval}
use rnd.StatsServer.State.{Connection, ConnectionStats, Server, init, zero_totals}
use rnd.StatsServer.Session.{count_connection, reset_session, promote, end_session}
use rnd.StatsServer.Accept.{Accept, accept_client}
use rnd.StatsServer.Receive.{
  is_fd, relabel, pair_persistent, pair_non_persistent, count_persistent, count_non_persistent,
  count_event, receive, hang_up,
}
use rnd.StatsServer.Loop.{Input, run}
use rnd.StatsServer.Graded.{events_in, IsGraded, run_graded}

-- 1 while an event waits for its partner.
abbrev pub picked : Option ℕ → ℕ
picked none = 0
picked (some fd) = 1

-- The events counted for the two clients.
abbrev counted : {D : Type 0} → Server D → ℕ
counted s = s.totals.all_only_persistent_count + s.totals.all_only_non_persistent_count

-- The counters after at most `n` events, where that is no more than they can hold.
abbrev Counted : {D : Type 0} → ℕ → Server D → Type 0
Counted n s = n < u64_mod → (counted s ≤ n) × (2 * s.totals.all_both + picked s.pick ≤ counted s)

module _ {D : Type 0} where
  -- One more event was counted, and has made no pair yet.
  abbrev HasRoom : ℕ → Server D → Type 0
  HasRoom n s =
      n < u64_mod → (counted s ≤ n) × (2 * s.totals.all_both + picked s.pick + 1 ≤ counted s)

  pair_persistent-Counted : (n : ℕ) (s : Server D) → HasRoom n s → Counted n (pair_persistent s)
  unfolding pair_persistent
  pair_persistent-Counted n s h small = let (all, room) = h small in (ground arith, ground arith)

  pair_non_persistent-Counted :
      (n : ℕ) (s : Server D) → HasRoom n s → Counted n (pair_non_persistent s)
  unfolding pair_non_persistent
  pair_non_persistent-Counted n s h small =
      let (all, room) = h small in (ground arith, ground arith)

  count_persistent-HasRoom :
      (n m : ℕ) (t u : Timeval) (s : Server D)
      → Counted n s
      → HasRoom (suc n) (count_persistent m t u s)
  unfolding count_persistent
  count_persistent-HasRoom n m t u s h small =
      let (all, pairs) = h (omega arith) in (omega arith, omega arith)

  count_non_persistent-HasRoom :
      (n m : ℕ) (t u : Timeval) (s : Server D)
      → Counted n s
      → HasRoom (suc n) (count_non_persistent m t u s)
  unfolding count_non_persistent
  count_non_persistent-HasRoom n m t u s h small =
      let (all, pairs) = h (omega arith) in (omega arith, omega arith)

  more-Counted : (n : ℕ) (s : Server D) → Counted n s → Counted (suc n) s
  more-Counted n s h small = let (all, pairs) = h (omega arith) in (omega arith, pairs)

  count_event-Counted :
      (n fd m : ℕ) (t u : Timeval) (s : Server D)
      → Counted n s
      → Counted (suc n) (count_event fd m t u s)
  unfolding count_event
  count_event-Counted n fd m t u s h =
      if_rule (Counted (suc n)) (is_fd s.persistent_fd fd)
        (pair_persistent-Counted (suc n) _ (count_persistent-HasRoom n m t u s h))
        (if_rule (Counted (suc n)) (is_fd s.non_persistent_fd fd)
          (pair_non_persistent-Counted (suc n) _ (count_non_persistent-HasRoom n m t u s h))
          (more-Counted n s h))

  relabel-Counted :
      (n fd : ℕ) (bs : List ℕ) (s : Server D) → Counted n s → Counted n (relabel fd bs s).0
  unfolding relabel
  relabel-Counted n fd bs s h small = let (all, pairs) = h small in (ground arith, ground arith)

  receive-Counted :
      (n fd : ℕ) (bs : List ℕ) (t u : Timeval) (s : Server D)
      → Counted n s
      → Counted (suc n) (receive fd bs t u s)
  unfolding receive
  receive-Counted n fd bs t u s h =
      let r = (relabel fd bs s).0 in
      let relabelled : Counted n r = relabel-Counted n fd bs s h in
      if_rule (Counted (suc n)) (relabel fd bs s).1
        (count_event-Counted n fd (length bs) t u r relabelled) (more-Counted n r relabelled)

  promote-Counted : (n : ℕ) (b : Bool) (s : Server D) → Counted n s → Counted n (promote b s).0
  unfolding promote
  promote-Counted n b s h small = let (all, pairs) = h small in (ground arith, ground arith)

  accept-Counted : (n : ℕ) (a : Accept) (s : Server D) → Counted n s → Counted n (accept_client a s)
  unfolding accept_client
  accept-Counted n a s h small = let (all, pairs) = h small in (ground arith, ground arith)

module _ {D : Type 0} (fp : FloatOps D) where
  count-Counted :
      (n : ℕ) (s : Server D) → Counted n s → Counted n (reset_session (count_connection fp s))
  unfolding count_connection reset_session
  count-Counted n s h small = let (all, pairs) = h small in (ground arith, ground arith)

  end-Counted : (n : ℕ) (b : Bool) (s : Server D) → Counted n s → Counted n (end_session fp b s).0
  unfolding end_session
  end-Counted n b s h =
      promote-Counted n b (reset_session (count_connection fp s)) (count-Counted n s h)

  Counted-IsGraded : IsGraded fp Counted
  Counted-IsGraded = record {
    on_more = more-Counted;
    on_accept = accept-Counted;
    on_receive = receive-Counted;
    on_hang_up = λ n fd s h. unfold hang_up in h;
    on_leave = λ n t s h. h;
    on_end = end-Counted;
    on_stop = λ n s h. h;
    on_stamp = λ n t s h. h;
  }

  -- After any run of fewer than 2^64 events, the two event counters add up to at most the events
  -- of the run, and twice the pair counter and the event that waits for a partner are at most
  -- the sum of the two event counters.
  pub run-Counted :
      (q : List Connection) (st : List (ConnectionStats D)) (now : Timeval) (is : List Input)
      → events_in is 0 < u64_mod
      → let s = run fp is (init fp q st now) in
        (s.totals.all_only_persistent_count + s.totals.all_only_non_persistent_count
          ≤ events_in is 0)
        × (2 * s.totals.all_both + picked s.pick
            ≤ s.totals.all_only_persistent_count + s.totals.all_only_non_persistent_count)
  unfolding init zero_totals
  run-Counted q st now is small =
      run_graded fp Counted Counted-IsGraded 0 is (init fp q st now)
        (λ start. (omega arith, omega arith)) small
