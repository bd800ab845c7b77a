-- ===== src/StatsServer/Stops.antt =====
-- server_epx3.c: when the loop ends.
use rnd.Common.{
  ℕ, Bool, true, false, Option, none, some, List, [], ◌∷◌, ◌≡◌, ◌⊎◌, refl, ap, if◌then◌else◌, arith,
  Bool-cases, inl, inr, ◌∙◌,
}
use rnd.Common.Int.{pos, is_zero, ◌-ℤ◌}
use rnd.Common.Float.{FloatOps, of_ℕ}
use rnd.Common.Time.{Timeval}
use rnd.StatsServer.State.{Server, no_event_timeout}
use rnd.StatsServer.Session.{time_diff, count_connection, reset_session, promote, end_session}
use rnd.StatsServer.Accept.{Accept, accept_client}
use rnd.StatsServer.Receive.{receive, hang_up}
use rnd.StatsServer.Close.{stop_if_idle, release_slot, disconnect}
use rnd.StatsServer.Loop.{
  Recv, bytes, again, failed, Event, incoming, readable, Round, Input, signal, no_events,
  read_client, handle_event, handle_events, hang_up_slot, serve_round, events_of, expire_inactive,
  run_round, step, run,
}

module _ {D : Type 0} where
  abbrev pub IsIdle : Server D → Type 0
  IsIdle s = (is_zero s.active_clients ≡ true) × (s.queue_count ≡ 0)

  -- The state that a round begins with: the time of the last event is set unless there is none.
  abbrev pub stamped : Round → Server D → Server D
  stamped r s = if no_events r.wait then s else record s { last_event_time = r.event_time }

module _ {D : Type 0} (fp : FloatOps D) where
  pub run_stopped : (is : List Input) (s : Server D) → s.running ≡ false → run fp is s ≡ s
  unfolding run
  run_stopped [] s h = refl
  run_stopped (i ∷ is) s h = ground (arith, run_stopped is s h)

  -- After a signal the run ends: the inputs that follow change nothing.
  pub signal_stops :
      (is : List Input) (s : Server D) → run fp (signal ∷ is) s ≡ record s { running = false }
  unfolding run step
  signal_stops is s =
      ap (run fp is) (stopped s) ∙ run_stopped is (record s { running = false }) refl
    where
      stopped :
          (s : Server D)
          → (if s.running then record s { running = false } else s) ≡ record s { running = false }
      stopped s = ground arith

  accept-running : (a : Accept) (s : Server D) → (accept_client a s).running ≡ s.running
  unfolding accept_client
  accept-running a s = ground arith

  receive-running :
      (fd : ℕ) (bs : List ℕ) (t u : Timeval) (s : Server D)
      → (receive fd bs t u s).running ≡ s.running
  unfolding receive
  receive-running fd bs t u s = ground arith

  promote-running : (b : Bool) (s : Server D) → (promote b s).0.running ≡ s.running
  unfolding promote
  promote-running b s = ground arith

  end-running : (b : Bool) (s : Server D) → (end_session fp b s).0.running ≡ s.running
  unfolding end_session count_connection reset_session
  end-running b s = ground (arith, promote-running b (reset_session (count_connection fp s)))

  disconnect-running :
      (fd : ℕ) (t : Timeval) (b : Bool) (s : Server D)
      → s.running ≡ true
      → (disconnect fp fd t b s).running ≡ false
      → (is_zero (disconnect fp fd t b s).active_clients ≡ true)
        × ((disconnect fp fd t b s).queue_count ≡ 0)
  unfolding disconnect stop_if_idle hang_up release_slot
  disconnect-running fd t b s on off = ground (arith, end-running b (hang_up fd s))

  -- When the only client leaves and no connection is queued, the server stops, whichever slot
  -- the client had.
  pub last_client_stops :
      (fd : ℕ) (t : Timeval) (b : Bool) (s : Server D)
      → s.active_clients ≡ pos 1
      → s.queue_count ≡ 0
      → (disconnect fp fd t b s).running ≡ false
  unfolding disconnect stop_if_idle hang_up release_slot end_session count_connection reset_session
      promote ◌-ℤ◌
  last_client_stops fd t b s one alone = ground arith

  read-running :
      (fd : ℕ) (r : Recv) (t u : Timeval) (b : Bool) (s : Server D)
      → s.running ≡ true
      → (read_client fp fd r t u b s).running ≡ false
      → IsIdle (read_client fp fd r t u b s)
  unfolding read_client
  read-running fd (bytes []) t u b s on off = disconnect-running fd u b s on off
  read-running fd (bytes (c ∷ cs)) t u b s on off = cc (receive-running fd (c ∷ cs) t u s)
  read-running fd again t u b s on off = cc
  read-running fd failed t u b s on off = disconnect-running fd u b s on off

  -- If the handling of an event stops a running server, then no client and no queued connection
  -- is left after it.
  pub event-running :
      (e : Event) (s : Server D)
      → s.running ≡ true
      → (handle_event fp e s).running ≡ false
      → IsIdle (handle_event fp e s)
  unfolding handle_event
  event-running (incoming a) s on off = cc (accept-running a s)
  event-running (readable fd r t u b) s on off = read-running fd r t u b s on off

  -- After one of the events no client is left.
  abbrev pub IdleAfter : List Event → Server D → Type 0
  IdleAfter [] s = ⊥
  IdleAfter (e ∷ es) s = IsIdle (handle_event fp e s) ⊎ IdleAfter es (handle_event fp e s)

  events-running :
      (es : List Event) (s : Server D)
      → s.running ≡ true
      → (handle_events fp es s).running ≡ false
      → IdleAfter es s
  unfolding handle_events
  events-running [] s on off = cc
  events-running (e ∷ es) s on off = elim (Bool-cases (handle_event fp e s).running) [
    | inl still ↦ inr (events-running es (handle_event fp e s) still off)
    | inr stopped ↦ inl (event-running e s on stopped)
  ]

  hang_up_slot-running : (o : Option ℕ) (s : Server D) → (hang_up_slot fp o s).running ≡ s.running
  unfolding hang_up_slot hang_up
  hang_up_slot-running none s = refl
  hang_up_slot-running (some fd) s = refl

  expire-running :
      (now : Timeval) (b : Bool) (s : Server D) → (expire_inactive fp now b s).0.running ≡ s.running
  unfolding expire_inactive
  expire-running now b s =
      let np = s.non_persistent_fd in
      ground (arith, hang_up_slot-running np s, end-running b (hang_up_slot fp np s))

  serve-running :
      (r : Round) (s : Server D)
      → s.running ≡ true
      → (serve_round fp r s).running ≡ false
      → IdleAfter (events_of r.wait) (expire_inactive fp r.current_time r.added s).0
  unfolding serve_round
  serve-running r s on off =
      let t = (expire_inactive fp r.current_time r.added s).0 in
      ground (arith, expire-running r.current_time r.added s, events-running (events_of r.wait) t)

  -- If a round stops a running server, then either there was no event and 180 seconds had passed
  -- since the last one, or one of the round's events left no client and an empty queue.
  pub round-stops :
      (r : Round) (s : Server D)
      → s.running ≡ true
      → (run_round fp r s).running ≡ false
      → ((no_events r.wait ≡ true)
          × (fp.le (of_ℕ fp no_event_timeout) (time_diff fp s.last_event_time r.current_time)
              ≡ true))
        ⊎ IdleAfter (events_of r.wait) (expire_inactive fp r.current_time r.added (stamped r s)).0
  unfolding run_round
  round-stops r s on off = ground (
    arith,
    serve-running r s on,
    serve-running r (record s { last_event_time = r.event_time }) on,
  )

  -- A round with no event, 180 seconds or more after the last one, clears `running` and changes
  -- nothing else.
  pub quiet_round :
      (r : Round) (s : Server D)
      → no_events r.wait ≡ true
      → fp.le (of_ℕ fp no_event_timeout) (time_diff fp s.last_event_time r.current_time) ≡ true
      → run_round fp r s ≡ record s { running = false }
  unfolding run_round
  quiet_round r s quiet long = ground arith
