-- ===== src/StatsServer/Graded.antt =====
-- server_epx3.c: an invariant that counts the events that the loop has handled.
use rnd.Common.{
  ℕ, suc, Bool, false, Option, none, some, List, [], ◌∷◌, arith, if◌then◌else◌, if_rule,
}
use rnd.Common.Float.{FloatOps}
use rnd.Common.Time.{Timeval}
use rnd.StatsServer.State.{Server}
use rnd.StatsServer.Session.{end_session}
use rnd.StatsServer.Accept.{Accept, accept_client}
use rnd.StatsServer.Receive.{receive, hang_up}
use rnd.StatsServer.Close.{stop_if_idle, release_slot, disconnect}
use rnd.StatsServer.Loop.{
  Recv, bytes, again, failed, Event, incoming, readable, Round, Input, signal, round, read_client,
  handle_event, handle_events, hang_up_slot, expire_inactive, serve_round, events_of, run_round,
  step, run,
}

-- The number of events, counted on from `n`.
abbrev pub events_on : List Event → ℕ → ℕ
events_on [] n = n
events_on (e ∷ es) n = events_on es (suc n)

abbrev pub events_in : List Input → ℕ → ℕ
events_in [] n = n
events_in (signal ∷ is) n = events_in is n
events_in (round r ∷ is) n = events_in is (events_on (events_of r.wait) n)

-- What an invariant of at most `n` events has to keep.
pub record IsGraded {ℓ} {D : Type 0} (fp : FloatOps D) (P : ℕ → Server D → Type ℓ) : Type ℓ where
  pub on_more : (n : ℕ) (s : Server D) → P n s → P (suc n) s
  pub on_accept : (n : ℕ) (a : Accept) (s : Server D) → P n s → P n (accept_client a s)
  pub on_receive :
      (n fd : ℕ) (bs : List ℕ) (t u : Timeval) (s : Server D)
      → P n s
      → P (suc n) (receive fd bs t u s)
  pub on_hang_up : (n fd : ℕ) (s : Server D) → P n s → P n (hang_up fd s)
  pub on_leave :
      (n : ℕ) (t : Timeval) (s : Server D)
      → P n s
      → P n (record s { conn1_end = t; persistent_fd = none; conn1_started = false })
  pub on_end : (n : ℕ) (b : Bool) (s : Server D) → P n s → P n (end_session fp b s).0
  pub on_stop : (n : ℕ) (s : Server D) → P n s → P n (record s { running = false })
  pub on_stamp :
      (n : ℕ) (t : Timeval) (s : Server D) → P n s → P n (record s { last_event_time = t })

module _ {ℓ} {D : Type 0} (fp : FloatOps D) (P : ℕ → Server D → Type ℓ) (k : IsGraded fp P) where
  stop_if_idle_graded : (n : ℕ) (s : Server D) → P n s → P n (stop_if_idle s)
  unfolding stop_if_idle
  stop_if_idle_graded n s h = ground (arith, k.on_stop n s h)

  release_slot_graded :
      (n fd : ℕ) (t : Timeval) (b : Bool) (s : Server D) → P n s → P n (release_slot fp fd t b s).0
  unfolding release_slot
  release_slot_graded n fd t b s h = ground (arith, k.on_leave n t s h, k.on_end n b s h)

  disconnect_graded :
      (n fd : ℕ) (t : Timeval) (b : Bool) (s : Server D) → P n s → P n (disconnect fp fd t b s)
  unfolding disconnect
  disconnect_graded n fd t b s h =
      let u = (release_slot fp fd t b (hang_up fd s)).0 in
      let released : P n u = release_slot_graded n fd t b (hang_up fd s) (k.on_hang_up n fd s h) in
      ground (arith, released, stop_if_idle_graded n u released)

  read_client_graded :
      (n fd : ℕ) (r : Recv) (t u : Timeval) (b : Bool) (s : Server D)
      → P n s
      → P (suc n) (read_client fp fd r t u b s)
  unfolding read_client
  read_client_graded n fd (bytes []) t u b s h = k.on_more n _ (disconnect_graded n fd u b s h)
  read_client_graded n fd (bytes (c ∷ cs)) t u b s h = k.on_receive n fd (c ∷ cs) t u s h
  read_client_graded n fd again t u b s h = k.on_more n s h
  read_client_graded n fd failed t u b s h = k.on_more n _ (disconnect_graded n fd u b s h)

  pub handle_event_graded :
      (n : ℕ) (e : Event) (s : Server D) → P n s → P (suc n) (handle_event fp e s)
  unfolding handle_event
  handle_event_graded n (incoming a) s h = k.on_more n _ (k.on_accept n a s h)
  handle_event_graded n (readable fd r t u b) s h = read_client_graded n fd r t u b s h

  handle_events_graded :
      (n : ℕ) (es : List Event) (s : Server D) → P n s → P (events_on es n) (handle_events fp es s)
  unfolding handle_events
  handle_events_graded n [] s h = h
  handle_events_graded n (e ∷ es) s h =
      handle_events_graded (suc n) es (handle_event fp e s) (handle_event_graded n e s h)

  on_more_events : (n : ℕ) (es : List Event) (s : Server D) → P n s → P (events_on es n) s
  on_more_events n [] s h = h
  on_more_events n (e ∷ es) s h = on_more_events (suc n) es s (k.on_more n s h)

  hang_up_slot_graded : (n : ℕ) (o : Option ℕ) (s : Server D) → P n s → P n (hang_up_slot fp o s)
  unfolding hang_up_slot
  hang_up_slot_graded n none s h = h
  hang_up_slot_graded n (some fd) s h = k.on_hang_up n fd s h

  pub expire_inactive_graded :
      (n : ℕ) (now : Timeval) (b : Bool) (s : Server D) → P n s → P n (expire_inactive fp now b s).0
  unfolding expire_inactive
  expire_inactive_graded n now b s h =
      let np = s.non_persistent_fd in
      ground (arith, k.on_end n b (hang_up_slot fp np s) (hang_up_slot_graded n np s h))

  serve_round_graded :
      (n : ℕ) (r : Round) (s : Server D)
      → P n s
      → P (events_on (events_of r.wait) n) (serve_round fp r s)
  unfolding serve_round
  serve_round_graded n r s h =
      let t = (expire_inactive fp r.current_time r.added s).0 in
      let expired : P n t = expire_inactive_graded n r.current_time r.added s h in
      let es = events_of r.wait in
      ground (arith, on_more_events n es t expired, handle_events_graded n es t expired)

  pub run_round_graded :
      (n : ℕ) (r : Round) (s : Server D)
      → P n s
      → P (events_on (events_of r.wait) n) (run_round fp r s)
  unfolding run_round
  run_round_graded n r s h =
      let stopped = record s { running = false } in
      let stamped = record s { last_event_time = r.event_time } in
      ground (
        arith,
        serve_round_graded n r s h,
        on_more_events n (events_of r.wait) stopped (k.on_stop n s h),
        serve_round_graded n r stamped (k.on_stamp n r.event_time s h),
      )

  pub run_graded :
      (n : ℕ) (is : List Input) (s : Server D) → P n s → P (events_in is n) (run fp is s)
  unfolding run step
  run_graded n [] s h = h
  run_graded n (signal ∷ is) s h =
      run_graded n is (if s.running then record s { running = false } else s)
        (if_rule (P n) s.running (k.on_stop n s h) h)
  run_graded n (round r ∷ is) s h =
      let m = events_on (events_of r.wait) n in
      run_graded m is (if s.running then run_round fp r s else s) (
        if_rule (P m) s.running (run_round_graded n r s h)
          (on_more_events n (events_of r.wait) s h))
