-- ===== src/StatsServer/Loop.antt =====
-- server_epx3.c, lines 274-585: the event loop. What `epoll_wait`, `recv`, `accept`, `epoll_ctl` and
-- the clock return is the input of a round; a signal may come between any two.
use rnd.Common.{ℕ, Bool, true, false, ◌&&◌, Option, none, some, List, [], ◌∷◌, ◌==◌, if◌then◌else◌}
use rnd.Common.Float.{FloatOps, of_ℕ}
use rnd.Common.Time.{Timeval}
use rnd.StatsServer.State.{Server, no_event_timeout, inactive_timeout}
use rnd.StatsServer.Session.{time_diff, end_session}
use rnd.StatsServer.Accept.{Accept, accept_client}
use rnd.StatsServer.Receive.{receive, hang_up}
use rnd.StatsServer.Close.{disconnect}

-- `again` is EAGAIN or EWOULDBLOCK; `bytes []` is the end of the stream.
pub data Recv : Type 0 where
  bytes : List ℕ → Recv
  again : Recv
  failed : Recv

-- An event is on the listening socket, or on a client's descriptor, with the clock readings that its
-- handler makes and whether `epoll_ctl` succeeds if it is called.
pub data Event : Type 0 where
  incoming : Accept → Event
  readable : ℕ → Recv → Timeval → Timeval → Bool → Event

-- What `epoll_wait` returns: -1, or the events that are ready.
pub data Wait : Type 0 where
  interrupted : Wait
  ready : List Event → Wait

-- A round's clock readings of lines 277 and 286, its events, and whether the `epoll_ctl` of line 347
-- succeeds if it is called.
pub record Round : Type 0 where
  pub wait : Wait
  pub current_time : Timeval
  pub event_time : Timeval
  pub added : Bool

pub data Input : Type 0 where
  signal : Input
  round : Round → Input

abbrev pub no_events : Wait → Bool
no_events interrupted = false
no_events (ready []) = true
no_events (ready (e ∷ es)) = false

abbrev pub events_of : Wait → List Event
events_of interrupted = []
events_of (ready es) = es

module _ {D : Type 0} (fp : FloatOps D) where
  -- Lines 407-570.
  unfoldable pub read_client : ℕ → Recv → Timeval → Timeval → Bool → Server D → Server D
  unfolding receive disconnect
  read_client fd (bytes []) start end added s = disconnect fp fd end added s
  read_client fd (bytes (b ∷ bs)) start end added s = receive fd (b ∷ bs) start end s
  read_client fd again start end added s = s
  read_client fd failed start end added s = disconnect fp fd end added s

  unfoldable pub handle_event : Event → Server D → Server D
  unfolding accept_client read_client
  handle_event (incoming a) s = accept_client a s
  handle_event (readable fd r start end added) s = read_client fd r start end added s

  -- Lines 358-572.
  unfoldable pub handle_events : List Event → Server D → Server D
  unfolding handle_event
  handle_events [] s = s
  handle_events (e ∷ es) s = handle_events es (handle_event e s)

  -- The test of lines 289-291.
  unfoldable pub is_inactive : Timeval → Server D → Bool
  unfolding time_diff
  is_inactive now s = elim s.non_persistent_fd [
    | none ↦ false
    | some fd ↦
        fp.le (of_ℕ fp inactive_timeout) (time_diff fp s.non_persistent_connect_time now)
        && s.session.nonper_bytes_read == 0
  ]

  -- Lines 292-295, on the descriptor in the non-persistent slot.
  unfoldable pub hang_up_slot : Option ℕ → Server D → Server D
  unfolding hang_up
  hang_up_slot none s = s
  hang_up_slot (some fd) s = hang_up fd s

  -- Lines 289-356; the second result is false where the code goes on with `continue`.
  unfoldable pub expire_inactive : Timeval → Bool → Server D → Server D × Bool
  unfolding is_inactive hang_up_slot end_session
  expire_inactive now added s =
      if is_inactive now s
      then end_session fp added (hang_up_slot s.non_persistent_fd s)
      else (s, true)

  -- Lines 289-572.
  unfoldable pub serve_round : Round → Server D → Server D
  serve_round r s =
      let (t, go_on) = expire_inactive r.current_time r.added s in
      if go_on then handle_events (events_of r.wait) t else t

  -- Lines 275-572.
  unfoldable pub run_round : Round → Server D → Server D
  run_round r s =
      if no_events r.wait
      then (if fp.le (of_ℕ fp no_event_timeout) (time_diff fp s.last_event_time r.current_time)
          then record s { running = false }
          else serve_round r s)
      else serve_round r (record s { last_event_time = r.event_time })

  -- `handle_signal` sets `running` to 0.
  unfoldable pub step : Input → Server D → Server D
  step signal s = record s { running = false }
  step (round r) s = run_round r s

  -- `while (running) …`, as far as the inputs go.
  unfoldable pub run : List Input → Server D → Server D
  unfolding step run_round serve_round expire_inactive handle_events
  run [] s = s
  run (i ∷ is) s = run is (if s.running then step i s else s)
