-- ===== src/StatsServer/Runs.antt =====
-- server_epx3.c: what the handlers keep, the whole loop keeps, however many events it handles.
use rnd.Common.{ℕ, Bool, false, none, List}
use rnd.Common.Float.{FloatOps}
use rnd.Common.Time.{Timeval}
use rnd.StatsServer.State.{Server}
use rnd.StatsServer.Session.{end_session}
use rnd.StatsServer.Accept.{Accept, accept_client}
use rnd.StatsServer.Receive.{receive, hang_up}
use rnd.StatsServer.Loop.{Event, Input, signal, round, handle_event, expire_inactive, step, run}
use rnd.StatsServer.Graded.{
  IsGraded, handle_event_graded, expire_inactive_graded, run_round_graded, run_graded,
}

-- What an invariant has to keep.
pub record IsKept {ℓ} {D : Type 0} (fp : FloatOps D) (P : Server D → Type ℓ) : Type ℓ where
  pub on_accept : (a : Accept) (s : Server D) → P s → P (accept_client a s)
  pub on_receive :
      (fd : ℕ) (bs : List ℕ) (t u : Timeval) (s : Server D) → P s → P (receive fd bs t u s)
  pub on_hang_up : (fd : ℕ) (s : Server D) → P s → P (hang_up fd s)
  pub on_leave :
      (t : Timeval) (s : Server D)
      → P s
      → P (record s { conn1_end = t; persistent_fd = none; conn1_started = false })
  pub on_end : (b : Bool) (s : Server D) → P s → P (end_session fp b s).0
  pub on_stop : (s : Server D) → P s → P (record s { running = false })
  pub on_stamp : (t : Timeval) (s : Server D) → P s → P (record s { last_event_time = t })

module _ {ℓ} {D : Type 0} (fp : FloatOps D) (P : Server D → Type ℓ) (k : IsKept fp P) where
  ungraded : IsGraded fp (λ n. P)
  ungraded = record {
    on_more = λ n s h. h;
    on_accept = λ n. k.on_accept;
    on_receive = λ n. k.on_receive;
    on_hang_up = λ n. k.on_hang_up;
    on_leave = λ n. k.on_leave;
    on_end = λ n. k.on_end;
    on_stop = λ n. k.on_stop;
    on_stamp = λ n. k.on_stamp;
  }

  pub handle_event_inv : (e : Event) (s : Server D) → P s → P (handle_event fp e s)
  handle_event_inv = handle_event_graded fp (λ n. P) ungraded 0

  pub expire_inactive_inv :
      (now : Timeval) (b : Bool) (s : Server D) → P s → P (expire_inactive fp now b s).0
  expire_inactive_inv = expire_inactive_graded fp (λ n. P) ungraded 0

  pub step_inv : (i : Input) (s : Server D) → P s → P (step fp i s)
  unfolding step
  step_inv signal s h = k.on_stop s h
  step_inv (round r) s h = run_round_graded fp (λ n. P) ungraded 0 r s h

  pub run_inv : (is : List Input) (s : Server D) → P s → P (run fp is s)
  run_inv = run_graded fp (λ n. P) ungraded 0
