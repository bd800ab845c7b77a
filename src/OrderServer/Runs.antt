-- ===== src/OrderServer/Runs.antt =====
-- serverexp2.c: what the handlers keep, the loop keeps.
use rnd.Common.{ℕ, false, List, [], ◌∷◌, if◌then◌else◌, if_rule}
use rnd.Common.Int.{ℤ}
use rnd.Common.Time.{Timeval}
use rnd.OrderServer.State.{Server}
use rnd.OrderServer.Loop.{
  Accept, Event, incoming, readable, Input, signal, events, accept_client, read_client,
  handle_event, handle_events, step, run,
}

pub record IsKept {ℓ} (P : Server → Type ℓ) : Type ℓ where
  pub on_accept : (a : Accept) (s : Server) → P s → P (accept_client a s)
  pub on_read : (fd : ℕ) (r : ℤ) (t u : Timeval) (s : Server) → P s → P (read_client fd r t u s)
  pub on_stop : (s : Server) → P s → P (record s { running = false })

module _ {ℓ} (P : Server → Type ℓ) (k : IsKept P) where
  handle_event_inv : (e : Event) (s : Server) → P s → P (handle_event e s)
  unfolding handle_event
  handle_event_inv (incoming a) s h = if_rule P s.exited h (k.on_accept a s h)
  handle_event_inv (readable fd r t u) s h = if_rule P s.exited h (k.on_read fd r t u s h)

  handle_events_inv : (es : List Event) (s : Server) → P s → P (handle_events es s)
  unfolding handle_events
  handle_events_inv [] s h = h
  handle_events_inv (e ∷ es) s h = handle_events_inv es (handle_event e s) (handle_event_inv e s h)

  step_inv : (i : Input) (s : Server) → P s → P (step i s)
  unfolding step
  step_inv signal s h = k.on_stop s h
  step_inv (events es) s h = handle_events_inv es s h

  pub run_inv : (is : List Input) (s : Server) → P s → P (run is s)
  unfolding run
  run_inv [] s h = h
  run_inv (i ∷ is) s h =
      run_inv is (if s.running then step i s else s) (if_rule P s.running (step_inv i s h) h)
