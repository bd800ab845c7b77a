-- ===== src/SequenceServer/Ending.antt =====
-- exp1/server_final.c, lines 93-104 and 145-181: what the signal prints, and when the loop ends; and
-- exp1/server7.c, lines 123-159, the same loop without the signal.
use rnd.Common.{
  ℕ, true, false, List, [], ◌∷◌, ◌++◌, ◌≡◌, refl, sym, ap, ◌∙◌, map, if-true, if-false,
}
use rnd.EventLoop.State.{Program, Server, Event, start_with, handle_events}
use rnd.EventLoop.Arrivals.{handle_events-append}
use rnd.SequenceServer.Tracker.{Tracker, start}
use rnd.SequenceServer.Server.{Input, signal, events, Run, init, handle_signal, step, run}

abbrev pub concat_events : List (List Event) → List Event
concat_events [] = []
concat_events (es ∷ ess) = es ++ concat_events ess

module _ (p : Program ℕ Tracker) where
  -- exp1/server7.c, lines 123-159.
  unfoldable pub run_forever : List (List Event) → Server ℕ Tracker → Server ℕ Tracker
  run_forever [] s = s
  run_forever (es ∷ ess) s = run_forever ess (handle_events p es s)

  run_forever-handle_events :
      (ess : List (List Event)) (s : Server ℕ Tracker)
      → run_forever ess s ≡ handle_events p (concat_events ess) s
  unfolding run_forever handle_events
  run_forever-handle_events [] s = refl
  run_forever-handle_events (es ∷ ess) s =
      run_forever-handle_events ess (handle_events p es s)
      ∙ sym (handle_events-append p es (concat_events ess) s)

  pub run-append : (is js : List Input) (r : Run) → run p (is ++ js) r ≡ run p js (run p is r)
  unfolding run
  run-append [] js r = refl
  run-append (i ∷ is) js r = run-append is js (step p i r)

  pub run_batches :
      (ess : List (List Event)) (r : Run)
      → r.running ≡ true
      → run p (map events ess) r ≡ record r { server = run_forever ess r.server }
  unfolding run step run_forever
  run_batches [] r h = refl
  run_batches (es ∷ ess) r h =
      let next = record r { server = handle_events p es r.server } in
      ap (run p (map events ess)) (if-true r.running next r h) ∙ run_batches ess next h

  stopped : (is : List Input) (r : Run) → r.running ≡ false → (run p is r).server ≡ r.server
  unfolding run step handle_signal
  stopped [] r h = refl
  stopped (signal ∷ is) r h = stopped is (handle_signal r) refl
  stopped (events es ∷ is) r h =
      let next = record r { server = handle_events p es r.server } in
      ap (λ (q : Run). (run p is q).server) (if-false r.running next r h) ∙ stopped is r h

  -- After any batches of events, a signal stops the server in the state that the loop without a
  -- signal has then, whatever follows; and it prints the numbers noted.
  pub signal_prints :
      (ess : List (List Event)) (is : List Input)
      → ((run p (map events ess ++ signal ∷ is) init).server ≡ run_forever ess (start_with start))
        × ((run p (map events ess ++ signal ∷ []) init).printed
            ≡ (run_forever ess (start_with start)).shared.out_of_order ∷ [])
  unfolding run step handle_signal init
  signal_prints ess is =
      let before = run_batches ess init refl in
      (
        ap (λ (r : Run). r.server) (run-append (map events ess) (signal ∷ is) init)
            ∙ stopped is (handle_signal (run p (map events ess) init)) refl
            ∙ ap (λ (r : Run). r.server) before,
        ap (λ (r : Run). r.printed) (run-append (map events ess) (signal ∷ []) init)
            ∙ ap (λ (r : Run). (handle_signal r).printed) before,
      )

  -- What the signal prints depends on the events alone, not on their batches.
  pub printed-concat_events :
      (ess : List (List Event))
      → (run p (map events ess ++ signal ∷ []) init).printed
        ≡ (handle_events p (concat_events ess) (start_with start)).shared.out_of_order ∷ []
  printed-concat_events ess =
      (signal_prints ess []).1
      ∙ ap (λ (s : Server ℕ Tracker). s.shared.out_of_order ∷ [])
          (run_forever-handle_events ess (start_with start))
