-- ===== src/SequenceServer/Main.antt =====
-- exp1/server_final.c, lines 106-185 (in exp1/server8 copy.c, lines 108-187): `main` from its start to what
-- it returns.
use rnd.Common.{
  ℕ, Bool, true, false, Option, none, some, List, [], ◌∷◌, ◌++◌, ◌≡◌, refl, ap, ◌∙◌, map,
  if◌then◌else◌, if-true, not, arith, if-false, inl, inr,
}
use rnd.Common.Setup.{Calls}
use rnd.EventLoop.State.{Program, Server, Event, start_with, handle_events}
use rnd.EventLoop.Start.{start_server, starts, start-cases}
use rnd.SequenceServer.Tracker.{Tracker, start}
use rnd.SequenceServer.Server.{
  sequence_program, Input, signal, events, Run, init, handle_signal, step, run,
}
use rnd.SequenceServer.Ending.{concat_events, run_forever, run_batches, printed-concat_events}

-- The status returned, if `main` has returned; the loop; and the descriptors that `main` has closed.
pub record Process : Type 0 where
  pub status : Option ℕ
  pub loop : Run
  pub closed : List ℕ

-- After the loop, if it has ended: `close(server_fd); return 0;`.
unfoldable pub finish : ℕ → Run → Process
finish server_fd r =
    if r.running
    then record { status = none; loop = r; closed = [] }
    else record { status = some 0; loop = r; closed = server_fd ∷ [] }

unfoldable pub main : Program ℕ Tracker → Calls → List Input → Process
unfolding finish
main p c is = elim (start_server c) [
  | none ↦ record { status = some 1; loop = init; closed = [] }
  | some l ↦ finish l.server_fd (run p is init)
]

abbrev pub has_signal : List Input → Bool
has_signal [] = false
has_signal (signal ∷ is) = true
has_signal (events es ∷ is) = has_signal is

has_signal-last : (ess : List (List Event)) → has_signal (map events ess ++ signal ∷ []) ≡ true
has_signal-last [] = refl
has_signal-last (es ∷ ess) = has_signal-last ess

module _ (p : Program ℕ Tracker) where
  ended-running : (is : List Input) (r : Run) → r.running ≡ false → (run p is r).running ≡ false
  unfolding run step handle_signal
  ended-running [] r h = h
  ended-running (signal ∷ is) r h = ended-running is (handle_signal r) refl
  ended-running (events es ∷ is) r h =
      let next = record r { server = handle_events p es r.server } in
      ap (λ (q : Run). (run p is q).running) (if-false r.running next r h) ∙ ended-running is r h

  run-running :
      (is : List Input) (r : Run) → r.running ≡ true → (run p is r).running ≡ not (has_signal is)
  unfolding run step handle_signal
  run-running [] r h = h
  run-running (signal ∷ is) r h = ended-running is (handle_signal r) refl
  run-running (events es ∷ is) r h =
      let next = record r { server = handle_events p es r.server } in
      ap (λ (q : Run). (run p is q).running) (if-true r.running next r h) ∙ run-running is next h

  -- Whatever the calls return and whatever arrives: main returns 1 if socket, bind or listen
  -- fails; otherwise it returns 0 if a signal comes, and runs on if none does.
  pub main_returns :
      (c : Calls) (is : List Input)
      → (main p c is).status
        ≡ (if starts c then (if has_signal is then some 0 else none) else some 1)
  unfolding main finish init
  main_returns c is = elim (start-cases c) [
    | inl (down, none_made) ↦ ground (arith, none_made, down)
    | inr (up, (l, made)) ↦ ground (arith, up, made, run-running is init refl)
  ]

  -- If socket, bind and listen succeed, then after any batches of events and a signal main
  -- returns 0, and the handler has printed the numbers that the events alone leave noted.
  pub main_prints :
      (c : Calls) (ess : List (List Event))
      → starts c ≡ true
      → ((main p c (map events ess ++ signal ∷ [])).status ≡ some 0)
        × ((main p c (map events ess ++ signal ∷ [])).loop.printed
            ≡ (handle_events p (concat_events ess) (start_with start)).shared.out_of_order ∷ [])
  unfolding main finish
  main_prints c ess up = elim (start-cases c) [
    | inl (down, none_made) ↦ absurd (ground (arith, up, down))
    | inr (up, (l, made)) ↦ (
      ground (arith, up, main_returns c (map events ess ++ signal ∷ []), has_signal-last ess),
      ground (arith, made, printed-concat_events p ess),
    )
  ]

-- exp1/server7.c, lines 88-159: nothing where `main` returns 1; it does not return otherwise.
unfoldable pub main_forever : Calls → List (List Event) → Option (Server ℕ Tracker)
main_forever c ess = elim (start_server c) [
  | none ↦ none
  | some l ↦ some (run_forever sequence_program ess (start_with start))
]

-- The main of exp1/server7.c has the state that the other one has while no signal comes.
pub main_forever-main :
    (c : Calls) (ess : List (List Event))
    → main_forever c ess
      ≡ (if starts c then some (main sequence_program c (map events ess)).loop.server else none)
unfolding main_forever main finish init
main_forever-main c ess = elim (start-cases c) [
  | inl (down, none_made) ↦ ground (arith, none_made, down)
  | inr (up, (l, made)) ↦
      ground
        (arith, up, made, ap (λ (r : Run). r.server) (run_batches sequence_program ess init refl))
]
