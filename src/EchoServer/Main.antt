-- ===== src/EchoServer/Main.antt =====
-- exp1/server.c, lines 36-126: `main` from its start to where it exits.
use rnd.Common.{
  ℕ, Bool, true, false, none, some, List, [], ◌∷◌, ◌++◌, ◌≡◌, refl, sym, ap, ◌∙◌, take, not, arith,
  if◌then◌else◌, ◌&&◌, Option,
}
use rnd.Common.Setup.{Calls}
use rnd.EchoServer.State.{Server, init, Event, handle_event, run}
use rnd.EchoServer.Buffer.{all_text, capacity, buffer_holds_prefix}

-- What `epoll_wait` returns: an error, or the events, with what the thread that prints does meanwhile.
pub data Wait : Type 0 where
  wait_failed : Wait
  events : List Event → Wait

pub record Process : Type 0 where
  pub has_exited : Bool
  pub server : Server

-- Lines 83-123.
unfoldable pub serve : List Wait → Server → Process
serve [] s = record { has_exited = false; server = s }
serve (wait_failed ∷ ws) s = record { has_exited = true; server = s }
serve (events es ∷ ws) s = serve ws (run es s)

-- Lines 55-72, where `exit` is called if a call fails.
unfoldable pub listen_on : Calls → Bool
listen_on c =
    if not c.binds
    then false
    else if not c.listens
    then false
    else elim c.epoll_create [ none ↦ false | some epoll_fd ↦ true ]

-- Lines 41-123.
unfoldable pub main : Calls → List Wait → Process
main c ws = elim c.socket [
  | none ↦ record { has_exited = true; server = init }
  | some server_fd ↦
      if listen_on c then serve ws init else record { has_exited = true; server = init }
]

-- The events that the program sees before `epoll_wait` fails.
abbrev pub seen : List Wait → List Event
seen [] = []
seen (wait_failed ∷ ws) = []
seen (events es ∷ ws) = es ++ seen ws

abbrev pub fails : List Wait → Bool
fails [] = false
fails (wait_failed ∷ ws) = true
fails (events es ∷ ws) = fails ws

run-append : (xs ys : List Event) (s : Server) → run (xs ++ ys) s ≡ run ys (run xs s)
unfolding run
run-append [] ys s = refl
run-append (x ∷ xs) ys s = run-append xs ys (handle_event x s)

serve-run :
    (ws : List Wait) (s : Server)
    → serve ws s ≡ record { has_exited = fails ws; server = run (seen ws) s }
unfolding serve run
serve-run [] s = refl
serve-run (wait_failed ∷ ws) s = refl
serve-run (events es ∷ ws) s =
    serve-run ws (run es s)
    ∙ ap (λ (t : Server). record { has_exited = fails ws; server = t })
        (sym (run-append es (seen ws) s))

abbrev is_made : Option ℕ → Bool
is_made none = false
is_made (some fd) = true

abbrev pub starts : Calls → Bool
starts c = is_made c.socket && (c.binds && (c.listens && is_made c.epoll_create))

main-seen :
    (c : Calls) (ws : List Wait)
    → main c ws ≡ record {
      has_exited = if starts c then fails ws else true;
      server = run (if starts c then seen ws else []) init;
    }
unfolding main listen_on run
main-seen c ws = ground (arith, serve-run ws init)

-- main has exited exactly if socket, bind, listen or epoll_create1 has failed or epoll_wait
-- fails later, and the buffer holds the first 2047 characters of the text, each piece up to its
-- first NUL, that has come before that failure, none if main has not started.
pub main_holds_prefix :
    (c : Calls) (ws : List Wait)
    → ((main c ws).has_exited ≡ (if starts c then fails ws else true))
      × ((main c ws).server.common_buffer
          ≡ take capacity (all_text (if starts c then seen ws else [])))
main_holds_prefix c ws =
    let h = main-seen c ws in
    (
      ap (λ (p : Process). p.has_exited) h,
      ap (λ (p : Process). p.server.common_buffer) h
          ∙ (buffer_holds_prefix (if starts c then seen ws else [])).0,
    )
