-- ===== src/LogServer/Streams.antt =====
-- exp1/server6.c: the log of one connection among the others.
use rnd.Common.{
  ℕ, ◌+◌, ◌<◌, false, Option, none, some, List, [], ◌∷◌, ◌++◌, ◌≡◌, refl, sym, ap, ◌∙◌, ◌==◌,
  if◌then◌else◌, arith, lt→ltb,
}
use mathlib.Core.List.{append_assoc, append-nil}
use rnd.Common.Lines.{complete_lines}
use rnd.EventLoop.State.{
  Recv, failed, ended, received, Server, Event, incoming, readable, start_with, put_back,
  handle_events, handle_event, follow, accept_all, add_connection, allocated,
}
use rnd.EventLoop.Isolation.{only, IsLocal, view_isolated}
use rnd.LogServer.State.{
  Connection, Entry, recv_into, new_connection, handle_received, handle_connection,
}
use rnd.LogServer.Chunks.{
  entries, after, logged, concat, append_data-lines, logged-append, AllFit, Fits, handle-whole,
}
use rnd.LogServer.Server.{log_program, log_of}

-- The lines of the log that name a descriptor.
abbrev pub entries_of : ℕ → List Entry → List Entry
entries_of fd [] = []
entries_of fd (e ∷ es) = let rest = entries_of fd es in if e.conn == fd then e ∷ rest else rest

entries_of-append :
    (fd : ℕ) (xs ys : List Entry) → entries_of fd (xs ++ ys) ≡ entries_of fd xs ++ entries_of fd ys
entries_of-append fd [] ys = refl
entries_of-append fd (x ∷ xs) ys = ground (arith, entries_of-append fd xs ys)

entries_of-entries :
    (fd n : ℕ) (ls : List (List ℕ)) → entries_of fd (entries fd n ls) ≡ entries fd n ls
entries_of-entries fd n [] = refl
entries_of-entries fd n (l ∷ ls) = ground (arith, entries_of-entries fd (n + 1) ls)

entries_of-others :
    (fd conn n : ℕ) (ls : List (List ℕ))
    → (conn == fd) ≡ false
    → entries_of fd (entries conn n ls) ≡ []
entries_of-others fd conn n [] h = refl
entries_of-others fd conn n (l ∷ ls) h = rw h (entries_of-others fd conn (n + 1) ls h)

-- What the handler returns and what it adds to the log.
abbrev result : Recv → Connection → Option Connection
result failed c = none
result ended c = none
result (received bytes) c = some (after c bytes)

abbrev added : Recv → Connection → List Entry
added failed c = []
added ended c = []
added (received bytes) c = logged c bytes

received-added :
    (r : Recv) (c : Connection) (output : List Entry)
    → handle_received r (c, output) ≡ (result r c, output ++ added r c)
unfolding handle_received
received-added failed c output = rw (append-nil output) refl
received-added ended c output = rw (append-nil output) refl
received-added (received bytes) c output = rw (append_data-lines bytes c output) refl

handle-added :
    (r : Recv) (c : Connection) (output : List Entry)
    → handle_connection r (c, output)
      ≡ (result (recv_into c r) c, output ++ added (recv_into c r) c)
unfolding handle_connection
handle-added r c output = received-added (recv_into c r) c output

result-fd : (r : Recv) (c d : Connection) → result r c ≡ some d → d.fd ≡ c.fd
result-fd failed c d h = ground arith
result-fd ended c d h = ground arith
result-fd (received bytes) c d h = ground arith

added_others :
    (r : Recv) (c : Connection) (fd : ℕ) → (c.fd == fd) ≡ false → entries_of fd (added r c) ≡ []
added_others failed c fd h = refl
added_others ended c fd h = refl
added_others (received bytes) c fd h =
    entries_of-others fd c.fd c.packet_count (complete_lines [] (c.buffer ++ bytes)) h

entries_of_added :
    (r : Recv) (c : Connection) (output : List Entry) (fd : ℕ)
    → entries_of fd (handle_connection r (c, output)).1
      ≡ entries_of fd output ++ entries_of fd (added (recv_into c r) c)
entries_of_added r c output fd =
    rw (handle-added r c output) (entries_of-append fd output (added (recv_into c r) c))

log_program-IsLocal : IsLocal log_program (λ c. c.fd) entries_of
unfolding log_program new_connection
log_program-IsLocal = record {
  owner_new = λ fd. refl;
  owner_kept = λ r c d x h.
      result-fd (recv_into c r) c d
        (ap (λ (q : Option Connection × List Entry). q.0) (sym (handle-added r c x)) ∙ h);
  others = λ r c x fd h.
      entries_of_added r c x fd
      ∙ ap (λ es. entries_of fd x ++ es) (added_others (recv_into c r) c fd h)
      ∙ append-nil (entries_of fd x);
  same_connection = λ r c x y. rw (handle-added r c x, handle-added r c y) refl;
  same_view = λ r c x y fd h.
      entries_of_added r c x fd
      ∙ ap (λ es. es ++ entries_of fd (added (recv_into c r) c)) h
      ∙ sym (entries_of_added r c y fd);
}

-- The data of one connection, piece by piece.
abbrev pub deliveries : ℕ → List (List ℕ) → List Event
deliveries fd [] = []
deliveries fd (x ∷ xs) = readable fd (received x) ∷ deliveries fd xs

deliver-log :
    (fd : ℕ) (x : List ℕ) (c : Connection) (s : Server Connection (List Entry))
    → s.connections fd ≡ some (allocated c)
    → Fits c x
    → ((handle_event log_program (readable fd (received x)) s).shared ≡ s.shared ++ logged c x)
      × ((handle_event log_program (readable fd (received x)) s).connections fd
          ≡ some (allocated (after c x)))
unfolding handle_event follow put_back log_program
deliver-log fd x c s at fit = rw (at, handle-whole x c s.shared fit) (refl, ground arith)

deliveries-log :
    (fd : ℕ) (x : List ℕ) (pieces : List (List ℕ)) (c : Connection)
    (s : Server Connection (List Entry))
    → s.connections fd ≡ some (allocated c)
    → AllFit c (x ∷ pieces)
    → (handle_events log_program (deliveries fd (x ∷ pieces)) s).shared
      ≡ s.shared ++ logged c (x ++ concat pieces)
unfolding handle_events
deliveries-log fd x [] c s at fit =
    (deliver-log fd x c s at fit.0).0
    ∙ ap (λ bytes. s.shared ++ logged c bytes) (sym (append-nil x))
deliveries-log fd x (y ∷ ys) c s at fit =
    let (log, at') = deliver-log fd x c s at fit.0 in
    deliveries-log fd y ys (after c x) (handle_event log_program (readable fd (received x)) s) at'
      fit.1
    ∙ ap (λ out. out ++ logged (after c x) (y ++ concat ys)) log
    ∙ append_assoc s.shared (logged c x) (logged (after c x) (y ++ concat ys))
    ∙ ap (λ es. s.shared ++ es) (sym (logged-append c x (y ++ concat ys)))

abbrev just_accepted : ℕ → Server Connection (List Entry)
just_accepted fd = handle_event log_program (incoming (fd ∷ [])) (start_with [])

accepted-at :
    (fd : ℕ)
    → fd < 1000
    → ((just_accepted fd).shared ≡ [])
      × ((just_accepted fd).connections fd ≡ some (allocated (new_connection fd)))
unfolding handle_event accept_all add_connection start_with log_program
accepted-at fd h = rw (lt→ltb fd 1000 h) (refl, ground arith)

alone-log :
    (fd : ℕ) (x : List ℕ) (pieces : List (List ℕ))
    → fd < 1000
    → AllFit (new_connection fd) (x ∷ pieces)
    → entries_of fd
        (handle_events log_program
          (incoming (fd ∷ []) ∷ deliveries fd (x ∷ pieces))
          (start_with [])).shared
      ≡ entries fd 0 (complete_lines [] (x ++ concat pieces))
unfolding handle_events new_connection
alone-log fd x pieces h fit =
    let (log, at) = accepted-at fd h in
    ap (entries_of fd) (
      deliveries-log fd x pieces (new_connection fd) (just_accepted fd) at fit
      ∙ ap (λ out. out ++ logged (new_connection fd) (x ++ concat pieces)) log)
    ∙ entries_of-entries fd 0 (complete_lines [] (x ++ concat pieces))

-- If, among the events of a run, those of one descriptor below MAX_CONNECTIONS are its
-- acceptance and then data in any pieces, each with a byte at least and within the room that the
-- buffer has when it comes, the log's lines for it are the lines of the whole data, each up to
-- its first NUL, numbered from 1, whatever the other connections do.
pub log_of_connection :
    (fd : ℕ) (x : List ℕ) (pieces : List (List ℕ)) (es : List Event)
    → fd < 1000
    → AllFit (new_connection fd) (x ∷ pieces)
    → only fd es ≡ incoming (fd ∷ []) ∷ deliveries fd (x ∷ pieces)
    → entries_of fd (log_of es) ≡ entries fd 0 (complete_lines [] (x ++ concat pieces))
unfolding log_of
log_of_connection fd x pieces es h fit own =
    view_isolated log_program (λ c. c.fd) entries_of log_program-IsLocal fd es []
    ∙ ap (λ run. entries_of fd (handle_events log_program run (start_with [])).shared) own
    ∙ alone-log fd x pieces h fit
