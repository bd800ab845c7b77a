-- ===== src/EchoServer/Tests.antt =====
-- exp1/server.c: a run on concrete events, and the theorem at one.
use rnd.Common.{true, false, some, if◌then◌else◌, List, [], ◌∷◌, ◌≡◌, refl, take}
use rnd.Common.Text.{c_string}
use rnd.EchoServer.State.{
  init, strncat, Event, accepted, disconnected, received, wakes, append, handle_event, run,
}
use rnd.EchoServer.Buffer.{all_text, capacity}
use rnd.EchoServer.Main.{Wait, wait_failed, events, main, seen, fails, starts, main_holds_prefix}
use rnd.Common.Setup.{Calls}

-- The second piece has a NUL in it.
abbrev two_pieces : List Event
two_pieces =
    accepted 7
    ∷ received 7 (b'a' ∷ b'b' ∷ [])
    ∷ wakes
    ∷ received 7 (b'c' ∷ 0 ∷ b'd' ∷ [])
    ∷ wakes
    ∷ disconnected 7
    ∷ []

prints_both : (run two_pieces init).printed ≡ (b'a' ∷ b'b' ∷ []) ∷ (b'a' ∷ b'b' ∷ b'c' ∷ []) ∷ []
unfolding run handle_event append strncat init c_string
prints_both = refl

abbrev calls : Calls
calls = record {
  socket = some 3;
  binds = true;
  listens = true;
  epoll_create = some 4;
  registers = false;
}

abbrev two_waits : List Wait
two_waits = events two_pieces ∷ wait_failed ∷ events two_pieces ∷ []

main_holds_prefix_example :
    ((main calls two_waits).has_exited ≡ (if starts calls then fails two_waits else true))
    × ((main calls two_waits).server.common_buffer
        ≡ take capacity (all_text (if starts calls then seen two_waits else [])))
main_holds_prefix_example = main_holds_prefix calls two_waits
