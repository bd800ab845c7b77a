-- ===== src/OrderServer/Main.antt =====
-- serverexp2.c, lines 195-492: `main` from its start to its return.
use rnd.Common.{ℕ, false, Option, none, some, List, [], ◌∷◌, ◌≡◌, refl, arith, if◌then◌else◌}
use rnd.Common.Setup.{Calls, Setup}
use rnd.Common.Float.{FloatOps}
use rnd.OrderServer.State.{Server, init}
use rnd.OrderServer.Loop.{Input, run}
use rnd.OrderServer.Setup.{set_up_server, listen_on, watch, setup-closed}
use rnd.OrderServer.Report.{Line, print_order_ratio}

-- The server's own descriptors; the status, if `main` has ended; and what it has printed at its end.
pub record Process (D : Type 0) : Type 0 where
  pub setup : Setup
  pub status : Option ℕ
  pub printed : List (Line D)

set_up-ready :
    (c : Calls) (server_fd epoll_fd : ℕ)
    → (set_up_server c).ready ≡ some (server_fd, epoll_fd)
    → (set_up_server c).opened ≡ server_fd ∷ epoll_fd ∷ []
unfolding set_up_server listen_on watch
set_up-ready c server_fd epoll_fd h = ground arith

module _ {D : Type 0} (fp : FloatOps D) where
  -- Lines 483-491; `exit`, which line 70 or 75 calls, ends the program in the loop.
  unfoldable pub finish : ℕ → ℕ → Setup → Server → Process D
  finish server_fd epoll_fd u s =
      if s.exited
      then record { setup = u; status = some 1; printed = [] }
      else if s.running
      then record { setup = u; status = none; printed = [] }
      else record {
        setup = record u { closed = server_fd ∷ epoll_fd ∷ [] };
        status = some 0;
        printed = print_order_ratio fp s;
      }

  unfoldable pub main : Calls → List Input → Process D
  unfolding finish
  main c is =
      let u = set_up_server c in
      elim u.ready [
        | none ↦ record { setup = u; status = some 1; printed = [] }
        | some (server_fd, epoll_fd) ↦ finish server_fd epoll_fd u (run is init)
      ]

  -- If the loop has ended and no call of exit has ended it, then whatever the start's calls
  -- return, main closes each descriptor that its start has opened.
  pub main_closes :
      (c : Calls) (is : List Input)
      → (run is init).exited ≡ false
      → (run is init).running ≡ false
      → (main c is).setup.closed ≡ (main c is).setup.opened
  unfolding main finish
  main_closes c is stays off = go (set_up_server c).ready refl
    where
      go :
          (ready : Option (ℕ × ℕ))
          → (set_up_server c).ready ≡ ready
          → (main c is).setup.closed ≡ (main c is).setup.opened
      go none e = ground (arith, e, setup-closed c e)
      go (some (server_fd, epoll_fd)) e =
          ground (arith, e, stays, off, set_up-ready c server_fd epoll_fd e)
