-- ===== src/StatsServer/Main.antt =====
-- server_epx3.c, lines 189-592: `main` from its start to its return.
use rnd.Common.{
  ℕ, ◌-◌, Bool, Option, none, some, List, [], ◌∷◌, ◌≡◌, ◌==◌, refl, arith, if◌then◌else◌,
  Bool-cases, inl, inr,
}
use rnd.Common.Setup.{Calls, Setup}
use rnd.Common.Time.{Timeval}
use rnd.Common.Float.{FloatOps}
use rnd.StatsServer.State.{Connection, ConnectionStats, Server, init}
use rnd.StatsServer.Loop.{Input, run}
use rnd.StatsServer.Setup.{set_up, listen_on, watch, setup_releases}
use rnd.StatsServer.Shutdown.{shut_down_server}
use rnd.StatsServer.Report.{Line, write_stats_to_file}

-- The server's own descriptors and its array; the status, if `main` has ended; and the file, if it has
-- been written.
pub record Process (D : Type 0) : Type 0 where
  pub setup : Setup
  pub status : Option ℕ
  pub file : Option (List (Line D))

module _ {D : Type 0} (fp : FloatOps D) (opens : Bool) where
  -- Lines 575-591, once the loop has ended; `opens`: `fopen` succeeds.
  unfoldable pub finish : ℕ → ℕ → Setup → Server D → Process D
  finish server_fd epoll_fd u s =
      if s.running then record { setup = u; status = none; file = none } else record {
        setup = record u { closed = server_fd ∷ epoll_fd ∷ []; held = u.held - 1 };
        status = some 0;
        file = write_stats_to_file fp opens (shut_down_server s);
      }

  -- Lines 189-592. `queue` and `stats` are what the arrays hold at first, `now` the first reading of the
  -- clock.
  unfoldable pub main :
      Bool
      → Bool
      → Calls
      → List Connection
      → List (ConnectionStats D)
      → Timeval
      → List Input
      → Process D
  unfolding finish
  main two_arguments memory c queue stats now is =
      let u = set_up two_arguments memory c in
      elim u.ready [
        | none ↦ record { setup = u; status = some 1; file = none }
        | some (server_fd, epoll_fd) ↦
            finish server_fd epoll_fd u (run fp is (init fp queue stats now))
      ]

set_up-ready :
    (two_arguments memory : Bool) (c : Calls) (server_fd epoll_fd : ℕ)
    → (set_up two_arguments memory c).ready ≡ some (server_fd, epoll_fd)
    → ((set_up two_arguments memory c).opened ≡ server_fd ∷ epoll_fd ∷ [])
      × ((set_up two_arguments memory c).held ≡ 1)
unfolding set_up listen_on watch
set_up-ready two_arguments memory c server_fd epoll_fd h = (ground arith, ground arith)

module _ {D : Type 0} (fp : FloatOps D) (opens : Bool) where
  -- What `main` has done when it has ended with a status, if the loop leaves the server as `last`.
  abbrev pub HasReleased : Server D → ℕ → Process D → Type 0
  HasReleased last status p =
      (p.setup.closed ≡ p.setup.opened)
      × (p.setup.held ≡ 0)
      × (p.file
          ≡ (if status == 0 then write_stats_to_file fp opens (shut_down_server last) else none))

  -- If main has ended with a status, its socket, its epoll instance and its array have been
  -- released as far as they were obtained, and the file is none unless the status is 0; then it
  -- is what write_stats_to_file makes of the state at the end of the loop after the shutdown.
  pub main_releases :
      (two_arguments memory : Bool) (c : Calls) (queue : List Connection)
      (stats : List (ConnectionStats D)) (now : Timeval) (is : List Input) (status : ℕ)
      → (main fp opens two_arguments memory c queue stats now is).status ≡ some status
      → HasReleased
          (run fp is (init fp queue stats now))
          status
          (main fp opens two_arguments memory c queue stats now is)
  unfolding main finish
  main_releases two_arguments memory c queue stats now is status h =
      go (set_up two_arguments memory c).ready refl
    where
      go :
          (ready : Option (ℕ × ℕ))
          → (set_up two_arguments memory c).ready ≡ ready
          → HasReleased
              (run fp is (init fp queue stats now))
              status
              (main fp opens two_arguments memory c queue stats now is)
      go none e =
          let (closed, held) = setup_releases two_arguments memory c e in
          (ground (arith, e, closed), ground (arith, e, held), ground (arith, h, e))
      go (some (server_fd, epoll_fd)) e =
          let (opened, held) = set_up-ready two_arguments memory c server_fd epoll_fd e in
          elim (Bool-cases (run fp is (init fp queue stats now)).running) [
            | inl on ↦ absurd (ground (arith, h, e, on))
            | inr off ↦ (
              ground (arith, e, off, opened),
              ground (arith, e, off, held),
              ground (arith, h, e, off),
            )
          ]
