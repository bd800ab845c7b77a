-- ===== src/StatsServer/Setup.antt =====
-- server_epx3.c, lines 189-260: the start of `main`, until the server listens.
use rnd.Common.{ℕ, Bool, none, some, [], ◌∷◌, ◌≡◌, arith, if◌then◌else◌, not}
use rnd.Common.Setup.{Calls, Setup, not_started}

-- Lines 252-260.
unfoldable pub watch : ℕ → ℕ → Bool → Setup
watch server_fd epoll_fd registers =
    if registers
    then record {
      opened = server_fd ∷ epoll_fd ∷ [];
      closed = [];
      held = 1;
      ready = some (server_fd, epoll_fd);
    }
    else record {
      opened = server_fd ∷ epoll_fd ∷ [];
      closed = server_fd ∷ epoll_fd ∷ [];
      held = 0;
      ready = none;
    }

-- `close(server_fd); free(stats_array); exit(EXIT_FAILURE);`
abbrev pub give_up : ℕ → Setup
give_up server_fd = record {
  opened = server_fd ∷ [];
  closed = server_fd ∷ [];
  held = 0;
  ready = none;
}

-- Lines 230-260.
unfoldable pub listen_on : ℕ → Calls → Setup
unfolding watch
listen_on server_fd c =
    if not c.binds
    then give_up server_fd
    else if not c.listens
    then give_up server_fd
    else elim c.epoll_create [
      | none ↦ give_up server_fd
      | some epoll_fd ↦ watch server_fd epoll_fd c.registers
    ]

-- Lines 190-260: with two arguments or another number, and memory for the array or none.
unfoldable pub set_up : Bool → Bool → Calls → Setup
unfolding listen_on
set_up two_arguments memory c =
    if not two_arguments
    then not_started
    else if not memory
    then not_started
    else elim c.socket [ none ↦ not_started | some server_fd ↦ listen_on server_fd c ]

-- If the start of the program fails at any call, the descriptors that have been opened are
-- closed and the array is freed.
pub setup_releases :
    (two_arguments memory : Bool) (c : Calls)
    → (set_up two_arguments memory c).ready ≡ none
    → ((set_up two_arguments memory c).closed ≡ (set_up two_arguments memory c).opened)
      × ((set_up two_arguments memory c).held ≡ 0)
unfolding set_up
setup_releases two_arguments memory c h = (ground arith, ground arith)
