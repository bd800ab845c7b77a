-- ===== src/OrderServer/Setup.antt =====
-- serverexp2.c, lines 211-278: the start of `main`, until the server listens.
use rnd.Common.{ℕ, Bool, none, some, [], ◌∷◌, ◌≡◌, arith, if◌then◌else◌, not}
use rnd.Common.Setup.{Calls, Setup, not_started}

-- Lines 268-278.
unfoldable pub watch : ℕ → ℕ → Bool → Setup
watch server_fd epoll_fd registers =
    let opened = server_fd ∷ epoll_fd ∷ [] in
    if registers
    then record { opened = opened; closed = []; held = 0; ready = some (server_fd, epoll_fd) }
    else record { opened = opened; closed = opened; held = 0; ready = none }

-- `close(server_fd); exit(EXIT_FAILURE);`
abbrev pub give_up : ℕ → Setup
give_up server_fd = record {
  opened = server_fd ∷ [];
  closed = server_fd ∷ [];
  held = 0;
  ready = none;
}

-- Lines 243-278.
unfoldable pub listen_on : ℕ → Calls → Setup
unfolding watch
listen_on server_fd c =
    if not c.binds
    then give_up server_fd
    else if not c.listens
    then give_up server_fd
    else elim c.epoll_create [
      | none ↦ give_up server_fd
      | some epoll_fd ↦ watch server_fd epoll_fd c.registers
    ]

-- Lines 211-278.
unfoldable pub set_up_server : Calls → Setup
unfolding listen_on
set_up_server c = elim c.socket [ none ↦ not_started | some server_fd ↦ listen_on server_fd c ]

-- If the start of the program fails at any call, the descriptors that have been opened are
-- closed.
pub setup-closed :
    (c : Calls)
    → (set_up_server c).ready ≡ none
    → (set_up_server c).closed ≡ (set_up_server c).opened
unfolding set_up_server
setup-closed c h = ground arith
