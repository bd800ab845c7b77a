-- ===== src/EventLoop/Start.antt =====
-- exp1/server_final.c, lines 106-140: the start of `main`, until the loop begins. The same calls with the
-- same tests are in exp1/server7.c, lines 88-118, exp1/server8 copy.c, lines 108-142, and exp1/server6.c,
-- lines 68-100.
use rnd.Common.{
  ℕ, Bool, true, false, Option, none, some, if◌then◌else◌, not, ◌≡◌, refl, ◌⊎◌, inl, inr, ◌&&◌,
  Bool-cases, arith,
}
use rnd.Common.Setup.{Calls}

-- The server's socket; the epoll instance, if `epoll_create1` has made one; and whether `epoll_ctl` has
-- registered the socket with it. Neither result is tested.
pub record Listener : Type 0 where
  pub server_fd : ℕ
  pub epoll_fd : Option ℕ
  pub is_registered : Bool

-- Lines 136-140: `epoll_ctl` fails on a descriptor that `epoll_create1` has not made.
unfoldable pub watch : ℕ → Calls → Listener
watch server_fd c = record {
  server_fd = server_fd;
  epoll_fd = c.epoll_create;
  is_registered = elim c.epoll_create [ none ↦ false | some epoll_fd ↦ c.registers ];
}

-- Lines 124-140.
unfoldable pub listen_on : ℕ → Calls → Option Listener
listen_on server_fd c =
    if not c.binds then none else if not c.listens then none else some (watch server_fd c)

-- Lines 106-140: nothing where `main` returns 1.
unfoldable pub start_server : Calls → Option Listener
start_server c = elim c.socket [ none ↦ none | some server_fd ↦ listen_on server_fd c ]

-- The calls whose results `main` tests succeed.
abbrev pub starts : Calls → Bool
starts c = elim c.socket [ none ↦ false | some server_fd ↦ c.binds && c.listens ]

pub start-cases :
    (c : Calls)
    → ((starts c ≡ false) × (start_server c ≡ none))
      ⊎ ((starts c ≡ true) × ((l : Listener) × (start_server c ≡ some l)))
unfolding start_server listen_on
start-cases c = opened c.socket refl
  where
    opened :
        (socket : Option ℕ)
        → c.socket ≡ socket
        → ((starts c ≡ false) × (start_server c ≡ none))
          ⊎ ((starts c ≡ true) × ((l : Listener) × (start_server c ≡ some l)))
    opened none h = inl (rw h (refl, refl))
    opened (some fd) h = elim (Bool-cases (c.binds && c.listens)) [
      | inl up ↦ inr (ground (arith, h), (watch fd c, ground (arith, h)))
      | inr down ↦ inl (ground (arith, h), ground (arith, h))
    ]
