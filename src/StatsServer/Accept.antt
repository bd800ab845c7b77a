-- ===== src/StatsServer/Accept.antt =====
-- server_epx3.c, lines 361-405: a new connection takes the persistent slot, the non-persistent slot
-- or a place in the queue, or is turned away.
use rnd.Common.{ℕ, ◌+◌, Bool, Option, none, some, ◌∷◌, ltb, if◌then◌else◌, set}
use rnd.Common.Int.{pos, ◌+ℤ◌, ◌-ℤ◌}
use rnd.Common.Time.{Timeval}
use rnd.StatsServer.State.{Connection, Server, accepted, epoll_add, closed, max_non_persistent}

-- What `accept`, `gettimeofday` and `epoll_ctl` return.
pub data Accept : Type 0 where
  failed : Accept
  client : ℕ → Timeval → Bool → Accept

module _ {D : Type 0} where
  -- `q[queue_count] = …; queue_count++;`
  unfoldable pub enqueue : Connection → Server D → Server D
  enqueue c s = record s {
    non_persistent_queue = set s.non_persistent_queue s.queue_count c;
    queue_count = s.queue_count + 1;
  }

  -- `close(fd); active_clients--;`
  unfoldable pub close_client : ℕ → Server D → Server D
  close_client fd s = record s {
    active_clients = s.active_clients -ℤ pos 1;
    calls = closed fd ∷ s.calls;
  }

  -- `epoll_ctl(… ADD …)`, and the close where it fails.
  unfoldable pub register : ℕ → Bool → Server D → Server D
  unfolding close_client
  register fd added s =
      let t = record s { calls = epoll_add fd ∷ s.calls } in if added then t else close_client fd t

  -- Lines 375-405.
  unfoldable pub place : ℕ → Timeval → Bool → Option ℕ → Option ℕ → Server D → Server D
  unfolding register enqueue close_client
  place fd time added none np s = register fd added (record s { persistent_fd = some fd })
  place fd time added (some p) none s =
      register fd added
        (record s { non_persistent_fd = some fd; non_persistent_connect_time = time })
  place fd time added (some p) (some np) s =
      if ltb s.queue_count max_non_persistent
      then enqueue (record { fd = fd; connect_time = time }) s
      else (let t = close_client fd s in record t { rejected = t.rejected + 1 })

  unfoldable pub accept_client : Accept → Server D → Server D
  unfolding place
  accept_client failed s = s
  accept_client (client fd time added) s =
      place fd time added s.persistent_fd s.non_persistent_fd
        (record s { active_clients = s.active_clients +ℤ pos 1; calls = accepted fd ∷ s.calls })
