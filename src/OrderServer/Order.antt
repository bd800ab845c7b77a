-- ===== src/OrderServer/Order.antt =====
-- serverexp2.c: the counts of the two orders.
use rnd.Common.{ℕ, zero, suc, ◌+◌, ◌≤◌, ◌≡◌, true, List, arith, ◌==◌, if_rule}
use rnd.Common.Int.{ℤ, pos, negsuc, ◌-ℤ◌}
use rnd.Common.Time.{Timeval}
use rnd.OrderServer.State.{Pick, first, second, Server, init}
use rnd.OrderServer.Loop.{
  Accept, Input, is_fd, accept_client, count_event, count_order, drop_client, read_client, run,
}
use rnd.OrderServer.Runs.{IsKept, run_inv}

abbrev pub waits_first : Pick → ℕ
waits_first first = 1
waits_first _ = 0

abbrev pub waits_second : Pick → ℕ
waits_second second = 1
waits_second _ = 0

pub record OrderCounts (s : Server) : Type 0 where
  pub pairs : s.both ≡ s.socket1_before_socket2 + s.socket2_before_socket1
  pub of_first : s.both + waits_first s.pick ≤ s.socket1total_count
  pub of_second : s.both + waits_second s.pick ≤ s.socket2total_count

-- The event of `fd` is counted and has made no pair yet.
record Counted (fd : ℕ) (s : Server) : Type 0 where
  counts : OrderCounts s
  room_first :
      is_fd s.first_socket fd ≡ true → s.both + waits_first s.pick + 1 ≤ s.socket1total_count
  room_second :
      is_fd s.second_socket fd ≡ true → s.both + waits_second s.pick + 1 ≤ s.socket2total_count

count_event-Counted :
    (fd : ℕ) (t u : Timeval) (s : Server) → OrderCounts s → Counted fd (count_event fd t u s)
unfolding count_event
count_event-Counted fd t u s h = record {
  counts = ground arith;
  room_first = λ e. ground arith;
  room_second = λ e. ground arith;
}

count_order-OrderCounts :
    (fd n : ℕ) (t u : Timeval) (s : Server) → Counted fd s → OrderCounts (count_order fd n t u s)
unfolding count_order
count_order-OrderCounts fd n t u s h = ground arith

drop_client-OrderCounts : (fd : ℕ) (s : Server) → OrderCounts s → OrderCounts (drop_client fd s)
unfolding drop_client
drop_client-OrderCounts fd s h = ground arith

read_client-OrderCounts :
    (fd : ℕ) (r : ℤ) (t u : Timeval) (s : Server)
    → OrderCounts s
    → OrderCounts (read_client fd r t u s)
unfolding read_client
read_client-OrderCounts fd (pos zero) t u s h = drop_client-OrderCounts fd _ h'
  where
    h' : OrderCounts (record s { active_clients = s.active_clients -ℤ pos 1 })
    h' = ground arith
read_client-OrderCounts fd (pos (suc n)) t u s h =
    let c = count_event-Counted fd t u s h in
    if_rule OrderCounts ((count_event fd t u s).count == 2)
      (count_order-OrderCounts fd (suc n) t u (count_event fd t u s) c)
      (drop_client-OrderCounts fd (count_event fd t u s) c.counts)
read_client-OrderCounts fd (negsuc n) t u s h = drop_client-OrderCounts fd s h

accept_client-OrderCounts :
    (a : Accept) (s : Server) → OrderCounts s → OrderCounts (accept_client a s)
unfolding accept_client
accept_client-OrderCounts a s h = ground arith

OrderCounts-IsKept : IsKept OrderCounts
OrderCounts-IsKept = record {
  on_accept = accept_client-OrderCounts;
  on_read = read_client-OrderCounts;
  on_stop = λ s h. ground arith;
}

-- After any run the pairs are those counted for the one order and for the other, and the events
-- of each client are at least the pairs and the event of it that waits for a partner.
pub run-OrderCounts : (is : List Input) → OrderCounts (run is init)
unfolding init
run-OrderCounts is = run_inv OrderCounts OrderCounts-IsKept is init (omega arith)
