-- ===== src/TimedClient/Turns.antt =====
-- clientexp2_time.c: whatever the scheduler and the clock do, the connections alternate.
use rnd.Common.{ℕ, zero, suc, ◌+◌, ◌/◌, ◌%◌, Bool, List, [], ◌∷◌, ◌++◌, ◌≡◌, refl, sym, arith}
use rnd.TimedClient.State.{
  tcp_conn, State, init, send_packet, Step, tick, go_on, stop, send, Steps, here, next,
}

-- The connections of the first `n` packets.
abbrev pub turns : ℕ → List ℕ
turns zero = []
turns (suc n) = turns n ++ (n % tcp_conn + 1) ∷ []

-- After `n` packets.
pub record Alternates (n : ℕ) (s : State) : Type 0 where
  pub in_order : s.sent ≡ turns n
  pub next_conn : s.current_conn ≡ n % tcp_conn + 1
  pub of_first : s.successful_responses 1 ≡ (n + 1) / 2
  pub of_second : s.successful_responses 2 ≡ n / 2

-- A step sends one packet or none.
Step-Alternates :
    {start_time : ℕ → ℕ} {s t : State} (n : ℕ)
    → Step start_time s t
    → Alternates n s
    → (m : ℕ) × Alternates m t
unfolding send_packet
Step-Alternates n (tick t later) h = (
  n,
  record {
    in_order = h.in_order;
    next_conn = h.next_conn;
    of_first = h.of_first;
    of_second = h.of_second;
  },
)
Step-Alternates n (go_on c at from before) h = (
  n,
  record {
    in_order = h.in_order;
    next_conn = h.next_conn;
    of_first = h.of_first;
    of_second = h.of_second;
  },
)
Step-Alternates n (stop c at over) h = (
  n,
  record {
    in_order = h.in_order;
    next_conn = h.next_conn;
    of_first = h.of_first;
    of_second = h.of_second;
  },
)
Step-Alternates {s = s} n (send c at turn) h = (
  suc n,
  record {
    in_order = rw (h.in_order, sym turn, h.next_conn) refl;
    next_conn = omega (arith, h.next_conn);
    of_first = ground (arith, h.of_first, h.next_conn);
    of_second = ground (arith, h.of_second, h.next_conn);
  },
)

-- In any state reached, for some number of packets, these were sent on connections 1 and 2 in
-- turn, the turn is the next one's, and each count has its half, the first with the odd one.
pub connections_alternate :
    {start_time : ℕ → ℕ} (connected : ℕ → Bool) {s : State}
    → Steps start_time (init connected) s
    → (n : ℕ) × Alternates n s
unfolding init
connections_alternate connected here =
    (0, record { in_order = refl; next_conn = refl; of_first = refl; of_second = refl })
connections_alternate connected (next steps st) =
    let (n, h) = connections_alternate connected steps in Step-Alternates n st h
