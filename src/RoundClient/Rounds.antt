-- ===== src/RoundClient/Rounds.antt =====
-- exp1/client8.c: the order of the packets, and that the rounds do not block.
use rnd.Common.{
  ℕ, zero, suc, ◌+◌, ◌-◌, ◌*◌, ◌/◌, ◌%◌, ◌<◌, ◌≤◌, Bool, true, List, [], ◌∷◌, ◌++◌, ◌≡◌, refl, sym,
  ap, ◌∙◌, arith, length, length-append,
}
use rnd.RoundClient.State.{tcp_conn, State, init, send_packet, CanSend, Reachable, started, step}

-- The first `n` packets: in each round one packet on each connection, with the round's number.
abbrev pub rounds : ℕ → List (ℕ × ℕ)
rounds zero = []
rounds (suc n) = rounds n ++ (n % tcp_conn + 1, n / tcp_conn + 1) ∷ []

-- After `n` packets.
pub record InRound (n : ℕ) (s : State) : Type 0 where
  pub conn : s.current_conn ≡ n % tcp_conn + 1
  pub packet : s.current_packet ≡ n / tcp_conn + 1
  pub loops : (c : ℕ) → 1 ≤ c → c ≤ tcp_conn → s.i c ≡ (n + tcp_conn - c) / tcp_conn + 1
  pub in_order : s.sent ≡ rounds n

init-InRound : InRound 0 init
unfolding init
init-InRound = record {
  conn = refl;
  packet = refl;
  loops = λ c lo hi. omega arith;
  in_order = refl;
}

send-InRound :
    (n : ℕ) (opens : Bool) (c : ℕ) (s : State)
    → (s.current_conn ≡ c) × (s.current_packet ≡ s.i c)
    → InRound n s
    → InRound (suc n) (send_packet opens c s)
unfolding send_packet
send-InRound n opens c s turn h = record {
  conn = ground (arith, h.conn);
  packet = ground (arith, h.packet, h.conn);
  loops = λ b lo hi. ground (arith, h.loops b lo hi, h.conn);
  in_order = rw (h.in_order, sym turn.1, h.packet, sym turn.0, h.conn) refl;
}

pub reachable-InRound :
    {thread_packets : ℕ} {connected : ℕ → Bool} {s : State}
    → Reachable thread_packets connected s
    → (n : ℕ) × InRound n s
reachable-InRound started = (0, init-InRound)
reachable-InRound (step {s = s} opens c r can) =
    let (n, h) = reachable-InRound r in (suc n, send-InRound n opens c s can.has_turn h)

pub length-rounds : (n : ℕ) → length (rounds n) ≡ n
length-rounds zero = refl
length-rounds (suc n) =
    omega
      (arith, length-append (rounds n) ((n % tcp_conn + 1, n / tcp_conn + 1) ∷ []), length-rounds n)

-- In any state reached the packets sent are those of the rounds in their order: on connections 1
-- to 4 in turn, with the number of the round.
pub sent_in_rounds :
    {thread_packets : ℕ} {connected : ℕ → Bool} {s : State}
    → Reachable thread_packets connected s
    → s.sent ≡ rounds (length s.sent)
sent_in_rounds {s = s} r =
    let (n, h) = reachable-InRound r in
    let all : n ≡ length s.sent = omega (arith, ap length h.in_order, length-rounds n) in
    h.in_order ∙ ap rounds all

-- If every thread has connected, then in any state reached in which packets are left the thread
-- whose turn it is can send.
pub rounds_go_on :
    {thread_packets : ℕ} {connected : ℕ → Bool} {s : State}
    → ((c : ℕ) → 1 ≤ c → c ≤ tcp_conn → connected c ≡ true)
    → Reachable thread_packets connected s
    → length s.sent < tcp_conn * thread_packets
    → CanSend thread_packets connected s.current_conn s
rounds_go_on {s = s} all r more =
    let (n, h) = reachable-InRound r in
    let count : n ≡ length s.sent = omega (arith, ap length h.in_order, length-rounds n) in
    let lo : 1 ≤ s.current_conn = omega (arith, h.conn) in
    let hi : s.current_conn ≤ tcp_conn = omega (arith, h.conn) in
    record {
      is_started = (lo, hi);
      is_connected = all s.current_conn lo hi;
      has_packets = omega (arith, h.loops s.current_conn lo hi, h.conn);
      has_turn = (refl, omega (arith, h.loops s.current_conn lo hi, h.conn, h.packet));
    }
