-- ===== src/TurnClient/Order.antt =====
-- exp1/client_final.c, exp1/client9copy.c and client_op.c: the order of the packets.
use rnd.Common.{
  ℕ, ◌+◌, ◌-◌, ◌<◌, ◌≤◌, Bool, true, false, ◌≡◌, refl, sym, subst, ap, ◌∙◌, arith, ◌*◌, inl, inr,
  le-cases,
}
use rnd.TurnClient.State.{Client, State, init, send_packet, CanSend, Reachable, started, step}
use rnd.TurnClient.Turn.{
  schedule, schedule-same, count, Turn, init-IsTurn, send-IsTurn, turn-round, round-packets,
  packets-round, first_round,
}

module _ {client : Client} {connected : ℕ → Bool} (some_conn : 1 ≤ client.tcp_conn) where
  pub reachable-IsTurn : {s : State} → Reachable client connected s → Turn client s
  reachable-IsTurn started = (0, 0, init-IsTurn client some_conn)
  reachable-IsTurn (step {s = s} conn_id r c) =
      let (round, pos, h) = reachable-IsTurn r in
      subst (λ conn. Turn client (send_packet client conn s)) c.has_turn
        (send-IsTurn client round pos s h)

  -- In any state that the threads of a client with at least one connection reach, what has been
  -- sent is the packets from 1 on in their order, each on the connection whose turn it was.
  pub packets_in_order :
      {s : State} → Reachable client connected s → s.sent ≡ schedule client (s.global_packet_id - 1)
  packets_in_order {s = s} r =
      let (round, pos, h) = reachable-IsTurn r in
      h.in_order
      ∙ schedule-same client (count client round pos) (s.global_packet_id - 1)
          (omega (arith, h.next_id))

  -- If there is at least one thread and every one has connected, then in any state reached in
  -- which packets are left the thread whose turn it is can send.
  pub no_deadlock :
      {s : State}
      → ((c : ℕ) → 1 ≤ c → c ≤ client.tcp_conn → connected c ≡ true)
      → Reachable client connected s
      → s.global_packet_id ≤ client.tcp_conn * client.packets
      → CanSend client connected s.current_conn s
  no_deadlock {s = s} all r more =
      let (round, pos, h) = reachable-IsTurn r in
      let lo : 1 ≤ s.current_conn = omega (arith, h.next_conn) in
      let hi : s.current_conn ≤ client.tcp_conn = omega (arith, h.next_conn, h.is_in) in
      record {
        is_started = (lo, hi);
        is_connected = all s.current_conn lo hi;
        has_packets =
            subst (λ n. n < client.packets) (sym (turn-round client round pos s h))
              (round-packets client round pos (omega (arith, h.next_id)));
        has_turn = refl;
      }

  -- With at least one thread, in any state reached no more than TCP_CONN * PACKETS packets have
  -- been sent.
  pub at_most_all :
      {s : State}
      → Reachable client connected s
      → s.global_packet_id ≤ client.tcp_conn * client.packets + 1
  unfolding init send_packet
  at_most_all started = omega arith
  at_most_all (step {s = s} conn_id r c) =
      let (round, pos, h) = reachable-IsTurn r in
      let more : round < client.packets =
        subst (λ n. n < client.packets) (ap s.i (sym c.has_turn) ∙ turn-round client round pos s h)
          c.has_packets in
      omega (arith, h.next_id, packets-round client round pos more h.is_in)

  -- If there is at least one thread, every one has connected and none can send any more, then
  -- all packets have been sent in strict turn: PACKETS of each of the connections.
  pub ends_complete :
      {s : State}
      → ((c : ℕ) → 1 ≤ c → c ≤ client.tcp_conn → connected c ≡ true)
      → Reachable client connected s
      → ((c : ℕ) → ¬ CanSend client connected c s)
      → s.sent ≡ schedule client (client.tcp_conn * client.packets)
  ends_complete {s = s} all r none =
      let bound = at_most_all r in
      elim (le-cases s.global_packet_id (client.tcp_conn * client.packets)) [
        | inl more ↦ absurd (none s.current_conn (no_deadlock all r more))
        | inr over ↦
            packets_in_order r
            ∙ schedule-same client (s.global_packet_id - 1) (client.tcp_conn * client.packets)
                (omega arith)
      ]

  -- If a thread has not connected, then in any state reached the packet counter is at most the
  -- thread's number: the packets stop where its turn comes first.
  pub missing_client :
      {s : State} (missing : ℕ)
      → connected missing ≡ false
      → 1 ≤ missing
      → missing ≤ client.tcp_conn
      → Reachable client connected s
      → s.global_packet_id ≤ missing
  unfolding init send_packet
  missing_client missing none lo hi started = omega arith
  missing_client missing none lo hi (step {s = s} conn_id r c) =
      let (round, pos, h) = reachable-IsTurn r in
      let before = missing_client missing none lo hi r in
      elim (le-cases (s.global_packet_id + 1) missing) [
        | inl fits ↦ fits
        | inr over ↦
            let first = first_round client round pos (omega (arith, h.next_id)) in
            let same : conn_id ≡ missing = omega (arith, h.next_id, h.next_conn, c.has_turn) in
            let up = subst (λ x. connected x ≡ true) same c.is_connected in absurd (ground arith)
      ]
