-- ===== src/TurnClient/Life.antt =====
-- exp1/client_final.c, exp1/client9copy.c and client_op.c: `main` and the whole life of its threads.
use rnd.Common.{
  ℕ, ◌+◌, ◌-◌, ◌*◌, ◌≤◌, Bool, true, false, ◌≡◌, refl, subst, ◌∙◌, arith, inl, inr, le-cases,
}
use native.Mathlib.Nat.{mul-le-mul_left}
use rnd.Threads.State.{Process, Runs, HasJoined, IsStuck}
use rnd.Threads.Stages.{count, stuck-stage, returned-over, returned-closed}
use rnd.Threads.Steps.{steps, steps-passes}
use rnd.TurnClient.State.{Client, State, init, send_packet}
use rnd.TurnClient.Turn.{schedule, schedule-same, turn-round}
use rnd.TurnClient.Order.{reachable-IsTurn, packets_in_order, at_most_all, missing_client}
use rnd.TurnClient.Worker.{pass, turn_worker, turn_worker-EndsStay, runs-Reachable, passes-id}

module _ (client : Client) (some_conn : 1 ≤ client.tcp_conn) {connected : ℕ → Bool} where
  -- Where no thread can take a step, the turn is that of a thread whose loop is over.
  turn_over :
      {p : Process State}
      → ((c : ℕ) → 1 ≤ c → c ≤ client.tcp_conn → connected c ≡ true)
      → Runs (turn_worker client) connected init p
      → IsStuck (turn_worker client) connected p
      → client.packets ≤ p.shared.i p.shared.current_conn
  unfolding turn_worker
  turn_over {p = p} all r stuck =
      let law = turn_worker-EndsStay client in
      let (round, pos, h) = reachable-IsTurn some_conn (runs-Reachable r) in
      let cur = p.shared.current_conn in
      let lo : 1 ≤ cur = omega (arith, h.next_conn) in
      let hi : cur ≤ client.tcp_conn = omega (arith, h.next_conn, h.is_in) in
      elim (stuck-stage (turn_worker client) connected law r stuck cur lo hi) [
        | inl ret ↦ returned-over (turn_worker client) connected law r cur (all cur lo hi) ret
        | inr (at, goes_on, no_send) ↦ elim (le-cases client.packets (p.shared.i cur)) [
          | inl over ↦ over
          | inr more ↦ absurd (no_send (send_packet client cur p.shared) (pass more refl))
        ]
      ]

  -- If there is at least one thread, every one connects, and no thread can take a step any more,
  -- then main has joined all threads, all packets have been sent in strict turn, and each thread
  -- has closed its socket once.
  pub main_joins :
      {p : Process State}
      → ((c : ℕ) → 1 ≤ c → c ≤ client.tcp_conn → connected c ≡ true)
      → Runs (turn_worker client) connected init p
      → IsStuck (turn_worker client) connected p
      → HasJoined (turn_worker client) p
        × (p.shared.sent ≡ schedule client (client.tcp_conn * client.packets))
        × ((c : ℕ) → 1 ≤ c → c ≤ client.tcp_conn → count c p.closed ≡ 1)
  unfolding turn_worker
  main_joins {p = p} all r stuck =
      let law = turn_worker-EndsStay client in
      let reach = runs-Reachable r in
      let (round, pos, h) = reachable-IsTurn some_conn reach in
      let over : client.packets ≤ round =
        subst (λ n. client.packets ≤ n) (turn-round client round pos p.shared h)
          (turn_over all r stuck) in
      let joined : HasJoined (turn_worker client) p = λ c lo hi.
        elim (stuck-stage (turn_worker client) connected law r stuck c lo hi) [
          | inl ret ↦ ret
          | inr (at, goes_on, no_send) ↦ absurd (goes_on (ground (arith, h.rounds c lo hi)))
        ] in
      (
        joined,
        packets_in_order some_conn reach
            ∙ schedule-same client (p.shared.global_packet_id - 1)
                (client.tcp_conn * client.packets)
                (omega (
                  arith,
                  h.next_id,
                  at_most_all some_conn reach,
                  mul-le-mul_left client.tcp_conn over,
                )),
        λ c lo hi.
            returned-closed (turn_worker client) connected law r c (all c lo hi) (joined c lo hi),
      )

  -- If there is at least one thread, the connect of one fails, that of another succeeds, and
  -- there are at least two packets for each connection, then main has not joined all threads in
  -- any state that they reach.
  pub main_waits :
      {p : Process State} (missing other : ℕ)
      → 1 ≤ missing
      → missing ≤ client.tcp_conn
      → connected missing ≡ false
      → 1 ≤ other
      → other ≤ client.tcp_conn
      → connected other ≡ true
      → 2 ≤ client.packets
      → Runs (turn_worker client) connected init p
      → ¬ HasJoined (turn_worker client) p
  unfolding turn_worker
  main_waits {p = p} missing other lo hi down lo' hi' up two r joined =
      let reach = runs-Reachable r in
      let (round, pos, h) = reachable-IsTurn some_conn reach in
      let over =
        returned-over (turn_worker client) connected (turn_worker-EndsStay client) r other up
          (joined other lo' hi') in
      let few = missing_client some_conn missing down lo hi reach in
      let second : 1 ≤ round = ground (arith, over, h.rounds other lo' hi') in
      omega (arith, h.next_id, mul-le-mul_left client.tcp_conn second)

  -- With at least one thread, in whatever order they run and whichever connect, the threads take
  -- at most TCP_CONN * PACKETS + 2 * TCP_CONN steps.
  pub steps_bounded :
      {p : Process State} (r : Runs (turn_worker client) connected init p)
      → steps r ≤ client.tcp_conn * client.packets + 2 * client.tcp_conn
  unfolding turn_worker
  steps_bounded r =
      omega (arith, steps-passes r, passes-id client r, at_most_all some_conn (runs-Reachable r))
