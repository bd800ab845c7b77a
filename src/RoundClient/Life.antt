-- ===== src/RoundClient/Life.antt =====
-- exp1/client8.c: `main` and the whole life of its threads.
use rnd.Common.{
  ℕ, ◌+◌, ◌*◌, ◌<◌, ◌≤◌, Bool, true, false, ◌≡◌, refl, ap, ◌∙◌, arith, inl, inr, le-cases, length,
}
use rnd.Threads.State.{Process, Runs, HasJoined, IsStuck}
use rnd.Threads.Stages.{count, stuck-stage, returned-over, returned-closed}
use rnd.Threads.Steps.{steps, steps-passes}
use rnd.RoundClient.State.{tcp_conn, State, init, send_packet}
use rnd.RoundClient.Rounds.{rounds}
use rnd.RoundClient.Worker.{
  pass, round_worker, round_worker-EndsStay, runs-Reachable, length-InRound, at_most_all,
  missing_thread, passes-length,
}

module _ (thread_packets : ℕ) {connected : ℕ → Bool} where
  round_over :
      {p : Process State}
      → ((c : ℕ) → 1 ≤ c → c ≤ tcp_conn → connected c ≡ true)
      → Runs (round_worker thread_packets) connected init p
      → IsStuck (round_worker thread_packets) connected p
      → thread_packets < p.shared.i p.shared.current_conn
  unfolding round_worker
  round_over {p = p} all r stuck =
      let law = round_worker-EndsStay thread_packets in
      let h = length-InRound (runs-Reachable r) in
      let cur = p.shared.current_conn in
      let lo : 1 ≤ cur = omega (arith, h.conn) in
      let hi : cur ≤ tcp_conn = omega (arith, h.conn) in
      elim (stuck-stage (round_worker thread_packets) connected law r stuck cur lo hi) [
        | inl ret ↦
            returned-over (round_worker thread_packets) connected law r cur (all cur lo hi) ret
        | inr (at, goes_on, no_send) ↦ elim (le-cases (p.shared.i cur) thread_packets) [
          | inl more ↦
              let turn : p.shared.current_packet ≡ p.shared.i cur =
                omega (arith, h.loops cur lo hi, h.conn, h.packet) in
              absurd (no_send (send_packet true cur p.shared) (pass true more (refl, turn)))
          | inr over ↦ over
        ]
      ]

  -- If every thread connects and no thread can take a step any more, then main has joined all
  -- threads, all rounds have been sent in order, and each thread has closed its socket once.
  pub rounds_joined :
      {p : Process State}
      → ((c : ℕ) → 1 ≤ c → c ≤ tcp_conn → connected c ≡ true)
      → Runs (round_worker thread_packets) connected init p
      → IsStuck (round_worker thread_packets) connected p
      → HasJoined (round_worker thread_packets) p
        × (p.shared.sent ≡ rounds (tcp_conn * thread_packets))
        × ((c : ℕ) → 1 ≤ c → c ≤ tcp_conn → count c p.closed ≡ 1)
  unfolding round_worker
  rounds_joined {p = p} all r stuck =
      let law = round_worker-EndsStay thread_packets in
      let h = length-InRound (runs-Reachable r) in
      let lo : 1 ≤ p.shared.current_conn = omega (arith, h.conn) in
      let hi : p.shared.current_conn ≤ tcp_conn = omega (arith, h.conn) in
      let own = h.loops p.shared.current_conn lo hi in
      let over = round_over all r stuck in
      let few = at_most_all (runs-Reachable r) in
      let all_sent : length p.shared.sent ≡ tcp_conn * thread_packets = omega (arith, h.conn) in
      let joined : HasJoined (round_worker thread_packets) p = λ c lo hi.
        elim (stuck-stage (round_worker thread_packets) connected law r stuck c lo hi) [
          | inl ret ↦ ret
          | inr (at, goes_on, no_send) ↦ absurd (goes_on (omega (arith, h.loops c lo hi)))
        ] in
      (
        joined,
        h.in_order ∙ ap rounds all_sent,
        λ c lo hi.
            returned-closed (round_worker thread_packets) connected law r c (all c lo hi)
              (joined c lo hi),
      )

  -- If the connect of one thread fails, that of another succeeds, and there are at least two
  -- packets for each thread, then main has not joined all threads in any state that they reach.
  pub rounds_wait :
      {p : Process State} (missing other : ℕ)
      → 1 ≤ missing
      → missing ≤ tcp_conn
      → connected missing ≡ false
      → 1 ≤ other
      → other ≤ tcp_conn
      → connected other ≡ true
      → 2 ≤ thread_packets
      → Runs (round_worker thread_packets) connected init p
      → ¬ HasJoined (round_worker thread_packets) p
  unfolding round_worker
  rounds_wait missing other lo hi down lo' hi' up two r joined =
      let reach = runs-Reachable r in
      let h = length-InRound reach in
      let over =
        returned-over (round_worker thread_packets) connected (round_worker-EndsStay thread_packets)
          r other up (joined other lo' hi') in
      omega (arith, missing_thread missing down lo hi reach, h.loops other lo' hi')

  -- In whatever order they run and whichever connect, the threads take at most TCP_CONN *
  -- THREAD_PACKETS + 2 * TCP_CONN steps.
  pub round_steps_bounded :
      {p : Process State} (r : Runs (round_worker thread_packets) connected init p)
      → steps r ≤ tcp_conn * thread_packets + 2 * tcp_conn
  unfolding round_worker
  round_steps_bounded r =
      omega (arith, steps-passes r, passes-length thread_packets r, at_most_all (runs-Reachable r))
