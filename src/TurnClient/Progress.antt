-- ===== src/TurnClient/Progress.antt =====
-- exp1/client_final.c, exp1/client9copy.c and client_op.c: the threads can always run on until `main` has
-- joined them.
use rnd.Common.{
  ℕ, zero, suc, ◌+◌, ◌*◌, ◌≤◌, ◌<◌, Bool, true, ◌≡◌, ◌⊎◌, refl, subst, arith, inl, inr, le-cases,
}
use rnd.Threads.State.{
  Stage, starting, sending, returned, Process, open_socket, close_socket, Step, connects, sends,
  ends, Runs, next, HasJoined, Onward, here, onward,
}
use rnd.Threads.Stages.{returned-over}
use rnd.Threads.Steps.{steps}
use rnd.TurnClient.State.{Client, State, init, send_packet}
use rnd.TurnClient.Turn.{turn-round}
use rnd.TurnClient.Order.{reachable-IsTurn}
use rnd.TurnClient.Worker.{pass, turn_worker, turn_worker-EndsStay, runs-Reachable}
use rnd.TurnClient.Life.{steps_bounded}

module _ (client : Client) {connected : ℕ → Bool} where
  -- A thread that has not returned, among the first `n`, where each that sends has sent its packets.
  unfinished :
      (n : ℕ) (p : Process State)
      → n ≤ client.tcp_conn
      → ((c : ℕ) → 1 ≤ c → c ≤ client.tcp_conn → connected c ≡ true)
      → ((c : ℕ) → 1 ≤ c → c ≤ client.tcp_conn → client.packets ≤ p.shared.i c)
      → ((c : ℕ) → 1 ≤ c → c ≤ n → p.stage c ≡ returned)
        ⊎ ((q : Process State) × Step (turn_worker client) connected p q)
  unfolding turn_worker
  unfinished zero p fits all over = inl (λ c lo hi. absurd (omega arith))
  unfinished (suc n) p fits all over = elim (unfinished n p (omega arith) all over) [
    | inr step ↦ inr step
    | inl before ↦ go (p.stage (suc n)) refl before
  ]
    where
      go :
          (stage : Stage)
          → p.stage (suc n) ≡ stage
          → ((c : ℕ) → 1 ≤ c → c ≤ n → p.stage c ≡ returned)
          → ((c : ℕ) → 1 ≤ c → c ≤ suc n → p.stage c ≡ returned)
            ⊎ ((q : Process State) × Step (turn_worker client) connected p q)
      go starting at before = inr (
        open_socket (suc n) p,
        connects (suc n) (omega arith) fits at (all (suc n) (omega arith) fits),
      )
      go sending at before = inr (
        close_socket (suc n) p,
        ends (suc n) (omega arith) fits at (over (suc n) (omega arith) fits),
      )
      go returned at before = inl (λ c lo hi. elim (le-cases c n) [
        | inl low ↦ before c lo low
        | inr last ↦ let same : suc n ≡ c = omega arith in subst (λ d. p.stage d ≡ returned) same at
      ])

  module _ (some_conn : 1 ≤ client.tcp_conn)
      (all : (c : ℕ) → 1 ≤ c → c ≤ client.tcp_conn → connected c ≡ true) where
    progress :
        {p : Process State}
        → Runs (turn_worker client) connected init p
        → HasJoined (turn_worker client) p
          ⊎ ((q : Process State) × Step (turn_worker client) connected p q)
    unfolding turn_worker
    progress {p = p} r =
        let (round, pos, h) = reachable-IsTurn some_conn (runs-Reachable r) in
        let cur = p.shared.current_conn in
        go (p.stage cur) refl (omega (arith, h.next_conn)) (omega (arith, h.next_conn, h.is_in))
          (λ over c lo hi.
            let own : client.packets ≤ round =
              subst (λ n. client.packets ≤ n) (turn-round client round pos p.shared h) over in
            ground (arith, own, h.rounds c lo hi))
      where
        go :
            (stage : Stage)
            → p.stage p.shared.current_conn ≡ stage
            → 1 ≤ p.shared.current_conn
            → p.shared.current_conn ≤ client.tcp_conn
            → (client.packets ≤ p.shared.i p.shared.current_conn
                → (c : ℕ) → 1 ≤ c
                → c ≤ client.tcp_conn
                → client.packets ≤ p.shared.i c)
            → HasJoined (turn_worker client) p
              ⊎ ((q : Process State) × Step (turn_worker client) connected p q)
        go starting at lo hi over =
            let cur = p.shared.current_conn in
            inr (open_socket cur p, connects cur lo hi at (all cur lo hi))
        go sending at lo hi over =
            let cur = p.shared.current_conn in
            elim (le-cases client.packets (p.shared.i cur)) [
              | inl done ↦ inr (close_socket cur p, ends cur lo hi at done)
              | inr more ↦
                  let s = send_packet client cur p.shared in
                  inr (record p { shared = s }, sends cur lo hi at (pass more refl))
            ]
        go returned at lo hi over =
            let cur = p.shared.current_conn in
            let done =
              returned-over (turn_worker client) connected (turn_worker-EndsStay client) r cur
                (all cur lo hi) at in
            unfinished client.tcp_conn p (omega arith) all (over done)

    run_on :
        (k : ℕ) {p : Process State} (r : Runs (turn_worker client) connected init p)
        → client.tcp_conn * client.packets + 2 * client.tcp_conn < steps r + k
        → (q : Process State) × Onward (turn_worker client) connected p q
          × HasJoined (turn_worker client) q
    unfolding steps
    run_on zero r fuel = absurd (omega (arith, steps_bounded client some_conn r))
    run_on (suc k) {p = p} r fuel = elim (progress r) [
      | inl joined ↦ (p, here, joined)
      | inr (q, step) ↦
          let (last, rest, joined) = run_on k (next r step) (omega arith) in
          (last, onward step rest, joined)
    ]

    -- If there is at least one thread and every one connects, then in whatever order they have
    -- run so far, the threads have taken at most TCP_CONN * PACKETS + 2 * TCP_CONN steps, and
    -- they can run on from there until main has joined them all.
    pub main_ends :
        {p : Process State} (r : Runs (turn_worker client) connected init p)
        → (steps r ≤ client.tcp_conn * client.packets + 2 * client.tcp_conn)
          × ((q : Process State) × Onward (turn_worker client) connected p q
              × HasJoined (turn_worker client) q)
    main_ends r = (
      steps_bounded client some_conn r,
      run_on (client.tcp_conn * client.packets + 2 * client.tcp_conn + 1) r (omega arith),
    )
