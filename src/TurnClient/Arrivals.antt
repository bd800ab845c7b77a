-- ===== src/TurnClient/Arrivals.antt =====
-- exp1/client9copy.c and exp1/server8 copy.c together: what the server notes if the packets of the four
-- connections arrive in the order in which the threads send them.
use rnd.Common.{ℕ, ◌+◌, ◌-◌, ◌≤◌, Bool, List, [], ◌∷◌, map, ◌≡◌, refl, ap, ◌∙◌, arith, All}
use rnd.EventLoop.State.{Server}
use rnd.SequenceServer.Tracker.{Tracker, start}
use rnd.SequenceServer.Streams.{numbers}
use rnd.NumberServer.Server.{serve}
use rnd.EventLoop.Arrivals.{IsConnected}
use rnd.NumberServer.Streams.{arrivals, all_numbers, arrivals_tracked}
use rnd.TurnClient.State.{client_final, State, init, send_packet, Reachable, started, step}
use rnd.TurnClient.Turn.{schedule, schedule-conns}
use rnd.TurnClient.Order.{packets_in_order}
use rnd.TurnClient.Delivery.{track_all-schedule}

-- The packets one by one, at the descriptors that the server has for their connections.
abbrev pub one_by_one : (ℕ → ℕ) → List (ℕ × ℕ) → List (ℕ × List ℕ)
one_by_one fd sent = map (λ (c, id). (fd c, id ∷ [])) sent

one_by_one-numbers :
    (fd : ℕ → ℕ) (sent : List (ℕ × ℕ)) → all_numbers (one_by_one fd sent) ≡ numbers sent
one_by_one-numbers fd [] = refl
one_by_one-numbers fd ((c, id) ∷ sent) = ap (λ ids. id ∷ ids) (one_by_one-numbers fd sent)

id-positive :
    {connected : ℕ → Bool} {s : State} → Reachable client_final connected s → 1 ≤ s.global_packet_id
unfolding init send_packet
id-positive started = omega arith
id-positive (step conn_id r c) = omega (arith, id-positive r)

module _ (fd : ℕ → ℕ) (server : Server ℕ Tracker) where
  one_by_one-IsConnected :
      (sent : List (ℕ × ℕ))
      → ((c : ℕ) → 1 ≤ c → c ≤ client_final.tcp_conn → IsConnected server (fd c))
      → All (λ (c, id). (1 ≤ c) × (c ≤ client_final.tcp_conn)) sent
      → All (λ (g, ids). IsConnected server g) (one_by_one fd sent)
  one_by_one-IsConnected [] h a = tt
  one_by_one-IsConnected ((c, id) ∷ sent) h ((lo, hi), a) =
      (h c lo hi, one_by_one-IsConnected sent h a)

  -- If the server has the four connections in memory and has noted nothing yet, and the packets
  -- that the threads have sent in any state reached arrive one by one in their order, then the
  -- server has noted no gap and expects the number that is sent next.
  pub turns_leave_no_gap :
      {connected : ℕ → Bool} {s : State}
      → Reachable client_final connected s
      → ((c : ℕ) → 1 ≤ c → c ≤ client_final.tcp_conn → IsConnected server (fd c))
      → server.shared ≡ start
      → (serve (arrivals (one_by_one fd s.sent)) server).shared
        ≡ record { global_expected_seq = s.global_packet_id; out_of_order = [] }
  turns_leave_no_gap {s = s} r h fresh =
      let n = s.global_packet_id - 1 in
      let next : n + 1 ≡ s.global_packet_id = omega (arith, id-positive r) in
      let in_turn = packets_in_order (omega arith) r in
      let conns =
        one_by_one-IsConnected (schedule client_final n) h
          (schedule-conns client_final n (omega arith)) in
      rw in_turn (
        arrivals_tracked (one_by_one fd (schedule client_final n)) server conns
        ∙ rw (one_by_one-numbers fd (schedule client_final n), fresh)
            (track_all-schedule client_final n)
        ∙ ap (λ id. record { global_expected_seq = id; out_of_order = [] }) next)
