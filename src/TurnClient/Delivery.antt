-- ===== src/TurnClient/Delivery.antt =====
-- exp1/client_final.c and exp1/server_final.c together: the packets of the threads at the server.
use rnd.Common.{
  ℕ, zero, suc, ◌+◌, ◌%◌, List, [], ◌∷◌, ◌++◌, ◌≡◌, refl, ap, ◌∙◌, arith, ◌≤◌, ◌<◌, ◌-◌, Bool, map,
  sym, subst, All, All-weaken,
}
use rnd.SequenceServer.Tracker.{Tracker, start, track}
use rnd.SequenceServer.Gaps.{track_all, track_all-append}
use rnd.EventLoop.State.{Program, Event, accept_all, start_with, handle_events}
use rnd.EventLoop.Arrivals.{IsReader, IsConnected, accept_all-connects}
use rnd.SequenceServer.Server.{read_lines, sequence_program, signal, events, run, init}
use rnd.SequenceServer.Arrivals.{sequence-IsReader, session, session_tracked}
use rnd.SequenceServer.Ending.{concat_events, printed-concat_events}
use rnd.SequenceServer.Streams.{stream, numbers, read_lines-stream}
use rnd.TurnClient.State.{Client, client_final, State, Reachable}
use rnd.TurnClient.Turn.{schedule, schedule-conns}
use rnd.TurnClient.Order.{packets_in_order}

numbers-append : (xs ys : List (ℕ × ℕ)) → numbers (xs ++ ys) ≡ numbers xs ++ numbers ys
numbers-append [] ys = refl
numbers-append ((c, x) ∷ xs) ys = ap (λ ns. x ∷ ns) (numbers-append xs ys)

track-next :
    (n : ℕ)
    → track (n + 1) (record { global_expected_seq = n + 1; out_of_order = [] })
      ≡ record { global_expected_seq = suc n + 1; out_of_order = [] }
unfolding track
track-next n = ground arith

pub track_all-schedule :
    (client : Client) (n : ℕ)
    → track_all (numbers (schedule client n)) start
      ≡ record { global_expected_seq = n + 1; out_of_order = [] }
unfolding start track_all
track_all-schedule client zero = refl
track_all-schedule client (suc n) =
    rw
      (
        numbers-append (schedule client n) ((n % client.tcp_conn + 1, n + 1) ∷ []),
        track_all-append (numbers (schedule client n)) ((n + 1) ∷ []) start,
        track_all-schedule client n,
      )
      (track-next n)

-- A server that reads the first packets of the turn-taking client in their order notes no gap
-- and expects the next one.
pub schedule_delivered :
    (client : Client) (n : ℕ)
    → read_lines (stream (schedule client n)) start
      ≡ record { global_expected_seq = n + 1; out_of_order = [] }
schedule_delivered client n =
    read_lines-stream (schedule client n) start ∙ track_all-schedule client n

four : (P : ℕ → Type 0) → P 1 → P 2 → P 3 → P 4 → (c : ℕ) → 1 ≤ c → c ≤ client_final.tcp_conn → P c
four P a b c d zero lo hi = absurd (omega arith)
four P a b c d (suc zero) lo hi = a
four P a b c d (suc (suc zero)) lo hi = b
four P a b c d (suc (suc (suc zero))) lo hi = c
four P a b c d (suc (suc (suc (suc zero)))) lo hi = d
four P a b c d (suc (suc (suc (suc (suc n))))) lo hi = absurd (omega arith)

abbrev pub four_conns : List ℕ
four_conns = 1 ∷ 2 ∷ 3 ∷ 4 ∷ []

-- A server that accepts the four connections at descriptors below its limit has them in memory.
pub four-IsConnected :
    (p : Program ℕ Tracker) (read : List ℕ → Tracker → Tracker)
    → IsReader p read
    → (fd : ℕ → ℕ) → ((c : ℕ) → 1 ≤ c → c ≤ client_final.tcp_conn → fd c < p.max_connections)
    → (c : ℕ) → 1 ≤ c
    → c ≤ client_final.tcp_conn
    → IsConnected (accept_all p (map fd four_conns) (start_with start)) (fd c)
four-IsConnected p read reader fd below =
    let one = below 1 (omega arith) (omega arith) in
    let two = below 2 (omega arith) (omega arith) in
    let three = below 3 (omega arith) (omega arith) in
    let last = below 4 (omega arith) (omega arith) in
    let (a, (b, (c, (d, u)))) =
      accept_all-connects p read reader (map fd four_conns) (start_with start)
        (one, (two, (three, (last, tt)))) in
    four (λ c. IsConnected (accept_all p (map fd four_conns) (start_with start)) (fd c)) a b c d

module _ (fd : ℕ → ℕ) where
  -- If the server accepts the four connections at descriptors below MAX_CONNECTIONS and the
  -- packets that the threads have sent in any state reached arrive one by one in their order, in
  -- whatever batches of events, then a signal prints no number.
  pub no_gap_printed :
      {connected : ℕ → Bool} {s : State} (ess : List (List Event))
      → Reachable client_final connected s
      → ((c : ℕ) → 1 ≤ c → c ≤ client_final.tcp_conn → fd c < sequence_program.max_connections)
      → concat_events ess ≡ session fd four_conns s.sent
      → (run sequence_program (map events ess ++ signal ∷ []) init).printed ≡ [] ∷ []
  no_gap_printed {s = s} ess r below all =
      let n = s.global_packet_id - 1 in
      let server = accept_all sequence_program (map fd four_conns) (start_with start) in
      let in_turn = packets_in_order (omega arith) r in
      let conns : All (λ (c, id). IsConnected server (fd c)) s.sent =
        subst (All (λ (c, id). IsConnected server (fd c))) (sym in_turn) (
          All-weaken (schedule client_final n)
            (λ p bounds.
              four-IsConnected sequence_program read_lines sequence-IsReader fd below p.0 bounds.0
                bounds.1)
            (schedule-conns client_final n (omega arith))) in
      printed-concat_events sequence_program ess
      ∙ ap
          (λ (es : List Event).
            (handle_events sequence_program es (start_with start)).shared.out_of_order ∷ [])
          all
      ∙ ap (λ (t : Tracker). t.out_of_order ∷ []) (session_tracked fd four_conns s.sent conns)
      ∙ ap (λ ps. (track_all (numbers ps) start).out_of_order ∷ [])
          (packets_in_order (omega arith) r)
      ∙ ap (λ (t : Tracker). t.out_of_order ∷ []) (track_all-schedule client_final n)
