-- ===== src/RoundClient/Worker.antt =====
-- exp1/client8.c: the loop of a thread, for the life of the threads.
use rnd.Common.{
  ℕ, ◌+◌, ◌*◌, ◌<◌, ◌≤◌, Bool, true, false, [], ◌∷◌, ◌≡◌, refl, subst, ap, arith, inl, inr,
  le-cases, length, length-append,
}
use rnd.Threads.State.{
  Worker, Process, begin, open_socket, give_up, close_socket, connects, fails, sends, ends, Runs,
  begun, next,
}
use rnd.Threads.Stages.{EndsStay, sending-connected}
use rnd.Threads.Steps.{passes}
use rnd.RoundClient.State.{tcp_conn, State, init, send_packet, Reachable, started, step}
use rnd.RoundClient.Rounds.{InRound, reachable-InRound, length-rounds}

-- Lines 46-84: one pass of the loop; the log may open or not.
pub data Sends (thread_packets c : ℕ) (s : State) : State → Type 0 where
  pass :
      (opens : Bool)
      → s.i c ≤ thread_packets
      → (s.current_conn ≡ c) × (s.current_packet ≡ s.i c)
      → Sends thread_packets c s (send_packet opens c s)

unfoldable pub round_worker : ℕ → Worker State
round_worker thread_packets = record {
  threads = tcp_conn;
  Sends = Sends thread_packets;
  IsOver = λ c s. thread_packets < s.i c;
}

Sends-over :
    (thread_packets c d : ℕ) (s t : State)
    → Sends thread_packets d s t
    → thread_packets < s.i c
    → thread_packets < t.i c
unfolding send_packet
Sends-over thread_packets c d s t (pass opens more turn) over = ground arith

pub round_worker-EndsStay : (thread_packets : ℕ) → EndsStay (round_worker thread_packets)
unfolding round_worker
round_worker-EndsStay thread_packets = record { stays = Sends-over thread_packets }

Sends-Reachable :
    {thread_packets : ℕ} {connected : ℕ → Bool} (c : ℕ) {s t : State}
    → Sends thread_packets c s t
    → 1 ≤ c
    → c ≤ tcp_conn
    → connected c ≡ true
    → Reachable thread_packets connected s
    → Reachable thread_packets connected t
Sends-Reachable c (pass opens more turn) lo hi up r =
    step opens c r
      (record { is_started = (lo, hi); is_connected = up; has_packets = more; has_turn = turn })

Sends-length :
    (thread_packets c : ℕ) {s t : State}
    → Sends thread_packets c s t
    → length t.sent ≡ length s.sent + 1
unfolding send_packet
Sends-length thread_packets c {s = s} (pass opens more turn) =
    length-append s.sent ((c, s.i c) ∷ [])

module _ {thread_packets : ℕ} {connected : ℕ → Bool} where
  pub runs-Reachable :
      {p : Process State}
      → Runs (round_worker thread_packets) connected init p
      → Reachable thread_packets connected p.shared
  unfolding begin open_socket give_up close_socket round_worker
  runs-Reachable begun = started
  runs-Reachable (next r (connects d lo hi at up)) = runs-Reachable r
  runs-Reachable (next r (fails d lo hi at down)) = runs-Reachable r
  runs-Reachable (next r (sends d lo hi at sent)) =
      let up =
        sending-connected (round_worker thread_packets) connected
          (round_worker-EndsStay thread_packets) r d at in
      Sends-Reachable d sent lo hi up (runs-Reachable r)
  runs-Reachable (next r (ends d lo hi at over)) = runs-Reachable r

  -- The number of packets is that of the round and the turn in it.
  pub length-InRound :
      {s : State} → Reachable thread_packets connected s → InRound (length s.sent) s
  length-InRound {s = s} r =
      let (n, h) = reachable-InRound r in
      let all : n ≡ length s.sent = omega (arith, ap length h.in_order, length-rounds n) in
      subst (λ k. InRound k s) all h

  pub at_most_all :
      {s : State} → Reachable thread_packets connected s → length s.sent ≤ tcp_conn * thread_packets
  unfolding init
  at_most_all started = omega arith
  at_most_all (step {s = s} opens c r can) =
      let h = length-InRound r in
      omega (
        arith,
        Sends-length thread_packets c {s = s} (pass opens can.has_packets can.has_turn),
        h.loops c can.is_started.0 can.is_started.1,
        h.conn,
        can.has_turn.0,
        can.has_packets,
      )

  pub missing_thread :
      {s : State} (missing : ℕ)
      → connected missing ≡ false
      → 1 ≤ missing
      → missing ≤ tcp_conn
      → Reachable thread_packets connected s
      → length s.sent < missing
  unfolding init
  missing_thread missing down lo hi started = omega arith
  missing_thread missing down lo hi (step {s = s} opens c r can) =
      let before = missing_thread missing down lo hi r in
      let h = length-InRound r in
      let more = Sends-length thread_packets c {s = s} (pass opens can.has_packets can.has_turn) in
      elim (le-cases (length s.sent + 2) missing) [
        | inl fits ↦ omega arith
        | inr over ↦
            let same : c ≡ missing = omega (arith, h.conn, can.has_turn.0) in
            let up = subst (λ x. connected x ≡ true) same can.is_connected in absurd (ground arith)
      ]

pub passes-length :
    (thread_packets : ℕ) {connected : ℕ → Bool} {p : Process State}
    (r : Runs (round_worker thread_packets) connected init p)
    → passes r ≡ length p.shared.sent
unfolding round_worker passes begin init open_socket give_up close_socket
passes-length tp begun = refl
passes-length tp (next r (connects c lo hi at up)) = passes-length tp r
passes-length tp (next r (fails c lo hi at down)) = passes-length tp r
passes-length tp (next {p = p} r (sends c lo hi at sent)) =
    omega (arith, passes-length tp r, Sends-length tp c {s = p.shared} sent)
passes-length tp (next r (ends c lo hi at over)) = passes-length tp r
