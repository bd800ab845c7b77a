-- ===== src/MutexClient/Packets.antt =====
-- exp1/client7.c: the packets of each connection and the logs.
use rnd.Common.{
  ℕ, zero, suc, ◌+◌, ◌-◌, ◌≤◌, ◌<◌, Bool, true, false, List, [], ◌∷◌, ◌++◌, ◌≡◌, refl, sym, subst,
  ap, ◌∙◌, arith, leb, ◌==◌, inl, inr, Bool-cases, ==→≡, ==-self,
}
use rnd.Common.Packets.{of_connection, of_connection-append}
use mathlib.Core.List.{append-nil}
use rnd.Common.Int.{ℤ, pos}
use rnd.MutexClient.State.{
  connections, State, init, thread_args, send_packet, CanSend, Reachable, started, step, up_to,
}

-- Packets 1 to `n` of a connection.
abbrev pub numbered : ℕ → ℕ → List (ℕ × ℕ)
numbered c zero = []
numbered c (suc n) = numbered c n ++ (c, n + 1) ∷ []

-- Of the thread with the number `i`, when it has sent `n` packets.
record HasSent (i n : ℕ) (s : State) : Type 0 where
  on_wire : of_connection (i + 1) s.sent ≡ numbered (i + 1) n
  in_file : s.logfile i ≡ numbered (i + 1) n
  is_next : s.next i ≡ n + 1

init-HasSent : (i : ℕ) → HasSent i 0 init
unfolding init
init-HasSent i = record { on_wire = refl; in_file = refl; is_next = refl }

up_to-≤ : (i m : ℕ) → up_to i (pos m) ≡ true → i ≤ m
up_to-≤ i m h = ground arith

module _ (p : ℤ) where
  own-HasSent :
      (i n : ℕ) (s : State) → HasSent i n s → HasSent i (suc n) (send_packet i (thread_args p i) s)
  unfolding send_packet thread_args
  own-HasSent i n s h = record {
    on_wire =
        of_connection-append (i + 1) s.sent ((i + 1, s.next i) ∷ [])
        ∙ rw (h.on_wire, h.is_next, ==-self (i + 1)) refl;
    in_file = rw (==-self i, h.in_file, h.is_next) refl;
    is_next = ground (arith, h.is_next);
  }

  other-HasSent :
      (i j n : ℕ) (s : State)
      → (i == j) ≡ false
      → HasSent i n s
      → HasSent i n (send_packet j (thread_args p j) s)
  unfolding send_packet thread_args
  other-HasSent i j n s other h =
      let apart : (j + 1 == i + 1) ≡ false = ground arith in
      record {
        on_wire =
            of_connection-append (i + 1) s.sent ((j + 1, s.next j) ∷ [])
            ∙ rw (h.on_wire, apart) (append-nil (numbered (i + 1) n));
        in_file = rw other h.in_file;
        is_next = rw other h.is_next;
      }

  step-HasSent :
      (i j : ℕ) (s : State)
      → (n : ℕ) × HasSent i n s
      → (n : ℕ) × HasSent i n (send_packet j (thread_args p j) s)
  step-HasSent i j s (n, h) = elim (Bool-cases (i == j)) [
    | inl same ↦ (
      suc n,
      subst (λ k. HasSent i (suc n) (send_packet k (thread_args p k) s)) (==→≡ i j same)
          (own-HasSent i n s h),
    )
    | inr other ↦ (n, other-HasSent i j n s other h)
  ]

module _ {p : ℤ} {opened : ℕ → Bool} where
  reachable-HasSent : {s : State} → Reachable p opened s → (i : ℕ) → (n : ℕ) × HasSent i n s
  reachable-HasSent started i = (0, init-HasSent i)
  reachable-HasSent (step {s = s} j r c) i = step-HasSent p i j s (reachable-HasSent r i)

  -- In any state that the threads reach, in whatever order they send, the file of each thread
  -- has the packets that its connection carries, in the same order, and they are those from 1 to
  -- below the thread's loop variable.
  pub logs_agree :
      {s : State}
      → Reachable p opened s
      → (i : ℕ)
      → (of_connection (i + 1) s.sent ≡ s.logfile i)
        × (s.logfile i ≡ numbered (i + 1) (s.next i - 1))
  logs_agree {s = s} r i =
      let (n, h) = reachable-HasSent r i in
      let before : n ≡ s.next i - 1 = omega (arith, h.is_next) in
      (h.on_wire ∙ sym h.in_file, h.in_file ∙ ap (numbered (i + 1)) before)

module _ {packets : ℕ} {opened : ℕ → Bool} where
  next-bound :
      {s : State}
      → Reachable (pos packets) opened s
      → (i : ℕ) → (1 ≤ s.next i) × (s.next i ≤ packets + 1)
  unfolding init send_packet thread_args
  next-bound started i = (omega arith, omega arith)
  next-bound (step {s = s} j r c) i =
      let before = next-bound r i in
      let more : s.next j ≤ packets = up_to-≤ (s.next j) packets c.has_packets in
      elim (Bool-cases (i == j)) [
        | inl same ↦
            let more_here = subst (λ k. s.next k ≤ packets) (sym (==→≡ i j same)) more in
            rw same (omega arith, omega arith)
        | inr other ↦ rw other before
      ]

  -- If both threads have opened their connection and their file and no thread can send any more,
  -- then each connection has carried its packets from 1 to the number given to the program.
  pub all_sent :
      {s : State}
      → ((i : ℕ) → i < connections → opened i ≡ true)
      → Reachable (pos packets) opened s
      → ((i : ℕ) → ¬ CanSend (pos packets) opened i s)
      → (i : ℕ) → i < connections
      → of_connection (i + 1) s.sent ≡ numbered (i + 1) packets
  unfolding thread_args
  all_sent {s = s} all r none i lt =
      let (same, from_1) = logs_agree r i in
      let bound = next-bound r i in
      elim (Bool-cases (leb (s.next i) packets)) [
        | inl more ↦
            absurd (none i (record { is_started = lt; is_opened = all i lt; has_packets = more }))
        | inr done ↦
            let last : s.next i - 1 ≡ packets = ground arith in
            same ∙ from_1 ∙ ap (numbered (i + 1)) last
      ]

  first_sends :
      (n : ℕ)
      → opened 0 ≡ true
      → n ≤ packets
      → (s : State) × Reachable (pos packets) opened s
        × (s.next 0 ≡ n + 1)
        × (s.sent ≡ numbered 1 n)
  unfolding init send_packet thread_args
  first_sends zero up le = (init, started, refl, refl)
  first_sends (suc n) up le =
      let (s, r, i, sent) = first_sends n up (omega arith) in
      let can : CanSend (pos packets) opened 0 s = record {
        is_started = omega arith;
        is_opened = up;
        has_packets = ground arith;
      } in
      (send_packet 0 (thread_args (pos packets) 0) s, step 0 r can, omega arith, rw (sent, i) refl)

  -- If the first thread has opened its connection and its file, a state can be reached in which
  -- it has sent all of its packets and nothing else was sent.
  pub one_thread_sends :
      opened 0 ≡ true
      → (s : State) × Reachable (pos packets) opened s × (s.sent ≡ numbered 1 packets)
  one_thread_sends up = let (s, r, i, sent) = first_sends packets up (omega arith) in (s, r, sent)
