-- ===== src/TimedClient/Report.antt =====
-- clientexp2_time.c, lines 121-134: what `main` prints when both threads have ended.
use rnd.Common.{
  ℕ, zero, suc, refl, ap, ◌%◌, ◌+◌, ◌*◌, Bool, ◌||◌, List, [], ◌∷◌, ◌++◌, ◌≡◌, ltb, if◌then◌else◌,
  arith, length, length-append,
}
use rnd.Common.Word.{u64}
use rnd.Common.Float.{FloatOps, of_ℕ}
use rnd.TimedClient.State.{tcp_conn, State, init, Steps}
use rnd.TimedClient.Turns.{turns, connections_alternate}

abbrev pub min_packets : ℕ
min_packets = 16000000

pub data Line (D : Type 0) : Type 0 where
  responses : ℕ → ℕ → ℕ → Line D
  warning : Line D
  total_time : D → Line D
  throughput_mbps : D → Line D
  throughput_packets : D → Line D

-- Line 122.
unfoldable pub total_responses : State → ℕ
total_responses s = s.successful_responses 1 + s.successful_responses 2

-- Line 130.
unfoldable pub total_data_bytes : State → ℕ
total_data_bytes s = total_responses s * 480

-- Lines 121-134; `time` is the total time.
unfoldable pub report : {D : Type 0} → FloatOps D → D → State → List (Line D)
report fp time s =
    let low =
      ltb (s.successful_responses 1) min_packets || ltb (s.successful_responses 2) min_packets in
    responses (s.successful_responses 1) (s.successful_responses 2) (total_responses s)
    ∷ ((if low then warning ∷ [] else [])
        ++ total_time time
          ∷ throughput_mbps
              (fp.div (of_ℕ fp (u64 (total_data_bytes s * 8))) (fp.mul time (of_ℕ fp 1000000)))
          ∷ throughput_packets (fp.div (of_ℕ fp (total_responses s)) time)
          ∷ [])

length-turns : (n : ℕ) → length (turns n) ≡ n
length-turns zero = refl
length-turns (suc n) =
    omega (arith, length-append (turns n) ((n % tcp_conn + 1) ∷ []), length-turns n)

-- In any state reached the bytes reported are eight times the sixty of each packet sent.
pub report_overstates :
    {start_time : ℕ → ℕ} (connected : ℕ → Bool) {s : State}
    → Steps start_time (init connected) s
    → total_data_bytes s ≡ 8 * (60 * length s.sent)
unfolding total_data_bytes total_responses
report_overstates connected steps =
    let (n, h) = connections_alternate connected steps in
    omega (arith, h.of_first, h.of_second, ap length h.in_order, length-turns n)
