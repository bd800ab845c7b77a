-- ===== src/MutexClient/Tests.antt =====
-- exp1/client7.c: the theorems at concrete runs of the threads.
use rnd.Common.{ℕ, ◌-◌, Bool, true, [], ◌∷◌, ◌≡◌, refl, arith}
use rnd.Common.Packets.{of_connection}
use rnd.Common.Int.{pos}
use rnd.MutexClient.State.{State, init, thread_args, send_packet, Reachable, started, step}
use rnd.MutexClient.Packets.{numbered, logs_agree}

abbrev both_opened : ℕ → Bool
both_opened i = true

-- One packet each, the second thread first.
abbrev second_sent : State
second_sent = send_packet 1 (thread_args (pos 1) 1) init

abbrev both_sent : State
both_sent = send_packet 0 (thread_args (pos 1) 0) second_sent

second_sent-Reachable : Reachable (pos 1) both_opened second_sent
unfolding init thread_args
second_sent-Reachable =
    step 1 started (record { is_started = omega arith; is_opened = refl; has_packets = refl })

both_sent-Reachable : Reachable (pos 1) both_opened both_sent
unfolding init thread_args send_packet
both_sent-Reachable =
    step 0 second_sent-Reachable
      (record { is_started = omega arith; is_opened = refl; has_packets = refl })

both_sent-order : both_sent.sent ≡ (2, 1) ∷ (1, 1) ∷ []
unfolding init thread_args send_packet
both_sent-order = refl

logs_agree_example :
    (of_connection 2 both_sent.sent ≡ both_sent.logfile 1)
    × (both_sent.logfile 1 ≡ numbered 2 (both_sent.next 1 - 1))
logs_agree_example = logs_agree both_sent-Reachable 1
