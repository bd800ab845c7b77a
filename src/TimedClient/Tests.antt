-- ===== src/TimedClient/Tests.antt =====
-- clientexp2_time.c: the theorems at concrete times.
use rnd.Common.{ℕ, ◌*◌, ◌≡◌, Bool, true, refl, arith}
use rnd.TimedClient.State.{
  State, init, waiting, tick, go_on, send, Steps, here, next, send_packet, set_phase,
}
use rnd.TimedClient.Turns.{Alternates, connections_alternate}
use rnd.TimedClient.Deadlock.{may_wait_forever}

-- The second thread starts half a second after the first.
abbrev half_second : ℕ → ℕ
half_second c = c * 500000

abbrev both_connected : ℕ → Bool
both_connected c = true

abbrev first_sent : State
first_sent = send_packet 1 (set_phase 1 waiting (record (init both_connected) { now = 700000 }))

first_sent_reached : Steps half_second (init both_connected) first_sent
unfolding init send_packet
first_sent_reached =
    next (next (next here (tick 700000 (omega arith))) (go_on 1 refl (omega arith) (omega arith)))
      (send 1 refl refl)

connections_alternate_example : (n : ℕ) × Alternates n first_sent
connections_alternate_example = connections_alternate both_connected first_sent_reached

may_wait_forever_example :
    (s : State) × Steps half_second (init both_connected) s
    × ((t : State) → Steps half_second s t → t.phase 2 ≡ waiting)
may_wait_forever_example =
    may_wait_forever half_second both_connected 2000000 refl refl (omega arith) (omega arith)
      (omega arith) (omega arith)
