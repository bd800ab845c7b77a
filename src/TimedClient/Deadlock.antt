-- ===== src/TimedClient/Deadlock.antt =====
-- clientexp2_time.c: the end of one thread's time can leave the other waiting.
use rnd.Common.{ℕ, ◌+◌, ◌≤◌, ◌<◌, Bool, true, ◌≡◌, ◌≢◌, refl, arith}
use rnd.TimedClient.State.{
  experiment_duration, State, init, checking, waiting, finished, set_phase, send_packet, Step, tick,
  go_on, stop, send, Steps, here, next,
}

-- Connection 2 waits for a turn that only connection 1 could pass on, which has ended.
pub record IsBlocked (s : State) : Type 0 where
  pub waits : s.phase 2 ≡ waiting
  pub turn_of_first : s.current_conn ≡ 1
  pub first_ended : s.phase 1 ≡ finished

finished-ne-checking : finished ≢ checking
finished-ne-checking e = ground arith

Step-IsBlocked :
    {start_time : ℕ → ℕ} {s t : State} → Step start_time s t → IsBlocked s → IsBlocked t
unfolding send_packet
Step-IsBlocked (tick t later) h = record {
  waits = h.waits;
  turn_of_first = h.turn_of_first;
  first_ended = h.first_ended;
}
Step-IsBlocked (go_on c at from before) h = record {
  waits = ground (arith, h.waits, h.first_ended);
  turn_of_first = h.turn_of_first;
  first_ended = ground (arith, h.waits, h.first_ended);
}
Step-IsBlocked (stop c at over) h = record {
  waits = ground (arith, h.waits, h.first_ended);
  turn_of_first = h.turn_of_first;
  first_ended = ground (arith, h.waits, h.first_ended);
}
Step-IsBlocked (send c at turn) h = absurd (ground (arith, h.turn_of_first, h.first_ended))

Steps-IsBlocked :
    {start_time : ℕ → ℕ} {s t : State} → Steps start_time s t → IsBlocked s → IsBlocked t
Steps-IsBlocked here h = h
Steps-IsBlocked (next steps st) h = Step-IsBlocked st (Steps-IsBlocked steps h)

-- Both threads send once; the second finds time left and waits, and the first finds its time over.
module _ (start_time : ℕ → ℕ) (connected : ℕ → Bool) (time : ℕ) (first_up : connected 1 ≡ true)
    (second_up : connected 2 ≡ true) (first_started : start_time 1 ≤ time)
    (first_in_time : time < start_time 1 + experiment_duration)
    (second_started : start_time 2 ≤ time)
    (second_in_time : time < start_time 2 + experiment_duration) where
  abbrev both_ready : State
  both_ready = record (init connected) { now = time }

  abbrev one_each : State
  one_each = send_packet 2 (set_phase 2 waiting (send_packet 1 (set_phase 1 waiting both_ready)))

  abbrev blocked : State
  blocked =
      set_phase 1 finished
        (record (set_phase 2 waiting one_each) { now = start_time 1 + experiment_duration })

  one_each_reached : Steps start_time (init connected) one_each
  unfolding init send_packet
  one_each_reached =
      next
        (next
          (next
            (next (next here (tick time (omega arith)))
              (go_on 1 (rw first_up refl) first_started first_in_time))
            (send 1 refl refl))
          (go_on 2 (rw second_up refl) second_started second_in_time))
        (send 2 refl refl)

  blocked_reached : Steps start_time (init connected) blocked
  unfolding init send_packet
  blocked_reached =
      next
        (next (next one_each_reached (go_on 2 refl second_started second_in_time))
          (tick (start_time 1 + experiment_duration) (omega arith)))
        (stop 1 refl (omega arith))

  blocked-IsBlocked : IsBlocked blocked
  unfolding init send_packet
  blocked-IsBlocked = record { waits = refl; turn_of_first = refl; first_ended = refl }

  -- If both threads have connected and at some time both have started and neither's minute is
  -- over, a state is reached from which the second thread waits in every state that can follow.
  pub may_wait_forever :
      (s : State) × Steps start_time (init connected) s
      × ((t : State) → Steps start_time s t → t.phase 2 ≡ waiting)
  may_wait_forever =
      (blocked, blocked_reached, λ t steps. (Steps-IsBlocked steps blocked-IsBlocked).waits)
