-- ===== src/BatchSender/Main.antt =====
-- non.c, lines 31-172: `main` from its start to its return.
use rnd.Common.{ℕ, Bool, not, Option, none, some, List, [], ◌≡◌, arith, if◌then◌else◌}
use rnd.Common.Int.{ℤ}
use rnd.Common.Float.{FloatOps}
use rnd.BatchSender.State.{Attempt, runtime, msgs_per_conn, init, run, goes_on}
use rnd.BatchSender.Report.{Line, report}

-- The buffers allocated and not freed; the status, if `main` has ended; and what it has printed at its end.
pub record Process (D : Type 0) : Type 0 where
  pub held : ℕ
  pub status : Option ℕ
  pub printed : List (Line D)

module _ {D : Type 0} (fp : FloatOps D) where
  -- Lines 90-171.
  unfoldable pub connect_and_report : ℕ → ℤ → List (Attempt D) → Process D
  connect_and_report time msgs attempts =
      let c = run fp time msgs attempts (init fp) in
      if goes_on fp time msgs c
      then record { held = 1; status = none; printed = [] }
      else record { held = 0; status = some 0; printed = report fp time c }

  -- Lines 31-171: the second and the third argument of the program, whether `malloc` succeeds, and what
  -- the loop meets.
  unfoldable pub main : Option ℤ → Option ℤ → Bool → List (Attempt D) → Process D
  unfolding connect_and_report
  main time_arg msgs_arg memory attempts =
      if not memory
      then record { held = 0; status = some 1; printed = [] }
      else connect_and_report (runtime time_arg) (msgs_per_conn msgs_arg) attempts

  -- If main has ended with a status, it holds no buffer.
  pub batch_main_frees :
      (time_arg msgs_arg : Option ℤ) (memory : Bool) (attempts : List (Attempt D)) (status : ℕ)
      → (main time_arg msgs_arg memory attempts).status ≡ some status
      → (main time_arg msgs_arg memory attempts).held ≡ 0
  unfolding main connect_and_report
  batch_main_frees time_arg msgs_arg memory attempts status h = ground (arith, h)
