-- ===== src/Threads/Steps.antt =====
-- How many steps threads can take.
use rnd.Common.{ℕ, zero, suc, ◌+◌, ◌*◌, ◌≤◌, ◌<◌, Bool, ◌≡◌, refl, arith, inl, inr, le-cases}
use rnd.Threads.State.{
  Worker, Stage, starting, sending, returned, Process, begin, enter, open_socket, give_up,
  close_socket, connects, fails, sends, ends, Runs, begun, next,
}

-- The stages that a thread has behind it.
abbrev weight : Stage → ℕ
weight starting = 0
weight sending = 1
weight returned = 2

-- Of the threads 1 to `n`.
total : ℕ → (ℕ → Stage) → ℕ
total zero stage = 0
total (suc n) stage = total n stage + weight (stage (suc n))

total-enter_above :
    (n c : ℕ) (new : Stage) (stage : ℕ → Stage)
    → n < c
    → total n (enter c new stage) ≡ total n stage
unfolding total
total-enter_above zero c new stage h = refl
total-enter_above (suc n) c new stage h = ground (arith, total-enter_above n c new stage)

total-enter :
    (n c : ℕ) (new : Stage) (stage : ℕ → Stage)
    → 1 ≤ c
    → c ≤ n
    → total n (enter c new stage) + weight (stage c) ≡ total n stage + weight new
unfolding total
total-enter zero c new stage lo hi = absurd (omega arith)
total-enter (suc n) c new stage lo hi = elim (le-cases c n) [
  | inl below ↦ ground (arith, total-enter n c new stage lo below)
  | inr last ↦ ground (arith, total-enter_above n c new stage last)
]

weight-le : (stage : Stage) → weight stage ≤ 2
weight-le starting = omega arith
weight-le sending = omega arith
weight-le returned = omega arith

total-le : (n : ℕ) (stage : ℕ → Stage) → total n stage ≤ 2 * n
unfolding total
total-le zero stage = omega arith
total-le (suc n) stage = omega (arith, total-le n stage, weight-le (stage (suc n)))

module _ {S : Type 0} {w : Worker S} {connected : ℕ → Bool} {s : S} where
  unfoldable pub steps : {p : Process S} → Runs w connected s p → ℕ
  steps begun = 0
  steps (next r st) = steps r + 1

  -- The passes of loops among them.
  unfoldable pub passes : {p : Process S} → Runs w connected s p → ℕ
  passes begun = 0
  passes (next r (connects c lo hi at up)) = passes r
  passes (next r (fails c lo hi at down)) = passes r
  passes (next r (sends c lo hi at sent)) = passes r + 1
  passes (next r (ends c lo hi at over)) = passes r

  steps-stages :
      {p : Process S} (r : Runs w connected s p) → steps r ≤ passes r + total w.threads p.stage
  unfolding steps passes begin open_socket give_up close_socket
  steps-stages begun = omega arith
  steps-stages (next {p = p} r (connects c lo hi at up)) =
      ground (arith, at, steps-stages r, total-enter w.threads c sending p.stage lo hi)
  steps-stages (next {p = p} r (fails c lo hi at down)) =
      ground (arith, at, steps-stages r, total-enter w.threads c returned p.stage lo hi)
  steps-stages (next {p = p} r (sends c lo hi at sent)) = omega (arith, steps-stages r)
  steps-stages (next {p = p} r (ends c lo hi at over)) =
      ground (arith, at, steps-stages r, total-enter w.threads c returned p.stage lo hi)

  -- Apart from the passes of its loop a thread takes at most two steps.
  pub steps-passes : {p : Process S} (r : Runs w connected s p) → steps r ≤ passes r + 2 * w.threads
  steps-passes {p = p} r = omega (arith, steps-stages r, total-le w.threads p.stage)
