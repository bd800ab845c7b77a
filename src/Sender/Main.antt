-- ===== src/Sender/Main.antt =====
-- per.c, lines 27-150: `main` from its start to its return.
use rnd.Common.{
  ℕ, Bool, true, false, not, Option, none, some, List, [], ◌∷◌, ◌≡◌, arith, if◌then◌else◌,
  Bool-cases, inl, inr,
}
use rnd.Common.Int.{ℤ}
use rnd.Common.Float.{FloatOps}
use rnd.Sender.State.{
  Sender, room, would_block, failed, Input, signal, pass, max_runtime, init, send_some, goes_on,
  send_all,
}
use rnd.Sender.Report.{Line, report}

-- What `socket` returns, and whether `connect` and `malloc` succeed.
pub record Calls : Type 0 where
  pub socket : Option ℕ
  pub connects : Bool
  pub has_memory : Bool

-- The sockets opened and closed; the buffers allocated and not freed; the status, if `main` has ended; and
-- what it has printed at its end.
pub record Process (D : Type 0) : Type 0 where
  pub opened : List ℕ
  pub closed : List ℕ
  pub held : ℕ
  pub status : Option ℕ
  pub printed : List (Line D)

module _ {D : Type 0} (fp : FloatOps D) (max : ℕ) where
  -- Whether the loop has ended: by its test, or by a `send` that fails.
  unfoldable pub has_ended : List (Input D) → Sender D → Bool
  has_ended [] s = not (goes_on fp max s)
  has_ended (signal ∷ is) s = has_ended is (record s { running = false })
  has_ended (pass failed now ∷ is) s = true
  has_ended (pass would_block now ∷ is) s =
      let rest = has_ended is s in if goes_on fp max s then rest else true
  has_ended (pass (room n) now ∷ is) s =
      let rest = has_ended is (send_some n now s) in if goes_on fp max s then rest else true

  -- Where the loop has not ended, its test holds for the state that the sends leave.
  pub not_ended :
      (is : List (Input D)) (s : Sender D)
      → has_ended is s ≡ false
      → goes_on fp max (send_all fp max is s) ≡ true
  unfolding has_ended send_all
  not_ended [] s h = ground (arith, h)
  not_ended (signal ∷ is) s h = not_ended is (record s { running = false }) h
  not_ended (pass failed now ∷ is) s h = absurd (ground (arith, h))
  not_ended (pass would_block now ∷ is) s h = elim (Bool-cases (goes_on fp max s)) [
    | inl on ↦ rw on (not_ended is s (rw on at h))
    | inr off ↦ absurd (ground (arith, h, off))
  ]
  not_ended (pass (room n) now ∷ is) s h = elim (Bool-cases (goes_on fp max s)) [
    | inl on ↦ rw on (not_ended is (send_some n now s) (rw on at h))
    | inr off ↦ absurd (ground (arith, h, off))
  ]

module _ {D : Type 0} (fp : FloatOps D) where
  -- `close(sock); exit(EXIT_FAILURE);`
  abbrev pub give_up : ℕ → Process D
  give_up sock = record {
    opened = sock ∷ [];
    closed = sock ∷ [];
    held = 0;
    status = some 1;
    printed = [];
  }

  -- Lines 101-149, with the time that the clock gives at line 136.
  unfoldable pub send_and_report : ℕ → ℕ → List (Input D) → D → Process D
  send_and_report sock max is elapsed =
      if has_ended fp max is (init fp)
      then record {
        opened = sock ∷ [];
        closed = sock ∷ [];
        held = 0;
        status = some 0;
        printed = report fp max elapsed (send_all fp max is (init fp));
      }
      else record { opened = sock ∷ []; closed = []; held = 1; status = none; printed = [] }

  -- Lines 27-149: the second argument of the program, the calls, and what the loop meets.
  unfoldable pub main : Option ℤ → Calls → List (Input D) → D → Process D
  unfolding send_and_report
  main arg c is elapsed = elim c.socket [
    | none ↦ record { opened = []; closed = []; held = 0; status = some 1; printed = [] }
    | some sock ↦
        if not c.connects
        then give_up sock
        else if not c.has_memory
        then give_up sock
        else send_and_report sock (max_runtime arg) is elapsed
  ]

  -- Whatever the arguments, the calls and the loop meet: if main has ended with a status, it has
  -- closed the socket that it has opened, if any, and holds no buffer.
  pub sender_releases :
      (arg : Option ℤ) (c : Calls) (is : List (Input D)) (elapsed : D) (status : ℕ)
      → (main arg c is elapsed).status ≡ some status
      → ((main arg c is elapsed).closed ≡ (main arg c is elapsed).opened)
        × ((main arg c is elapsed).held ≡ 0)
  unfolding main send_and_report
  sender_releases arg c is elapsed status h = (ground (arith, h), ground (arith, h))
