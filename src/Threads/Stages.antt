-- ===== src/Threads/Stages.antt =====
-- What each thread's stage says of it, for threads whose end another thread's sending does not undo.
use rnd.Common.{
  ℕ, suc, ◌≤◌, ◌⊎◌, Bool, true, false, List, [], ◌∷◌, ◌≡◌, refl, arith, ◌==◌, if◌then◌else◌, ==→≡,
  ==-self, Bool-cases, inl, inr, sym, subst,
}
use rnd.Threads.State.{
  Worker, Stage, starting, sending, returned, Process, begin, open_socket, give_up, close_socket,
  Step, connects, fails, sends, ends, Runs, begun, next, IsStuck, HasJoined,
}

-- What the loop has to grant.
pub record EndsStay {S : Type 0} (w : Worker S) : Type 0 where
  pub stays : (c d : ℕ) (s t : S) → w.Sends d s t → w.IsOver c s → w.IsOver c t

abbrev pub count : ℕ → List ℕ → ℕ
count c [] = 0
count c (d ∷ ds) = let rest = count c ds in if c == d then suc rest else rest

-- Of thread `c`, in each of its stages.
abbrev pub Lives : {S : Type 0} → Worker S → (ℕ → Bool) → ℕ → S → Stage → ℕ → ℕ → Type 0
Lives w connected c s starting opened closed = (opened ≡ 0) × (closed ≡ 0)
Lives w connected c s sending opened closed = (connected c ≡ true) × (opened ≡ 1) × (closed ≡ 0)
Lives w connected c s returned opened closed =
    (opened ≡ closed) × (opened ≤ 1) × (connected c ≡ true → w.IsOver c s × (closed ≡ 1))

module _ {S : Type 0} (w : Worker S) (connected : ℕ → Bool) where
  abbrev pub IsLiving : ℕ → Process S → Type 0
  IsLiving c p = Lives w connected c p.shared (p.stage c) (count c p.opened) (count c p.closed)

  at_stage :
      (c : ℕ) (p : Process S) (stage : Stage)
      → p.stage c ≡ stage
      → IsLiving c p
      → Lives w connected c p.shared stage (count c p.opened) (count c p.closed)
  at_stage c p stage at h =
      subst (λ now. Lives w connected c p.shared now (count c p.opened) (count c p.closed)) at h

  own-connects :
      (c : ℕ) (p : Process S)
      → p.stage c ≡ starting
      → connected c ≡ true
      → IsLiving c p
      → IsLiving c (open_socket c p)
  unfolding open_socket
  own-connects c p at up h =
      let (opened, closed) = at_stage c p starting at h in rw (==-self c) (up, omega arith, closed)

  own-fails :
      (c : ℕ) (p : Process S)
      → p.stage c ≡ starting
      → connected c ≡ false
      → IsLiving c p
      → IsLiving c (give_up c p)
  unfolding give_up
  own-fails c p at down h =
      let (opened, closed) = at_stage c p starting at h in
      rw (==-self c) (omega arith, omega arith, λ up. absurd (ground (arith, up, down)))

  own-ends :
      (c : ℕ) (p : Process S)
      → p.stage c ≡ sending
      → w.IsOver c p.shared
      → IsLiving c p
      → IsLiving c (close_socket c p)
  unfolding close_socket
  own-ends c p at over h =
      let (up, opened, closed) = at_stage c p sending at h in
      rw (==-self c) (omega arith, omega arith, λ up. (over, omega arith))

  sent-Lives :
      (c : ℕ) (s t : S) (stage : Stage) (o k : ℕ)
      → (w.IsOver c s → w.IsOver c t)
      → Lives w connected c s stage o k
      → Lives w connected c t stage o k
  sent-Lives c s t starting o k keep h = h
  sent-Lives c s t sending o k keep h = h
  sent-Lives c s t returned o k keep (a, b, h) = (a, b, λ up. (keep (h up).0, (h up).1))

  by_thread :
      (c d : ℕ) (p q : Process S)
      → (IsLiving d p → IsLiving d q)
      → ((c == d) ≡ false → IsLiving c p → IsLiving c q)
      → IsLiving c p
      → IsLiving c q
  by_thread c d p q own other h = elim (Bool-cases (c == d)) [
    | inl same ↦
        let e = ==→≡ c d same in
        subst (λ b. IsLiving b q) (sym e) (own (subst (λ b. IsLiving b p) e h))
    | inr apart ↦ other apart h
  ]

  Step-IsLiving :
      EndsStay w → (c : ℕ) {p q : Process S} → Step w connected p q → IsLiving c p → IsLiving c q
  unfolding open_socket give_up close_socket
  Step-IsLiving law c {p = p} (connects d lo hi at up) =
      by_thread c d p (open_socket d p) (own-connects d p at up) (λ apart h. rw apart h)
  Step-IsLiving law c {p = p} (fails d lo hi at down) =
      by_thread c d p (give_up d p) (own-fails d p at down) (λ apart h. rw apart h)
  Step-IsLiving law c {p = p} (sends d {s = s} lo hi at sent) =
      sent-Lives c p.shared s (p.stage c) (count c p.opened) (count c p.closed)
        (law.stays c d p.shared s sent)
  Step-IsLiving law c {p = p} (ends d lo hi at over) =
      by_thread c d p (close_socket d p) (own-ends d p at over) (λ apart h. rw apart h)

  begin-IsLiving : (c : ℕ) (s : S) → IsLiving c (begin s)
  unfolding begin
  begin-IsLiving c s = (refl, refl)

  pub Runs-IsLiving :
      EndsStay w → (c : ℕ) {s : S} {p : Process S} → Runs w connected s p → IsLiving c p
  Runs-IsLiving law c {s = s} begun = begin-IsLiving c s
  Runs-IsLiving law c (next r st) = Step-IsLiving law c st (Runs-IsLiving law c r)

  -- For threads whose loops stay over: in any state reached each socket that has been closed was
  -- connected, none is connected more than once, and a thread that has returned has closed the
  -- socket that it connected.
  pub sockets_closed_once :
      EndsStay w
      → {s : S} {p : Process S} → Runs w connected s p
      → (c : ℕ)
      → (count c p.closed ≤ count c p.opened)
        × (count c p.opened ≤ 1)
        × (p.stage c ≡ returned → count c p.closed ≡ count c p.opened)
  sockets_closed_once law {p = p} r c = go (p.stage c) refl (Runs-IsLiving law c r)
    where
      go :
          (stage : Stage)
          → p.stage c ≡ stage
          → Lives w connected c p.shared stage (count c p.opened) (count c p.closed)
          → (count c p.closed ≤ count c p.opened)
            × (count c p.opened ≤ 1)
            × (p.stage c ≡ returned → count c p.closed ≡ count c p.opened)
      go starting at h =
          (omega (arith, h.0, h.1), omega (arith, h.0), λ ret. omega (arith, h.0, h.1))
      go sending at h = (omega (arith, h.1, h.2), omega (arith, h.1), λ ret. cc)
      go returned at h = (omega (arith, h.0), h.1, λ ret. sym h.0)

  -- Where no thread can take a step, each has returned, or its loop goes on and it cannot send.
  pub stuck-stage :
      EndsStay w
      → {s : S} {p : Process S} → Runs w connected s p
      → IsStuck w connected p
      → (c : ℕ) → 1 ≤ c
      → c ≤ w.threads
      → (p.stage c ≡ returned)
        ⊎ ((p.stage c ≡ sending) × ¬ w.IsOver c p.shared × ((t : S) → ¬ w.Sends c p.shared t))
  stuck-stage law {p = p} r stuck c lo hi = go (p.stage c) refl
    where
      go :
          (stage : Stage)
          → p.stage c ≡ stage
          → (p.stage c ≡ returned)
            ⊎ ((p.stage c ≡ sending) × ¬ w.IsOver c p.shared × ((t : S) → ¬ w.Sends c p.shared t))
      go starting at = elim (Bool-cases (connected c)) [
        | inl up ↦ absurd (stuck (open_socket c p) (connects c lo hi at up))
        | inr down ↦ absurd (stuck (give_up c p) (fails c lo hi at down))
      ]
      go sending at = inr (
        at,
        λ over. stuck (close_socket c p) (ends c lo hi at over),
        λ t sent. stuck (record p { shared = t }) (sends c lo hi at sent),
      )
      go returned at = inl at

  -- A thread that has connected and returned has ended its loop.
  pub returned-over :
      EndsStay w
      → {s : S} {p : Process S} → Runs w connected s p
      → (c : ℕ) → connected c ≡ true
      → p.stage c ≡ returned
      → w.IsOver c p.shared
  returned-over law {p = p} r c up at = ((at_stage c p returned at (Runs-IsLiving law c r)).2 up).0

  -- And it has closed its socket.
  pub returned-closed :
      EndsStay w
      → {s : S} {p : Process S} → Runs w connected s p
      → (c : ℕ) → connected c ≡ true
      → p.stage c ≡ returned
      → count c p.closed ≡ 1
  returned-closed law {p = p} r c up at =
      ((at_stage c p returned at (Runs-IsLiving law c r)).2 up).1

  -- A thread that sends has connected.
  pub sending-connected :
      EndsStay w
      → {s : S} {p : Process S} → Runs w connected s p
      → (c : ℕ) → p.stage c ≡ sending
      → connected c ≡ true
  sending-connected law {p = p} r c at = (at_stage c p sending at (Runs-IsLiving law c r)).0

  -- When `main` has joined all threads there is nothing left to do.
  pub joined-IsStuck : {p : Process S} → HasJoined w p → IsStuck w connected p
  joined-IsStuck joined q (connects c lo hi at up) = ground (arith, at, joined c lo hi)
  joined-IsStuck joined q (fails c lo hi at down) = ground (arith, at, joined c lo hi)
  joined-IsStuck joined q (sends c lo hi at sent) = ground (arith, at, joined c lo hi)
  joined-IsStuck joined q (ends c lo hi at over) = ground (arith, at, joined c lo hi)
