-- ===== src/Threads/State.antt =====
-- The threads of a client from `pthread_create` to `pthread_join`: exp1/client_final.c, lines 20-31, 47-51
-- and 56-64 (in exp1/client8.c, lines 25-40, 86-91 and 109-125). What a thread does in its loop is a
-- parameter.
use rnd.Common.{ℕ, ◌≤◌, Bool, true, false, List, [], ◌∷◌, ◌≡◌, ◌==◌, if◌then◌else◌}

-- `Sends c s t`: thread `c` takes the shared state from `s` to `t` in one pass of its loop. `IsOver c s`:
-- the test of its loop fails.
pub record Worker (S : Type 0) : Type 1 where
  pub threads : ℕ
  pub Sends : ℕ → S → S → Type 0
  pub IsOver : ℕ → S → Type 0

pub data Stage : Type 0 where
  starting : Stage
  sending : Stage
  returned : Stage

-- `opened` and `closed` have the threads whose sockets have been connected and closed.
pub record Process (S : Type 0) : Type 0 where
  pub shared : S
  pub stage : ℕ → Stage
  pub opened : List ℕ
  pub closed : List ℕ

unfoldable pub begin : {S : Type 0} → S → Process S
begin s = record { shared = s; stage = λ c. starting; opened = []; closed = [] }

abbrev pub enter : ℕ → Stage → (ℕ → Stage) → ℕ → Stage
enter c new stage d = if d == c then new else stage d

module _ {S : Type 0} where
  -- `connect` succeeds: the loop begins.
  unfoldable pub open_socket : ℕ → Process S → Process S
  open_socket c p = record p { stage = enter c sending p.stage; opened = c ∷ p.opened }

  -- `connect` fails: the thread returns, and does not close its socket.
  unfoldable pub give_up : ℕ → Process S → Process S
  give_up c p = record p { stage = enter c returned p.stage }

  -- After the loop.
  unfoldable pub close_socket : ℕ → Process S → Process S
  close_socket c p = record p { stage = enter c returned p.stage; closed = c ∷ p.closed }

pub data Step {S : Type 0} (w : Worker S) (connected : ℕ → Bool) (p : Process S)
    : Process S → Type 0 where
  connects :
      (c : ℕ)
      → 1 ≤ c
      → c ≤ w.threads
      → p.stage c ≡ starting
      → connected c ≡ true
      → Step w connected p (open_socket c p)
  fails :
      (c : ℕ)
      → 1 ≤ c
      → c ≤ w.threads
      → p.stage c ≡ starting
      → connected c ≡ false
      → Step w connected p (give_up c p)
  sends :
      (c : ℕ) {s : S}
      → 1 ≤ c
      → c ≤ w.threads
      → p.stage c ≡ sending
      → w.Sends c p.shared s
      → Step w connected p (record p { shared = s })
  ends :
      (c : ℕ)
      → 1 ≤ c
      → c ≤ w.threads
      → p.stage c ≡ sending
      → w.IsOver c p.shared
      → Step w connected p (close_socket c p)

-- What the threads reach from the state at their creation, in whatever order they run.
pub data Runs {S : Type 0} (w : Worker S) (connected : ℕ → Bool) (s : S) : Process S → Type 0 where
  begun : Runs w connected s (begin s)
  next : {p q : Process S} → Runs w connected s p → Step w connected p q → Runs w connected s q

-- What the threads can reach from a state.
pub data Onward {S : Type 0} (w : Worker S) (connected : ℕ → Bool)
    : Process S → Process S → Type 0 where
  here : {p : Process S} → Onward w connected p p
  onward :
      {p q last : Process S}
      → Step w connected p q
      → Onward w connected q last
      → Onward w connected p last

-- `main` has joined every thread.
abbrev pub HasJoined : {S : Type 0} → Worker S → Process S → Type 0
HasJoined w p = (c : ℕ) → 1 ≤ c → c ≤ w.threads → p.stage c ≡ returned

-- No thread can take a step.
abbrev pub IsStuck : {S : Type 0} → Worker S → (ℕ → Bool) → Process S → Type 0
IsStuck {S} w connected p = (q : Process S) → ¬ Step w connected p q
