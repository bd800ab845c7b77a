-- ===== src/Common/Setup.antt =====
-- The calls that open a server's socket and its epoll instance, in server_epx3.c and serverexp2.c.
use Prim.Native.Nat.{ℕ}
use mathlib.Core.Bool.{Bool}
use mathlib.Core.List.{List, []}
use mathlib.Core.Option.{Option, none}

-- What the calls return: the descriptors, or none; and whether the others succeed.
pub record Calls : Type 0 where
  pub socket : Option ℕ
  pub binds : Bool
  pub listens : Bool
  pub epoll_create : Option ℕ
  pub registers : Bool

-- The descriptors opened and closed, in order; the arrays allocated and not freed; and the server's and
-- the epoll instance's descriptors, if the program has not called `exit`.
pub record Setup : Type 0 where
  pub opened : List ℕ
  pub closed : List ℕ
  pub held : ℕ
  pub ready : Option (ℕ × ℕ)

-- `exit` before anything is open.
abbrev pub not_started : Setup
not_started = record { opened = []; closed = []; held = 0; ready = none }
