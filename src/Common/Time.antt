-- ===== src/Common/Time.antt =====
-- `struct timeval`.
use Prim.Native.Nat.{ℕ}

pub record Timeval : Type 0 where
  pub tv_sec : ℕ
  pub tv_usec : ℕ

abbrev pub time_zero : Timeval
time_zero = record { tv_sec = 0; tv_usec = 0 }
