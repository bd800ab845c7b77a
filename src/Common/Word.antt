-- ===== src/Common/Word.antt =====
-- `unsigned long` and `uint64_t` arithmetic, with the wrap-around written out.
use Prim.Native.Nat.{ℕ, ◌+◌, ◌-◌, ◌%◌, ◌^◌}

abbrev pub u64_mod : ℕ
u64_mod = 2 ^ 64

abbrev pub u64 : ℕ → ℕ
u64 n = n % u64_mod

-- a - b on 64-bit words: the difference wraps below 0.
abbrev pub sub64 : ℕ → ℕ → ℕ
sub64 a b = u64 (a + (u64_mod - u64 b))
