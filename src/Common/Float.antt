-- ===== src/Common/Float.antt =====
-- C's `double`: the operations that the servers use, as a parameter of the model. No law of them is
-- assumed. `fixed_point` is a concrete choice, for examples.
use Prim.Native.Nat.{ℕ, ◌+◌, ◌*◌, ◌/◌}
use mathlib.Core.Bool.{Bool}
use rnd.Common.Tests.{ltb, leb}
use rnd.Common.Int.{ℤ, pos, sub_ℕ, pos_part, neg_part, ◌+ℤ◌}

pub record FloatOps (D : Type 0) : Type 0 where
  pub of_ℤ : ℤ → D
  pub add : D → D → D
  pub mul : D → D → D
  pub div : D → D → D
  pub lt : D → D → Bool
  pub le : D → D → Bool

abbrev pub of_ℕ : {D : Type 0} → FloatOps D → ℕ → D
of_ℕ fp n = fp.of_ℤ (pos n)

abbrev pub micro : ℕ
micro = 1000000

-- Millionths, rounded towards zero; negative divisors do not occur.
unfoldable pub fixed_point : FloatOps ℤ
unfolding ◌+ℤ◌
fixed_point = record {
  of_ℤ = λ a. sub_ℕ (pos_part a * micro) (neg_part a * micro);
  add = λ a b. a +ℤ b;
  mul = λ a b.
      sub_ℕ ((pos_part a * pos_part b + neg_part a * neg_part b) / micro)
        ((pos_part a * neg_part b + neg_part a * pos_part b) / micro);
  div = λ a b. sub_ℕ (pos_part a * micro / pos_part b) (neg_part a * micro / pos_part b);
  lt = λ a b. ltb (pos_part a + neg_part b) (pos_part b + neg_part a);
  le = λ a b. leb (pos_part a + neg_part b) (pos_part b + neg_part a);
}
