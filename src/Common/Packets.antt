-- ===== src/Common/Packets.antt =====
-- Packets as the clients send them: the number of the connection and the number of the packet.
use Prim.Native.Nat.{ℕ}
use mathlib.Core.Path.{◌≡◌, refl, ap}
use mathlib.Core.Logic.{inl, inr}
use mathlib.Core.List.{List, [], ◌∷◌, ◌++◌}
use rnd.Common.Tests.{◌==◌, if◌then◌else◌, Bool-cases}

-- The packets of one connection, in the order in which they were sent.
abbrev pub of_connection : ℕ → List (ℕ × ℕ) → List (ℕ × ℕ)
of_connection c [] = []
of_connection c ((d, n) ∷ ps) =
    let rest = of_connection c ps in if d == c then (d, n) ∷ rest else rest

pub of_connection-append :
    (c : ℕ) (ps qs : List (ℕ × ℕ))
    → of_connection c (ps ++ qs) ≡ of_connection c ps ++ of_connection c qs
of_connection-append c [] qs = refl
of_connection-append c ((d, n) ∷ ps) qs = elim (Bool-cases (d == c)) [
  | inl same ↦ rw same (ap (λ rest. (d, n) ∷ rest) (of_connection-append c ps qs))
  | inr other ↦ rw other (of_connection-append c ps qs)
]
