-- ===== src/Common/Text.antt =====
-- C strings, as bytes.
use Prim.Native.Nat.{ℕ}
use mathlib.Core.List.{List, [], ◌∷◌}
use rnd.Common.Tests.{◌==◌, if◌then◌else◌}

-- The characters before the first NUL.
unfoldable pub c_string : List ℕ → List ℕ
c_string [] = []
c_string (c ∷ cs) = if c == 0 then [] else c ∷ c_string cs
