-- ===== src/Prelude/Counts.antt =====
-- How often a text stands in a list.
use Prim.Native.Nat.{ℕ, ◌+◌}
use Prim.Native.String.{String}
use mathlib.Core.List.{List, [], ◌∷◌}
use text.Mathlib.Text.{◌==◌}
use agents_kong.Prelude.Tests.{if◌then◌else◌}

unfoldable pub count : String → List String → ℕ
count d [] = 0
count d (x ∷ xs) = (if x == d then 1 else 0) + count d xs
