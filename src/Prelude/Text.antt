-- ===== src/Prelude/Text.antt =====
-- What the program uses of Go's package strings, on texts as lists of characters. The program
-- passes valid UTF-8, on which these agree with Go's functions on bytes.
pub mod Laws
use Prim.Native.Nat.{ℕ, ◌+◌}
use Prim.Native.Char.{Char, code}
use Prim.Native.String
use Prim.Native.String.{String, [], ◌∷◌}
use mathlib.Core.Bool.{Bool, true, ◌||◌}
use mathlib.Core.Option
use mathlib.Core.Option.{Option, none, some, get_or}
use text.Mathlib.Text.{◌==◌}
use agents_kong.Prelude.Tests.{nat_eq, is_some, if◌then◌else◌}
pub use Prim.Native.String.{◌++◌ as ◌<>◌}

-- strings.CutPrefix: what follows the prefix, if the text begins with it
unfoldable pub cut_prefix : String → String → Option String
cut_prefix s [] = some s
cut_prefix [] (c ∷ p) = none
cut_prefix (d ∷ s) (c ∷ p) = if nat_eq (code c) (code d) then cut_prefix s p else none

-- strings.CutSuffix: what stands before the suffix, if the text ends with it
unfoldable pub cut_suffix : String → String → Option String
cut_suffix [] suffix = if suffix == "" then some "" else none
cut_suffix (c ∷ s) suffix =
    if (c ∷ s) == suffix then some "" else Option.map (λ t. c ∷ t) (cut_suffix s suffix)

unfoldable pub has_prefix : String → String → Bool
unfolding cut_prefix
has_prefix s p = is_some (cut_prefix s p)

unfoldable pub trim_prefix : String → String → String
unfolding cut_prefix
trim_prefix s p = get_or (cut_prefix s p) s

unfoldable pub has_suffix : String → String → Bool
unfolding cut_suffix
has_suffix s suffix = is_some (cut_suffix s suffix)

unfoldable pub trim_suffix : String → String → String
unfolding cut_suffix
trim_suffix s suffix = get_or (cut_suffix s suffix) s

unfoldable pub contains : String → String → Bool
unfolding has_prefix
contains [] sub = has_prefix [] sub
contains (c ∷ s) sub = has_prefix (c ∷ s) sub || contains s sub

-- the character that stands in the second text where `c` stands in the first
translate : String → String → Char → Char
translate [] _ c = c
translate (u ∷ us) [] c = c
translate (u ∷ us) (l ∷ ls) c = if nat_eq (code u) (code c) then l else translate us ls c

-- strings.ToLower, on the letters of ASCII, which are those of the names of intervals
unfoldable pub to_lower : String → String
unfolding translate
to_lower [] = ""
to_lower (c ∷ s) =
    translate "ABCDEFGHIJKLMNOPQRSTUVWXYZ" "abcdefghijklmnopqrstuvwxyz" c ∷ to_lower s
