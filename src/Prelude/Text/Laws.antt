-- ===== src/Prelude/Text/Laws.antt =====
-- Laws of the text functions.
use Prim.Native.Char.{Char}
use Prim.Native.String.{String, [], ◌∷◌, count}
use mathlib.Core.Path.{◌≡◌, refl, ap}
use mathlib.Core.Logic.{inl, inr}
use mathlib.Core.Bool.{true, false}
use mathlib.Core.Option.{some}
use native.Mathlib.Omega.{arith}
use text.Mathlib.Text.{◌==◌}
use text.Mathlib.TextEquality.{eq_iff}
use text.Mathlib.TextLemmas.{nil-append, cons-append, length-append, length-cons}
use text.Mathlib.TextPositions.{eq_refl}
use agents_kong.Prelude.Tests.{Bool-cases}
use agents_kong.Prelude.Text.{◌<>◌, cut_prefix, cut_suffix, trim_suffix, contains}

longer : (c : Char) (s t : String) → ((c ∷ (s <> t)) == t) ≡ false
longer c s t = elim (Bool-cases ((c ∷ (s <> t)) == t)) [
  | inl e ↦ absurd (
      omega (
        arith,
        ap count ((eq_iff (c ∷ (s <> t)) t).0 e),
        length-cons c (s <> t),
        length-append s t,
      ))
  | inr e ↦ e
]

cut_suffix_self : (t : String) → cut_suffix t t ≡ some ""
unfolding cut_suffix
cut_suffix_self [] = refl
cut_suffix_self (c ∷ t) = rw (eq_refl (c ∷ t))

pub cut_suffix-append : (s t : String) → cut_suffix (s <> t) t ≡ some s
unfolding cut_suffix
cut_suffix-append [] t = rw nil-append (cut_suffix_self t)
cut_suffix-append (c ∷ s) t = rw (cons-append, longer c s t, cut_suffix-append s t)

pub trim_suffix-append : (s t : String) → trim_suffix (s <> t) t ≡ s
unfolding trim_suffix
trim_suffix-append s t = rw (cut_suffix-append s t)

pub cut_prefix-append : (p s : String) → cut_prefix (p <> s) p ≡ some s
unfolding cut_prefix
cut_prefix-append [] s = rw nil-append refl
cut_prefix-append (c ∷ p) s = rw cons-append (ground (arith, cut_prefix-append p s))

cut_prefix_self : (t : String) → cut_prefix t t ≡ some ""
unfolding cut_prefix
cut_prefix_self [] = refl
cut_prefix_self (c ∷ t) = ground (arith, cut_prefix_self t)

contains_self : (t : String) → contains t t ≡ true
unfolding contains
contains_self [] = refl
contains_self (c ∷ t) = ground (arith, cut_prefix_self t)

pub contains-append : (s t : String) → contains (s <> t) t ≡ true
unfolding contains
contains-append [] t = rw nil-append (contains_self t)
contains-append (c ∷ s) t = rw cons-append (ground (arith, contains-append s t))
