-- ===== src/Base/Order.antt =====
-- The order of native strings, by their characters' numbers.
use Prim.Native.Nat.{Ordering}
use Prim.Native.String.{String, compare}
use Prim.Native.String.compare as text_compare
use mathlib.Core.Path.{◌≡◌}
use mathlib.Core.Bool.{Bool, true, false}
use native.Mathlib.Omega.{arith}

-- `s < t` of Go strings.
abbrev pub text_before : String → String → Bool
text_before s t = elim (compare s t) [ Ordering.lt ↦ true | _ ↦ false ]

-- Of two texts one at most stands before the other.
pub text_before_asym : (s t : String) → text_before s t ≡ true → text_before t s ≡ false
text_before_asym String.[] String.[] h = ground (arith, text_compare.nil-nil)
text_before_asym String.[] (String.◌∷◌ d t) h = ground (arith, text_compare.cons-nil d t)
text_before_asym (String.◌∷◌ c s) String.[] h = ground (arith, text_compare.cons-nil c s)
text_before_asym (String.◌∷◌ c s) (String.◌∷◌ d t) h =
    ground
      (arith, text_compare.cons-cons c d s t, text_compare.cons-cons d c t s, text_before_asym s t)
