-- ===== src/Common/Bytes.antt =====
-- Go strings as lists of bytes, with the operations of package strings that the code uses.
--
-- A text literal is written `codes "max-age"`. Letters are folded in ASCII, as field names,
-- directives, schemes and hosts are.
use Prim.Native.Nat.{ℕ, ◌+◌, compare, Ordering}
use Prim.Native.Char.{code}
use Prim.Native.String.{String, [] as empty, ◌∷◌ as ◌:>◌}
use mathlib.Core.Path.{◌≡◌}
use mathlib.Core.Logic.{◌↔◌}
use mathlib.Core.Bool.{Bool, true, false, ◌&&◌}
use mathlib.Core.List.{List, [], ◌∷◌}
use native.Mathlib.Omega.{arith}
use httpcache_kit.Common.Tests.{leb, nat_eqb, if◌then◌else◌, GoKey}

abbrev pub Text : Type 0
Text = List ℕ

unfoldable pub codes : String → Text
codes empty = []
codes (c :> s) = code c ∷ codes s

abbrev pub text_eqb : Text → Text → Bool
text_eqb [] [] = true
text_eqb [] (b ∷ t) = false
text_eqb (a ∷ s) [] = false
text_eqb (a ∷ s) (b ∷ t) = if nat_eqb a b then text_eqb s t else false

pub text_eqb_iff : (s t : Text) → (text_eqb s t ≡ true) ↔ (s ≡ t)
text_eqb_iff [] [] = ground arith
text_eqb_iff [] (b ∷ t) = ground arith
text_eqb_iff (a ∷ s) [] = ground arith
text_eqb_iff (a ∷ s) (b ∷ t) = ground (arith, text_eqb_iff s t)

instance abbrev pub text_key : GoKey Text
text_key = record { same_iff = text_eqb_iff; same = text_eqb }

-- Go's `s < t` on strings.
unfoldable pub text_ltb : Text → Text → Bool
text_ltb s [] = false
text_ltb [] (b ∷ t) = true
text_ltb (a ∷ s) (b ∷ t) =
    let rest = text_ltb s t in
    elim (compare a b) [ Ordering.lt ↦ true | Ordering.eq ↦ rest | Ordering.gt ↦ false ]

abbrev pub lower : ℕ → ℕ
lower b = if leb 65 b && leb b 90 then b + 32 else b

-- strings.ToLower
unfoldable pub to_lower : Text → Text
to_lower [] = []
to_lower (b ∷ s) = lower b ∷ to_lower s

-- strings.EqualFold
unfoldable pub equal_fold : Text → Text → Bool
unfolding to_lower
equal_fold s t = text_eqb (to_lower s) (to_lower t)
