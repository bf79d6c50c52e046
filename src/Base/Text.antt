-- ===== src/Base/Text.antt =====
-- Go strings as lists of byte codes.
use Prim.Native.Nat.{ℕ, compare, Ordering}
use Prim.Native.Char.{code}
use Prim.Native.String.{String}
use mathlib.Core.Path.{◌≡◌, refl}
use mathlib.Core.Logic.{◌↔◌}
use mathlib.Core.Bool.{Bool, true, false, ◌&&◌}
use mathlib.Core.List.{List, [], ◌∷◌}
use native.Mathlib.Omega.{arith}

-- The codes of an ASCII literal.
abbrev pub codes : String → List ℕ
codes String.[] = []
codes (String.◌∷◌ c s) = code c ∷ codes s

same_code : ℕ → ℕ → Bool
same_code a b = elim (compare a b) [ Ordering.eq ↦ true | _ ↦ false ]

-- `==` on strings.
unfoldable pub same_bytes : List ℕ → List ℕ → Bool
unfolding same_code
same_bytes [] [] = true
same_bytes [] (b ∷ bs) = false
same_bytes (a ∷ as_) [] = false
same_bytes (a ∷ as_) (b ∷ bs) = same_code a b && same_bytes as_ bs

pub same_bytes_iff : (a b : List ℕ) → (same_bytes a b ≡ true) ↔ (a ≡ b)
unfolding same_bytes
same_bytes_iff [] [] = ground arith
same_bytes_iff [] (b ∷ bs) = ground arith
same_bytes_iff (a ∷ as_) [] = ground arith
same_bytes_iff (a ∷ as_) (b ∷ bs) = ground (arith, same_bytes_iff as_ bs)

pub same_bytes_refl : (a : List ℕ) → same_bytes a a ≡ true
same_bytes_refl a = (same_bytes_iff a a).1 refl
