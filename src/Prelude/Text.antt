-- ===== src/Prelude/Text.antt =====
-- Texts as the lists of their bytes. A C string is the bytes before its terminator.
use Prim.Native.Nat.{ℕ}
use Prim.Native.Char.{code}
use Prim.Native.String.{String}
use mathlib.Core.Path.{◌≡◌, refl, ap₂}
use mathlib.Core.Logic.{◌↔◌}
use mathlib.Core.Bool.{Bool, true, false, ◌&&◌}
use mathlib.Core.List.{List, [], ◌∷◌}
use native.Mathlib.Omega.{arith}
use pc_project_2024_mtr.Prelude.Tests.{◌==◌, ltb, if◌then◌else◌}

abbrev pub Bytes : Type 0
Bytes = List ℕ

-- The bytes of an ASCII literal.
abbrev pub codes : String → Bytes
codes String.[] = []
codes (String.◌∷◌ c s) = code c ∷ codes s

-- `strcmp(s, t) == 0`
unfoldable pub same_string : Bytes → Bytes → Bool
same_string [] [] = true
same_string [] (y ∷ ys) = false
same_string (x ∷ xs) [] = false
same_string (x ∷ xs) (y ∷ ys) = x == y && same_string xs ys

-- `s < t` of two `std::string`, by their bytes.
unfoldable pub before : Bytes → Bytes → Bool
before [] [] = false
before [] (y ∷ ys) = true
before (x ∷ xs) [] = false
before (x ∷ xs) (y ∷ ys) = if x == y then before xs ys else ltb x y

pub same_string-eq : (s t : Bytes) → same_string s t ≡ true → s ≡ t
unfolding same_string
same_string-eq [] [] e = refl
same_string-eq [] (y ∷ ys) e = cc
same_string-eq (x ∷ xs) [] e = cc
same_string-eq (x ∷ xs) (y ∷ ys) e = ap₂ ◌∷◌ (ground arith) (same_string-eq xs ys (ground arith))

pub same_string_refl : (s : Bytes) → same_string s s ≡ true
unfolding same_string
same_string_refl [] = refl
same_string_refl (x ∷ xs) = ground (arith, same_string_refl xs)

pub same_string_iff : (s t : Bytes) → (same_string s t ≡ true) ↔ (s ≡ t)
same_string_iff s t = (same_string-eq s t, λ e. rw e (same_string_refl t))

pub before_irrefl : (s : Bytes) → before s s ≡ false
unfolding before
before_irrefl [] = refl
before_irrefl (x ∷ xs) = ground (arith, before_irrefl xs)

pub before_trans : (s t u : Bytes) → before s t ≡ true → before t u ≡ true → before s u ≡ true
unfolding before
before_trans [] [] u p q = cc
before_trans [] (y ∷ ys) [] p q = cc
before_trans [] (y ∷ ys) (z ∷ zs) p q = refl
before_trans (x ∷ xs) [] u p q = cc
before_trans (x ∷ xs) (y ∷ ys) [] p q = cc
before_trans (x ∷ xs) (y ∷ ys) (z ∷ zs) p q = ground (arith, before_trans xs ys zs)

-- Of two different texts one stands before the other.
pub before_total : (s t : Bytes) → same_string s t ≡ false → before s t ≡ false → before t s ≡ true
unfolding before same_string
before_total [] [] p q = cc
before_total [] (y ∷ ys) p q = cc
before_total (x ∷ xs) [] p q = refl
before_total (x ∷ xs) (y ∷ ys) p q = ground (arith, before_total xs ys)
