-- ===== src/Base/Strings.antt =====
-- Go strings and byte slices as lists of bytes, compared the way Go compares strings.
use Prim.Native.Nat.{ℕ, compare, Ordering}
use Prim.Native.Char.{code}
use Prim.Native.String.{String}
use mathlib.Core.Path.{◌≡◌, refl}
use mathlib.Core.Logic.{◌↔◌}
use mathlib.Core.Bool.{Bool, true, false, ◌&&◌}
use mathlib.Core.Option.{Option, none, some}
use mathlib.Core.List.{List, [], ◌∷◌, ◌++◌}
use native.Mathlib.Omega.{arith}
use tos_messenger.Base.Tests.{◌==◌, if◌then◌else◌}

abbrev pub Bytes : Type 0
Bytes = List ℕ

-- The bytes of an ASCII literal.
abbrev pub codes : String → Bytes
codes String.[] = []
codes (String.◌∷◌ c s) = code c ∷ codes s

abbrev pub eq_bytes : Bytes → Bytes → Bool
eq_bytes [] [] = true
eq_bytes (a ∷ x) (b ∷ y) = (a == b) && eq_bytes x y
eq_bytes _ _ = false

pub eq_bytes_refl : (x : Bytes) → eq_bytes x x ≡ true
eq_bytes_refl [] = refl
eq_bytes_refl (a ∷ x) = ground (arith, eq_bytes_refl x)

pub eq_bytes→eq : (x y : Bytes) → eq_bytes x y ≡ true → x ≡ y
eq_bytes→eq [] [] h = refl
eq_bytes→eq [] (b ∷ y) h = cc
eq_bytes→eq (a ∷ x) [] h = cc
eq_bytes→eq (a ∷ x) (b ∷ y) h = ground (arith, eq_bytes→eq x y)

pub eq_bytes_iff : (x y : Bytes) → (eq_bytes x y ≡ true) ↔ (x ≡ y)
eq_bytes_iff x y = (eq_bytes→eq x y, λ e. subst_eq x y e)
  where
    subst_eq : (x y : Bytes) → x ≡ y → eq_bytes x y ≡ true
    subst_eq x y e = rw (← e) (eq_bytes_refl x)

-- `x < y` on Go strings: the bytewise lexical order.
abbrev pub lt_bytes : Bytes → Bytes → Bool
lt_bytes [] [] = false
lt_bytes [] (b ∷ y) = true
lt_bytes (a ∷ x) [] = false
lt_bytes (a ∷ x) (b ∷ y) =
    let rest = lt_bytes x y in
    elim (compare a b) [ Ordering.lt ↦ true | Ordering.eq ↦ rest | Ordering.gt ↦ false ]

-- `strings.TrimPrefix` that says whether the prefix was there.
abbrev pub strip_prefix : Bytes → Bytes → Option Bytes
strip_prefix [] s = some s
strip_prefix (p ∷ ps) [] = none
strip_prefix (p ∷ ps) (c ∷ s) = let rest = strip_prefix ps s in if p == c then rest else none

pub strip_prefix-append : (p s : Bytes) → strip_prefix p (p ++ s) ≡ some s
strip_prefix-append [] s = refl
strip_prefix-append (c ∷ p) s = ground (arith, strip_prefix-append p s)

pub append_of_strip_prefix : (p s rest : Bytes) → strip_prefix p s ≡ some rest → s ≡ p ++ rest
append_of_strip_prefix [] s rest h = ground arith
append_of_strip_prefix (c ∷ p) [] rest h = cc
append_of_strip_prefix (c ∷ p) (d ∷ s) rest h = ground (arith, append_of_strip_prefix p s rest)
