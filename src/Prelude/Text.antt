-- ===== src/Prelude/Text.antt =====
-- Text as a list of code points.
use Prim.Native.Nat.{ℕ}
use Prim.Native.Char.{code}
use Prim.Native.String.{String}
use mathlib.Core.Path.{◌≡◌, refl}
use mathlib.Core.Logic.{◌↔◌}
use mathlib.Core.Bool.{Bool, true, false, ◌&&◌, ◌||◌}
use mathlib.Core.Option.{Option, none, some}
use mathlib.Core.List.{List, [], ◌∷◌, ◌++◌, reverse}
use native.Mathlib.Omega.{arith}
use gptload_rs.Prelude.Tests.{◌==◌, leb, if◌then◌else◌}

abbrev pub Str : Type 0
Str = List ℕ

-- The code points of a literal.
abbrev pub codes : String → Str
codes String.[] = []
codes (String.◌∷◌ c s) = code c ∷ codes s

unfoldable pub str_eq : Str → Str → Bool
str_eq [] [] = true
str_eq [] (_ ∷ _) = false
str_eq (_ ∷ _) [] = false
str_eq (a ∷ s) (b ∷ t) = (a == b) && str_eq s t

pub str_eq_iff : (s t : Str) → (str_eq s t ≡ true) ↔ (s ≡ t)
unfolding str_eq
str_eq_iff [] [] = ground arith
str_eq_iff [] (_ ∷ _) = ground arith
str_eq_iff (_ ∷ _) [] = ground arith
str_eq_iff (a ∷ s) (b ∷ t) = ground (arith, str_eq_iff s t)

pub str_eq_refl : (s : Str) → str_eq s s ≡ true
str_eq_refl s = (str_eq_iff s s).1 refl

-- Membership in a set of texts, held as a list.
unfoldable pub contains : List Str → Str → Bool
contains [] a = false
contains (x ∷ xs) a = str_eq x a || contains xs a

pub contains-snoc :
    (xs : List Str) (y a : Str) → contains (xs ++ y ∷ []) a ≡ (contains xs a || str_eq y a)
unfolding contains
contains-snoc [] y a = ground arith
contains-snoc (x ∷ xs) y a = ground (arith, contains-snoc xs y a)

-- `s.is_empty()`
abbrev pub is_empty {ℓ} : {A : Type ℓ} → List A → Bool
is_empty [] = true
is_empty (_ ∷ _) = false

-- `char::is_whitespace`: the code points with Unicode's property White_Space.
unfoldable pub is_whitespace : ℕ → Bool
is_whitespace c =
    (leb 9 c && leb c 13)
    || c == 32
    || c == 0x85
    || c == 0xa0
    || c == 0x1680
    || (leb 0x2000 c && leb c 0x200a)
    || c == 0x2028
    || c == 0x2029
    || c == 0x202f
    || c == 0x205f
    || c == 0x3000

unfoldable pub trim_start : Str → Str
trim_start [] = []
trim_start (c ∷ s) = if is_whitespace c then trim_start s else c ∷ s

unfoldable pub trim_end : Str → Str
unfolding trim_start
trim_end s = reverse (trim_start (reverse s))

-- `str::trim`
unfoldable pub trim : Str → Str
unfolding trim_start trim_end is_whitespace
trim s = trim_end (trim_start s)

-- Drops the code point `c` from the front, from the end.
unfoldable pub trim_start_matches : ℕ → Str → Str
trim_start_matches c [] = []
trim_start_matches c (a ∷ s) = if a == c then trim_start_matches c s else a ∷ s

unfoldable pub trim_end_matches : ℕ → Str → Str
unfolding trim_start_matches
trim_end_matches c s = reverse (trim_start_matches c (reverse s))

unfoldable pub strip_prefix : Str → Str → Option Str
strip_prefix [] s = some s
strip_prefix (_ ∷ _) [] = none
strip_prefix (a ∷ p) (b ∷ s) = if a == b then strip_prefix p s else none

-- `s.starts_with(p)`
unfoldable pub starts_with : Str → Str → Bool
unfolding strip_prefix
starts_with s p = elim (strip_prefix p s) [ none ↦ false | some _ ↦ true ]
