-- ===== src/Prelude/Sort.antt =====
-- `sort` and `dedup` of lists of text.
use mathlib.Core.Path.{◌≡◌, ◌∙◌, refl}
use mathlib.Core.Bool.{Bool, true, false, ◌&&◌, ◌||◌}
use mathlib.Core.List.{List, [], ◌∷◌}
use native.Mathlib.Omega.{arith}
use gptload_rs.Prelude.Tests.{◌==◌, ltb, if◌then◌else◌}
use gptload_rs.Prelude.Text.{Str, str_eq, str_eq_iff, contains}

-- The order of code points is the order of the bytes in UTF-8.
unfoldable pub leb_str : Str → Str → Bool
leb_str [] t = true
leb_str (a ∷ s) [] = false
leb_str (a ∷ s) (b ∷ t) = ltb a b || (a == b && leb_str s t)

unfoldable pub insert_sorted : Str → List Str → List Str
unfolding leb_str
insert_sorted k [] = k ∷ []
insert_sorted k (j ∷ l) =
    let rest = insert_sorted k l in if leb_str k j then k ∷ j ∷ l else j ∷ rest

unfoldable pub sort : List Str → List Str
unfolding insert_sorted
sort [] = []
sort (k ∷ l) = insert_sorted k (sort l)

-- Of equal neighbours the first one stays.
unfoldable pub dedup : List Str → List Str
unfolding str_eq
dedup [] = []
dedup (k ∷ []) = k ∷ []
dedup (k ∷ j ∷ l) = let rest = dedup (j ∷ l) in if str_eq k j then rest else k ∷ rest

contains-insert_sorted :
    (k : Str) (l : List Str) (j : Str)
    → contains (insert_sorted k l) j ≡ (str_eq k j || contains l j)
unfolding contains insert_sorted
contains-insert_sorted k [] j = ground arith
contains-insert_sorted k (i ∷ l) j = ground (arith, contains-insert_sorted k l j)

-- Sorting keeps the members, and so does `dedup`.
pub contains-sort : (l : List Str) (j : Str) → contains (sort l) j ≡ contains l j
unfolding contains sort
contains-sort [] j = refl
contains-sort (k ∷ l) j = contains-insert_sorted k (sort l) j ∙ ground (arith, contains-sort l j)

pub contains-dedup : (l : List Str) (j : Str) → contains (dedup l) j ≡ contains l j
unfolding contains dedup
contains-dedup [] j = refl
contains-dedup (k ∷ []) j = refl
contains-dedup (k ∷ i ∷ l) j =
    let same = str_eq_iff k i in ground (arith, same, contains-dedup (i ∷ l) j)
