-- ===== src/State/Routes/Serves.antt =====
-- Which models a list of names serves, and that cleaning routes keeps it.
use gptload_rs.Prelude.{
  ◌≡◌, refl, ◌∙◌, sym, ap, subst, Bool, true, false, ◌&&◌, ◌||◌, not, Bool-cases, inl, inr,
  Option-cases, none, some, List, [], ◌∷◌, ◌++◌, if◌then◌else◌, arith,
}
use gptload_rs.Prelude.Text.{Str, str_eq, str_eq_iff, contains, contains-snoc, is_empty, trim}
use gptload_rs.Prelude.Trim.{trim_twice}
use gptload_rs.Prelude.Dict.{Dict, lookup, insert, lookup-insert}
use gptload_rs.Prelude.Sort.{sort, contains-sort}
use gptload_rs.State.Routes.{list_at, insert_models, clean_routes}
use gptload_rs.State.Routes.Inverse.{IsDistinct, insert-IsDistinct}

-- Whether a list of names has the model, when the names are trimmed and the empty ones dropped.
abbrev pub serves : List Str → Str → Bool
serves [] m = false
serves (x ∷ l) m = not (is_empty (trim x)) && str_eq (trim x) m || serves l m

pub insert_models-serves :
    (set l : List Str) (m : Str) → contains (insert_models set l) m ≡ (contains set m || serves l m)
unfolding insert_models
insert_models-serves set [] m = ground arith
insert_models-serves set (x ∷ l) m =
    let x' = trim x in
    let set' = if is_empty x' then set else if contains set x' then set else set ++ x' ∷ [] in
    let snoc = contains-snoc set x' m in
    let same = str_eq_iff x' m in insert_models-serves set' l m ∙ ground (arith, snoc, same)

-- What is served is trimmed and not empty, so a list of such names serves its members.
serves-trimmed : (l : List Str) (m : Str) → serves l m ≡ true → (trim m ≡ m) × (is_empty m ≡ false)
serves-trimmed [] m e = absurd (cc)
serves-trimmed (x ∷ l) m e = elim (Bool-cases (not (is_empty (trim x)) && str_eq (trim x) m)) [
  | inl here ↦
      let same : trim x ≡ m = (str_eq_iff (trim x) m).0 (ground (arith, here)) in
      let full : is_empty (trim x) ≡ false = ground (arith, here) in
      (subst (λ y. trim y ≡ y) same (trim_twice x), ap is_empty (sym same) ∙ full)
  | inr there ↦ serves-trimmed l m (ground (arith, e, there))
]

serves-contains :
    (l : List Str) (m : Str)
    → ((x : Str) → contains l x ≡ true → (trim x ≡ x) × (is_empty x ≡ false))
    → serves l m ≡ contains l m
unfolding contains
serves-contains [] m h = refl
serves-contains (x ∷ l) m h =
    let (same, full) = h x (let self = (str_eq_iff x x).1 refl in ground (arith, self)) in
    let rest = serves-contains l m (λ y e. h y (ground (arith, e))) in
    let full' : is_empty (trim x) ≡ false = ap is_empty same ∙ full in
    let eq' : str_eq (trim x) m ≡ str_eq x m = ap (λ y. str_eq y m) same in
    ground (arith, full', eq', rest)

pub serves-clean : (l : List Str) (m : Str) → contains (sort (insert_models [] l)) m ≡ serves l m
unfolding contains
serves-clean l m = contains-sort (insert_models [] l) m ∙ insert_models-serves [] l m

pub serves-twice : (l : List Str) (m : Str) → serves (sort (insert_models [] l)) m ≡ serves l m
serves-twice l m =
    serves-contains (sort (insert_models [] l)) m
      (λ x e. serves-trimmed l x (sym (serves-clean l x) ∙ e))
    ∙ serves-clean l m

-- The cleaned routes serve what the given ones do, for a way to read a list that reads a cleaned
-- list as what it serves.
module _ (reads : List Str → Str → Bool)
    (reads_clean : (l : List Str) (m : Str)
      → reads (sort (insert_models [] l)) m ≡ serves l m) where
  clean_routes-reads :
      (d clean : Dict (List Str)) (id m : Str)
      → IsDistinct d
      → (reads (list_at id (clean_routes d clean)) m
          ≡ (elim (lookup id d) [ none ↦ reads (list_at id clean) m | some l ↦ serves l m ]))
  unfolding clean_routes lookup
  clean_routes-reads [] clean id m h = refl
  clean_routes-reads ((j, l) ∷ d) clean id m (fresh, h) =
      let l' = sort (insert_models [] l) in
      let found = lookup-insert j id l' clean in
      let ih = clean_routes-reads d (insert j l' clean) id m h in
      elim (Bool-cases (str_eq j id)) [
        | inl e ↦
            let gone = ap (λ n. lookup n d) (sym ((str_eq_iff j id).0 e)) ∙ fresh in
            let clean_l = reads_clean l m in ih ∙ ground (arith, e, gone, found, clean_l)
        | inr e ↦ ih ∙ ground (arith, e, found)
      ]

  pub clean_routes-serves :
      (d : Dict (List Str)) (id m : Str)
      → reads [] m ≡ false
      → IsDistinct d
      → reads (list_at id (clean_routes d [])) m ≡ serves (list_at id d) m
  unfolding lookup
  clean_routes-serves d id m empty h =
      clean_routes-reads d [] id m h ∙ elim (Option-cases (lookup id d)) [
        | inl e ↦ ground (arith, e, empty)
        | inr (l, e) ↦ ground (arith, e)
      ]

pub clean_routes-IsDistinct :
    (d clean : Dict (List Str)) → IsDistinct clean → IsDistinct (clean_routes d clean)
unfolding clean_routes
clean_routes-IsDistinct [] clean h = h
clean_routes-IsDistinct ((j, l) ∷ d) clean h =
    let l' = sort (insert_models [] l) in
    clean_routes-IsDistinct d (insert j l' clean) (insert-IsDistinct j l' clean h)
