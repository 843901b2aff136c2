-- ===== src/Prelude/Lists.antt =====
-- Lists measured and indexed by native numbers, under the library's names.
use Prim.Native.Nat.{ℕ, zero, suc, ◌+◌, ◌-◌, ◌≤◌, ◌<◌, min}
use mathlib.Core.Path.{sym, ◌≡◌, ◌∙◌, refl, ap, subst}
use mathlib.Core.List.{List, [], ◌∷◌, ◌++◌, reverse, reverse-append}
use mathlib.Core.Option.{Option, none, some, some-injective}
use native.Mathlib.Omega.{arith}
use gptload_rs.Prelude.Tests.{◌==◌, if◌then◌else◌}

module _ {ℓ} {A : Type ℓ} where
  abbrev pub length : List A → ℕ
  length [] = 0
  length (x ∷ xs) = suc (length xs)

  abbrev pub get_elem? : List A → ℕ → Option A
  get_elem? [] i = none
  get_elem? (x ∷ xs) zero = some x
  get_elem? (x ∷ xs) (suc i) = get_elem? xs i

  abbrev pub take : ℕ → List A → List A
  take zero xs = []
  take (suc n) [] = []
  take (suc n) (x ∷ xs) = x ∷ take n xs

  abbrev pub drop : ℕ → List A → List A
  drop zero xs = xs
  drop (suc n) [] = []
  drop (suc n) (x ∷ xs) = drop n xs

  abbrev pub replicate : ℕ → A → List A
  replicate zero a = []
  replicate (suc n) a = a ∷ replicate n a

  -- Every entry satisfies `P`.
  abbrev pub All {κ} : (A → Type κ) → List A → Type κ
  All P [] = Unit
  All P (x ∷ xs) = P x × All P xs

module _ {ℓ} {A : Type ℓ} where
  pub length-append : (xs ys : List A) → length (xs ++ ys) ≡ length xs + length ys
  length-append [] ys = omega arith
  length-append (x ∷ xs) ys = omega (arith, length-append xs ys)

  pub length-replicate : (n : ℕ) (a : A) → length (replicate n a) ≡ n
  length-replicate zero a = refl
  length-replicate (suc n) a = ap suc (length-replicate n a)

  pub length-drop : (n : ℕ) (xs : List A) → length (drop n xs) ≡ length xs - n
  length-drop zero xs = omega arith
  length-drop (suc n) [] = omega arith
  length-drop (suc n) (x ∷ xs) = omega (arith, length-drop n xs)

  pub take-append-drop : (n : ℕ) (xs : List A) → take n xs ++ drop n xs ≡ xs
  take-append-drop zero xs = refl
  take-append-drop (suc n) [] = refl
  take-append-drop (suc n) (x ∷ xs) = rw (take-append-drop n xs)

  pub get_elem?-lt : (xs : List A) (i : ℕ) → i < length xs → (x : A) × (get_elem? xs i ≡ some x)
  get_elem?-lt [] i h = elim h [ ]
  get_elem?-lt (x ∷ xs) zero h = (x, refl)
  get_elem?-lt (x ∷ xs) (suc i) h = get_elem?-lt xs i (omega arith)

  pub lt_of_get_elem? : (xs : List A) (i : ℕ) {x : A} → get_elem? xs i ≡ some x → i < length xs
  lt_of_get_elem? [] i e = cc
  lt_of_get_elem? (x ∷ xs) zero e = omega arith
  lt_of_get_elem? (x ∷ xs) (suc i) e = omega (arith, lt_of_get_elem? xs i e)

  pub get_elem?-append_left :
      (xs ys : List A) (i : ℕ) → i < length xs → get_elem? (xs ++ ys) i ≡ get_elem? xs i
  get_elem?-append_left [] ys i h = elim h [ ]
  get_elem?-append_left (x ∷ xs) ys zero h = refl
  get_elem?-append_left (x ∷ xs) ys (suc i) h = get_elem?-append_left xs ys i (omega arith)

  pub get_elem?-append_last : (xs : List A) (y : A) → get_elem? (xs ++ y ∷ []) (length xs) ≡ some y
  get_elem?-append_last [] y = refl
  get_elem?-append_last (x ∷ xs) y = get_elem?-append_last xs y

  module _ {κ} (P : A → Type κ) where
    pub All-append : (xs ys : List A) → All P xs → All P ys → All P (xs ++ ys)
    All-append [] ys hx hy = hy
    All-append (x ∷ xs) ys hx hy = (hx.0, All-append xs ys hx.1 hy)

    pub All-replicate : (n : ℕ) (a : A) → P a → All P (replicate n a)
    All-replicate zero a h = tt
    All-replicate (suc n) a h = (h, All-replicate n a h)

    pub All-map : (xs : List A) (Q : A → Type κ) → ((a : A) → Q a → P a) → All Q xs → All P xs
    All-map [] Q f h = tt
    All-map (x ∷ xs) Q f h = (f x h.0, All-map xs Q f h.1)

    pub All-get_elem? : (xs : List A) (i : ℕ) {x : A} → All P xs → get_elem? xs i ≡ some x → P x
    All-get_elem? [] i h e = cc
    All-get_elem? (y ∷ ys) zero {x} h e = subst P (some-injective _ _ e) h.0
    All-get_elem? (y ∷ ys) (suc i) h e = All-get_elem? ys i h.1 e

-- How often a number stands in a list.
abbrev pub count : ℕ → List ℕ → ℕ
count x [] = 0
count x (y ∷ l) = (if y == x then 1 else 0) + count x l

pub count-append : (x : ℕ) (l r : List ℕ) → count x (l ++ r) ≡ count x l + count x r
count-append x [] r = omega arith
count-append x (y ∷ l) r = let rest = count-append x l r in omega (arith, rest)

pub count-le-length : (a : ℕ) (xs : List ℕ) → count a xs ≤ length xs
count-le-length a [] = omega arith
count-le-length a (x ∷ xs) = ground (arith, count-le-length a xs)

pub count-replicate : (a n x : ℕ) → count a (replicate n x) ≡ (if x == a then n else 0)
count-replicate a zero x = ground arith
count-replicate a (suc n) x = ground (arith, count-replicate a n x)

-- A bound that every entry stays below does not stand in the list.
pub count-eq-zero : (n : ℕ) (xs : List ℕ) → All (λ x. x < n) xs → count n xs ≡ 0
count-eq-zero n [] h = refl
count-eq-zero n (x ∷ xs) h = ground (arith, count-eq-zero n xs h.1)

pub get_elem?-snoc {ℓ} :
    {A : Type ℓ} (xs : List A) (y : A) (i : ℕ)
    → get_elem? (xs ++ y ∷ []) i ≡ (if i == length xs then some y else get_elem? xs i)
get_elem?-snoc [] y zero = refl
get_elem?-snoc [] y (suc i) = ground arith
get_elem?-snoc (x ∷ xs) y zero = ground arith
get_elem?-snoc (x ∷ xs) y (suc i) = ground (arith, get_elem?-snoc xs y i)

module _ {ℓ} {A : Type ℓ} where
  drop-nil : (n : ℕ) → drop {A = A} n [] ≡ []
  drop-nil zero = refl
  drop-nil (suc n) = refl

  take-nil : (n : ℕ) → take {A = A} n [] ≡ []
  take-nil zero = refl
  take-nil (suc n) = refl

  pub drop-append : (i : ℕ) (xs ys : List A) → i ≤ length xs → drop i (xs ++ ys) ≡ drop i xs ++ ys
  drop-append zero xs ys h = refl
  drop-append (suc i) [] ys h = absurd (omega arith)
  drop-append (suc i) (x ∷ xs) ys h = drop-append i xs ys (omega arith)

  pub drop-drop : (i j : ℕ) (xs : List A) → drop j (drop i xs) ≡ drop (i + j) xs
  drop-drop zero j xs = ap (λ n. drop n xs) (let e : j ≡ 0 + j = omega arith in e)
  drop-drop (suc i) j [] = drop-nil j ∙ sym (drop-nil (suc i + j))
  drop-drop (suc i) j (x ∷ xs) =
      drop-drop i j xs
      ∙ ap (λ n. drop n (x ∷ xs)) (let e : suc (i + j) ≡ suc i + j = omega arith in e)

  pub take_all : (n : ℕ) (xs : List A) → length xs ≤ n → take n xs ≡ xs
  take_all zero [] h = refl
  take_all (suc n) [] h = refl
  take_all zero (x ∷ xs) h = absurd (omega arith)
  take_all (suc n) (x ∷ xs) h = ap (λ r. x ∷ r) (take_all n xs (omega arith))

  pub take-append_left : (n : ℕ) (xs ys : List A) → length xs ≡ n → take n (xs ++ ys) ≡ xs
  take-append_left zero [] ys h = refl
  take-append_left (suc n) [] ys h = absurd (omega arith)
  take-append_left zero (x ∷ xs) ys h = absurd (omega arith)
  take-append_left (suc n) (x ∷ xs) ys h = ap (λ r. x ∷ r) (take-append_left n xs ys (omega arith))

  pub take-take : (n m : ℕ) (xs : List A) → take n (take m xs) ≡ take (min n m) xs
  take-take zero m xs = ap (λ k. take k xs) (let e : 0 ≡ min 0 m = omega arith in e)
  take-take (suc n) zero xs = ap (λ k. take k xs) (let e : 0 ≡ min (suc n) 0 = omega arith in e)
  take-take (suc n) (suc m) [] = sym (take-nil (min (suc n) (suc m)))
  take-take (suc n) (suc m) (x ∷ xs) =
      ap (λ r. x ∷ r) (take-take n m xs)
      ∙ ap (λ k. take k (x ∷ xs)) (let e : suc (min n m) ≡ min (suc n) (suc m) = omega arith in e)

  pub length-reverse : (xs : List A) → length (reverse xs) ≡ length xs
  length-reverse [] = refl
  length-reverse (x ∷ xs) =
      ap length (reverse-append (x ∷ []) xs)
      ∙ length-append (reverse xs) (x ∷ [])
      ∙ (rw (length-reverse xs) (omega arith))
