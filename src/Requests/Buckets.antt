-- ===== src/Requests/Buckets.antt =====
-- The series of buckets: one for each step, none missing, and no more than the limit.
use mathlib.Core.Path.{subst}
use mathlib.Core.Option.{some-injective}
use native.Mathlib.Nat.{mod-add-div, mul-mod_right, mod-add-mod, mod-eq_of_lt}
use gptload_rs.Prelude.{
  ◌/◌, ◌*◌, ◌∙◌, ap, All-append, ℕ, zero, suc, ◌+◌, ◌-◌, ◌%◌, ◌^◌, ◌≤◌, ◌<◌, ◌≡◌, refl, Bool-cases,
  inl, inr, none, some, List, [], ◌∷◌, ◌++◌, All, length, leb, ltb, ◌==◌, if◌then◌else◌, arith,
}
use gptload_rs.Prelude.Words.{saturating_add, u64_max}
use gptload_rs.Requests.{MetricsBucket, empty_bucket, back, modify_back, pop_to, fill}

-- Each bucket begins one step behind the one before it, and all begin at a multiple of the step.
pub data IsSeries (step_ms : ℕ) : List MetricsBucket → Type 0 where
  nil : IsSeries step_ms []
  one : (b : MetricsBucket) → b.ts_ms % step_ms ≡ 0 → IsSeries step_ms (b ∷ [])
  more :
      (b : MetricsBucket) {c : MetricsBucket} {l : List MetricsBucket}
      → b.ts_ms % step_ms ≡ 0
      → c.ts_ms ≡ b.ts_ms + step_ms
      → IsSeries step_ms (c ∷ l)
      → IsSeries step_ms (b ∷ c ∷ l)

-- The total is the sum of the three counts, as the counters wrap.
abbrev pub IsTallied : MetricsBucket → Type 0
IsTallied b = b.total ≡ (b.success + b.failure + b.ignored) % 2 ^ 64

pub record IsValid (step_ms limit : ℕ) (l : List MetricsBucket) : Type 0 where
  pub series : IsSeries step_ms l
  pub tallied : All IsTallied l
  pub fits : length l ≤ limit

next_aligned : (a n : ℕ) → a % n ≡ 0 → (a + n) % n ≡ 0
next_aligned a n h = grind arith

-- An empty bucket one step behind the last.
IsSeries-snoc :
    (step_ms : ℕ) (l : List MetricsBucket) {b : MetricsBucket}
    → IsSeries step_ms l
    → back l ≡ some b
    → IsSeries step_ms (l ++ empty_bucket (b.ts_ms + step_ms) ∷ [])
unfolding back
IsSeries-snoc step_ms [] s e = absurd (cc)
IsSeries-snoc step_ms (x ∷ []) {b} (one _ h) e =
    let same : x.ts_ms ≡ b.ts_ms = ap (λ (c : MetricsBucket). c.ts_ms) (some-injective x b e) in
    more x h (rw same) (one _ (next_aligned b.ts_ms step_ms (subst (λ t. t % step_ms ≡ 0) same h)))
IsSeries-snoc step_ms (x ∷ y ∷ l) (more _ h q s) e = more x h q (IsSeries-snoc step_ms (y ∷ l) s e)

pub back-snoc {ℓ} : {A : Type ℓ} (l : List A) (x : A) → back (l ++ x ∷ []) ≡ some x
unfolding back
back-snoc [] x = refl
back-snoc (y ∷ []) x = refl
back-snoc (y ∷ z ∷ l) x = back-snoc (z ∷ l) x

series_last :
    (step_ms : ℕ) (l : List MetricsBucket) {b : MetricsBucket}
    → IsSeries step_ms l
    → back l ≡ some b
    → b.ts_ms % step_ms ≡ 0
unfolding back
series_last step_ms [] s e = absurd (cc)
series_last step_ms (x ∷ []) (one _ h) e = ground arith
series_last step_ms (x ∷ y ∷ l) (more _ h q s) e = series_last step_ms (y ∷ l) s e

IsSeries-tail :
    {step_ms : ℕ} (x : MetricsBucket) (l : List MetricsBucket)
    → IsSeries step_ms (x ∷ l)
    → IsSeries step_ms l
IsSeries-tail x [] s = nil
IsSeries-tail x (y ∷ l) (more _ h q s) = s

-- Two multiples of the step that are less than a step apart are one.
aligned_eq : (a b n : ℕ) → 0 < n → a % n ≡ 0 → b % n ≡ 0 → a ≤ b → b < a + n → a ≡ b
aligned_eq a b n pos ha hb le lt =
    let join : a + (b - a) ≡ b = omega arith in
    let gap : (b - a) % n ≡ 0 =
      (let plain : 0 + (b - a) ≡ b - a = omega arith in
        rw plain at (rw ha at (mod-add-mod a n (b - a))))
      ∙ rw join hb in
    let small : (b - a) % n ≡ b - a = mod-eq_of_lt (omega arith) in omega arith

-- What opening a bucket for `start` gives.
pub record Opened (step_ms start : ℕ) (b : MetricsBucket) (r : List MetricsBucket) : Type 0 where
  pub series : IsSeries step_ms r
  pub tallied : All IsTallied r
  pub last : MetricsBucket
  pub at_end : back r ≡ some last
  pub counted : last ≡ (if b.ts_ms == start then b else empty_bucket start)

pub fill_lem :
    (fuel step_ms start next : ℕ) (l : List MetricsBucket) (b : MetricsBucket)
    → IsSeries step_ms l
    → All IsTallied l
    → back l ≡ some b
    → next ≡ b.ts_ms + step_ms
    → 0 < step_ms
    → start % step_ms ≡ 0
    → b.ts_ms ≤ start
    → start + step_ms ≤ u64_max
    → start - b.ts_ms < fuel
    → (r : List MetricsBucket) × (fill fuel step_ms start next l ≡ some r)
      × Opened step_ms start b r
unfolding fill
fill_lem zero step_ms start next l b s t e n pos al le room fuel_left = absurd (omega arith)
fill_lem (suc fuel) step_ms start next l b s t e n pos al le room fuel_left =
    elim (Bool-cases (leb next start)) [
      | inr done ↦ (
        l,
        rw done,
        record {
          series = s;
          tallied = t;
          last = b;
          at_end = e;
          counted = ground (
            arith,
            aligned_eq b.ts_ms start step_ms pos (series_last step_ms l {b = b} s e) al le,
          );
        },
      )
      | inl again ↦
          let step : saturating_add next step_ms ≡ next + step_ms = ground arith in
          let (r, filled, opened) =
            fill_lem fuel step_ms start (saturating_add next step_ms) (l ++ empty_bucket next ∷ [])
              (empty_bucket next) (rw n (IsSeries-snoc step_ms l {b = b} s e))
              (All-append _ l (empty_bucket next ∷ []) t (omega arith, tt))
              (back-snoc l (empty_bucket next)) step pos al (ground arith) room (ground arith) in
          (
            r,
            rw again filled,
            record {
              series = opened.series;
              tallied = opened.tallied;
              last = opened.last;
              at_end = opened.at_end;
              counted = ground (arith, opened.counted);
            },
          )
    ]

pub pop_to-length {ℓ} : {A : Type ℓ} (limit : ℕ) (l : List A) → length (pop_to limit l) ≤ limit
unfolding pop_to
pop_to-length limit [] = omega arith
pop_to-length limit (x ∷ l) = ground (arith, pop_to-length limit l)

pub IsSeries-pop :
    (step_ms limit : ℕ) (l : List MetricsBucket)
    → IsSeries step_ms l
    → IsSeries step_ms (pop_to limit l)
unfolding pop_to
IsSeries-pop step_ms limit [] s = nil
IsSeries-pop step_ms limit (x ∷ l) s = elim (Bool-cases (ltb limit (length (x ∷ l)))) [
  | inl long ↦ rw long (IsSeries-pop step_ms limit l (IsSeries-tail x l s))
  | inr short ↦ rw short s
]

pub IsTallied-pop :
    (limit : ℕ) (l : List MetricsBucket) → All IsTallied l → All IsTallied (pop_to limit l)
unfolding pop_to
IsTallied-pop limit [] t = tt
IsTallied-pop limit (x ∷ l) t = elim (Bool-cases (ltb limit (length (x ∷ l)))) [
  | inl long ↦ rw long (IsTallied-pop limit l t.1)
  | inr short ↦ rw short t
]

-- A limit that is positive spares the last bucket.
pub back-pop {ℓ} :
    {A : Type ℓ} (limit : ℕ) (l : List A) → 0 < limit → back (pop_to limit l) ≡ back l
unfolding pop_to back
back-pop limit [] pos = refl
back-pop limit (x ∷ []) pos = ground arith
back-pop limit (x ∷ y ∷ l) pos = ground (arith, back-pop limit (y ∷ l) pos)

-- Changing the counts of the last bucket.
module _ (f : MetricsBucket → MetricsBucket)
    (same : (b : MetricsBucket) → (f b).ts_ms ≡ b.ts_ms) where
  pub IsSeries-modify :
      (step_ms : ℕ) (l : List MetricsBucket)
      → IsSeries step_ms l
      → IsSeries step_ms (modify_back f l)
  unfolding modify_back
  IsSeries-modify step_ms [] s = nil
  IsSeries-modify step_ms (x ∷ []) (one _ h) = one _ (rw (same x) h)
  IsSeries-modify step_ms (x ∷ y ∷ []) (more _ h q s) =
      more x h (same y ∙ q) (IsSeries-modify step_ms (y ∷ []) s)
  IsSeries-modify step_ms (x ∷ y ∷ z ∷ l) (more _ h q s) =
      more x h q (IsSeries-modify step_ms (y ∷ z ∷ l) s)

pub IsTallied-modify :
    (f : MetricsBucket → MetricsBucket) (l : List MetricsBucket)
    → ((b : MetricsBucket) → IsTallied b → IsTallied (f b))
    → All IsTallied l
    → All IsTallied (modify_back f l)
unfolding modify_back
IsTallied-modify f [] keep t = tt
IsTallied-modify f (x ∷ []) keep t = (keep x t.0, tt)
IsTallied-modify f (x ∷ y ∷ l) keep t = (t.0, IsTallied-modify f (y ∷ l) keep t.1)

pub back-modify {ℓ} :
    {A : Type ℓ} (f : A → A) (l : List A) {b : A}
    → back l ≡ some b
    → back (modify_back f l) ≡ some (f b)
unfolding back modify_back
back-modify f [] e = absurd (cc)
back-modify f (x ∷ []) {b} e = ap some (ap f (some-injective x b e))
back-modify f (x ∷ y ∷ []) e = back-modify f (y ∷ []) e
back-modify f (x ∷ y ∷ z ∷ l) e = back-modify f (y ∷ z ∷ l) e

pub start_aligned : (ts_ms step_ms : ℕ) → (ts_ms - ts_ms % step_ms) % step_ms ≡ 0
start_aligned ts_ms step_ms =
    let whole : ts_ms - ts_ms % step_ms ≡ step_ms * (ts_ms / step_ms) =
      omega (arith, mod-add-div ts_ms step_ms) in
    rw whole (mul-mod_right step_ms (ts_ms / step_ms))

pub back_of_none {ℓ} : {A : Type ℓ} (l : List A) → back l ≡ none → l ≡ []
unfolding back
back_of_none [] e = refl
back_of_none (x ∷ []) e = cc
back_of_none (x ∷ y ∷ l) e = absurd (cc (back_of_none (y ∷ l) e))
