-- ===== src/Prelude/Trim.antt =====
-- Blanks at the ends of a text.
use Prim.Native.Nat.{ℕ, ◌≤◌}
use mathlib.Core.Path.{◌≡◌, refl, ◌∙◌, sym, ap}
use mathlib.Core.Logic.{◌≢◌, inl, inr}
use mathlib.Core.Bool.{false}
use mathlib.Core.List.{[], ◌∷◌, ◌++◌, reverse, reverse-append, reverse-reverse}
use native.Mathlib.Omega.{arith}
use gptload_rs.Prelude.Tests.{Bool-cases}
use gptload_rs.Prelude.Lists.{length}
use gptload_rs.Prelude.Text.{Str, trim_start, trim_end, trim, is_whitespace}

length-trim_start : (s : Str) → length (trim_start s) ≤ length s
unfolding trim_start
length-trim_start [] = omega arith
length-trim_start (c ∷ s) = ground (arith, length-trim_start s)

-- What comes after a text without blanks in front does not matter to `trim_start`.
pub trim_start-append : (s t : Str) → s ≢ [] → trim_start s ≡ s → trim_start (s ++ t) ≡ s ++ t
unfolding trim_start
trim_start-append [] t full h = absurd (full refl)
trim_start-append (c ∷ s) t full h = elim (Bool-cases (is_whitespace c)) [
  | inl blank ↦
      let less = length-trim_start s in
      let e : trim_start s ≡ c ∷ s = ground (arith, h, blank) in
      let size = ap length e in absurd (omega (arith, less, size))
  | inr other ↦ ground (arith, other)
]

reversed : (s : Str) → trim_end s ≡ s → trim_start (reverse s) ≡ reverse s
unfolding trim_end
reversed s h = sym (reverse-reverse (trim_start (reverse s))) ∙ ap reverse h

pub trim_end-append : (p s : Str) → s ≢ [] → trim_end s ≡ s → trim_end (p ++ s) ≡ p ++ s
unfolding trim_end
trim_end-append p s full h =
    let swap = reverse-append p s in
    let other : reverse s ≢ [] = λ e. full (sym (reverse-reverse s) ∙ ap reverse e) in
    let kept = trim_start-append (reverse s) (reverse p) other (reversed s h) in
    ap (λ l. reverse (trim_start l)) swap ∙ ap reverse (kept ∙ sym swap) ∙ reverse-reverse (p ++ s)

-- A text without blanks at its ends.
abbrev pub IsTrimmed : Str → Type 0
IsTrimmed s = (trim_start s ≡ s) × (trim_end s ≡ s)

pub trim_same : (s : Str) → IsTrimmed s → trim s ≡ s
unfolding trim
trim_same s (a, b) = ap trim_end a ∙ b

trim_start_twice : (s : Str) → trim_start (trim_start s) ≡ trim_start s
unfolding trim_start
trim_start_twice [] = refl
trim_start_twice (c ∷ s) = ground (arith, trim_start_twice s)

trim_end_twice : (s : Str) → trim_end (trim_end s) ≡ trim_end s
unfolding trim_end
trim_end_twice s =
    ap (λ l. reverse (trim_start l)) (reverse-reverse (trim_start (reverse s)))
    ∙ ap reverse (trim_start_twice (reverse s))

trim_start-snoc :
    (s : Str) (c : ℕ) → is_whitespace c ≡ false → trim_start (s ++ c ∷ []) ≡ trim_start s ++ c ∷ []
unfolding trim_start
trim_start-snoc [] c h = ground (arith, h)
trim_start-snoc (a ∷ s) c h = ground (arith, trim_start-snoc s c h)

trim_end-cons : (c : ℕ) (s : Str) → is_whitespace c ≡ false → trim_end (c ∷ s) ≡ c ∷ trim_end s
unfolding trim_end
trim_end-cons c s h =
    ap (λ l. reverse (trim_start l)) (reverse-append (c ∷ []) s)
    ∙ ap reverse (trim_start-snoc (reverse s) c h)
    ∙ reverse-append (trim_start (reverse s)) (c ∷ [])

trim_start-cons : (c : ℕ) (s : Str) → is_whitespace c ≡ false → trim_start (c ∷ s) ≡ c ∷ s
unfolding trim_start
trim_start-cons c s h = ground (arith, h)

-- Cutting blanks off the end keeps the front free of them.
trim_start-trim_end : (s : Str) → trim_start s ≡ s → trim_start (trim_end s) ≡ trim_end s
trim_start-trim_end [] h = unfold trim_start trim_end in refl
trim_start-trim_end (c ∷ s) h = elim (Bool-cases (is_whitespace c)) [
  | inl blank ↦
      let less = length-trim_start s in
      let e : trim_start s ≡ c ∷ s = unfold trim_start in ground (arith, h, blank) in
      let size = ap length e in absurd (omega (arith, less, size))
  | inr other ↦
      let e = trim_end-cons c s other in
      ap trim_start e ∙ trim_start-cons c (trim_end s) other ∙ sym e
]

-- What `trim` returns has no blanks at its ends.
pub trim-IsTrimmed : (s : Str) → IsTrimmed (trim s)
unfolding trim
trim-IsTrimmed s =
    (trim_start-trim_end (trim_start s) (trim_start_twice s), trim_end_twice (trim_start s))

pub trim_twice : (s : Str) → trim (trim s) ≡ trim s
trim_twice s = trim_same (trim s) (trim-IsTrimmed s)
