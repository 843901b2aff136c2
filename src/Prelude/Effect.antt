-- ===== src/Prelude/Effect.antt =====
-- Fallible code that changes a state: what is changed before a failure stays changed.
use mathlib.Core.Path.{◌≡◌, ◌∙◌, refl, sym, ap}
use gptload_rs.Prelude.Result.{Result, ok, err}

abbrev pub Effect : Type 0 → Type 0 → Type 0
Effect S A = S → Result A × S

abbrev pub pure : {S A : Type 0} → A → Effect S A
pure a s = (ok a, s)

-- What follows a result: nothing after a failure.
abbrev pub go_on : {S A B : Type 0} → Result A → S → (A → Effect S B) → Result B × S
go_on (err why) s next = (err why, s)
go_on (ok a) s next = next a s

-- `?` after a step.
infixl 5 ◌>>=◌ ◌>>◌
abbrev pub ◌>>=◌ : {S A B : Type 0} → Effect S A → (A → Effect S B) → Effect S B
◌>>=◌ step next s = go_on (step s).0 (step s).1 next

abbrev pub ◌>>◌ : {S B : Type 0} → Effect S (Unit {0}) → Effect S B → Effect S B
step >> next = step >>= λ _. next

go_on-eq-ok :
    {S A B : Type 0} {b : B} (r : Result A) (s : S) (next : A → Effect S B)
    → (go_on r s next).0 ≡ ok b
    → (a : A) × (r ≡ ok a) × (go_on r s next ≡ next a s)
go_on-eq-ok (err why) s next done = absurd (cc)
go_on-eq-ok (ok a) s next done = (a, refl, refl)

-- A chain that succeeds has a first step that succeeds, and goes on from the state it leaves.
pub bind-eq-ok :
    {S A B : Type 0} {b : B} (step : Effect S A) (next : A → Effect S B) (s : S)
    → ((step >>= next) s).0 ≡ ok b
    → (a : A) × ((step s).0 ≡ ok a)
      × ((step >>= next) s ≡ next a (step s).1)
      × ((next a (step s).1).0 ≡ ok b)
bind-eq-ok step next s done =
    let (a, first, rest) = go_on-eq-ok (step s).0 (step s).1 next done in
    (a, first, rest, sym (ap (λ r. r.0) rest) ∙ done)
