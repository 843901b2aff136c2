-- ===== src/Prelude/Result.antt =====
-- Fallible code: `anyhow::Result`, whose message is reduced to its kind.
use mathlib.Core.Path.{◌≡◌, refl, ap}
use mathlib.Core.Logic.{◌⊎◌, inl, inr}
use mathlib.Core.Bool.{Bool, true, false}

pub data Error : Type 0 where
  no_upstreams duplicate_id unknown_id id_exists : Error
  bad_url missing_scheme missing_authority : Error
  invalid_key no_keys invalid_utf8 : Error
  no_admin_tokens empty_id bad_scheme bad_status_code : Error
  too_large invalid_json : Error
  storage lock_poisoned : Error

pub data Result {ℓ} (V : Type ℓ) : Type ℓ where
  err : Error → Result V
  ok : V → Result V

-- `?`
infixl 5 ◌>>=◌ ◌>>◌
abbrev pub ◌>>=◌ {ℓ κ} : {V : Type ℓ} {W : Type κ} → Result V → (V → Result W) → Result W
err why >>= next = err why
ok v >>= next = next v

abbrev pub ◌>>◌ {κ} : {W : Type κ} → Result (Unit {0}) → Result W → Result W
err why >> rest = err why
ok _ >> rest = rest

-- `if c { bail!(why) }`
abbrev pub bail_if : Bool → Error → Result (Unit {0})
bail_if c why = elim c [ true ↦ err why | false ↦ ok tt ]

-- What succeeds as a whole succeeds in both parts.
pub >>=-eq-ok {ℓ κ} :
    {V : Type ℓ} {W : Type κ} {w : W} (first : Result V) (next : V → Result W)
    → (first >>= next) ≡ ok w
    → (v : V) × (first ≡ ok v) × (next v ≡ ok w)
>>=-eq-ok (err why) next done = absurd (cc)
>>=-eq-ok (ok v) next done = (v, refl, done)

pub >>-eq-ok {κ} :
    {W : Type κ} {w : W} (first : Result (Unit {0})) (rest : Result W)
    → (first >> rest) ≡ ok w
    → (first ≡ ok tt) × (rest ≡ ok w)
>>-eq-ok (err why) rest done = absurd (cc)
>>-eq-ok (ok _) rest done = (refl, done)

pub bail_if-eq-ok : (c : Bool) (why : Error) {u : Unit {0}} → bail_if c why ≡ ok u → c ≡ false
bail_if-eq-ok true why done = cc
bail_if-eq-ok false why done = refl

pub ok-injective {ℓ} : {V : Type ℓ} {v w : V} → ok v ≡ ok w → v ≡ w
ok-injective {v} e = ap (λ r. elim r [ err _ ↦ v | ok x ↦ x ]) e

pub Result-cases {ℓ} :
    {V : Type ℓ} (r : Result V) → ((why : Error) × (r ≡ err why)) ⊎ ((v : V) × (r ≡ ok v))
Result-cases (err why) = inl (why, refl)
Result-cases (ok v) = inr (v, refl)
