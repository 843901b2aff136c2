-- ===== src/Admin/Accounts.antt =====
-- The handlers of src/admin.rs for the balances of the clients' keys.
pub mod Created
use gptload_rs.Prelude.{ℕ, ◌*◌, Bool, true, false, not, Option, none, some, List, [], if◌then◌else◌}
use gptload_rs.Prelude.Int.{ℤ, pos}
use gptload_rs.Prelude.Text.{Str, is_empty, trim}
use gptload_rs.Prelude.Result.{Result, ok, err}
use gptload_rs.Billing.{BillingStore, create_key, get_balance, adjust_balance}
use gptload_rs.Admin.Defs.{
  Response, json_error, balance_created, balance_found, balance_adjusted, bad_request, key_exists,
  key_not_found, billing_error,
}
use gptload_rs.Admin.Body.{read_body_limit}

pub record BillingCreateBody : Type 0 where
  pub key : Str
  pub balance : Option ℤ

pub record BillingAdjustBody : Type 0 where
  pub delta : ℤ

abbrev pub account_limit : ℕ
account_limit = 256 * 1024

abbrev pub balance_or_zero : Option ℤ → ℤ
balance_or_zero none = pos 0
balance_or_zero (some b) = b

-- What follows the call of `create_key`.
abbrev pub answer_created : Str → ℤ → Result Bool × BillingStore → Response × BillingStore
answer_created key balance (err why, s) = (json_error 500 billing_error, s)
answer_created key balance (ok false, s) = (json_error 409 key_exists, s)
answer_created key balance (ok true, s) = (balance_created key balance, s)

abbrev pub answer_adjusted : Str → ℤ → Option ℤ × BillingStore → Response × BillingStore
answer_adjusted key delta (none, s) = (json_error 404 key_not_found, s)
answer_adjusted key delta (some balance, s) = (balance_adjusted key delta balance, s)

-- `from_slice` is what serde_json makes of the bytes.
unfoldable pub api_billing_create_key :
    (List ℕ → Option BillingCreateBody)
    → List (Result (List ℕ))
    → BillingStore
    → Response × BillingStore
unfolding read_body_limit create_key trim
api_billing_create_key from_slice chunks s = elim (read_body_limit chunks account_limit []) [
  | err why ↦ (json_error 400 bad_request, s)
  | ok body ↦ elim (from_slice body) [
    | none ↦ (json_error 400 bad_request, s)
    | some payload ↦
        let key = trim payload.key in
        let balance = balance_or_zero payload.balance in
        if is_empty key
        then (json_error 400 bad_request, s)
        else answer_created key balance (create_key key balance s)
  ]
]

unfoldable pub api_billing_get_balance : Str → BillingStore → Response
unfolding get_balance
api_billing_get_balance key s = elim (get_balance key s) [
  | some balance ↦ balance_found key balance
  | none ↦ json_error 404 key_not_found
]

unfoldable pub api_billing_adjust_balance :
    (List ℕ → Option BillingAdjustBody)
    → List (Result (List ℕ))
    → Str
    → BillingStore
    → Response × BillingStore
unfolding read_body_limit adjust_balance
api_billing_adjust_balance from_slice chunks key s =
    elim (read_body_limit chunks account_limit []) [
      | err why ↦ (json_error 400 bad_request, s)
      | ok body ↦ elim (from_slice body) [
        | none ↦ (json_error 400 bad_request, s)
        | some payload ↦ answer_adjusted key payload.delta (adjust_balance key payload.delta s)
      ]
    ]
