-- ===== src/Admin/Accounts/Created.antt =====
-- What the interface says of a balance.
use gptload_rs.Prelude.{ℕ, ◌≡◌, inl, inr, Option, Option-cases, List, [], arith}
use gptload_rs.Prelude.Int.{ℤ, ◌+ℤ◌, saturate_i64}
use gptload_rs.Prelude.Text.{Str, str_eq_refl, trim}
use gptload_rs.Prelude.Dict.{lookup, lookup-insert}
use gptload_rs.Prelude.Result.{Result, Result-cases}
use gptload_rs.Billing.{BillingStore, create_key, get_balance, adjust_balance}
use gptload_rs.Admin.Defs.{balance_created, balance_found, balance_adjusted}
use gptload_rs.Admin.Body.{read_body_limit}
use gptload_rs.Admin.Accounts.{
  BillingCreateBody, BillingAdjustBody, account_limit, balance_or_zero, api_billing_create_key,
  api_billing_get_balance, api_billing_adjust_balance,
}

-- The answers of the interface agree with each other: a balance that creating a key reports is the
-- one that is found under the key afterwards.
pub api_billing_get_balance-api_billing_create_key :
    (from_slice : List ℕ → Option BillingCreateBody) (chunks : List (Result (List ℕ)))
    (s : BillingStore) (key : Str) (balance : ℤ)
    → (api_billing_create_key from_slice chunks s).0 ≡ balance_created key balance
    → api_billing_get_balance key (api_billing_create_key from_slice chunks s).1
      ≡ balance_found key balance
unfolding api_billing_create_key api_billing_get_balance get_balance create_key
api_billing_get_balance-api_billing_create_key from_slice chunks s key balance e =
    let self = str_eq_refl key in
    elim (Result-cases (read_body_limit chunks account_limit [])) [
      | inl (why, f) ↦ ground (arith, e, f)
      | inr (bytes, f) ↦ elim (Option-cases (from_slice bytes)) [
        | inl g ↦ ground (arith, e, f, g)
        | inr (payload, g) ↦
            let found =
              lookup-insert (trim payload.key) key (balance_or_zero payload.balance) s.balances in
            ground (arith, e, f, g, self, found)
      ]
    ]

-- The same of adjusting a balance.
pub api_billing_get_balance-api_billing_adjust_balance :
    (from_slice : List ℕ → Option BillingAdjustBody) (chunks : List (Result (List ℕ)))
    (s : BillingStore) (key : Str) (delta balance : ℤ)
    → (api_billing_adjust_balance from_slice chunks key s).0 ≡ balance_adjusted key delta balance
    → api_billing_get_balance key (api_billing_adjust_balance from_slice chunks key s).1
      ≡ balance_found key balance
unfolding api_billing_adjust_balance api_billing_get_balance get_balance adjust_balance
api_billing_get_balance-api_billing_adjust_balance from_slice chunks s key delta balance e =
    let self = str_eq_refl key in
    elim (Option-cases (lookup key s.balances)) [
      | inl g ↦ ground (arith, e, g)
      | inr (cur, g) ↦ elim (Result-cases (read_body_limit chunks account_limit [])) [
        | inl (why, f) ↦ ground (arith, e, f)
        | inr (bytes, f) ↦ elim (Option-cases (from_slice bytes)) [
          | inl m ↦ ground (arith, e, f, m)
          | inr (payload, m) ↦
              let found = lookup-insert key key (saturate_i64 (cur +ℤ payload.delta)) s.balances in
              ground (arith, e, f, g, m, self, found)
        ]
      ]
    ]
