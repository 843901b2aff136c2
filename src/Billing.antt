-- ===== src/Billing.antt =====
-- src/billing.rs: the balances of the clients' keys, and the thread that writes them to disk.
pub mod Bytes
pub mod Balance
pub mod Tree
pub mod Writer
pub mod Restart
pub mod Calls
use gptload_rs.Prelude.{
  ℕ, ◌^◌, Bool, true, false, Option, none, some, List, [], ◌∷◌, ◌++◌, ltb, leb, ◌||◌, ◌==◌,
  if◌then◌else◌,
}
use gptload_rs.Prelude.Int.{ℤ, pos, negsuc, ◌+ℤ◌, neg, saturate_i64}
use gptload_rs.Prelude.Text.{Str}
use gptload_rs.Prelude.Dict.{Dict, lookup, insert, contains_key}
use gptload_rs.Prelude.Result.{Result, ok, err, lock_poisoned}

-- `PersistUpdate::Set`
pub record PersistUpdate : Type 0 where
  pub key : Str
  pub balance : ℤ

-- `sent` is what has been sent over `persist_tx`, oldest first. The lock is poisoned after a panic
-- of a thread that held it.
pub record BillingStore : Type 0 where
  pub balances : Dict ℤ
  pub poisoned : Bool
  pub sent : List PersistUpdate

abbrev send : Str → ℤ → List PersistUpdate → List PersistUpdate
send key balance sent = sent ++ (record { key = key; balance = balance }) ∷ []

unfoldable pub create_key : Str → ℤ → BillingStore → Result Bool × BillingStore
unfolding insert contains_key
create_key key balance s =
    if s.poisoned
    then (err lock_poisoned, s)
    else if contains_key key s.balances
    then (ok false, s)
    else (
      ok true,
      record s { balances = insert key balance s.balances; sent = send key balance s.sent },
    )

unfoldable pub get_balance : Str → BillingStore → Option ℤ
unfolding lookup
get_balance key s = if s.poisoned then none else lookup key s.balances

-- `adjust_balance` when no other thread changes the balance between the load and the exchange.
unfoldable pub adjust_balance : Str → ℤ → BillingStore → Option ℤ × BillingStore
unfolding insert lookup saturate_i64
adjust_balance key delta s = if s.poisoned then (none, s) else elim (lookup key s.balances) [
  | none ↦ (none, s)
  | some cur ↦
      let new_balance = saturate_i64 (cur +ℤ delta) in
      (
        some new_balance,
        record s {
          balances = insert key new_balance s.balances;
          sent = send key new_balance s.sent;
        },
      )
]

-- `i64::try_from`
abbrev pub try_from : ℕ → Option ℤ
try_from n = if ltb n (2 ^ 63) then some (pos n) else none

unfoldable pub apply_usage : Str → ℕ → BillingStore → Option ℤ × BillingStore
unfolding get_balance adjust_balance
apply_usage key total_tokens s = elim (try_from total_tokens) [
  | none ↦ (none, s)
  | some delta ↦
      if total_tokens == 0 then (get_balance key s, s) else adjust_balance key (neg delta) s
]
