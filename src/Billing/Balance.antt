-- ===== src/Billing/Balance.antt =====
-- What each call does to the balances and to the queue of the writer.
use gptload_rs.Prelude.{
  ◌≡◌, true, false, inl, inr, Option, Option-cases, none, some, if◌then◌else◌, arith,
}
use gptload_rs.Prelude.Int.{ℤ, ◌+ℤ◌, saturate_i64}
use gptload_rs.Prelude.Text.{Str, str_eq, str_eq_refl}
use gptload_rs.Prelude.Dict.{lookup, lookup-insert}
use gptload_rs.Prelude.Result.{ok}
use gptload_rs.Billing.{BillingStore, create_key, adjust_balance}

-- The balance that is found for a key, whether or not the lock can be taken.
abbrev pub balance_of : BillingStore → Str → Option ℤ
balance_of s k = lookup k s.balances

-- `create_key` says `true` exactly for a new key, which then has the given balance; a key that
-- exists keeps its own, and no other key is touched.
pub create_key_lem :
    (key j : Str) (balance : ℤ) (s : BillingStore)
    → s.poisoned ≡ false
    → let (r, s') = create_key key balance s in
      (r ≡ ok (elim (balance_of s key) [ none ↦ true | some _ ↦ false ]))
      × (balance_of s' j ≡ (elim (balance_of s key) [
        | none ↦ if str_eq key j then some balance else balance_of s j
        | some _ ↦ balance_of s j
      ]))
unfolding create_key
create_key_lem key j balance s h = ground (arith, lookup-insert key j balance s.balances)

-- `adjust_balance` adds to the balance of the key alone, clamped to the range of an i64, and
-- returns the new balance; a key that does not exist stays so.
pub adjust_balance_lem :
    (key j : Str) (delta : ℤ) (s : BillingStore)
    → s.poisoned ≡ false
    → let (r, s') = adjust_balance key delta s in
      (r ≡ balance_of s' key)
      × (balance_of s' j ≡ (elim (balance_of s key) [
        | none ↦ balance_of s j
        | some cur ↦ if str_eq key j then some (saturate_i64 (cur +ℤ delta)) else balance_of s j
      ]))
unfolding adjust_balance
adjust_balance_lem key j delta s h = elim (Option-cases (lookup key s.balances)) [
  | inl e ↦ ground arith
  | inr (cur, e) ↦
      let new_balance = saturate_i64 (cur +ℤ delta) in
      let own = lookup-insert key key new_balance s.balances in
      let other = lookup-insert key j new_balance s.balances in ground (arith, str_eq_refl key)
]
