-- ===== src/Billing/Calls.antt =====
-- The store over a sequence of calls, and the queue of the writer beside it.
use gptload_rs.Prelude.{
  true, Bool-cases, ◌⊎◌, subst, ℕ, ◌^◌, ◌≡◌, refl, ◌∙◌, sym, ap, Option, Option-cases, inl, inr,
  none, some, List, [], ◌∷◌, ◌++◌, ltb, ◌==◌, if◌then◌else◌, arith,
}
use gptload_rs.Prelude.Int.{ℤ, pos, ◌+ℤ◌, neg, saturate_i64, saturate_i64-IsI64, IsI64}
use gptload_rs.Prelude.Text.{Str, str_eq}
use gptload_rs.Prelude.Dict.{lookup, insert, contains_key, lookup-insert}
use gptload_rs.Prelude.Result.{ok}
use gptload_rs.Billing.{PersistUpdate, BillingStore, create_key, adjust_balance, apply_usage}
use gptload_rs.Billing.Bytes.{decode_balance-to_le_bytes}
use gptload_rs.Billing.Tree.{Tree}
use gptload_rs.Billing.Writer.{Round, messages, new_store, writer_loop}
use gptload_rs.Billing.Restart.{
  latest, or_else, encoded, decoded, is_written, new_store_lem, writer_loop-latest,
}

-- The arguments are in the range of an i64, as the types of the code say.
pub data Call : Type 0 where
  create : (key : Str) (balance : ℤ) → IsI64 balance → Call
  adjust : (key : Str) (delta : ℤ) → Call
  usage : (key : Str) (total_tokens : ℕ) → Call

unfoldable pub run_call : Call → BillingStore → BillingStore
unfolding create_key adjust_balance apply_usage
run_call (create key balance h) s = (create_key key balance s).1
run_call (adjust key delta) s = (adjust_balance key delta s).1
run_call (usage key total_tokens) s = (apply_usage key total_tokens s).1

unfoldable pub run_calls : List Call → BillingStore → BillingStore
unfolding run_call
run_calls [] s = s
run_calls (c ∷ calls) s = run_calls calls (run_call c s)

latest-++ :
    (k j : Str) (b : ℤ) (sent : List PersistUpdate)
    → latest k (sent ++ (record { key = j; balance = b }) ∷ [])
      ≡ (if str_eq j k then some b else latest k sent)
unfolding latest
latest-++ k j b [] = refl
latest-++ k j b (msg ∷ sent) = ground (arith, latest-++ k j b sent)

-- Every balance is the last that was sent for its key, or else the one at the start, and what is
-- sent is in the range of an i64.
pub record IsInSync (start : Str → Option ℤ) (s : BillingStore) : Type 0 where
  pub balances-latest : (k : Str) → lookup k s.balances ≡ or_else (latest k s.sent) (start k)
  pub latest-IsI64 : (k : Str) (b : ℤ) → latest k s.sent ≡ some b → IsI64 b

-- A balance is stored and sent.
abbrev stored : Str → ℤ → BillingStore → BillingStore
stored j b s = record s {
  balances = insert j b s.balances;
  sent = s.sent ++ (record { key = j; balance = b }) ∷ [];
}

stored-IsInSync :
    (start : Str → Option ℤ) (j : Str) (b : ℤ) (s : BillingStore)
    → IsI64 b
    → IsInSync start s
    → IsInSync start (stored j b s)
stored-IsInSync start j b s h sync = record {
  balances-latest = λ k.
      let e = sync.balances-latest k in
      let own = lookup-insert j k b s.balances in
      let last = latest-++ k j b s.sent in ground (arith, e, own, last);
  latest-IsI64 = λ k c e.
      let last = latest-++ k j b s.sent in
      let old = sync.latest-IsI64 k c in ground (arith, e, last, old, h);
}

-- What a call may do: nothing, or to store and send a balance.
abbrev IsStoring : BillingStore → BillingStore → Type 0
IsStoring s s' = (s' ≡ s) ⊎ ((j : Str) × (b : ℤ) × IsI64 b × (s' ≡ stored j b s))

IsStoring-IsInSync :
    (start : Str → Option ℤ) (s s' : BillingStore)
    → IsStoring s s'
    → IsInSync start s
    → IsInSync start s'
IsStoring-IsInSync start s s' (inl e) sync = subst (IsInSync start) (sym e) sync
IsStoring-IsInSync start s s' (inr (j, b, h, e)) sync =
    subst (IsInSync start) (sym e) (stored-IsInSync start j b s h sync)

adjust_balance-IsStoring :
    (key : Str) (delta : ℤ) (s : BillingStore) → IsStoring s (adjust_balance key delta s).1
unfolding adjust_balance
adjust_balance-IsStoring key delta s = elim (Bool-cases s.poisoned) [
  | inl e ↦ inl (ground (arith, e))
  | inr e ↦ elim (Option-cases (lookup key s.balances)) [
    | inl f ↦ inl (ground (arith, e, f))
    | inr (cur, f) ↦
        inr (
          key,
          saturate_i64 (cur +ℤ delta),
          saturate_i64-IsI64 (cur +ℤ delta),
          ground (arith, e, f),
        )
  ]
]

create_key-IsStoring :
    (key : Str) (balance : ℤ) (s : BillingStore)
    → IsI64 balance
    → IsStoring s (create_key key balance s).1
unfolding create_key
create_key-IsStoring key balance s h = elim (Bool-cases s.poisoned) [
  | inl e ↦ inl (ground (arith, e))
  | inr e ↦ elim (Bool-cases (contains_key key s.balances)) [
    | inl f ↦ inl (ground (arith, e, f))
    | inr f ↦ inr (key, balance, h, ground (arith, e, f))
  ]
]

apply_usage-IsStoring : (key : Str) (n : ℕ) (s : BillingStore) → IsStoring s (apply_usage key n s).1
unfolding apply_usage
apply_usage-IsStoring key n s = elim (Bool-cases (ltb n (2 ^ 63))) [
  | inl e ↦ elim (Bool-cases (n == 0)) [
    | inl f ↦ inl (ground (arith, e, f))
    | inr f ↦ let step = adjust_balance-IsStoring key (neg (pos n)) s in ground (arith, e, f, step)
  ]
  | inr e ↦ inl (ground (arith, e))
]

run_call-IsStoring : (c : Call) (s : BillingStore) → IsStoring s (run_call c s)
unfolding run_call
run_call-IsStoring (create key balance h) s = create_key-IsStoring key balance s h
run_call-IsStoring (adjust key delta) s = adjust_balance-IsStoring key delta s
run_call-IsStoring (usage key n) s = apply_usage-IsStoring key n s

-- Every sequence of calls keeps the store and the queue in step.
pub run_calls-IsInSync :
    (start : Str → Option ℤ) (calls : List Call) (s : BillingStore)
    → IsInSync start s
    → IsInSync start (run_calls calls s)
unfolding run_calls
run_calls-IsInSync start [] s sync = sync
run_calls-IsInSync start (c ∷ calls) s sync =
    let step = run_call-IsStoring c s in
    let next = IsStoring-IsInSync start s (run_call c s) step sync in
    run_calls-IsInSync start calls (run_call c s) next

decoded-encoded :
    (last : Option ℤ) (old : Option (List ℕ))
    → ((b : ℤ) → last ≡ some b → IsI64 b)
    → decoded (or_else (encoded last) old) ≡ or_else last (decoded old)
decoded-encoded none old h = refl
decoded-encoded (some b) old h = decode_balance-to_le_bytes b (h b refl)

new_store-IsInSync :
    {T : Type 0} (tree : Tree T) (t : T) {s : BillingStore}
    → new_store tree (ok t) ≡ ok s
    → IsInSync (λ k. decoded (tree.get k t)) s
unfolding latest
new_store-IsInSync tree t {s} e = record {
  balances-latest = λ k. let (read, nothing) = new_store_lem tree k t {s = s} e in rw nothing read;
  latest-IsI64 = λ k b f.
      let (_, nothing) = new_store_lem tree k t {s = s} e in
      absurd (let clash = rw nothing at f in cc clash);
}

-- Start from a tree, make any calls, let the writer receive what they sent, in that order and in
-- rounds of any kind, and start again from the tree it leaves: every key has its balance again, if
-- both starts succeed and no insert of the writer fails.
pub restart-balances :
    {T : Type 0} (tree : Tree T) (t : T) (calls : List Call) (rounds : List Round) (k : Str)
    {s again : BillingStore}
    → new_store tree (ok t) ≡ ok s
    → messages rounds ≡ (run_calls calls s).sent
    → is_written tree rounds [] t ≡ true
    → new_store tree (ok (writer_loop tree rounds [] t)) ≡ ok again
    → lookup k again.balances ≡ lookup k (run_calls calls s).balances
restart-balances {T} tree t calls rounds k {s} {again} start received written restart =
    let ran = run_calls calls s in
    let sync = run_calls-IsInSync _ calls s (new_store-IsInSync tree t {s = s} start) in
    let (read, _) = new_store_lem tree k (writer_loop tree rounds [] t) {s = again} restart in
    let last = ap decoded (writer_loop-latest tree k rounds t written) in
    let moved = ap (λ sent. decoded (or_else (encoded (latest k sent)) (tree.get k t))) received in
    let back = decoded-encoded (latest k ran.sent) (tree.get k t) (sync.latest-IsI64 k) in
    read ∙ last ∙ moved ∙ back ∙ sym (sync.balances-latest k)
