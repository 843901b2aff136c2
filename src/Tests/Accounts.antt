-- ===== src/Tests/Accounts.antt =====
-- Balances of two keys, and a store whose tree is a list of items.
use gptload_rs.Prelude.{ℕ, ◌≡◌, refl, sym, ap, ◌∙◌, subst, true, false, List, [], ◌∷◌, arith}
use gptload_rs.Prelude.Result.{Result, ok, err}
use gptload_rs.Prelude.Int.{pos, ◌+ℤ◌}
use gptload_rs.Prelude.Text.{Str, str_eq, str_eq_iff, codes}
use gptload_rs.Prelude.Dict.{Dict, lookup, insert, lookup-insert}
use gptload_rs.Billing.{BillingStore, create_key, adjust_balance, apply_usage}
use gptload_rs.Billing.Bytes.{to_le_bytes, decode_balance}
use gptload_rs.Billing.Tree.{Tree, IsDistinct, all_ok}
use gptload_rs.Billing.Writer.{Round, received, timed_out, messages, new_store, writer_loop}
use gptload_rs.Billing.Restart.{latest, or_else, encoded, is_written, writer_loop-latest}
use gptload_rs.Billing.Calls.{Call, create, usage, run_calls, restart-balances}

abbrev alice : Str
alice = codes "alice"

abbrev bob : Str
bob = codes "bob"

abbrev store : BillingStore
store = record { balances = (alice, pos 50) ∷ []; poisoned = false; sent = [] }

insert-IsDistinct :
    (k : Str) (v : List ℕ) (d : Dict (List ℕ)) → IsDistinct d → IsDistinct (insert k v d)
unfolding insert lookup
insert-IsDistinct k v [] h = ground arith
insert-IsDistinct k v ((j, w) ∷ d) (fresh, h) =
    let other = lookup-insert k j v d in
    let same = str_eq_iff j k in
    let turned = str_eq_iff k j in
    let rest = insert-IsDistinct k v d h in ground (arith, other, same, turned, rest, fresh, h)

-- A tree as a list of items.
abbrev Items : Type 0
Items = (d : Dict (List ℕ)) × IsDistinct d

-- The items that were read.
abbrev oks : List (Result (Str × List ℕ)) → Dict (List ℕ)
oks [] = []
oks (err _ ∷ items) = oks items
oks (ok item ∷ items) = item ∷ oks items

oks-all_ok : (d : Dict (List ℕ)) → oks (all_ok d) ≡ d
oks-all_ok [] = refl
oks-all_ok (item ∷ d) = ap (λ l. item ∷ l) (oks-all_ok d)

all_ok-items : (d e : Dict (List ℕ)) → all_ok d ≡ all_ok e → d ≡ e
all_ok-items d e h = sym (oks-all_ok d) ∙ ap oks h ∙ oks-all_ok e

abbrev items : Tree Items
items = record {
  get = λ k (d, h). lookup k d;
  iter = λ (d, h). all_ok d;
  tree_insert = λ k v (d, h). (ok tt, (insert k v d, insert-IsDistinct k v d h));
  tree_flush = λ t. (ok tt, t);
  get-iter = λ k (d, h) e same.
      let d_e = all_ok-items d e same in (subst IsDistinct d_e h, ap (lookup k) (sym d_e));
  get-tree_insert = λ k j v (d, h) e. lookup-insert k j v d;
  get-tree_flush = λ j t. refl;
}

one_item-IsDistinct : IsDistinct ((alice, to_le_bytes (pos 50)) ∷ [])
unfolding lookup
one_item-IsDistinct = (refl, tt)

abbrev kept : Items
kept = ((alice, to_le_bytes (pos 50)) ∷ [], one_item-IsDistinct)

abbrev rounds : List Round
rounds =
    received (record { key = bob; balance = pos 7 }) false
    ∷ timed_out true
    ∷ received (record { key = alice; balance = pos 20 }) false
    ∷ []

rounds-written : is_written items rounds [] kept ≡ true
unfolding is_written insert str_eq
rounds-written = refl

writer_loop-latest_example :
    items.get alice (writer_loop items rounds [] kept)
    ≡ or_else (encoded (latest alice (messages rounds))) (items.get alice kept)
writer_loop-latest_example = writer_loop-latest items alice rounds kept rounds-written

abbrev store_of : Result BillingStore → BillingStore
store_of (ok s) = s
store_of (err _) = record { balances = []; poisoned = false; sent = [] }

abbrev calls : List Call
calls = create bob (pos 7) (omega arith) ∷ usage alice 30 ∷ []

abbrev first : BillingStore
first = store_of (new_store items (ok kept))

abbrev second : BillingStore
second = store_of (new_store items (ok (writer_loop items rounds [] kept)))

first-ok : new_store items (ok kept) ≡ ok first
unfolding new_store to_le_bytes decode_balance ◌+ℤ◌
first-ok = refl

second-ok : new_store items (ok (writer_loop items rounds [] kept)) ≡ ok second
unfolding new_store writer_loop insert to_le_bytes decode_balance str_eq ◌+ℤ◌
second-ok = refl

rounds-sent : messages rounds ≡ (run_calls calls first).sent
unfolding run_calls new_store create_key adjust_balance apply_usage insert lookup to_le_bytes
    decode_balance str_eq ◌+ℤ◌
rounds-sent = refl

restart-balances_example :
    lookup alice second.balances ≡ lookup alice (run_calls calls first).balances
restart-balances_example =
    restart-balances items kept calls rounds alice first-ok rounds-sent rounds-written second-ok
