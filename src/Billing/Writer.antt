-- ===== src/Billing/Writer.antt =====
-- `BillingStore::new`, its writer thread and `flush_pending` of src/billing.rs.
use gptload_rs.Prelude.{ℕ, Bool, false, ◌||◌, none, some, List, [], ◌∷◌, length, leb, if◌then◌else◌}
use gptload_rs.Prelude.Int.{ℤ}
use gptload_rs.Prelude.Text.{Str}
use gptload_rs.Prelude.Result.{Result, ok, err, ◌>>=◌}
use gptload_rs.Prelude.Dict.{Dict, insert}
use gptload_rs.Billing.{PersistUpdate, BillingStore}
use gptload_rs.Billing.Bytes.{to_le_bytes, decode_balance}
use gptload_rs.Billing.Tree.{Tree}

-- One round of the writer's loop: what `recv_timeout` returns, and whether a second has passed since
-- the last flush.
pub data Round : Type 0 where
  received : PersistUpdate → Bool → Round
  timed_out : Bool → Round

-- What the rounds have received.
abbrev pub messages : List Round → List PersistUpdate
messages [] = []
messages (received msg _ ∷ rounds) = msg ∷ messages rounds
messages (timed_out _ ∷ rounds) = messages rounds

-- The loop of `new` over the items of the tree: one that cannot be read ends it, and one that is not
-- a balance is left out.
unfoldable pub load_loop : List (Result (Str × List ℕ)) → Dict ℤ → Result (Dict ℤ)
unfolding insert
load_loop [] map = ok map
load_loop (err why ∷ items) map = err why
load_loop (ok (k, v) ∷ items) map =
    load_loop items (elim (decode_balance v) [ none ↦ map | some balance ↦ insert k balance map ])

module _ {T : Type 0} (tree : Tree T) where
  -- `opened` is what `open_billing_tree` returns. The lock is new, so nobody has poisoned it.
  unfoldable pub new_store : Result T → Result BillingStore
  unfolding load_loop
  new_store opened = opened >>= λ t. load_loop (tree.iter t) [] >>= λ map.
      ok (record { balances = map; poisoned = false; sent = [] })

  -- The hash map is drained in no particular order; its keys are distinct. An item that cannot be
  -- written is lost.
  unfoldable pub drain : Dict ℤ → T → T
  drain [] t = t
  drain ((key, balance) ∷ pending) t =
      (tree.tree_insert key (to_le_bytes balance) (drain pending t)).1

  unfoldable pub flush_pending : Dict ℤ → T → T
  unfolding drain
  flush_pending [] t = t
  flush_pending (item ∷ pending) t = (tree.tree_flush (drain (item ∷ pending) t)).1

  -- The end of a round.
  unfoldable pub flush_if_due : Bool → Dict ℤ → T → Dict ℤ × T
  unfolding flush_pending
  flush_if_due elapsed pending t =
      if leb 1024 (length pending) || elapsed then ([], flush_pending pending t) else (pending, t)

  unfoldable pub writer_round : Round → Dict ℤ → T → Dict ℤ × T
  unfolding flush_if_due insert
  writer_round (received msg elapsed) pending t =
      flush_if_due elapsed (insert msg.key msg.balance pending) t
  writer_round (timed_out elapsed) pending t = flush_if_due elapsed pending t

  -- The thread, until the sender is gone: then it flushes what is left.
  unfoldable pub writer_loop : List Round → Dict ℤ → T → T
  unfolding writer_round flush_pending
  writer_loop [] pending t = flush_pending pending t
  writer_loop (r ∷ rounds) pending t =
      let (pending', t') = writer_round r pending t in writer_loop rounds pending' t'
