-- ===== src/Billing/Restart.antt =====
-- What the writer has written when it ends, and what a restart reads back.
use gptload_rs.Prelude.{
  ℕ, ◌≡◌, refl, ◌∙◌, sym, ap, Bool, true, false, ◌&&◌, ◌||◌, Bool-cases, Option, Option-cases, inl,
  inr, none, some, List, [], ◌∷◌, length, leb, if◌then◌else◌, arith,
}
use gptload_rs.Prelude.Result.{Result, ok, err, ok-injective, >>=-eq-ok}
use gptload_rs.Prelude.Int.{ℤ}
use gptload_rs.Prelude.Text.{Str, str_eq, str_eq_iff}
use gptload_rs.Prelude.Dict.{Dict, lookup, insert, lookup-insert}
use gptload_rs.Billing.{PersistUpdate, BillingStore}
use gptload_rs.Billing.Bytes.{to_le_bytes, decode_balance}
use gptload_rs.Billing.Tree.{Tree, IsDistinct, all_ok}
use gptload_rs.Billing.Writer.{
  Round, received, timed_out, messages, load_loop, new_store, drain, flush_pending, flush_if_due,
  writer_round, writer_loop,
}

-- The last balance that was sent for a key.
unfoldable pub latest : Str → List PersistUpdate → Option ℤ
latest k [] = none
latest k (msg ∷ sent) =
    let rest = latest k sent in
    elim rest [ some b ↦ some b | none ↦ if str_eq msg.key k then some msg.balance else none ]

-- `first`, or else `second`.
abbrev pub or_else {ℓ} : {A : Type ℓ} → Option A → Option A → Option A
or_else (some a) b = some a
or_else none b = b

abbrev pub encoded : Option ℤ → Option (List ℕ)
encoded none = none
encoded (some b) = some (to_le_bytes b)

abbrev pub decoded : Option (List ℕ) → Option ℤ
decoded none = none
decoded (some v) = decode_balance v

load_loop-all_ok :
    (items : List (Result (Str × List ℕ))) (map : Dict ℤ) {map' : Dict ℤ}
    → load_loop items map ≡ ok map'
    → (d : Dict (List ℕ)) × (items ≡ all_ok d)
unfolding load_loop
load_loop-all_ok [] map e = ([], refl)
load_loop-all_ok (err why ∷ items) map e = absurd (cc)
load_loop-all_ok (ok item ∷ items) map e =
    let (d, same) = load_loop-all_ok items _ e in (item ∷ d, ap (λ l. ok item ∷ l) same)

load_loop-lookup :
    (k : Str) (d : Dict (List ℕ)) (map : Dict ℤ) {map' : Dict ℤ}
    → IsDistinct d
    → load_loop (all_ok d) map ≡ ok map'
    → lookup k map' ≡ or_else (decoded (lookup k d)) (lookup k map)
unfolding load_loop lookup
load_loop-lookup k [] map h e = ap (lookup k) (sym (ok-injective e))
load_loop-lookup k ((j, v) ∷ d) map (fresh, h) e =
    let here = str_eq_iff j k in
    elim (Option-cases (decode_balance v)) [
      | inl f ↦
          let rest = load_loop-lookup k d map h (rw (load_loop, f) at e) in
          ground (arith, rest, here, f, fresh)
      | inr (b, f) ↦
          let rest = load_loop-lookup k d (insert j b map) h (rw (load_loop, f) at e) in
          ground (arith, rest, lookup-insert j k b map, here, f, fresh)
    ]

-- Whether a call went well.
abbrev pub is_ok : Result (Unit {0}) → Bool
is_ok (err why) = false
is_ok (ok _) = true

split_and : (a b : Bool) → a && b ≡ true → (a ≡ true) × (b ≡ true)
split_and a b e = ground (arith, e)

went_well : (r : Result (Unit {0})) → is_ok r ≡ true → r ≡ ok tt
went_well (err why) e = absurd (cc)
went_well (ok _) e = refl

module _ {T : Type 0} (tree : Tree T) where
  -- A fresh store has the balances that the tree holds, and nothing to write.
  pub new_store_lem :
      (k : Str) (t : T) {s : BillingStore}
      → new_store tree (ok t) ≡ ok s
      → (lookup k s.balances ≡ decoded (tree.get k t)) × (s.sent ≡ [])
  unfolding new_store lookup
  new_store_lem k t {s} e =
      let (map, loaded, made) = >>=-eq-ok (load_loop (tree.iter t) []) _ e in
      let (d, items) = load_loop-all_ok (tree.iter t) [] {map' = map} loaded in
      let (distinct, held) = tree.get-iter k t d items in
      let read =
        load_loop-lookup k d [] {map' = map} distinct
          (ap (λ l. load_loop l []) (sym items) ∙ loaded) in
      let same = ok-injective made in
      (
        ap (λ x. lookup k x.balances) (sym same)
            ∙ read
            ∙ ap (λ o. or_else (decoded o) none) held
            ∙ or_else-none (decoded (tree.get k t)),
        ap (λ x. x.sent) (sym same),
      )
    where
      or_else-none : (o : Option ℤ) → or_else o none ≡ o
      or_else-none none = refl
      or_else-none (some b) = refl

  -- Every insert of a drain went well.
  unfoldable pub is_drained : Dict ℤ → T → Bool
  unfolding drain
  is_drained [] t = true
  is_drained ((key, balance) ∷ pending) t =
      is_ok (tree.tree_insert key (to_le_bytes balance) (drain tree pending t)).0
      && is_drained pending t

  abbrev is_drained_if_due : Bool → Dict ℤ → T → Bool
  is_drained_if_due elapsed pending t =
      if leb 1024 (length pending) || elapsed then is_drained pending t else true

  -- Every insert of the writer went well.
  unfoldable pub is_written : List Round → Dict ℤ → T → Bool
  unfolding is_drained writer_round insert
  is_written [] pending t = is_drained pending t
  is_written (received msg elapsed ∷ rounds) pending t =
      let (pending', t') = writer_round tree (received msg elapsed) pending t in
      is_drained_if_due elapsed (insert msg.key msg.balance pending) t
      && is_written rounds pending' t'
  is_written (timed_out elapsed ∷ rounds) pending t =
      let (pending', t') = writer_round tree (timed_out elapsed) pending t in
      is_drained_if_due elapsed pending t && is_written rounds pending' t'

  drain-get :
      (k : Str) (pending : Dict ℤ) (t : T)
      → is_drained pending t ≡ true
      → tree.get k (drain tree pending t) ≡ or_else (encoded (lookup k pending)) (tree.get k t)
  unfolding drain lookup is_drained
  drain-get k [] t h = refl
  drain-get k ((j, b) ∷ pending) t h =
      let one = tree.tree_insert j (to_le_bytes b) (drain tree pending t) in
      let (first, rest) = split_and (is_ok one.0) (is_drained pending t) h in
      let e =
        tree.get-tree_insert j k (to_le_bytes b) (drain tree pending t) (went_well one.0 first) in
      ground (arith, drain-get k pending t rest, e)

  flush_pending-get :
      (k : Str) (pending : Dict ℤ) (t : T)
      → is_drained pending t ≡ true
      → tree.get k (flush_pending tree pending t)
        ≡ or_else (encoded (lookup k pending)) (tree.get k t)
  unfolding flush_pending lookup
  flush_pending-get k [] t h = refl
  flush_pending-get k (item ∷ pending) t h =
      tree.get-tree_flush k (drain tree (item ∷ pending) t) ∙ drain-get k (item ∷ pending) t h

  -- What is written or waits to be written for a key.
  abbrev waiting : Str → Dict ℤ → T → Option (List ℕ)
  waiting k pending t = or_else (encoded (lookup k pending)) (tree.get k t)

  flush_if_due-waiting :
      (k : Str) (elapsed : Bool) (pending : Dict ℤ) (t : T)
      → is_drained_if_due elapsed pending t ≡ true
      → let (pending', t') = flush_if_due tree elapsed pending t in
        waiting k pending' t' ≡ waiting k pending t
  unfolding flush_if_due lookup
  flush_if_due-waiting k elapsed pending t h =
      elim (Bool-cases (leb 1024 (length pending) || elapsed)) [
        | inl due ↦ rw (flush_if_due, due) (flush_pending-get k pending t (rw due at h))
        | inr early ↦ rw (flush_if_due, early) refl
      ]

  writer_loop-waiting :
      (k : Str) (rounds : List Round) (pending : Dict ℤ) (t : T)
      → is_written rounds pending t ≡ true
      → tree.get k (writer_loop tree rounds pending t)
        ≡ or_else (encoded (latest k (messages rounds))) (waiting k pending t)
  unfolding writer_loop writer_round latest is_written
  writer_loop-waiting k [] pending t h = flush_pending-get k pending t h
  writer_loop-waiting k (received msg elapsed ∷ rounds) pending t h =
      let (p, t') = flush_if_due tree elapsed (insert msg.key msg.balance pending) t in
      let (now, after) =
        split_and (is_drained_if_due elapsed (insert msg.key msg.balance pending) t)
          (is_written rounds p t') h in
      let rest = writer_loop-waiting k rounds p t' after in
      let due = flush_if_due-waiting k elapsed (insert msg.key msg.balance pending) t now in
      let own = lookup-insert msg.key k msg.balance pending in ground (arith, rest, due, own)
  writer_loop-waiting k (timed_out elapsed ∷ rounds) pending t h =
      let (p, t') = flush_if_due tree elapsed pending t in
      let (now, after) =
        split_and (is_drained_if_due elapsed pending t) (is_written rounds p t') h in
      let rest = writer_loop-waiting k rounds p t' after in
      let due = flush_if_due-waiting k elapsed pending t now in ground (arith, rest, due)

  -- When the writer ends and every insert went well, the tree holds for each key the last balance it
  -- received for it, and for a key it received nothing for what it held before, however the messages
  -- fall into flushes.
  pub writer_loop-latest :
      (k : Str) (rounds : List Round) (t : T)
      → is_written rounds [] t ≡ true
      → tree.get k (writer_loop tree rounds [] t)
        ≡ or_else (encoded (latest k (messages rounds))) (tree.get k t)
  unfolding lookup
  writer_loop-latest k rounds t h = writer_loop-waiting k rounds [] t h
