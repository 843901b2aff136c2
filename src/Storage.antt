-- ===== src/Storage.antt =====
-- src/storage.rs: the keys of each upstream, one tree for each in an embedded database.
pub mod Database
pub mod Contents
use gptload_rs.Prelude.{
  ℕ, ◌+◌, Bool, true, false, Option, none, some, List, [], ◌∷◌, ◌++◌, if◌then◌else◌,
}
use gptload_rs.Prelude.Text.{Str, codes}
use gptload_rs.Prelude.Result.{Result, ok, err, invalid_utf8}
use gptload_rs.Prelude.Effect.{Effect, pure, ◌>>=◌, ◌>>◌}
use gptload_rs.Storage.Database.{Sled}

pub record AddKeysResult : Type 0 where
  pub inserted : ℕ
  pub existed : ℕ
  pub inserted_keys : List Str

unfoldable pub tree_name : Str → Str
tree_name upstream_id = codes "u:" ++ upstream_id

-- The loop of `load_all_keys`: an item whose bytes are not UTF-8 is `none`.
unfoldable pub texts_of : List (Option Str) → Result (List Str)
texts_of [] = ok []
texts_of (none ∷ items) = err invalid_utf8
texts_of (some k ∷ items) = elim (texts_of items) [ err why ↦ err why | ok keys ↦ ok (k ∷ keys) ]

-- `if prev.is_none() { … } else { … }`
abbrev pub counting : Str → Bool → AddKeysResult → AddKeysResult
counting k new r = record {
  inserted = if new then r.inserted + 1 else r.inserted;
  existed = if new then r.existed else r.existed + 1;
  inserted_keys = if new then r.inserted_keys ++ k ∷ [] else r.inserted_keys;
}

module _ {D : Type 0} (sled : Sled D) where
  -- The loop of `add_keys`.
  unfoldable pub add_loop : Str → List Str → AddKeysResult → Effect D AddKeysResult
  add_loop name [] r = pure r
  add_loop name (k ∷ keys) r = do new ← sled.insert name k; add_loop name keys (counting k new r)

  unfoldable pub add_keys : Str → List Str → Effect D AddKeysResult
  unfolding add_loop
  add_keys upstream_id keys = do
    let name = tree_name upstream_id
    sled.open_tree name
    r ← add_loop name keys (record { inserted = 0; existed = 0; inserted_keys = [] })
    sled.flush name
    pure r

  unfoldable pub insert_loop : Str → List Str → Effect D (Unit {0})
  insert_loop name [] = pure tt
  insert_loop name (k ∷ keys) = do new ← sled.insert name k; insert_loop name keys

  unfoldable pub replace_keys : Str → List Str → Effect D (Unit {0})
  unfolding insert_loop
  replace_keys upstream_id keys = do
    let name = tree_name upstream_id
    sled.open_tree name
    sled.clear name
    insert_loop name keys
    sled.flush name

  unfoldable pub delete_loop : Str → List Str → ℕ → Effect D ℕ
  delete_loop name [] removed = pure removed
  delete_loop name (k ∷ keys) removed = do
    old ← sled.remove name k
    delete_loop name keys (if old then removed + 1 else removed)

  unfoldable pub delete_keys : Str → List Str → Effect D ℕ
  unfolding delete_loop
  delete_keys upstream_id keys = do
    let name = tree_name upstream_id
    sled.open_tree name
    removed ← delete_loop name keys 0
    sled.flush name
    pure removed

  unfoldable pub load_all_keys : Str → Effect D (List Str)
  unfolding texts_of
  load_all_keys upstream_id = do
    let name = tree_name upstream_id
    sled.open_tree name
    items ← sled.iter name
    λ d. (texts_of items, d)

  unfoldable pub count_keys : Str → Effect D ℕ
  count_keys upstream_id = do let name = tree_name upstream_id; sled.open_tree name; sled.len name
