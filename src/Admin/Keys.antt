-- ===== src/Admin/Keys.antt =====
-- The handlers of src/admin.rs for the keys of an upstream. The refresh of models that they spawn
-- afterwards is a request to the upstream and is left out.
pub mod InSync
pub mod Steps
pub mod Handlers
use gptload_rs.Prelude.{
  ℕ, ◌+◌, Bool, true, false, not, Option, none, some, List, [], ◌∷◌, ◌++◌, map, length,
  if◌then◌else◌,
}
use gptload_rs.Prelude.Text.{Str, contains, is_empty}
use gptload_rs.Prelude.Result.{Result, ok, err}
use gptload_rs.State.Defs.{KeyState, Upstream, Memory, RouterState, upstream_cell, set_upstream}
use gptload_rs.State.Select.{upstream_by_id}
use gptload_rs.State.Snapshot.{Http, build_key_states}
use gptload_rs.Storage.Database.{Sled}
use gptload_rs.Storage.{AddKeysResult, add_keys, replace_keys, delete_keys}
use gptload_rs.Admin.Defs.{
  Backend, Response, json_error, keys_added, keys_replaced, keys_removed, bad_request, not_found,
  internal_error,
}
use gptload_rs.Admin.Body.{dedupe_keys, validate_keys}

-- `upstream.keys.store(keys)`
abbrev pub store_keys : Upstream → List KeyState → RouterState → RouterState
store_keys u keys s = set_upstream u (record (upstream_cell s u) { keys = keys }) s

abbrev pub keys_len : Upstream → RouterState → ℕ
keys_len u s = length (upstream_cell s u).keys

-- The keys that a handler goes on with, or why it does not.
pub data Checked : Type 0 where
  refused : Response → Checked
  accepted : List Str → Checked

-- The checks of `api_add_keys` and `api_replace_keys`.
unfoldable pub checked_keys : Http → Result (List Str × Bool) → Checked
unfolding dedupe_keys validate_keys
checked_keys http (err why) = refused (json_error 400 bad_request)
checked_keys http (ok (parsed, dedupe)) =
    let keys = if dedupe then dedupe_keys parsed else parsed in
    if is_empty keys then refused (json_error 400 bad_request) else elim (validate_keys http keys) [
      | err why ↦ refused (json_error 400 bad_request)
      | ok _ ↦ accepted keys
    ]

-- The keys that are not in the set of those to remove.
unfoldable pub retain_keys : List Str → List KeyState → List KeyState
unfolding contains
retain_keys remove [] = []
retain_keys remove (k ∷ keys) =
    let rest = retain_keys remove keys in if contains remove k.key then rest else k ∷ rest

module _ {D : Type 0} (http : Http) where
  -- The blocking part of `api_add_keys` behind the call of the key store: only the keys that are
  -- new to the tree are appended.
  unfoldable pub append_states :
      Upstream
      → AddKeysResult
      → Result (List KeyState × Memory)
      → D
      → Backend D
      → Response × Backend D
  append_states u r (err why) db b = (json_error 500 internal_error, record b { db = db })
  append_states u r (ok (states, m)) db b =
      let s = record b.router { memory = m } in
      let s' = store_keys u ((upstream_cell s u).keys ++ states) s in
      (keys_added r.inserted r.existed (keys_len u s'), record b { router = s'; db = db })

  unfoldable pub append_keys :
      Upstream → Result AddKeysResult → D → Backend D → Response × Backend D
  unfolding append_states build_key_states
  append_keys u (err why) db b = (json_error 500 internal_error, record b { db = db })
  append_keys u (ok r) db b =
      append_states u r (build_key_states http r.inserted_keys b.router.memory) db b

  -- The blocking part of `api_replace_keys` behind the call of the key store.
  unfoldable pub install_states :
      Upstream → Result (List KeyState × Memory) → D → Backend D → Response × Backend D
  install_states u (err why) db b = (json_error 500 internal_error, record b { db = db })
  install_states u (ok (states, m)) db b = (
    keys_replaced (length states),
    record b { router = store_keys u states (record b.router { memory = m }); db = db },
  )

  unfoldable pub install_keys :
      Upstream → List Str → Result (Unit {0}) → D → Backend D → Response × Backend D
  unfolding install_states build_key_states
  install_keys u keys (err why) db b = (json_error 500 internal_error, record b { db = db })
  install_keys u keys (ok _) db b =
      install_states u (build_key_states http keys b.router.memory) db b

-- The blocking part of `api_delete_keys` behind the call of the key store.
unfoldable pub drop_keys :
    {D : Type 0} → Upstream → List Str → Result ℕ → D → Backend D → Response × Backend D
unfolding retain_keys
drop_keys u keys (err why) db b = (json_error 500 internal_error, record b { db = db })
drop_keys u keys (ok removed) db b =
    let s = store_keys u (retain_keys keys (upstream_cell b.router u).keys) b.router in
    (keys_removed removed (keys_len u s), record b { router = s; db = db })

module _ {D : Type 0} (http : Http) (sled : Sled D) where
  unfoldable pub add_to_upstream : Str → Upstream → List Str → Backend D → Response × Backend D
  unfolding add_keys
  add_to_upstream id u keys b =
      let added = add_keys sled id keys b.db in append_keys http u added.0 added.1 b

  unfoldable pub api_add_keys : Result (List Str × Bool) → Str → Backend D → Response × Backend D
  unfolding upstream_by_id checked_keys add_to_upstream
  api_add_keys body id b = elim (upstream_by_id id b.router) [
    | none ↦ (json_error 404 not_found, b)
    | some (idx, u) ↦ elim (checked_keys http body) [
      | refused r ↦ (r, b)
      | accepted keys ↦ add_to_upstream id u keys b
    ]
  ]

  unfoldable pub replace_in_upstream : Str → Upstream → List Str → Backend D → Response × Backend D
  unfolding replace_keys
  replace_in_upstream id u keys b =
      let replaced = replace_keys sled id keys b.db in
      install_keys http u keys replaced.0 replaced.1 b

  unfoldable pub api_replace_keys :
      Result (List Str × Bool) → Str → Backend D → Response × Backend D
  unfolding upstream_by_id checked_keys replace_in_upstream
  api_replace_keys body id b = elim (upstream_by_id id b.router) [
    | none ↦ (json_error 404 not_found, b)
    | some (idx, u) ↦ elim (checked_keys http body) [
      | refused r ↦ (r, b)
      | accepted keys ↦ replace_in_upstream id u keys b
    ]
  ]

  unfoldable pub delete_from_upstream : Str → Upstream → List Str → Backend D → Response × Backend D
  unfolding delete_keys
  delete_from_upstream id u keys b =
      let deleted = delete_keys sled id keys b.db in drop_keys u keys deleted.0 deleted.1 b

  unfoldable pub api_delete_keys : Result (List Str × Bool) → Str → Backend D → Response × Backend D
  unfolding upstream_by_id dedupe_keys delete_from_upstream
  api_delete_keys body id b = elim (upstream_by_id id b.router) [
    | none ↦ (json_error 404 not_found, b)
    | some (idx, u) ↦ elim body [
      | err why ↦ (json_error 400 bad_request, b)
      | ok (parsed, dedupe) ↦
          if is_empty parsed
          then (json_error 400 bad_request, b)
          else delete_from_upstream id u (if dedupe then dedupe_keys parsed else parsed) b
    ]
  ]
