-- ===== src/Admin/Reload.antt =====
-- `api_reload_all` of src/admin.rs: the keys in memory are read again from the database. The refresh
-- of models that it spawns is left out.
pub mod Restored
use gptload_rs.Prelude.{ℕ, List, [], ◌∷◌, length}
use gptload_rs.Prelude.Text.{Str}
use gptload_rs.Prelude.Result.{Result, ok, err}
use gptload_rs.State.Defs.{KeyState, Upstream, Memory}
use gptload_rs.State.Snapshot.{Http, build_key_states}
use gptload_rs.Storage.Database.{Sled}
use gptload_rs.Storage.{load_all_keys}
use gptload_rs.Admin.Defs.{Backend}
use gptload_rs.Admin.Keys.{store_keys}

-- The line of the answer for an upstream.
pub data Reloaded : Type 0 where
  reloaded : (id : Str) (keys_total : ℕ) → Reloaded
  failed : (id : Str) → Reloaded

-- What follows the call of `build_key_states`, and that of `load_all_keys`.
unfoldable pub reload_states :
    {D : Type 0} → Upstream → Result (List KeyState × Memory) → D → Backend D → Reloaded × Backend D
reload_states u (err why) db b = (failed u.id, record b { db = db })
reload_states u (ok (ks, m)) db b = (
  reloaded u.id (length ks),
  record b { router = store_keys u ks (record b.router { memory = m }); db = db },
)

unfoldable pub reload_keys :
    {D : Type 0} → Http → Upstream → Result (List Str) → D → Backend D → Reloaded × Backend D
unfolding build_key_states reload_states
reload_keys http u (err why) db b = (failed u.id, record b { db = db })
reload_keys http u (ok keys) db b =
    reload_states u (build_key_states http keys b.router.memory) db b

module _ {D : Type 0} (http : Http) (sled : Sled D) where
  -- One round of the loop.
  unfoldable pub reload_one : Upstream → Backend D → Reloaded × Backend D
  unfolding load_all_keys reload_keys
  reload_one u b =
      let loaded = load_all_keys sled u.id b.db in reload_keys http u loaded.0 loaded.1 b

  unfoldable pub reload_loop : List Upstream → Backend D → List Reloaded × Backend D
  unfolding reload_one
  reload_loop [] b = ([], b)
  reload_loop (u ∷ us) b =
      let one = reload_one u b in let rest = reload_loop us one.1 in (one.0 ∷ rest.0, rest.1)

  unfoldable pub api_reload_all : Backend D → List Reloaded × Backend D
  unfolding reload_loop
  api_reload_all b = reload_loop b.router.snapshot.upstreams b
