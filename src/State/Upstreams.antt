-- ===== src/State/Upstreams.antt =====
-- The changes to the upstreams of src/state.rs: a new list of configurations is built into a
-- snapshot that takes the place of the old one, and is written to a file.
pub mod Replaced
pub mod Changed
pub mod Listing
use gptload_rs.Prelude.{
  ℕ, Bool, true, false, not, Option, none, some, List, [], ◌∷◌, ◌++◌, length, ◌==◌, if◌then◌else◌,
}
use gptload_rs.Prelude.Text.{Str, str_eq}
use gptload_rs.Prelude.Result.{Result, ok, err, unknown_id, id_exists}
use gptload_rs.Prelude.Effect.{Effect, ◌>>◌}
use gptload_rs.Config.{UpstreamConfig}
use gptload_rs.State.Defs.{Upstream, Memory, RouterSnapshot, RouterState}
use gptload_rs.State.Snapshot.{Http, build_snapshot_from_configs}
use gptload_rs.Storage.Database.{Sled}
use gptload_rs.Storage.{load_all_keys, replace_keys}
use gptload_rs.State.Routes.Disk.{ModelRoutesFile, Files, Hub}
use gptload_rs.State.Routes.{apply_routes_to_upstreams, cleanup_model_routes}

abbrev pub config_of : Upstream → UpstreamConfig
config_of u = record { id = u.id; base_url = u.base_url; weight = some u.weight }

abbrev pub configs_of : List Upstream → List UpstreamConfig
configs_of [] = []
configs_of (u ∷ us) = config_of u ∷ configs_of us

abbrev pub current_upstream_configs : RouterState → List UpstreamConfig
current_upstream_configs s = configs_of s.snapshot.upstreams

-- `list.iter().any(|u| u.id == id)`
unfoldable pub has_id : Str → List UpstreamConfig → Bool
unfolding str_eq
has_id id [] = false
has_id id (c ∷ cs) = if str_eq c.id id then true else has_id id cs

-- The loop of `update_upstream`, which stops at the first match, and whether there is one.
unfoldable pub update_config :
    Str → Str → Option ℕ → List UpstreamConfig → List UpstreamConfig × Bool
unfolding str_eq
update_config id base_url weight [] = ([], false)
update_config id base_url weight (c ∷ cs) =
    let (rest, found) = update_config id base_url weight cs in
    if str_eq c.id id
    then ((record c { base_url = base_url; weight = weight }) ∷ cs, true)
    else (c ∷ rest, found)

-- `list.retain(|u| u.id != id)`
unfoldable pub retain_others : Str → List UpstreamConfig → List UpstreamConfig
unfolding str_eq
retain_others id [] = []
retain_others id (c ∷ cs) =
    let rest = retain_others id cs in if str_eq c.id id then rest else c ∷ rest

-- The models of a file that can be read, on the upstreams of a new snapshot.
abbrev pub with_routes : Result ModelRoutesFile → RouterSnapshot → Memory → Memory
with_routes (err _) snap m = m
with_routes (ok routes) snap m =
    apply_routes_to_upstreams routes snap.upstreams snap.upstream_index m

-- `F` is the state of the disk, with the database of the keys.
module _ {F : Type 0} (sled : Sled F) where
  -- Loading keys opens the trees; that this makes missing ones, which are empty, is left out.
  abbrev pub stored_keys : F → Str → Result (List Str)
  stored_keys f id = (load_all_keys sled id f).0

  -- `store.replace_keys(id, &[])`
  abbrev pub empty_tree : Str → Effect (Hub F) (Unit {0})
  empty_tree id h =
      let emptied = replace_keys sled id [] h.files in (emptied.0, record h { files = emptied.1 })

module _ {F : Type 0} (http : Http) (sled : Sled F) (files : Files F) (now : ℕ) where
  -- `self.snapshot.store(…)`, when the snapshot could be built.
  unfoldable pub store_snapshot : Result (RouterSnapshot × Memory) → Effect (Hub F) (Unit {0})
  store_snapshot (err why) h = (err why, h)
  store_snapshot (ok (snap, m)) h =
      let m' = with_routes (files.load_model_routes h.files) snap m in
      (ok tt, record h { router = record h.router { snapshot = snap; memory = m' } })

  unfoldable pub install_snapshot : List UpstreamConfig → Effect (Hub F) (Unit {0})
  unfolding build_snapshot_from_configs store_snapshot load_all_keys
  install_snapshot configs h =
      store_snapshot
        (build_snapshot_from_configs http (stored_keys sled h.files) configs h.router.memory) h

  unfoldable pub write_upstreams : List UpstreamConfig → Effect (Hub F) (Unit {0})
  write_upstreams configs h =
      let written = files.write_upstreams_override configs h.files in
      (written.0, record h { files = written.1 })

  unfoldable pub replace_upstreams : List UpstreamConfig → Effect (Hub F) (Unit {0})
  unfolding install_snapshot write_upstreams cleanup_model_routes
  replace_upstreams configs = do
    install_snapshot configs
    write_upstreams configs
    cleanup_model_routes files now

  unfoldable pub add_upstream : UpstreamConfig → Effect (Hub F) (Unit {0})
  unfolding has_id replace_upstreams
  add_upstream cfg h =
      let list = current_upstream_configs h.router in
      if has_id cfg.id list then (err id_exists, h) else replace_upstreams (list ++ cfg ∷ []) h

  unfoldable pub update_upstream : Str → Str → Option ℕ → Effect (Hub F) (Unit {0})
  unfolding update_config replace_upstreams
  update_upstream id base_url weight h =
      let (list, found) = update_config id base_url weight (current_upstream_configs h.router) in
      if not found then (err unknown_id, h) else replace_upstreams list h

  unfoldable pub delete_upstream : Str → Bool → Effect (Hub F) (Unit {0})
  unfolding retain_others replace_upstreams replace_keys
  delete_upstream id delete_keys h =
      let before = current_upstream_configs h.router in
      let list = retain_others id before in
      if length list == length before
      then (err unknown_id, h)
      else if delete_keys
      then (replace_upstreams list >> empty_tree sled id) h
      else replace_upstreams list h
