-- ===== src/Tests/Keys.antt =====
-- The handlers for keys on a router with one upstream.
use gptload_rs.Prelude.{
  ℕ, zero, suc, ◌≡◌, refl, sym, ◌∙◌, ap, Bool, true, false, some_same, none, some, List, [], ◌∷◌,
  get_elem?, All, subst, arith,
}
use gptload_rs.Prelude.Text.{Str, codes, contains, str_eq, str_eq_iff, trim, trim_end_matches}
use gptload_rs.Prelude.Result.{Result, ok}
use gptload_rs.Config.{UpstreamConfig}
use gptload_rs.State.Defs.{Upstream, Memory, RouterSnapshot, RouterState, upstream_cell, update}
use gptload_rs.State.Snapshot.{build_snapshot_from_configs}
use gptload_rs.State.Snapshot.Built.{IsBuilt, build_snapshot_from_configs-IsBuilt}
use gptload_rs.Storage.{tree_name}
use gptload_rs.Admin.Body.Dedupe.{IsKey, keys_of}
use gptload_rs.Admin.Defs.{Backend, keys_added, keys_replaced, keys_removed}
use gptload_rs.Admin.Keys.{
  append_keys, install_keys, drop_keys, api_add_keys, api_replace_keys, api_delete_keys,
}
use gptload_rs.Admin.Keys.InSync.{IsConsistent}
use gptload_rs.Admin.Keys.Handlers.{
  api_add_keys-IsConsistent, api_replace_keys-IsConsistent, api_delete_keys-IsConsistent,
}
use gptload_rs.Admin.Reload.{api_reload_all}
use gptload_rs.Admin.Reload.Restored.{is_reloaded, HoldsKeys, api_reload_all-IsConsistent}
use gptload_rs.Tests.World.{http, free, router, blank}
use gptload_rs.Tests.Disk.{Disk, empty_disk, sled}

abbrev one_config : List UpstreamConfig
one_config = (record { id = codes "a"; base_url = codes "http://h/"; weight = none }) ∷ []

abbrev no_keys : Str → Result (List Str)
no_keys id = ok []

abbrev pub one_snapshot : RouterSnapshot
one_snapshot = record {
  upstreams =
      (record {
        id = codes "a";
        base_url = codes "http://h/";
        base_scheme = codes "http";
        base_authority = codes "h";
        base_path = [];
        weight = 1;
        cell = 0;
      })
      ∷ [];
  upstream_index = (codes "a", 0) ∷ [];
  schedule = 0 ∷ [];
}

abbrev pub one_memory : Memory
one_memory = record free {
  next_upstream = 1;
  upstream_at = update (update free.upstream_at 0 blank) 0 blank;
}

built_one : build_snapshot_from_configs http no_keys one_config free ≡ ok (one_snapshot, one_memory)
unfolding build_snapshot_from_configs str_eq trim_end_matches
built_one = refl

abbrev pub one_router : RouterState
one_router = record router { snapshot = one_snapshot; memory = one_memory }

pub one-IsBuilt : IsBuilt 0 one_snapshot one_memory
one-IsBuilt = build_snapshot_from_configs-IsBuilt http no_keys one_config free built_one

abbrev backend : Backend Disk
backend = record {
  router = one_router;
  billing = record { balances = []; poisoned = false; sent = [] };
  db = empty_disk;
}

backend-IsConsistent : IsConsistent sled 0 backend
unfolding contains
backend-IsConsistent = record { built = one-IsBuilt; in_sync = λ i u k at. same i u k at }
  where
    same :
        (i : ℕ) (u : Upstream) (k : Str)
        → get_elem? one_snapshot.upstreams i ≡ some u
        → contains (keys_of (upstream_cell one_router u).keys) k
          ≡ sled.has (tree_name u.id) k empty_disk
    same zero u k at =
        ap (λ (w : Upstream). contains (keys_of (upstream_cell one_router w).keys) k)
          (sym (some_same at))
    same (suc i) u k at = absurd (cc)

abbrev two_keys : Result (List Str × Bool)
two_keys = ok (codes " k1" ∷ codes "k1" ∷ codes "k2" ∷ [], true)

added : (api_add_keys http sled two_keys (codes "a") backend).0 ≡ keys_added 2 0 2
unfolding api_add_keys str_eq append_keys tree_name
added = refl

replaced : (api_replace_keys http sled two_keys (codes "a") backend).0 ≡ keys_replaced 2
unfolding api_replace_keys str_eq install_keys
replaced = refl

deleted : (api_delete_keys http sled two_keys (codes "a") backend).0 ≡ keys_removed 0 0
unfolding api_delete_keys str_eq drop_keys tree_name
deleted = refl

api_add_keys-IsConsistent_example :
    IsConsistent sled 0 (api_add_keys http sled two_keys (codes "a") backend).1
api_add_keys-IsConsistent_example =
    api_add_keys-IsConsistent http sled backend two_keys (codes "a") backend-IsConsistent
      (λ keys e. absurd (cc)) (λ e. absurd (let clash = sym added ∙ e in cc clash))

api_replace_keys-IsConsistent_example :
    IsConsistent sled 0 (api_replace_keys http sled two_keys (codes "a") backend).1
api_replace_keys-IsConsistent_example =
    api_replace_keys-IsConsistent http sled backend two_keys (codes "a") backend-IsConsistent
      (λ keys e. absurd (cc)) (λ e. absurd (let clash = sym replaced ∙ e in cc clash))

api_delete_keys-IsConsistent_example :
    IsConsistent sled 0 (api_delete_keys http sled two_keys (codes "a") backend).1
api_delete_keys-IsConsistent_example =
    api_delete_keys-IsConsistent http sled backend two_keys (codes "a") backend-IsConsistent
      (λ e. absurd (let clash = sym deleted ∙ e in cc clash))

abbrev loaded_backend : Backend Disk
loaded_backend = record backend { db = record empty_disk { db = (codes "u:a", codes "k1") ∷ [] } }

loaded-HoldsKeys : HoldsKeys http sled loaded_backend.db
unfolding trim
loaded-HoldsKeys t k h =
    let same : str_eq (codes "k1") k ≡ true = ground (arith, h) in
    subst IsKey ((str_eq_iff (codes "k1") k).0 same) (refl, refl)

every_ok : All (λ r. is_reloaded r ≡ true) (api_reload_all http sled loaded_backend).0
unfolding api_reload_all str_eq tree_name trim
every_ok = (refl, tt)

api_reload_all-IsConsistent_example :
    IsConsistent sled 0 (api_reload_all http sled loaded_backend).1
api_reload_all-IsConsistent_example =
    api_reload_all-IsConsistent http sled loaded_backend one-IsBuilt loaded-HoldsKeys every_ok
