-- ===== src/State/Routes.antt =====
-- The model routes of src/state.rs: which models each upstream serves, in memory and in a file. A
-- `BTreeMap` is a `Dict`, and a set is a list without repetition.
pub mod Disk
pub mod Inverse
pub mod Serves
pub mod Stored
pub mod Applied
use gptload_rs.Prelude.{
  ℕ, suc, ◌+◌, Bool, true, false, not, Option, none, some, List, [], ◌∷◌, ◌++◌, if◌then◌else◌,
}
use gptload_rs.Prelude.Text.{Str, contains, is_empty, trim}
use gptload_rs.Prelude.Dict.{Dict, lookup, insert}
use gptload_rs.Prelude.Sort.{sort, dedup}
use gptload_rs.Prelude.Result.{Result, ok, err, Error, unknown_id}
use gptload_rs.Prelude.Effect.{Effect}
use gptload_rs.State.Defs.{
  Upstream, UpstreamCell, Memory, RouterSnapshot, RouterState, upstream_cell, update,
}
use gptload_rs.State.Select.{index_of}
use gptload_rs.State.Snapshot.{is_some}
use gptload_rs.State.Routes.Disk.{ModelRoutesFile, Files, Hub}

-- `get(k)`, with no models for a missing key.
abbrev pub list_at : Str → Dict (List Str) → List Str
list_at k d = elim (lookup k d) [ none ↦ [] | some l ↦ l ]

-- `entry(model).or_default().push(id)`
abbrev pub push_at : Str → Str → Dict (List Str) → Dict (List Str)
push_at model id models = insert model (list_at model models ++ id ∷ []) models

-- The inner loop, over the models of one upstream.
unfoldable pub push_all : Str → List Str → Dict (List Str) → Dict (List Str)
unfolding insert lookup
push_all id [] models = models
push_all id (model ∷ list) models = push_all id list (push_at model id models)

-- The outer loop.
unfoldable pub invert : Dict (List Str) → Dict (List Str) → Dict (List Str)
unfolding push_all
invert [] models = models
invert ((id, list) ∷ upstreams) models = invert upstreams (push_all id list models)

-- `for ids in models.values_mut() { ids.sort(); ids.dedup(); }`
unfoldable pub sort_values : Dict (List Str) → Dict (List Str)
unfolding sort dedup
sort_values [] = []
sort_values ((model, ids) ∷ models) = (model, dedup (sort ids)) ∷ sort_values models

abbrev pub models_of : Dict (List Str) → Dict (List Str)
models_of upstreams = sort_values (invert upstreams [])

-- `set.insert(m.trim())` of the models that are not empty.
unfoldable pub insert_models : List Str → List Str → List Str
unfolding trim contains
insert_models set [] = set
insert_models set (m ∷ models) =
    let m' = trim m in
    insert_models (if is_empty m' then set else if contains set m' then set else set ++ m' ∷ [])
      models

-- The sets of the upstreams by position, after the loop over the routes.
unfoldable pub per_upstream : Dict (List Str) → List (Str × ℕ) → (ℕ → List Str) → ℕ → List Str
unfolding index_of insert_models
per_upstream [] index sets = sets
per_upstream ((id, models) ∷ routes) index sets = elim (index_of id index) [
  | none ↦ per_upstream routes index sets
  | some idx ↦ per_upstream routes index (update sets idx (insert_models (sets idx) models))
]

-- `upstreams[idx].models.store(set)` from `idx` on.
unfoldable pub store_models : List Upstream → ℕ → (ℕ → List Str) → Memory → Memory
store_models [] idx sets m = m
store_models (u ∷ upstreams) idx sets m =
    let c = m.upstream_at u.cell in
    store_models upstreams (suc idx) sets
      (record m { upstream_at = update m.upstream_at u.cell (record c { models = sets idx }) })

unfoldable pub apply_routes_to_upstreams :
    ModelRoutesFile → List Upstream → List (Str × ℕ) → Memory → Memory
unfolding per_upstream store_models
apply_routes_to_upstreams routes upstreams index m =
    store_models upstreams 0 (per_upstream routes.upstreams index (λ idx. [])) m

-- The upstreams that have models, with their models in order.
unfoldable pub loaded_models : Memory → List Upstream → Dict (List Str) → Dict (List Str)
unfolding sort dedup insert
loaded_models m [] acc = acc
loaded_models m (u ∷ upstreams) acc =
    let set = (m.upstream_at u.cell).models in
    loaded_models m upstreams (if is_empty set then acc else insert u.id (dedup (sort set)) acc)

-- `build_model_routes`, at the time `now`. The code fills both maps in one loop.
unfoldable pub build_model_routes : ℕ → RouterState → ModelRoutesFile
unfolding loaded_models invert sort_values
build_model_routes now s =
    let upstreams = loaded_models s.memory s.snapshot.upstreams [] in
    record { updated_at_ms = now; models = models_of upstreams; upstreams = upstreams }

-- The loop of `save_model_routes` over its argument.
unfoldable pub clean_routes : Dict (List Str) → Dict (List Str) → Dict (List Str)
unfolding insert_models sort insert
clean_routes [] clean = clean
clean_routes ((id, models) ∷ upstreams) clean =
    clean_routes upstreams (insert id (sort (insert_models [] models)) clean)

abbrev pub all_known : Dict (List Str) → List (Str × ℕ) → Bool
all_known [] index = true
all_known ((id, _) ∷ upstreams) index =
    if is_some (index_of id index) then all_known upstreams index else false

module _ {F : Type 0} (files : Files F) (now : ℕ) where
  unfoldable pub get_model_routes : Hub F → ModelRoutesFile
  unfolding build_model_routes
  get_model_routes h = elim (files.load_model_routes h.files) [
    | ok routes ↦ routes
    | err _ ↦ build_model_routes now h.router
  ]

  -- What follows a call of `write_model_routes`.
  unfoldable pub apply_written :
      ModelRoutesFile → Result (Unit {0}) → F → Hub F → Result ModelRoutesFile × Hub F
  unfolding apply_routes_to_upstreams
  apply_written routes (err why) fs h = (err why, record h { files = fs })
  apply_written routes (ok _) fs h =
      let s = h.router in
      let snap = s.snapshot in
      let m = apply_routes_to_upstreams routes snap.upstreams snap.upstream_index s.memory in
      (ok routes, record h { router = record s { memory = m }; files = fs })

  -- `write_model_routes` and then `apply_routes_to_upstreams`.
  unfoldable pub write_and_apply : ModelRoutesFile → Hub F → Result ModelRoutesFile × Hub F
  unfolding apply_written
  write_and_apply routes h =
      let written = files.write_model_routes routes h.files in
      apply_written routes written.0 written.1 h

  unfoldable pub save_model_routes : Dict (List Str) → Hub F → Result ModelRoutesFile × Hub F
  unfolding clean_routes invert sort_values write_and_apply
  save_model_routes upstreams h =
      if not (all_known upstreams h.router.snapshot.upstream_index)
      then (err unknown_id, h)
      else let clean = clean_routes upstreams [] in
        write_and_apply
          (record { updated_at_ms = now; models = models_of clean; upstreams = clean }) h

  -- The entries of the upstreams that are still there.
  unfoldable pub retain_known : List (Str × ℕ) → Dict (List Str) → Dict (List Str)
  unfolding index_of
  retain_known index [] = []
  retain_known index ((id, models) ∷ routes) =
      let rest = retain_known index routes in
      if is_some (index_of id index) then (id, models) ∷ rest else rest

  unfoldable pub cleanup_model_routes : Effect (Hub F) (Unit {0})
  unfolding retain_known invert sort_values write_and_apply
  cleanup_model_routes h = elim (files.load_model_routes h.files) [
    | err _ ↦ (ok tt, h)
    | ok routes ↦
        let index = h.router.snapshot.upstream_index in
        let kept = retain_known index routes.upstreams in
        if all_known routes.upstreams index
        then (ok tt, h)
        else let done =
            write_and_apply
              (record { updated_at_ms = now; models = models_of kept; upstreams = kept }) h in
          (elim done.0 [ err why ↦ err why | ok _ ↦ ok tt ], done.1)
  ]
