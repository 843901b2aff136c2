-- ===== src/State/Upstreams/Changed.antt =====
-- What the changes do to the configurations of the upstreams.
use gptload_rs.Prelude.{ℕ, suc, ◌≡◌, refl, ◌∙◌, sym, ap, subst, Bool-cases, inl, inr, List, [], ◌∷◌}
use gptload_rs.Prelude.Text.{Str}
use gptload_rs.Prelude.Result.{Result, ok, err, Result-cases}
use gptload_rs.Prelude.Effect.{bind-eq-ok}
use gptload_rs.Config.{UpstreamConfig}
use gptload_rs.State.Defs.{Upstream, Memory, RouterSnapshot, RouterState}
use gptload_rs.State.Snapshot.{Http, build_snapshot_from_configs}
use gptload_rs.State.Snapshot.Built.{IsBuilt, build_snapshot_from_configs-IsBuilt}
use gptload_rs.Storage.Database.{Sled}
use gptload_rs.State.Routes.Disk.{ModelRoutesFile, Files, Hub}
use gptload_rs.State.Routes.{
  apply_routes_to_upstreams, store_models, per_upstream, all_known, apply_written, write_and_apply,
  cleanup_model_routes,
}
use gptload_rs.State.Routes.Stored.{cells-InRow, store_models_below}
use gptload_rs.State.Upstreams.{
  configs_of, current_upstream_configs, with_routes, store_snapshot, stored_keys, install_snapshot,
  write_upstreams, replace_upstreams,
}
use gptload_rs.State.Upstreams.Replaced.{
  all_normalized, build_snapshot_from_configs-configs_of, Keeps, build_snapshot_from_configs-Keeps,
}

-- Storing models changes no address.
store_models-next :
    (us : List Upstream) (k : ℕ) (sets : ℕ → List Str) (m : Memory)
    → (store_models us k sets m).next_upstream ≡ m.next_upstream
unfolding store_models
store_models-next [] k sets m = refl
store_models-next (u ∷ us) k sets m = store_models-next us (suc k) sets _

IsBuilt-next :
    {base : ℕ} {snap : RouterSnapshot} {m : Memory} (m' : Memory)
    → IsBuilt base snap m
    → m'.next_upstream ≡ m.next_upstream
    → IsBuilt base snap m'
IsBuilt-next m' v e = record {
  entries = v.entries;
  weights = v.weights;
  indexed = v.indexed;
  found = v.found;
  cells = v.cells;
  next = e ∙ v.next;
}

-- A state with a snapshot that was built over the cells of `m`, which are as they were.
pub record IsOver (m : Memory) (s : RouterState) : Type 0 where
  pub built : IsBuilt m.next_upstream s.snapshot s.memory
  pub keeps : Keeps m s.memory

apply_routes-IsOver :
    {m : Memory} (s : RouterState) (routes : ModelRoutesFile)
    → IsOver m s
    → IsOver m (record s {
      memory =
          apply_routes_to_upstreams routes s.snapshot.upstreams s.snapshot.upstream_index s.memory;
    })
unfolding apply_routes_to_upstreams
apply_routes-IsOver {m} s routes v =
    let snap = s.snapshot in
    let sets = per_upstream routes.upstreams snap.upstream_index (λ idx. []) in
    let row = cells-InRow m.next_upstream snap.upstreams v.built.cells in
    record {
      built =
          IsBuilt-next (store_models snap.upstreams 0 sets s.memory) v.built
            (store_models-next snap.upstreams 0 sets s.memory);
      keeps = λ c lt.
          store_models_below snap.upstreams 0 m.next_upstream c sets s.memory row lt ∙ v.keeps c lt;
    }

pub with_routes-IsOver :
    {m : Memory} (s : RouterState) (r : Result ModelRoutesFile)
    → IsOver m s
    → IsOver m (record s { memory = with_routes r s.snapshot s.memory })
with_routes-IsOver s (err why) v = v
with_routes-IsOver s (ok routes) v = apply_routes-IsOver s routes v

module _ {F : Type 0} (http : Http) (sled : Sled F) (files : Files F) (now : ℕ) where
  store_snapshot-IsOver :
      (configs : List UpstreamConfig) (r : Result (RouterSnapshot × Memory)) (h : Hub F)
      → r ≡ build_snapshot_from_configs http (stored_keys sled h.files) configs h.router.memory
      → (store_snapshot http sled files now r h).0 ≡ ok tt
      → IsOver h.router.memory (store_snapshot http sled files now r h).1.router
        × (current_upstream_configs (store_snapshot http sled files now r h).1.router
            ≡ all_normalized configs)
        × ((store_snapshot http sled files now r h).1.files ≡ h.files)
  unfolding store_snapshot
  store_snapshot-IsOver configs (err why) h e done = absurd (cc)
  store_snapshot-IsOver configs (ok (snap, m)) h e done =
      let load = stored_keys sled h.files in
      let built = build_snapshot_from_configs-IsBuilt http load configs h.router.memory (sym e) in
      let keeps =
        build_snapshot_from_configs-Keeps http load configs h.router.memory {snap = snap} {m' = m}
          (sym e) in
      let same =
        build_snapshot_from_configs-configs_of http load configs h.router.memory {snap = snap}
          {m' = m} (sym e) in
      (
        with_routes-IsOver (record h.router { snapshot = snap; memory = m })
            (files.load_model_routes h.files) (record { built = built; keeps = keeps }),
        same,
        refl,
      )

  -- What a later step leaves in place.
  record IsKept (m : Memory) (h h' : Hub F) : Type 0 where
    over : IsOver m h'.router
    same : h'.router.snapshot ≡ h.router.snapshot
    listed : files.load_upstreams_override h'.files ≡ files.load_upstreams_override h.files

  write_and_apply-IsKept :
      {m : Memory} (routes : ModelRoutesFile) (h : Hub F)
      → IsOver m h.router
      → IsKept m h (write_and_apply files now routes h).1
  unfolding write_and_apply apply_written
  write_and_apply-IsKept routes h v =
      let written = files.write_model_routes routes h.files in
      let listed = files.load_upstreams-write_routes routes h.files in
      elim (Result-cases written.0) [
        | inl (why, e) ↦ rw (write_and_apply, e) (record { over = v; same = refl; listed = listed })
        | inr (_, e) ↦
            rw (write_and_apply, e)
              (record {
                over = apply_routes-IsOver h.router routes v;
                same = refl;
                listed = listed;
              })
      ]

  cleanup_model_routes-IsKept :
      {m : Memory} (h : Hub F) → IsOver m h.router → IsKept m h (cleanup_model_routes files now h).1
  unfolding cleanup_model_routes
  cleanup_model_routes-IsKept h v = elim (Result-cases (files.load_model_routes h.files)) [
    | inl (why, e) ↦ rw (cleanup_model_routes, e) (record { over = v; same = refl; listed = refl })
    | inr (routes, e) ↦
        elim (Bool-cases (all_known routes.upstreams h.router.snapshot.upstream_index)) [
          | inl f ↦
              rw (cleanup_model_routes, e, f) (record { over = v; same = refl; listed = refl })
          | inr f ↦ rw (cleanup_model_routes, e, f) (write_and_apply-IsKept _ h v)
        ]
  ]

  -- When `replace_upstreams` succeeds, the upstreams are those of the given configurations, with
  -- the weights clamped, in a well-formed snapshot; the upstreams that requests still hold are as
  -- they were; and the file holds the given configurations.
  pub replace_upstreams_lem :
      (configs : List UpstreamConfig) (h : Hub F)
      → (replace_upstreams http sled files now configs h).0 ≡ ok tt
      → (current_upstream_configs (replace_upstreams http sled files now configs h).1.router
          ≡ all_normalized configs)
        × IsOver h.router.memory (replace_upstreams http sled files now configs h).1.router
        × (files.load_upstreams_override (replace_upstreams http sled files now configs h).1.files
            ≡ ok configs)
  unfolding replace_upstreams install_snapshot write_upstreams
  replace_upstreams_lem configs h done =
      let install = install_snapshot http sled files now configs in
      let write = write_upstreams http sled files now configs in
      let (_, e1, r1, f1) = bind-eq-ok install _ h done in
      let h1 = (install h).1 in
      let (_, e2, r2, f2) = bind-eq-ok write _ h1 f1 in
      let h2 = (write h1).1 in
      let (over, same, _) =
        store_snapshot-IsOver configs
          (build_snapshot_from_configs http (stored_keys sled h.files) configs h.router.memory) h
          refl e1 in
      let kept = cleanup_model_routes-IsKept h2 over in
      let written = files.load-write_upstreams configs h1.files e2 in
      let last : (replace_upstreams http sled files now configs h).1
          ≡ (cleanup_model_routes files now h2).1 =
        ap (λ (p : Result (Unit {0}) × Hub F). p.1) (r1 ∙ r2) in
      subst
        (λ (k : Hub F).
          (current_upstream_configs k.router ≡ all_normalized configs)
          × IsOver h.router.memory k.router
          × (files.load_upstreams_override k.files ≡ ok configs))
        (sym last)
        (
          ap (λ (n : RouterSnapshot). configs_of n.upstreams) kept.same ∙ same,
          kept.over,
          kept.listed ∙ written,
        )
