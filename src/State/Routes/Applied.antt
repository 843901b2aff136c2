-- ===== src/State/Routes/Applied.antt =====
-- What saving model routes makes the upstreams serve.
use gptload_rs.Prelude.{
  ℕ, ◌≡◌, refl, ◌∙◌, sym, ap, subst, some_same, Bool-cases, inl, inr, some, List, [], get_elem?,
  arith,
}
use gptload_rs.Prelude.Text.{Str, contains}
use gptload_rs.Prelude.Dict.{Dict}
use gptload_rs.Prelude.Result.{ok, ok-injective, Result-cases}
use gptload_rs.State.Defs.{Upstream, UpstreamCell, RouterState, upstream_cell}
use gptload_rs.State.Select.{index_of}
use gptload_rs.State.Snapshot.Built.{IsBuilt}
use gptload_rs.State.Routes.Disk.{ModelRoutesFile, IsSameRoutes, Files, Hub}
use gptload_rs.State.Routes.{
  list_at, models_of, per_upstream, apply_routes_to_upstreams, clean_routes, all_known,
  apply_written, write_and_apply, save_model_routes,
}
use gptload_rs.State.Routes.Inverse.{IsDistinct, models_of_lem}
use gptload_rs.State.Routes.Serves.{
  serves, serves-clean, serves-twice, clean_routes-serves, clean_routes-IsDistinct,
}
use gptload_rs.State.Routes.Stored.{cells-InRow, per_upstream-serves, store_models_at}

-- Applying routes to the upstreams of a snapshot.
pub apply_routes_to_upstreams-serves :
    {base : ℕ} (s : RouterState) (routes : ModelRoutesFile) (i : ℕ) (u : Upstream) (m : Str)
    → IsBuilt base s.snapshot s.memory
    → IsDistinct routes.upstreams
    → get_elem? s.snapshot.upstreams i ≡ some u
    → contains
        ((apply_routes_to_upstreams routes s.snapshot.upstreams s.snapshot.upstream_index
            s.memory).upstream_at
          u.cell).models
        m
      ≡ serves (list_at u.id routes.upstreams) m
unfolding apply_routes_to_upstreams contains
apply_routes_to_upstreams-serves {base} s routes i u m v h at =
    let snap = s.snapshot in
    let sets = per_upstream routes.upstreams snap.upstream_index (λ idx. []) in
    let row = cells-InRow base snap.upstreams v.cells in
    let stored = store_models_at snap.upstreams 0 base i u sets s.memory row at in
    let only : (j : Str) → index_of j snap.upstream_index ≡ some i → j ≡ u.id = λ j e.
      let (w, at', same) = v.indexed j i e in
      sym same ∙ ap (λ (x : Upstream). x.id) (some_same (sym at' ∙ at)) in
    ap (λ (c : UpstreamCell). contains c.models m) stored
    ∙ ap (λ n. contains (sets n) m) (omega arith)
    ∙ per_upstream-serves routes.upstreams snap.upstream_index (λ idx. []) u.id i m (v.found i u at)
        only h

-- That routes have an upstream under exactly the models it is given, and these under it.
abbrev pub Routes : ModelRoutesFile → Dict (List Str) → Str → Str → Type 0
Routes routes upstreams id m =
    (contains (list_at id routes.upstreams) m ≡ serves (list_at id upstreams) m)
    × (contains (list_at m routes.models) id ≡ serves (list_at id upstreams) m)

Routes-same :
    (r r' : ModelRoutesFile) (upstreams : Dict (List Str)) (id m : Str)
    → IsSameRoutes r r'
    → Routes r upstreams id m
    → Routes r' upstreams id m
Routes-same r r' upstreams id m same (a, b) =
    (rw (list_at, same.upstreams id) a, rw (list_at, same.models m) b)

module _ {F : Type 0} (files : Files F) (now : ℕ) where
  -- When `save_model_routes` succeeds, every upstream has in memory exactly the models that it was
  -- given, trimmed and without the empty ones; and both the routes that are returned and those that
  -- `load_model_routes` reads afterwards list exactly those models for the upstream, and the
  -- upstream under exactly those models.
  pub save_model_routes-serves :
      {base : ℕ} (upstreams : Dict (List Str)) (h : Hub F) (i : ℕ) (u : Upstream) (m : Str)
      {routes : ModelRoutesFile}
      → IsBuilt base h.router.snapshot h.router.memory
      → IsDistinct upstreams
      → get_elem? h.router.snapshot.upstreams i ≡ some u
      → (save_model_routes files now upstreams h).0 ≡ ok routes
      → (contains (upstream_cell (save_model_routes files now upstreams h).1.router u).models m
          ≡ serves (list_at u.id upstreams) m)
        × Routes routes upstreams u.id m
        × (r : ModelRoutesFile) × (files.load_model_routes
              (save_model_routes files now upstreams h).1.files
            ≡ ok r)
        × Routes r upstreams u.id m
  unfolding save_model_routes write_and_apply apply_written
  save_model_routes-serves upstreams h i u m {routes} v d at e =
      let clean = clean_routes upstreams [] in
      let new : ModelRoutesFile = record {
        updated_at_ms = now;
        models = models_of clean;
        upstreams = clean;
      } in
      elim (Bool-cases (all_known upstreams h.router.snapshot.upstream_index)) [
        | inr unknown ↦ absurd (let failed = rw unknown at e in cc failed)
        | inl known ↦ elim (Result-cases (files.write_model_routes new h.files).0) [
          | inl (why, f) ↦ absurd (let failed = rw (known, f) at e in cc failed)
          | inr (_, f) ↦
              let e' = rw (known, f) at e in
              let kept = clean_routes-IsDistinct upstreams [] tt in
              let applied = apply_routes_to_upstreams-serves h.router new i u m v kept at in
              let here = clean_routes-serves serves serves-twice upstreams u.id m refl d in
              let plain = clean_routes-serves contains serves-clean upstreams u.id m refl d in
              let both = models_of_lem clean m u.id kept in
              let written : Routes new upstreams u.id m = (plain, both ∙ plain) in
              let (r, loaded, same) = files.load-write_routes new h.files f in
              rw (save_model_routes, known, f)
                (
                  applied ∙ here,
                  subst (λ q. Routes q upstreams u.id m) (ok-injective e') written,
                  r,
                  loaded,
                  Routes-same new r upstreams u.id m same written,
                )
        ]
      ]
