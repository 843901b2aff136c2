-- ===== src/State/Start/Again.antt =====
-- The first state, and the state after a restart.
use gptload_rs.Prelude.{ℕ, ◌≡◌, refl, ◌∙◌, sym, ap, subst, List}
use gptload_rs.Prelude.Result.{Result, ok, err, ok-injective}
use gptload_rs.Config.{Config, UpstreamConfig}
use gptload_rs.State.Defs.{Memory, RouterSnapshot, RouterState}
use gptload_rs.State.Snapshot.{Http, build_snapshot_from_configs}
use gptload_rs.State.Snapshot.Built.{IsBuilt, build_snapshot_from_configs-IsBuilt}
use gptload_rs.Storage.Database.{Sled}
use gptload_rs.State.Routes.Disk.{Files, Hub}
use gptload_rs.State.Upstreams.{current_upstream_configs, stored_keys, replace_upstreams}
use gptload_rs.State.Upstreams.Replaced.{
  all_normalized, build_snapshot_from_configs-configs_of, build_snapshot_from_configs-Keeps,
}
use gptload_rs.State.Upstreams.Changed.{IsOver, with_routes-IsOver, replace_upstreams_lem}
use gptload_rs.State.Start.{override_or, with_snapshot, new_state}

module _ {F : Type 0} (http : Http) (sled : Sled F) (files : Files F) where
  with_snapshot_lem :
      (cfg : Config) (f : F) (m : Memory) (configs : List UpstreamConfig)
      (r : Result (RouterSnapshot × Memory)) {s : RouterState}
      → r ≡ build_snapshot_from_configs http (stored_keys sled f) configs m
      → with_snapshot http sled files cfg f r ≡ ok s
      → IsOver m s × (current_upstream_configs s ≡ all_normalized configs)
  unfolding with_snapshot
  with_snapshot_lem cfg f m configs (err why) e done = absurd (cc)
  with_snapshot_lem cfg f m configs (ok (snap, m')) {s} e done =
      let load = stored_keys sled f in
      let built = build_snapshot_from_configs-IsBuilt http load configs m (sym e) in
      let keeps =
        build_snapshot_from_configs-Keeps http load configs m {snap = snap} {m' = m'} (sym e) in
      let same =
        build_snapshot_from_configs-configs_of http load configs m {snap = snap} {m' = m'}
          (sym e) in
      let over =
        with_routes-IsOver {m = m} (record s { snapshot = snap; memory = m' })
          (files.load_model_routes f) (record { built = built; keeps = keeps }) in
      subst (λ q. IsOver m q × (current_upstream_configs q ≡ all_normalized configs))
        (ok-injective done) (record { built = over.built; keeps = over.keeps }, same)

  -- The upstreams of a new state are those of the file, if it can be read, and otherwise those of
  -- the configuration; the snapshot is well formed.
  pub new_state_lem :
      (cfg : Config) (f : F) (m : Memory) {s : RouterState}
      → new_state http sled files cfg f m ≡ ok s
      → IsBuilt m.next_upstream s.snapshot s.memory
        × (current_upstream_configs s
            ≡ all_normalized (override_or (files.load_upstreams_override f) cfg.upstreams))
  unfolding new_state
  new_state_lem cfg f m {s} e =
      let configs = override_or (files.load_upstreams_override f) cfg.upstreams in
      let (over, same) = with_snapshot_lem cfg f m configs _ {s = s} refl e in (over.built, same)

  -- A restart brings the upstreams back: a new state on the disk that `replace_upstreams` has left
  -- has the same upstreams, whatever the configuration says.
  pub new_state-replace_upstreams :
      (now : ℕ) (configs : List UpstreamConfig) (h : Hub F) (cfg : Config) (m : Memory)
      {s : RouterState}
      → (replace_upstreams http sled files now configs h).0 ≡ ok tt
      → new_state http sled files cfg (replace_upstreams http sled files now configs h).1.files m
        ≡ ok s
      → current_upstream_configs s
        ≡ current_upstream_configs (replace_upstreams http sled files now configs h).1.router
  new_state-replace_upstreams now configs h cfg m {s} e d =
      let (now_there, _, listed) = replace_upstreams_lem http sled files now configs h e in
      let f = (replace_upstreams http sled files now configs h).1.files in
      let (_, again) = new_state_lem cfg f m {s = s} d in
      again ∙ ap (λ l. all_normalized (override_or l cfg.upstreams)) listed ∙ sym now_there
