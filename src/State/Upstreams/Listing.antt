-- ===== src/State/Upstreams/Listing.antt =====
-- The upstreams as a map from ids to configurations, and what the changes do to it.
use gptload_rs.Prelude.{
  ℕ, suc, ◌≤◌, ◌≡◌, refl, ◌∙◌, sym, ap, Bool, false, ◌&&◌, Bool-cases, inl, inr, Option,
  Option-cases, none, some, List, [], ◌∷◌, ◌++◌, get_elem?, length, ◌==◌, min, max, if◌then◌else◌,
  arith,
}
use gptload_rs.Prelude.Text.{Str, str_eq, str_eq_iff}
use gptload_rs.Prelude.Result.{Result, ok}
use gptload_rs.Prelude.Effect.{bind-eq-ok}
use gptload_rs.Config.{UpstreamConfig}
use gptload_rs.State.Defs.{Upstream}
use gptload_rs.State.Snapshot.{Http, clamp_weight, max_weight}
use gptload_rs.State.Snapshot.Built.{IsBuilt}
use gptload_rs.Storage.Database.{Sled}
use gptload_rs.State.Routes.Disk.{Files, Hub}
use gptload_rs.State.Upstreams.{
  config_of, configs_of, current_upstream_configs, has_id, update_config, retain_others,
  replace_upstreams, add_upstream, update_upstream, empty_tree, delete_upstream,
}
use gptload_rs.State.Upstreams.Replaced.{normalized, all_normalized}
use gptload_rs.State.Upstreams.Changed.{replace_upstreams_lem}

-- The configuration with an id.
abbrev pub config_at : Str → List UpstreamConfig → Option UpstreamConfig
config_at id [] = none
config_at id (c ∷ cs) = if str_eq c.id id then some c else config_at id cs

abbrev map_normalized : Option UpstreamConfig → Option UpstreamConfig
map_normalized none = none
map_normalized (some c) = some (normalized c)

config_at-all_normalized :
    (id : Str) (cs : List UpstreamConfig)
    → config_at id (all_normalized cs) ≡ map_normalized (config_at id cs)
config_at-all_normalized id [] = refl
config_at-all_normalized id (c ∷ cs) = elim (Bool-cases (str_eq c.id id)) [
  | inl e ↦ rw e refl
  | inr e ↦ rw e (config_at-all_normalized id cs)
]

config_at-++ :
    (id : Str) (cs : List UpstreamConfig) (c : UpstreamConfig)
    → config_at id (cs ++ c ∷ []) ≡ (elim (config_at id cs) [
      | some d ↦ some d
      | none ↦ if str_eq c.id id then some c else none
    ])
config_at-++ id [] c = refl
config_at-++ id (d ∷ cs) c = elim (Bool-cases (str_eq d.id id)) [
  | inl e ↦ rw e refl
  | inr e ↦ rw e (config_at-++ id cs c)
]

has_id-config_at :
    (id : Str) (cs : List UpstreamConfig) → has_id id cs ≡ false → config_at id cs ≡ none
unfolding has_id
has_id-config_at id [] e = refl
has_id-config_at id (c ∷ cs) e = elim (Bool-cases (str_eq c.id id)) [
  | inl f ↦ absurd (ground (arith, e, f))
  | inr f ↦ ground (arith, f, has_id-config_at id cs (ground (arith, e, f)))
]

update_config-config_at :
    (id base_url : Str) (weight : Option ℕ) (cs : List UpstreamConfig) (j : Str)
    → config_at j ((update_config id base_url weight cs).0) ≡ (
        if (update_config id base_url weight cs).1 && str_eq id j
        then some (record { id = id; base_url = base_url; weight = weight })
        else config_at j cs)
unfolding update_config
update_config-config_at id base_url weight [] j = refl
update_config-config_at id base_url weight (c ∷ cs) j =
    let ih = update_config-config_at id base_url weight cs j in
    let same = str_eq_iff c.id id in
    let same' = str_eq_iff c.id j in
    let same'' = str_eq_iff id j in
    elim (Bool-cases (str_eq c.id id)) [
      | inl e ↦ ground (arith, e, same, same', same'')
      | inr e ↦ ground (arith, e, ih, same, same', same'')
    ]

retain_others-config_at :
    (id : Str) (cs : List UpstreamConfig) (j : Str)
    → config_at j (retain_others id cs) ≡ (if str_eq id j then none else config_at j cs)
unfolding retain_others
retain_others-config_at id [] j = ground arith
retain_others-config_at id (c ∷ cs) j =
    let same = str_eq_iff c.id id in
    let same' = str_eq_iff c.id j in
    let same'' = str_eq_iff id j in
    ground (arith, same, same', same'', retain_others-config_at id cs j)

-- The configurations of a snapshot are normalized already.
configs_of-all_normalized :
    (us : List Upstream)
    → ((i : ℕ) (u : Upstream) → get_elem? us i ≡ some u → (1 ≤ u.weight) × (u.weight ≤ max_weight))
    → all_normalized (configs_of us) ≡ configs_of us
unfolding clamp_weight
configs_of-all_normalized [] h = refl
configs_of-all_normalized (u ∷ us) h =
    let (low, high) = h 0 u refl in
    let same : min (max u.weight 1) max_weight ≡ u.weight = omega (arith, low, high) in
    let rest = configs_of-all_normalized us (λ i v e. h (suc i) v e) in
    ap (λ w. (record (config_of u) { weight = some w }) ∷ all_normalized (configs_of us)) same
    ∙ ap (λ cs. config_of u ∷ cs) rest

module _ {F : Type 0} (http : Http) (sled : Sled F) (files : Files F) (now : ℕ) {base : ℕ}
    (h : Hub F) (v : IsBuilt base h.router.snapshot h.router.memory) where
  current-normalized :
      all_normalized (current_upstream_configs h.router) ≡ current_upstream_configs h.router
  current-normalized =
      configs_of-all_normalized h.router.snapshot.upstreams
        (λ i u e. let (_, low, high) = v.weights i u e in (low, high))

  normalized_at :
      (j : Str)
      → map_normalized (config_at j (current_upstream_configs h.router))
        ≡ config_at j (current_upstream_configs h.router)
  normalized_at j =
      sym (config_at-all_normalized j (current_upstream_configs h.router))
      ∙ ap (config_at j) current-normalized

  -- When `add_upstream` succeeds, the new upstream is listed with its weight clamped, and every
  -- other id is listed with the URL and the weight it had, or not at all if it was not. The
  -- cooldowns, counters, keys and models of the rebuilt upstreams are not spoken of.
  pub add_upstream_lem :
      (cfg : UpstreamConfig) (j : Str)
      → (add_upstream http sled files now cfg h).0 ≡ ok tt
      → config_at j (current_upstream_configs (add_upstream http sled files now cfg h).1.router) ≡ (
          if str_eq cfg.id j
          then some (normalized cfg)
          else config_at j (current_upstream_configs h.router))
  unfolding add_upstream
  add_upstream_lem cfg j e =
      let list = current_upstream_configs h.router in
      elim (Bool-cases (has_id cfg.id list)) [
        | inl f ↦ absurd (let failed = rw (add_upstream, f) at e in cc failed)
        | inr f ↦
            let (now_there, _, _) =
              replace_upstreams_lem http sled files now (list ++ cfg ∷ []) h
                (rw (add_upstream, f) at e) in
            let fresh = has_id-config_at cfg.id list f in
            let old = normalized_at j in
            rw (add_upstream, f)
              (ap (config_at j) now_there
                ∙ config_at-all_normalized j (list ++ cfg ∷ [])
                ∙ ap map_normalized (config_at-++ j list cfg)
                ∙ elim (Bool-cases (str_eq cfg.id j)) [
                  | inl g ↦
                      let gone =
                        ap (λ n. config_at n list) (sym ((str_eq_iff cfg.id j).0 g)) ∙ fresh in
                      rw (gone, g) refl
                  | inr g ↦ elim (Option-cases (config_at j list)) [
                    | inl k ↦ rw (k, g) refl
                    | inr (c, k) ↦ rw (k, g) (ap map_normalized (sym k) ∙ old ∙ k)
                  ]
                ])
      ]

  -- When `update_upstream` succeeds, the upstream with the id is listed with the new URL and the
  -- new weight, clamped, and every other id with the URL and the weight it had, or not at all if it
  -- was not. The cooldowns, counters, keys and models of the rebuilt upstreams are not spoken of.
  pub update_upstream_lem :
      (id base_url : Str) (weight : Option ℕ) (j : Str)
      → (update_upstream http sled files now id base_url weight h).0 ≡ ok tt
      → config_at j (
          current_upstream_configs
            (update_upstream http sled files now id base_url weight h).1.router)
        ≡ (if str_eq id j
            then some (record { id = id; base_url = base_url; weight = some (clamp_weight weight) })
            else config_at j (current_upstream_configs h.router))
  unfolding update_upstream
  update_upstream_lem id base_url weight j e =
      let list = current_upstream_configs h.router in
      let changed = update_config id base_url weight list in
      elim (Bool-cases changed.1) [
        | inr f ↦ absurd (let failed = rw (update_upstream, f) at e in cc failed)
        | inl f ↦
            let (now_there, _, _) =
              replace_upstreams_lem http sled files now changed.0 h
                (rw (update_upstream, f) at e) in
            let at = update_config-config_at id base_url weight list j in
            let old = normalized_at j in
            rw (update_upstream, f)
              (ap (config_at j) now_there
                ∙ config_at-all_normalized j changed.0
                ∙ ap map_normalized at
                ∙ elim (Bool-cases (str_eq id j)) [
                  | inl g ↦ rw (f, g) refl
                  | inr g ↦ rw (f, g) old
                ])
      ]

  -- When `delete_upstream` succeeds, with or without deleting the keys, the id is no longer listed,
  -- and every other id is listed with the URL and the weight it had, or not at all if it was not.
  -- The cooldowns, counters, keys and models of the rebuilt upstreams are not spoken of.
  pub delete_upstream_lem :
      (id : Str) (delete_keys : Bool) (j : Str)
      → (delete_upstream http sled files now id delete_keys h).0 ≡ ok tt
      → config_at j
          (current_upstream_configs (delete_upstream http sled files now id delete_keys h).1.router)
        ≡ (if str_eq id j then none else config_at j (current_upstream_configs h.router))
  unfolding delete_upstream
  delete_upstream_lem id delete_keys j e =
      let before = current_upstream_configs h.router in
      let list = retain_others id before in
      let replaced : (replace_upstreams http sled files now list h).0 ≡ ok tt
          → config_at j
              (current_upstream_configs (replace_upstreams http sled files now list h).1.router)
            ≡ (if str_eq id j then none else config_at j before) =
        λ done.
          let (now_there, _, _) = replace_upstreams_lem http sled files now list h done in
          let at = retain_others-config_at id before j in
          let old = normalized_at j in
          ap (config_at j) now_there
          ∙ config_at-all_normalized j list
          ∙ ap map_normalized at
          ∙ elim (Bool-cases (str_eq id j)) [ inl g ↦ rw g refl | inr g ↦ rw g old ] in
      elim (Bool-cases (length list == length before)) [
        | inl f ↦ absurd (let failed = rw (delete_upstream, f) at e in cc failed)
        | inr f ↦ elim (Bool-cases delete_keys) [
          | inr g ↦ rw (delete_upstream, f, g) (replaced (rw (delete_upstream, f, g) at e))
          | inl g ↦
              let e' = rw (delete_upstream, f, g) at e in
              let (_, done, same, _) =
                bind-eq-ok (replace_upstreams http sled files now list) (λ _. empty_tree sled id) h
                  e' in
              rw (delete_upstream, f, g)
                (ap
                    (λ (p : Result (Unit {0}) × Hub F).
                      config_at j (current_upstream_configs p.1.router))
                    same
                  ∙ replaced done)
        ]
      ]
