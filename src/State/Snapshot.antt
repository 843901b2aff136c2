-- ===== src/State/Snapshot.antt =====
-- `build_snapshot_from_configs`, `parse_upstream` and `build_key_states` of src/state.rs.

pub mod Built
pub mod Uses
use gptload_rs.Prelude.{
  ℕ, zero, suc, ◌+◌, min, max, Bool, true, false, not, Option, none, some, List, [], ◌∷◌, ◌++◌,
  length, replicate, if◌then◌else◌,
}
use gptload_rs.Prelude.Text.{Str, codes, str_eq, is_empty, trim, trim_end_matches}
use gptload_rs.Prelude.Result.{
  Result, ok, err, ◌>>=◌, ◌>>◌, bail_if, no_upstreams, duplicate_id, missing_scheme,
  missing_authority, invalid_key,
}
use gptload_rs.Config.{UpstreamConfig}
use gptload_rs.State.Defs.{
  KeyState, KeyCell, UpstreamStats, Upstream, UpstreamCell, Memory, RouterSnapshot, update,
}
use gptload_rs.State.Select.{index_of}

-- What the `http` crate answers about a text: the parts of a URI, and whether a text can stand in
-- a header.
pub record UriParts : Type 0 where
  pub scheme : Option Str
  pub authority : Option Str
  pub path : Str

pub record Http : Type 0 where
  pub parse_uri : Str → Result UriParts
  pub header_accepts : Str → Bool

-- `Arc::new` of a key and of an upstream.
unfoldable pub alloc_key : Str → Str → Memory → KeyState × Memory
alloc_key key auth_header m = (
  record { key = key; auth_header = auth_header; cell = m.next_key },
  record m {
    key_at = update m.key_at m.next_key (record { cooldown_until_ms = 0; fail_streak = 0 });
    next_key = m.next_key + 1;
  },
)

-- `format!("Bearer {}", key)`
abbrev pub bearer : Str → Str
bearer key = codes "Bearer " ++ key

abbrev pub no_stats : UpstreamStats
no_stats = record {
  selected_total = 0;
  responses_2xx = 0;
  responses_3xx = 0;
  responses_4xx = 0;
  responses_5xx = 0;
  errors_timeout = 0;
  errors_network = 0;
}

abbrev pub max_weight : ℕ
max_weight = 100

-- `weight.unwrap_or(1).clamp(1, MAX_WEIGHT)`
unfoldable pub clamp_weight : Option ℕ → ℕ
clamp_weight none = 1
clamp_weight (some w) = min (max w 1) max_weight

abbrev pub is_some {ℓ} : {A : Type ℓ} → Option A → Bool
is_some none = false
is_some (some _) = true

abbrev pub or_error {ℓ} : {A : Type ℓ} → Option A → Result A → Result A
or_error none e = e
or_error (some a) e = ok a

module _ (http : Http) where
  -- The loop over `k` in `build_key_states`.
  unfoldable pub build_key_states : List Str → Memory → Result (List KeyState × Memory)
  unfolding alloc_key
  build_key_states [] m = ok ([], m)
  build_key_states (k ∷ keys) m =
      let key = trim k in
      let skipped = build_key_states keys m in
      let (state, m') = alloc_key key (bearer key) m in
      let kept = build_key_states keys m' >>= λ (rest, m''). ok (state ∷ rest, m'') in
      if is_empty key
      then skipped
      else if not (http.header_accepts (bearer key))
      then err invalid_key
      else kept

  unfoldable pub parse_upstream : UpstreamConfig → ℕ → Memory → Result (Upstream × Memory)
  parse_upstream u weight m = do
    base ← http.parse_uri u.base_url
    scheme ← or_error base.scheme (err missing_scheme)
    authority ← or_error base.authority (err missing_authority)
    let trimmed = trim_end_matches b'/' base.path
    let base_path = if str_eq trimmed (codes "/") then [] else trimmed
    ok (
      record {
        id = u.id;
        base_url = u.base_url;
        base_scheme = scheme;
        base_authority = authority;
        base_path = base_path;
        weight = weight;
        cell = m.next_upstream;
      },
      record m {
        upstream_at = update m.upstream_at m.next_upstream (record {
          keys = [];
          key_rr = 0;
          models = [];
          cooldown_until_ms = 0;
          fail_streak = 0;
          stats = no_stats;
        });
        next_upstream = m.next_upstream + 1;
      },
    )

  -- `u.keys.store(keys)`
  abbrev store_keys : Upstream → List KeyState → Memory → Memory
  store_keys u keys m =
      let c = m.upstream_at u.cell in
      record m { upstream_at = update m.upstream_at u.cell (record c { keys = keys }) }

  module _ (load_all_keys : Str → Result (List Str)) where
    -- One round of the loop of `build_snapshot_from_configs`.
    unfoldable pub build_one :
        UpstreamConfig → RouterSnapshot × Memory → Result (RouterSnapshot × Memory)
    build_one u_cfg (snap, m) = do
      bail_if (is_some (index_of u_cfg.id snap.upstream_index)) duplicate_id
      let weight = clamp_weight u_cfg.weight
      (u, m1) ← parse_upstream u_cfg weight m
      let idx = length snap.upstreams
      keys ← load_all_keys u.id
      (key_states, m2) ← build_key_states keys m1
      ok (
        record {
          upstreams = snap.upstreams ++ u ∷ [];
          upstream_index = (u.id, idx) ∷ snap.upstream_index;
          schedule = snap.schedule ++ replicate weight idx;
        },
        store_keys u key_states m2,
      )

    unfoldable pub build_loop :
        List UpstreamConfig → RouterSnapshot × Memory → Result (RouterSnapshot × Memory)
    unfolding build_one
    build_loop [] acc = ok acc
    build_loop (c ∷ cs) acc = build_one c acc >>= build_loop cs

    unfoldable pub build_snapshot_from_configs :
        List UpstreamConfig → Memory → Result (RouterSnapshot × Memory)
    unfolding build_loop build_one parse_upstream build_key_states index_of clamp_weight
    build_snapshot_from_configs configs m =
        bail_if (is_empty configs) no_upstreams
        >> build_loop configs (record { upstreams = []; upstream_index = []; schedule = [] }, m)
