-- ===== src/State/Start.antt =====
-- `RouterState::new` of src/state.rs: the state from the configuration and the disk. The HTTP
-- client, the task that writes the request log, and the stores, which are opened before, are left
-- out.
pub mod Again
use gptload_rs.Prelude.{
  ℕ, Bool, true, false, not, Option, none, some, List, [], ◌∷◌, ◌++◌, if◌then◌else◌,
}
use gptload_rs.Prelude.Text.{Str, contains, is_empty, trim}
use gptload_rs.Prelude.Result.{Result, ok, err}
use gptload_rs.Config.{Config, UpstreamConfig}
use gptload_rs.State.Defs.{Memory, Stats, RouterSnapshot, RouterState}
use gptload_rs.State.Snapshot.{Http, build_snapshot_from_configs}
use gptload_rs.Storage.Database.{Sled}
use gptload_rs.State.Routes.Disk.{Files}
use gptload_rs.State.Routes.{insert_models}
use gptload_rs.State.Upstreams.{stored_keys, with_routes}

-- The set of the texts that are not empty when they are trimmed, if there are any.
unfoldable pub trimmed_set : Option (List Str) → Option (List Str)
unfolding insert_models
trimmed_set none = none
trimmed_set (some v) = let set = insert_models [] v in if is_empty set then none else some set

-- The admin tokens are taken as they are.
unfoldable pub non_empty_set : List Str → List Str → List Str
unfolding contains
non_empty_set set [] = set
non_empty_set set (t ∷ tokens) =
    non_empty_set (if is_empty t then set else if contains set t then set else set ++ t ∷ []) tokens

abbrev retries_or_five : Option ℕ → ℕ
retries_or_five none = 5
retries_or_five (some n) = n

abbrev codes_or_429 : Option (List ℕ) → List ℕ
codes_or_429 none = 429 ∷ []
codes_or_429 (some v) = v

-- The upstreams in the file, if it can be read, or those of the configuration.
abbrev pub override_or : Result (List UpstreamConfig) → List UpstreamConfig → List UpstreamConfig
override_or (err _) configs = configs
override_or (ok list) configs = list

abbrev pub no_requests : Stats
no_requests = record {
  requests_total = 0;
  requests_inflight = 0;
  upstream_selected_total = 0;
  responses_2xx = 0;
  responses_3xx = 0;
  responses_4xx = 0;
  responses_5xx = 0;
  errors_timeout = 0;
  errors_network = 0;
  latency_ns_total = 0;
  latency_count = 0;
  latency_ns_max = 0;
}

module _ {F : Type 0} (http : Http) (sled : Sled F) (files : Files F) where
  -- What follows the call of `build_snapshot_from_configs`.
  unfoldable pub with_snapshot : Config → F → Result (RouterSnapshot × Memory) → Result RouterState
  unfolding trimmed_set non_empty_set
  with_snapshot cfg f (err why) = err why
  with_snapshot cfg f (ok (snapshot, m)) = ok (record {
    max_retries = retries_or_five cfg.max_retries;
    retry_status_codes = codes_or_429 cfg.retry_status_codes;
    ban = cfg.ban;
    proxy_tokens = trimmed_set cfg.proxy_tokens;
    admin_tokens = non_empty_set [] cfg.admin_tokens;
    usage_inject_upstreams = trimmed_set cfg.usage_inject_upstreams;
    memory = with_routes (files.load_model_routes f) snapshot m;
    snapshot = snapshot;
    sched_rr = 0;
    stats = no_requests;
  })

  -- `new`; `m` is free memory.
  unfoldable pub new_state : Config → F → Memory → Result RouterState
  unfolding with_snapshot build_snapshot_from_configs
  new_state cfg f m =
      let upstream_configs = override_or (files.load_upstreams_override f) cfg.upstreams in
      with_snapshot cfg f (build_snapshot_from_configs http (stored_keys sled f) upstream_configs m)
