-- ===== src/Tests/World.antt =====
-- A router with two upstreams of two keys each, as it is built from a configuration.
use gptload_rs.Prelude.{true, none, some, List, [], ◌∷◌}
use gptload_rs.Prelude.Text.{Str, codes}
use gptload_rs.Prelude.Result.{Result, ok, err}
use gptload_rs.Config.{BanConfig, UpstreamConfig}
use gptload_rs.State.Defs.{
  KeyState, Upstream, Memory, Stats, RouterSnapshot, RouterState, Selected, UpstreamCell,
}
use gptload_rs.State.Status.{StatusCode, success, client_error, server_error}
use gptload_rs.State.Snapshot.{Http, build_snapshot_from_configs, no_stats}

abbrev pub http : Http
http = record {
  parse_uri = λ url.
      ok (record { scheme = some (codes "http"); authority = some (codes "h"); path = codes "/" });
  header_accepts = λ value. true;
}

abbrev pub load_all_keys : Str → Result (List Str)
load_all_keys id = ok (codes "k1" ∷ codes "k2" ∷ [])

abbrev pub configs : List UpstreamConfig
configs =
    (record { id = codes "a"; base_url = codes "http://h/"; weight = some 2 })
    ∷ (record { id = codes "b"; base_url = codes "http://h/"; weight = none })
    ∷ []

abbrev pub blank : UpstreamCell
blank = record {
  keys = [];
  key_rr = 0;
  models = [];
  cooldown_until_ms = 0;
  fail_streak = 0;
  stats = no_stats;
}

abbrev pub free : Memory
free = record {
  upstream_at = λ cell. blank;
  key_at = λ cell. record { cooldown_until_ms = 0; fail_streak = 0 };
  next_upstream = 0;
  next_key = 0;
}

abbrev pub built : Result (RouterSnapshot × Memory)
built = build_snapshot_from_configs http load_all_keys configs free

abbrev pub empty_snapshot : RouterSnapshot
empty_snapshot = record { upstreams = []; upstream_index = []; schedule = [] }

unfoldable pub snapshot : RouterSnapshot
unfolding build_snapshot_from_configs
snapshot = elim built [ ok (snap, m) ↦ snap | err e ↦ empty_snapshot ]

unfoldable pub memory : Memory
unfolding build_snapshot_from_configs
memory = elim built [ ok (snap, m) ↦ m | err e ↦ free ]

abbrev pub gpt : Str
gpt = codes "gpt"

-- Every upstream has the model.
abbrev pub with_models : Memory → Memory
with_models m = record m { upstream_at = λ cell. record (m.upstream_at cell) { models = gpt ∷ [] } }

abbrev pub no_requests : Stats
no_requests = record {
  requests_total = 0;
  requests_inflight = 0;
  upstream_selected_total = 0;
  responses_2xx = 0;
  responses_3xx = 0;
  responses_4xx = 0;
  responses_5xx = 0;
  errors_timeout = 0;
  errors_network = 0;
  latency_ns_total = 0;
  latency_count = 0;
  latency_ns_max = 0;
}

abbrev pub ban : BanConfig
ban = record {
  rate_limit_ms = 1000;
  server_error_ms = 2000;
  network_error_ms = 3000;
  auth_error_ms = 60_000;
  max_backoff_pow = 3;
}

unfoldable pub router : RouterState
unfolding snapshot memory
router = record {
  max_retries = 2;
  retry_status_codes = 500 ∷ 503 ∷ [];
  ban = ban;
  proxy_tokens = none;
  admin_tokens = codes "t" ∷ [];
  usage_inject_upstreams = none;
  memory = with_models memory;
  snapshot = snapshot;
  sched_rr = 0;
  stats = no_requests;
}

abbrev pub first_upstream : Upstream
first_upstream = record {
  id = codes "a";
  base_url = codes "http://h/";
  base_scheme = codes "http";
  base_authority = codes "h";
  base_path = [];
  weight = 2;
  cell = 0;
}

abbrev pub first_key : KeyState
first_key = record { key = codes "k1"; auth_header = codes "Bearer k1"; cell = 0 }

abbrev pub first_selected : Selected
first_selected = record { upstream = first_upstream; key = first_key }

abbrev pub too_many : StatusCode
too_many = record { as_u16 = 429; class = client_error }

abbrev pub unavailable : StatusCode
unavailable = record { as_u16 = 503; class = server_error }

abbrev pub fine : StatusCode
fine = record { as_u16 = 200; class = success }
