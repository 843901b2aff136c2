-- ===== src/Admin/Pages.antt =====
-- The handlers of src/admin.rs that list keys, requests, metrics and upstreams. `now` is the clock.
pub mod Listed
use gptload_rs.Prelude.{
  ℕ, ◌+◌, ◌-◌, ◌^◌, ◌≤◌, min, max, Bool, Option, none, some, List, [], ◌∷◌, length, take, drop, ltb,
  count, if◌then◌else◌,
}
use gptload_rs.Prelude.Int.{ℤ, pos, negsuc}
use gptload_rs.Prelude.Words.{add64, sub64}
use gptload_rs.Prelude.Text.{Str, codes}
use gptload_rs.Prelude.Split.{parse_usize}
use gptload_rs.Util.{query_get}
use gptload_rs.State.Defs.{
  KeyState, KeyCell, Upstream, UpstreamCell, RouterState, upstream_cell, key_cell,
}
use gptload_rs.State.Select.{upstream_by_id}
use gptload_rs.Requests.{
  RequestLogEntry, RequestsLog, MetricsWindow, MetricsBucket, from_str, as_str, recent, snapshot,
}
use gptload_rs.Admin.Defs.{KeyInfo, Response, json_error, key_page, not_found}

-- `.and_then(|s| s.parse::<usize>().ok()).unwrap_or(default)`
unfoldable pub usize_param : Option Str → Str → ℕ → ℕ
unfolding query_get parse_usize
usize_param query name default = elim (query_get query name) [
  | none ↦ default
  | some s ↦ elim (parse_usize s) [ none ↦ default | some n ↦ n ]
]

abbrev pub page_limit : ℕ
page_limit = 5000

-- `.clamp(1, 5000)`
abbrev pub clamp_limit : ℕ → ℕ
clamp_limit n = min (max n 1) page_limit

-- `as i64` of a u64
abbrev pub as_i64 : ℕ → ℤ
as_i64 n = if ltb n (2 ^ 63) then pos n else negsuc (2 ^ 64 - n - 1)

abbrev pub key_info : RouterState → ℕ → KeyState → KeyInfo
key_info s now k =
    let cd = (key_cell s k).cooldown_until_ms in
    record {
      key = k.key;
      cooldown_until_ms = cd;
      cooldown_remaining_ms = if ltb now cd then as_i64 (cd - now) else pos 0;
      fail_streak = (key_cell s k).fail_streak;
      status = if ltb now cd then codes "banned" else codes "ok";
    }

abbrev pub key_infos : RouterState → ℕ → List KeyState → List KeyInfo
key_infos s now [] = []
key_infos s now (k ∷ keys) = key_info s now k ∷ key_infos s now keys

-- The keys from `offset` to `end`; both computations wrap.
unfoldable pub page_of {ℓ} : {A : Type ℓ} → ℕ → ℕ → List A → List A
page_of offset limit keys =
    let end = min (add64 offset limit) (length keys) in take (sub64 end offset) (drop offset keys)

unfoldable pub api_list_keys : RouterState → ℕ → Str → Option Str → Response
unfolding upstream_by_id usize_param page_of
api_list_keys s now upstream_id query = elim (upstream_by_id upstream_id s) [
  | none ↦ json_error 404 not_found
  | some (idx, upstream) ↦
      let limit = clamp_limit (usize_param query (codes "limit") 100) in
      let offset = usize_param query (codes "offset") 0 in
      let keys = (upstream_cell s upstream).keys in
      key_page (length keys) offset limit now (key_infos s now (page_of offset limit keys))
]

unfoldable pub api_requests : RequestsLog → Option Str → List RequestLogEntry
unfolding usize_param recent
api_requests log query = recent log (clamp_limit (usize_param query (codes "limit") 200))

abbrev window_or_minute : Option Str → Str
window_or_minute none = codes "minute"
window_or_minute (some w) = w

unfoldable pub api_metrics : RequestsLog → Option Str → Str × List MetricsBucket
unfolding query_get from_str as_str snapshot
api_metrics log query =
    let win = from_str (window_or_minute (query_get query (codes "window"))) in
    (as_str win, snapshot log.metrics win)

pub record UpstreamInfo : Type 0 where
  pub id : Str
  pub base_url : Str
  pub weight : ℕ
  pub keys_total : ℕ
  pub keys_healthy : ℕ
  pub keys_banned : ℕ
  pub upstream_cooldown_until_ms : ℕ
  pub upstream_fail_streak : ℕ
  pub selected_total : ℕ
  pub responses_2xx : ℕ
  pub responses_3xx : ℕ
  pub responses_4xx : ℕ
  pub responses_5xx : ℕ
  pub errors_timeout : ℕ
  pub errors_network : ℕ

-- The number of keys in their cooldown.
unfoldable pub count_banned : RouterState → ℕ → List KeyState → ℕ
count_banned s now [] = 0
count_banned s now (k ∷ keys) =
    let rest = count_banned s now keys in
    if ltb now (key_cell s k).cooldown_until_ms then rest + 1 else rest

unfoldable pub build_upstream_info : RouterState → ℕ → Upstream → UpstreamInfo
unfolding count_banned
build_upstream_info s now u =
    let c = upstream_cell s u in
    let total = length c.keys in
    let banned = count_banned s now c.keys in
    record {
      id = u.id;
      base_url = u.base_url;
      weight = u.weight;
      keys_total = total;
      keys_healthy = total - banned;
      keys_banned = banned;
      upstream_cooldown_until_ms = c.cooldown_until_ms;
      upstream_fail_streak = c.fail_streak;
      selected_total = c.stats.selected_total;
      responses_2xx = c.stats.responses_2xx;
      responses_3xx = c.stats.responses_3xx;
      responses_4xx = c.stats.responses_4xx;
      responses_5xx = c.stats.responses_5xx;
      errors_timeout = c.stats.errors_timeout;
      errors_network = c.stats.errors_network;
    }

unfoldable pub upstream_infos : RouterState → ℕ → List Upstream → List UpstreamInfo
unfolding build_upstream_info
upstream_infos s now [] = []
upstream_infos s now (u ∷ us) = build_upstream_info s now u ∷ upstream_infos s now us

abbrev pub api_list_upstreams : RouterState → ℕ → List UpstreamInfo
api_list_upstreams s now = upstream_infos s now s.snapshot.upstreams
