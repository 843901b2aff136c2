-- ===== src/Proxy/Server.antt =====
-- `handle` of src/proxy.rs with what it logs and what is paid for: the guards in front of a request,
-- the counters around it, and the end of a response.
pub mod Guards
use gptload_rs.Prelude.{
  ℕ, ◌+◌, ◌-◌, ◌%◌, ◌^◌, Bool, true, false, ◌&&◌, ◌||◌, ◌==◌, not, Option, none, some, List, [],
  ◌∷◌, ◌++◌, ltb, if◌then◌else◌,
}
use gptload_rs.Prelude.Words.{add64, sub64}
use gptload_rs.Prelude.Int.{ℤ, pos, ltb_ℤ}
use gptload_rs.Prelude.Text.{starts_with, Str, codes, str_eq}
use gptload_rs.State.Defs.{RouterState, Selected, Stats}
use gptload_rs.State.Status.{StatusCode}
use gptload_rs.Requests.{RequestLogEntry}
use gptload_rs.Billing.{BillingStore, get_balance, apply_usage}
use gptload_rs.Proxy.Auth.{HeaderMap, authorize_proxy, extract_api_key}
use gptload_rs.Proxy.Retry.{
  Attempt, Reply, model_required, model_not_found, model_unavailable, invalid_upstream_uri,
  request_build_error, proxied, upstream_error, upstream_timeout, Forwarded, forward_among, forward,
}

-- `logged` is what `record_request` has handed to `RequestsLog::record`, oldest first.
pub record Server : Type 0 where
  pub router : RouterState
  pub billing : BillingStore
  pub logged : List RequestLogEntry

-- `RequestLogContext`; the time since `start` is read when an entry is made.
pub record RequestLogContext : Type 0 where
  pub client_ip : Str
  pub method : Str
  pub path : Str
  pub model : Option Str
  pub upstream_id : Option Str
  pub req_bytes : ℕ

pub record UsageTokens : Type 0 where
  pub prompt : ℕ
  pub completion : ℕ
  pub total : ℕ

-- `extract_usage_from_value` on the numbers under `usage`: those that are there and fit in a u64.
unfoldable pub extract_usage : Option ℕ → Option ℕ → Option ℕ → Option UsageTokens
extract_usage none none none = none
extract_usage (some p) (some c) none =
    some (record { prompt = p; completion = c; total = add64 p c })
extract_usage (some p) none none = some (record { prompt = p; completion = 0; total = 0 })
extract_usage none (some c) none = some (record { prompt = 0; completion = c; total = 0 })
extract_usage none none (some t) = some (record { prompt = 0; completion = 0; total = t })
extract_usage (some p) none (some t) = some (record { prompt = p; completion = 0; total = t })
extract_usage none (some c) (some t) = some (record { prompt = 0; completion = c; total = t })
extract_usage (some p) (some c) (some t) = some (record { prompt = p; completion = c; total = t })

-- The clock when an entry is made: the time, and the time since the request came.
pub record Clock : Type 0 where
  pub ts_ms : ℕ
  pub elapsed_ms : ℕ

abbrev tokens_of : (UsageTokens → ℕ) → Option UsageTokens → Option ℕ
tokens_of f none = none
tokens_of f (some u) = some (f u)

unfoldable pub record_request :
    Clock → RequestLogContext → ℕ → ℕ → Option UsageTokens → Server → Server
record_request clock ctx status resp_bytes usage s = record s {
  logged =
      s.logged
      ++ (record {
        ts_ms = clock.ts_ms;
        client_ip = ctx.client_ip;
        method = ctx.method;
        path = ctx.path;
        model = ctx.model;
        upstream_id = ctx.upstream_id;
        status = status;
        latency_ms = clock.elapsed_ms % 2 ^ 64;
        req_bytes = ctx.req_bytes;
        resp_bytes = resp_bytes;
        prompt_tokens = tokens_of (λ u. u.prompt) usage;
        completion_tokens = tokens_of (λ u. u.completion) usage;
        total_tokens = tokens_of (λ u. u.total) usage;
      })
        ∷ [];
}

-- The end of the task that `proxy_upstream_response` spawns, once the body has been passed on.
unfoldable pub finish_response :
    Clock → RequestLogContext → Option Str → ℕ → ℕ → Option UsageTokens → Server → Server
unfolding apply_usage record_request
finish_response clock ctx (some key) status resp_bytes (some found) s =
    record_request clock ctx status resp_bytes (some found)
      (record s { billing = (apply_usage key found.total s.billing).1 })
finish_response clock ctx billing_key status resp_bytes usage s =
    record_request clock ctx status resp_bytes usage s

-- `record_latency`; nobody else writes the maximum between the load and the exchange, or the loop
-- tries again with what was written.
unfoldable pub record_latency : ℕ → Stats → Stats
record_latency latency_ns t = record t {
  latency_ns_total = add64 t.latency_ns_total latency_ns;
  latency_count = add64 t.latency_count 1;
  latency_ns_max = if ltb t.latency_ns_max latency_ns then latency_ns else t.latency_ns_max;
}

-- The reasons for which `handle` turns a request away, all with status 401.
pub data Denied : Type 0 where
  proxy_unauthorized api_key_required api_key_invalid balance_insufficient : Denied

pub data Admission : Type 0 where
  denied : Denied → Admission
  admitted : Str → Admission

unfoldable pub admit : HeaderMap → Server → Admission
unfolding authorize_proxy extract_api_key get_balance
admit headers s =
    if not (authorize_proxy s.router headers)
    then denied proxy_unauthorized
    else elim (extract_api_key headers) [
      | none ↦ denied api_key_required
      | some billing_key ↦ elim (get_balance billing_key s.billing) [
        | none ↦ denied api_key_invalid
        | some balance ↦
            if ltb_ℤ balance (pos 0) then denied balance_insufficient else admitted billing_key
      ]
    ]

-- What is read of a body: its model, and its size.
pub data ReadBody : Type 0 where
  body_too_large body_read_error : ReadBody
  body : (model : Option Str) (req_bytes : ℕ) → ReadBody

pub record Incoming : Type 0 where
  pub client_ip : Str
  pub method : Str
  pub path : Str
  pub headers : HeaderMap
  pub read : ReadBody

-- What `handle` answers; `ok_body` is the health check's, `models` the list of models, and an
-- `admin` request goes to src/admin.rs.
pub data Answer : Type 0 where
  ok_body admin models : Answer
  turned_away : Denied → Answer
  unread : ReadBody → Answer
  replied : Option Reply → Answer

abbrev pub base_log_ctx : Incoming → RequestLogContext
base_log_ctx req = record {
  client_ip = req.client_ip;
  method = req.method;
  path = req.path;
  model = none;
  upstream_id = none;
  req_bytes = 0;
}

-- The status of an error that `forward` logs at once; an invalid URI is not logged, and an
-- upstream's answer only when its body has been passed on.
abbrev pub logged_status : Option Reply → Option ℕ
logged_status (some model_required) = some 400
logged_status (some model_not_found) = some 404
logged_status (some model_unavailable) = some 503
logged_status (some request_build_error) = some 502
logged_status (some upstream_error) = some 502
logged_status (some upstream_timeout) = some 504
logged_status _ = none

-- The id of the last upstream that was tried.
unfoldable pub last_upstream : List (Selected × Attempt) → Option Str
last_upstream [] = none
last_upstream ((sel, a) ∷ []) = some sel.upstream.id
last_upstream ((sel, a) ∷ b ∷ attempts) = last_upstream (b ∷ attempts)

module _ (upstream_does : ℕ → Selected → Attempt) (now_ms : ℕ) (clock : Clock) where
  unfoldable pub forward_logged : Incoming → ReadBody → Server → Answer × Server
  unfolding forward_among record_request last_upstream
  forward_logged req body_too_large s = (unread body_too_large, s)
  forward_logged req body_read_error s = (unread body_read_error, s)
  forward_logged req (body model req_bytes) s =
      let (reply, attempts, router) = forward upstream_does model now_ms s.router in
      let s' = record s { router = router } in
      let ctx = record (base_log_ctx req) {
        model = model;
        upstream_id = last_upstream attempts;
        req_bytes = req_bytes;
      } in
      elim (logged_status reply) [
        | none ↦ (replied reply, s')
        | some status ↦ (replied reply, record_request clock ctx status 0 none s')
      ]

  -- What `handle` does with a request that is let in, between the counters at its start and end.
  -- `models_bytes` is the size of the list of models.
  unfoldable pub answer_request : ℕ → Incoming → Server → Answer × Server
  unfolding forward_logged record_request
  answer_request models_bytes req s =
      if str_eq req.method (codes "GET")
        && (str_eq req.path (codes "/v1/models") || str_eq req.path (codes "/v1/models/"))
      then (models, record_request clock (base_log_ctx req) 200 models_bytes none s)
      else forward_logged req req.read s

  -- `latency_ns` is the time that it all took.
  unfoldable pub serve : ℕ → ℕ → Incoming → Server → Answer × Server
  unfolding answer_request record_latency
  serve models_bytes latency_ns req s =
      let start = s.router.stats in
      let counted = record start {
        requests_total = add64 start.requests_total 1;
        requests_inflight = add64 start.requests_inflight 1;
      } in
      let s1 = record s { router = record s.router { stats = counted } } in
      let (answer, s2) = answer_request models_bytes req s1 in
      let end = record_latency latency_ns s2.router.stats in
      let ended = record end { requests_inflight = sub64 end.requests_inflight 1 } in
      (answer, record s2 { router = record s2.router { stats = ended } })

  -- The rest of `handle` once the guards have been asked.
  unfoldable pub answer_admission : ℕ → ℕ → Incoming → Server → Admission → Answer × Server
  unfolding serve record_request
  answer_admission models_bytes latency_ns req s (denied why) =
      (turned_away why, record_request clock (base_log_ctx req) 401 0 none s)
  answer_admission models_bytes latency_ns req s (admitted billing_key) =
      serve models_bytes latency_ns req s

  unfoldable pub handle : ℕ → ℕ → Incoming → Server → Answer × Server
  unfolding admit answer_admission starts_with
  handle models_bytes latency_ns req s =
      if str_eq req.method (codes "GET") && str_eq req.path (codes "/health")
      then (ok_body, s)
      else if starts_with req.path (codes "/admin")
      then (admin, s)
      else answer_admission models_bytes latency_ns req s (admit req.headers s)
