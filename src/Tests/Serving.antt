-- ===== src/Tests/Serving.antt =====
-- Requests to the built router: tried again, turned away, and let in.
use gptload_rs.Prelude.{
  ℕ, zero, suc, ◌+◌, ◌≤◌, ◌<◌, ◌≡◌, ◌≢◌, refl, false, none, some, [], ◌∷◌, ◌++◌, length, arith,
}
use gptload_rs.Prelude.Words.{u64_max}
use gptload_rs.Prelude.Int.{pos}
use gptload_rs.Prelude.Text.{
  codes, trim, is_whitespace, str_eq, contains, trim_start, trim_end, trim_end_matches, starts_with,
}
use gptload_rs.Prelude.Dict.{lookup}
use gptload_rs.Prelude.Result.{ok}
use gptload_rs.Config.{Config}
use gptload_rs.Config.Load.{load}
use gptload_rs.Config.Loaded.{IsLoaded, load-IsLoaded}
use gptload_rs.State.Defs.{Selected, RouterState}
use gptload_rs.State.Select.{select_for_model}
use gptload_rs.State.Ban.{on_timeout, on_upstream_status}
use gptload_rs.State.Ban.Backoff.{timeout}
use gptload_rs.State.Ban.Effects.{answered, failed, of_timeout, global_count}
use gptload_rs.State.Snapshot.{build_snapshot_from_configs, build_key_states, alloc_key}
use gptload_rs.Billing.{get_balance}
use gptload_rs.Proxy.Auth.{HeaderMap, header_text, extract_api_key}
use gptload_rs.Proxy.Auth.Bearer.{extract_api_key-bearer}
use gptload_rs.Proxy.Retry.{Attempt, sent, proxied, forward_among, forward}
use gptload_rs.Proxy.Rounds.{select_for_model-IsSettled}
use gptload_rs.Proxy.Attempts.{forward-answers}
use gptload_rs.Proxy.Counts.{counted_all, forward-counts}
use gptload_rs.Proxy.Failures.{KeepsCooldowns, tries_failed_again, forward-leaves_failed}
use gptload_rs.Proxy.Reasons.{IsExplained, forward-IsExplained}
use gptload_rs.Proxy.Server.{
  Server, Clock, api_key_invalid, denied, turned_away, body, Incoming, admit, handle,
}
use gptload_rs.Proxy.Server.Guards.{requests_of, handle-requests, IsUntouched, handle-turned_away}
use gptload_rs.Tests.World.{
  first_upstream, router, memory, snapshot, gpt, unavailable, fine, configs, ban,
}

-- The first attempt times out, the second is answered with 503, the third with 200.
abbrev weather : ℕ → Selected → Attempt
weather zero sel = sent (failed timeout)
weather (suc zero) sel = sent (answered unavailable)
weather (suc (suc n)) sel = sent (answered fine)

forward-answers_example :
    let (reply, attempts, s) = forward weather (some gpt) 1000 router in
    (reply ≢ none) × (length attempts ≤ suc router.max_retries)
forward-answers_example = forward-answers weather (some gpt) 1000 router

ban_ms : 0 < router.ban.network_error_ms
unfolding router
ban_ms = omega arith

-- While a request waits, another one is given an upstream.
abbrev crowd : ℕ → RouterState → RouterState
crowd n s = (select_for_model gpt 1000 s).1

crowd-KeepsCooldowns : KeepsCooldowns 1000 crowd
crowd-KeepsCooldowns = record {
  ban = λ n s. (select_for_model-IsSettled gpt 1000 s).ban;
  down = λ n cell s h.
      let same =
        (select_for_model-IsSettled gpt 1000 s).cooldown (record first_upstream { cell = cell }) in
      omega (arith, same, h);
}

forward-leaves_failed_example :
    tries_failed_again (forward_among weather crowd (some gpt) 1000 router).1 ≡ false
forward-leaves_failed_example =
    forward-leaves_failed weather crowd (some gpt) 1000 router crowd-KeepsCooldowns ban_ms
      (omega arith)

-- The second upstream answers 503, and then no upstream is left.
forward-reply : (forward weather (some gpt) 1000 router).0 ≡ some (proxied unavailable)
unfolding forward_among router snapshot memory build_snapshot_from_configs build_key_states
    alloc_key trim is_whitespace str_eq trim_end_matches contains on_timeout on_upstream_status
forward-reply = refl

forward-IsExplained_example :
    IsExplained router (forward weather (some gpt) 1000 router).1 (proxied unavailable)
forward-IsExplained_example =
    forward-IsExplained weather (some gpt) 1000 router (proxied unavailable) forward-reply

outcomes-room : global_count of_timeout router.stats + suc router.max_retries ≤ u64_max
unfolding router
outcomes-room = omega arith

forward-counts_example :
    let (reply, attempts, s) = forward weather (some gpt) 1000 router in
    global_count of_timeout s.stats
    ≡ global_count of_timeout router.stats + counted_all of_timeout attempts
forward-counts_example = forward-counts of_timeout weather (some gpt) 1000 router outcomes-room

abbrev headers : HeaderMap
headers = (codes "authorization", some (codes "Bearer k")) ∷ []

abbrev server : Server
server = record {
  router = router;
  billing = record { balances = (codes "j", pos 5) ∷ []; poisoned = false; sent = [] };
  logged = [];
}

no_key : header_text (codes "x-api-key") headers ≡ none
unfolding header_text lookup str_eq
no_key = refl

bearer_text : header_text (codes "authorization") headers ≡ some (codes "Bearer " ++ codes "k")
unfolding header_text lookup str_eq
bearer_text = refl

start_blank : trim_start (codes "k") ≡ codes "k"
unfolding trim_start is_whitespace
start_blank = refl

end_blank : trim_end (codes "k") ≡ codes "k"
unfolding trim_end is_whitespace
end_blank = refl

extract_api_key-bearer_example : extract_api_key headers ≡ some (codes "k")
extract_api_key-bearer_example =
    extract_api_key-bearer headers (codes "k") no_key bearer_text (ground arith) start_blank
      end_blank

abbrev incoming : Incoming
incoming = record {
  client_ip = codes "::1";
  method = codes "POST";
  path = codes "/v1/chat/completions";
  headers = headers;
  read = body (some gpt) 20;
}

abbrev clock : Clock
clock = record { ts_ms = 1005; elapsed_ms = 5 }

inflight-room : server.router.stats.requests_inflight < u64_max
unfolding router
inflight-room = omega arith

total-room : server.router.stats.requests_total < u64_max
unfolding router
total-room = omega arith

handle-requests_example :
    let (answer, s) = handle weather 1000 clock 0 5000 incoming server in
    (s.router.stats.requests_inflight ≡ server.router.stats.requests_inflight)
    × (s.router.stats.requests_total ≡ server.router.stats.requests_total + requests_of answer)
handle-requests_example =
    handle-requests weather 1000 clock 0 5000 incoming server inflight-room total-room

handle-invalid : (handle weather 1000 clock 0 5000 incoming server).0 ≡ turned_away api_key_invalid
unfolding handle router starts_with str_eq trim is_whitespace lookup header_text get_balance
handle-invalid = refl

handle-turned_away_example :
    (admit headers server ≡ denied api_key_invalid)
    × IsUntouched server (handle weather 1000 clock 0 5000 incoming server).1
handle-turned_away_example =
    handle-turned_away weather 1000 clock 0 5000 incoming server api_key_invalid handle-invalid

abbrev parsed : Config
parsed = record {
  max_retries = none;
  retry_status_codes = some (503 ∷ 42 ∷ 500 ∷ 503 ∷ []);
  proxy_tokens = some (codes " " ∷ []);
  admin_tokens = codes " t " ∷ codes "" ∷ [];
  usage_inject_upstreams = none;
  ban = ban;
  upstreams = configs;
}

abbrev loaded : Config
loaded = record {
  max_retries = none;
  retry_status_codes = some (500 ∷ 503 ∷ []);
  proxy_tokens = none;
  admin_tokens = codes "t" ∷ [];
  usage_inject_upstreams = none;
  ban = ban;
  upstreams = configs;
}

load-parsed : load (ok parsed) ≡ ok loaded
unfolding load trim is_whitespace starts_with
load-parsed = refl

load-IsLoaded_example : IsLoaded loaded
load-IsLoaded_example = load-IsLoaded (ok parsed) loaded load-parsed
