-- ===== src/Admin/Routes/Reached.antt =====
-- Which requests reach the handlers.
use gptload_rs.Prelude.{
  ◌≡◌, refl, ◌∙◌, subst, Bool, true, false, ◌&&◌, Option, none, some, [], ◌∷◌, ◌++◌, if◌then◌else◌,
  arith,
}
use gptload_rs.Prelude.Text.{Str, codes, str_eq, is_empty, strip_prefix, starts_with}
use gptload_rs.Prelude.Split.{split}
use gptload_rs.State.Defs.{RouterState}
use gptload_rs.Proxy.Auth.{HeaderMap, authorize_admin_header}
use gptload_rs.Util.Query.{Lacks, split-Lacks, split-append}
use gptload_rs.Admin.Routes.{
  Method, get, post, put, delete, other, method_eq, Endpoint, redirect, index_html, app_js,
  not_found_text, admin_unauthorized, not_found, method_not_allowed, missing_key,
  missing_upstream_id, stats_stream, list_upstreams, add_upstream, stats_snapshot, reload_all,
  get_model_routes, put_model_routes, requests, metrics, billing_create_key, billing_get_balance,
  billing_adjust_balance, update_upstream, delete_upstream, refresh_models, add_keys, replace_keys,
  delete_keys, list_keys, handle_billing_key_subroutes, handle_upstream_subroutes, fixed_route,
  first_of, dynamic_route, handle_api, handle_admin,
}

-- The endpoints that answer without a token: the page, and refusals.
abbrev pub is_open : Endpoint → Bool
is_open redirect = true
is_open index_html = true
is_open app_js = true
is_open not_found_text = true
is_open admin_unauthorized = true
is_open _ = false

pages_open :
    (a b c d f : Bool)
    → is_open (
        if a
        then redirect
        else if b
        then index_html
        else if c
        then index_html
        else if d
        then app_js
        else if f
        then admin_unauthorized
        else not_found_text)
      ≡ true
pages_open a b c d f = ground arith

-- Only a request with an admin token reaches the API: without one every answer is the page, a
-- redirection to it, or a refusal.
pub handle_admin-authorize_admin_header :
    (s : RouterState) (method : Method) (path : Str) (headers : HeaderMap)
    → authorize_admin_header s headers ≡ false
    → is_open (handle_admin s method path headers) ≡ true
unfolding handle_admin handle_api
handle_admin-authorize_admin_header s method path headers e =
    let static = method_eq method get in
    rw (handle_admin, handle_api, e)
      (pages_open (str_eq path (codes "/admin")) (static && str_eq path (codes "/admin/"))
        (static && str_eq path (codes "/admin/index.html"))
        (static && str_eq path (codes "/admin/app.js")) (starts_with path (codes "/admin/api/")))

-- The request that the interface has for each endpoint.
abbrev pub request_of : Endpoint → Option (Method × Str)
request_of stats_stream = some (get, codes "stats/stream")
request_of list_upstreams = some (get, codes "upstreams")
request_of add_upstream = some (post, codes "upstreams")
request_of stats_snapshot = some (get, codes "stats")
request_of reload_all = some (post, codes "reload")
request_of get_model_routes = some (get, codes "models/routes")
request_of put_model_routes = some (put, codes "models/routes")
request_of requests = some (get, codes "requests")
request_of metrics = some (get, codes "metrics")
request_of billing_create_key = some (post, codes "billing/keys")
request_of (billing_get_balance key) = some (get, codes "billing/keys/" ++ key)
request_of (billing_adjust_balance key) =
    some (post, codes "billing/keys/" ++ key ++ codes "/adjust")
request_of (update_upstream id) = some (put, codes "upstreams/" ++ id)
request_of (delete_upstream id) = some (delete, codes "upstreams/" ++ id)
request_of (refresh_models id) = some (post, codes "upstreams/" ++ id ++ codes "/models/refresh")
request_of (add_keys id) = some (post, codes "upstreams/" ++ id ++ codes "/keys")
request_of (replace_keys id) = some (put, codes "upstreams/" ++ id ++ codes "/keys")
request_of (delete_keys id) = some (delete, codes "upstreams/" ++ id ++ codes "/keys")
request_of (list_keys id) = some (get, codes "upstreams/" ++ id ++ codes "/keys")
request_of _ = none

-- A name that fits into one segment of a path.
abbrev pub IsSegment : Str → Type 0
IsSegment id = Lacks b'/' id × (is_empty id ≡ false)

abbrev pub HasSegment : Endpoint → Type 0
HasSegment (billing_get_balance key) = IsSegment key
HasSegment (billing_adjust_balance key) = IsSegment key
HasSegment (update_upstream id) = IsSegment id
HasSegment (delete_upstream id) = IsSegment id
HasSegment (refresh_models id) = IsSegment id
HasSegment (add_keys id) = IsSegment id
HasSegment (replace_keys id) = IsSegment id
HasSegment (delete_keys id) = IsSegment id
HasSegment (list_keys id) = IsSegment id
HasSegment _ = Unit

-- The parts of a path behind a segment.
split_keys : (id : Str) → Lacks b'/' id → split b'/' (id ++ codes "/keys") ≡ id ∷ codes "keys" ∷ []
unfolding split
split_keys id h = split-append b'/' id (codes "keys") h

split_adjust :
    (id : Str) → Lacks b'/' id → split b'/' (id ++ codes "/adjust") ≡ id ∷ codes "adjust" ∷ []
unfolding split
split_adjust id h = split-append b'/' id (codes "adjust") h

split_refresh :
    (id : Str)
    → Lacks b'/' id
    → split b'/' (id ++ codes "/models/refresh") ≡ id ∷ codes "models" ∷ codes "refresh" ∷ []
unfolding split
split_refresh id h = split-append b'/' id (codes "models/refresh") h

handle_admin_api :
    (s : RouterState) (method : Method) (path : Str) (headers : HeaderMap)
    → authorize_admin_header s headers ≡ true
    → handle_admin s method (codes "/admin/api/v1/" ++ path) headers
      ≡ first_of
          (fixed_route method (codes "/admin/api/v1/" ++ path))
          (dynamic_route method (codes "/admin/api/v1/" ++ path))
unfolding handle_admin handle_api str_eq starts_with strip_prefix
handle_admin_api s get path headers e = rw (handle_api, e) refl
handle_admin_api s post path headers e = rw (handle_api, e) refl
handle_admin_api s put path headers e = rw (handle_api, e) refl
handle_admin_api s delete path headers e = rw (handle_api, e) refl
handle_admin_api s other path headers e = rw (handle_api, e) refl

abbrev Arrives : Endpoint → Option (Method × Str) → Type 0
Arrives e none = Unit
Arrives e (some (method, path)) =
    first_of (fixed_route method (codes "/admin/api/v1/" ++ path))
      (dynamic_route method (codes "/admin/api/v1/" ++ path))
    ≡ e

reached : (e : Endpoint) → HasSegment e → Arrives e (request_of e)
unfolding fixed_route dynamic_route handle_billing_key_subroutes handle_upstream_subroutes str_eq
    strip_prefix
reached stats_stream h = refl
reached list_upstreams h = refl
reached add_upstream h = refl
reached stats_snapshot h = refl
reached reload_all h = refl
reached get_model_routes h = refl
reached put_model_routes h = refl
reached requests h = refl
reached metrics h = refl
reached billing_create_key h = refl
reached redirect h = tt
reached index_html h = tt
reached app_js h = tt
reached not_found_text h = tt
reached admin_unauthorized h = tt
reached not_found h = tt
reached method_not_allowed h = tt
reached missing_key h = tt
reached missing_upstream_id h = tt
reached (billing_get_balance key) (h, k) = ground (arith, split-Lacks b'/' key h, k)
reached (billing_adjust_balance key) (h, k) = ground (arith, split_adjust key h, k)
reached (update_upstream id) (h, k) = ground (arith, split-Lacks b'/' id h, k)
reached (delete_upstream id) (h, k) = ground (arith, split-Lacks b'/' id h, k)
reached (refresh_models id) (h, k) = ground (arith, split_refresh id h, k)
reached (add_keys id) (h, k) = ground (arith, split_keys id h, k)
reached (replace_keys id) (h, k) = ground (arith, split_keys id h, k)
reached (delete_keys id) (h, k) = ground (arith, split_keys id h, k)
reached (list_keys id) (h, k) = ground (arith, split_keys id h, k)

-- Behind the token every endpoint of the API is reached by its own request, when the key or the id
-- in its path is not empty and has no slash.
pub handle_admin-request_of :
    (s : RouterState) (headers : HeaderMap) (e : Endpoint) (r : Method × Str)
    → authorize_admin_header s headers ≡ true
    → HasSegment e
    → request_of e ≡ some r
    → handle_admin s r.0 (codes "/admin/api/v1/" ++ r.1) headers ≡ e
handle_admin-request_of s headers e r a h q =
    handle_admin_api s r.0 r.1 headers a ∙ subst (Arrives e) q (reached e h)
