-- ===== src/Admin/Routes.antt =====
-- The routes of src/admin.rs: which handler a request reaches. A handler is named by the endpoint,
-- with the part of the path that it is given.
pub mod Reached
use gptload_rs.Prelude.{
  ℕ, Bool, true, false, ◌&&◌, not, Option, none, some, List, [], ◌∷◌, ◌++◌, if◌then◌else◌,
}
use gptload_rs.Prelude.Text.{Str, codes, str_eq, is_empty, strip_prefix, starts_with}
use gptload_rs.Prelude.Split.{split}
use gptload_rs.State.Defs.{RouterState}
use gptload_rs.Proxy.Auth.{HeaderMap, authorize_admin_header}

pub data Method : Type 0 where
  get post put delete other : Method

pub data Endpoint : Type 0 where
  redirect index_html app_js not_found_text : Endpoint
  admin_unauthorized not_found method_not_allowed : Endpoint
  missing_key missing_upstream_id : Endpoint
  stats_stream list_upstreams add_upstream stats_snapshot reload_all : Endpoint
  get_model_routes put_model_routes requests metrics billing_create_key : Endpoint
  billing_get_balance billing_adjust_balance : Str → Endpoint
  update_upstream delete_upstream refresh_models : Str → Endpoint
  add_keys replace_keys delete_keys list_keys : Str → Endpoint

-- `parts.next().unwrap_or("")`
abbrev pub next_part : List Str → Str
next_part [] = []
next_part (p ∷ _) = p

abbrev pub rest_parts : List Str → List Str
rest_parts [] = []
rest_parts (_ ∷ ps) = ps

abbrev pub method_eq : Method → Method → Bool
method_eq get get = true
method_eq post post = true
method_eq put put = true
method_eq delete delete = true
method_eq _ _ = false

unfoldable pub handle_billing_key_subroutes : Method → Str → Endpoint
unfolding split str_eq
handle_billing_key_subroutes method rest =
    let parts = split b'/' rest in
    let key = next_part parts in
    let action = next_part (rest_parts parts) in
    if is_empty key
    then missing_key
    else if is_empty action
    then if method_eq method get then billing_get_balance key else method_not_allowed
    else if str_eq action (codes "adjust")
    then if method_eq method post then billing_adjust_balance key else method_not_allowed
    else not_found

-- The handlers for the keys, by the method.
abbrev pub keys_endpoint : Method → Str → Endpoint
keys_endpoint post id = add_keys id
keys_endpoint put id = replace_keys id
keys_endpoint delete id = delete_keys id
keys_endpoint get id = list_keys id
keys_endpoint other id = method_not_allowed

-- The handlers for the upstream itself.
abbrev pub upstream_endpoint : Method → Str → Endpoint
upstream_endpoint put id = update_upstream id
upstream_endpoint delete id = delete_upstream id
upstream_endpoint _ id = method_not_allowed

unfoldable pub handle_upstream_subroutes : Method → Str → Endpoint
unfolding split str_eq
handle_upstream_subroutes method rest =
    let parts = split b'/' rest in
    let upstream_id = next_part parts in
    let sub = next_part (rest_parts parts) in
    let action = next_part (rest_parts (rest_parts parts)) in
    if is_empty upstream_id
    then missing_upstream_id
    else if is_empty sub
    then upstream_endpoint method upstream_id
    else if str_eq sub (codes "models")
    then if str_eq action (codes "refresh")
      then if method_eq method post then refresh_models upstream_id else method_not_allowed
      else not_found
    else if not (str_eq sub (codes "keys"))
    then not_found
    else keys_endpoint method upstream_id

-- The arms of the `match` that have a path of their own.
unfoldable pub fixed_route : Method → Str → Option Endpoint
unfolding str_eq
fixed_route method path =
    let at =
      λ (m : Method) (p : Str). method_eq method m && str_eq path (codes "/admin/api/v1/" ++ p) in
    if at get (codes "stats/stream")
    then some stats_stream
    else if at get (codes "upstreams")
    then some list_upstreams
    else if at post (codes "upstreams")
    then some add_upstream
    else if at get (codes "stats")
    then some stats_snapshot
    else if at post (codes "reload")
    then some reload_all
    else if at get (codes "models/routes")
    then some get_model_routes
    else if at put (codes "models/routes")
    then some put_model_routes
    else if at get (codes "requests")
    then some requests
    else if at get (codes "metrics")
    then some metrics
    else if at post (codes "billing/keys")
    then some billing_create_key
    else none

-- The last arm.
unfoldable pub dynamic_route : Method → Str → Endpoint
unfolding strip_prefix handle_billing_key_subroutes handle_upstream_subroutes
dynamic_route method path = elim (strip_prefix (codes "/admin/api/v1/billing/keys/") path) [
  | some rest ↦ handle_billing_key_subroutes method rest
  | none ↦ elim (strip_prefix (codes "/admin/api/v1/upstreams/") path) [
    | some rest ↦ handle_upstream_subroutes method rest
    | none ↦ not_found
  ]
]

abbrev pub first_of : Option Endpoint → Endpoint → Endpoint
first_of none last = last
first_of (some endpoint) last = endpoint

unfoldable pub handle_api : RouterState → Method → Str → HeaderMap → Endpoint
unfolding fixed_route dynamic_route authorize_admin_header
handle_api s method path headers =
    if not (authorize_admin_header s headers)
    then admin_unauthorized
    else first_of (fixed_route method path) (dynamic_route method path)

unfoldable pub handle_admin : RouterState → Method → Str → HeaderMap → Endpoint
unfolding handle_api str_eq starts_with
handle_admin s method path headers =
    let static = method_eq method get in
    if str_eq path (codes "/admin")
    then redirect
    else if static && str_eq path (codes "/admin/")
    then index_html
    else if static && str_eq path (codes "/admin/index.html")
    then index_html
    else if static && str_eq path (codes "/admin/app.js")
    then app_js
    else if starts_with path (codes "/admin/api/")
    then handle_api s method path headers
    else not_found_text
