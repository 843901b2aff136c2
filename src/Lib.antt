-- ===== src/Lib.antt =====
-- gptload-rs: a proxy that spreads requests for language models over upstreams and their keys.
--
-- A request comes in at `handle` (src/proxy.rs), which asks the guards (proxy token, API key,
-- balance) and counts it. `forward` picks an upstream and a key from the router's snapshot, sends
-- the request, reports the outcome to the router and tries another upstream where that helps. The
-- router (src/state.rs) keeps the snapshot, the cooldowns and the counters; the billing store
-- (src/billing.rs) keeps the balances and writes them to disk in a thread of its own; the request
-- log (src/state.rs) keeps the last requests and counts them by minute, hour and day. A request to
-- the admin interface (src/admin.rs) changes the keys, in memory and in the database of
-- src/storage.rs, the upstreams and the model routes, in memory and in their files, and the balances.
--
-- Files and code:
--   Prelude            shared helpers: Boolean tests, lists, machine words, integers, text, maps
--   Config             src/config.rs: the records; Config/Load has `load`, `normalize`, `validate`
--   State/Defs         src/state.rs: `RouterState`, `Upstream`, `KeyState` and their counters. What
--                      an `Arc` shares is a cell of `Memory`: a selection refers to the cells of
--                      its upstream and its key, so that a change is seen by all who hold them
--   State/Status       the status codes of the http crate, sorted into classes
--   State/Ban          src/state.rs: `on_upstream_status`, `on_timeout`, `on_network_error`,
--                      `ban_key`, `ban_upstream`, `inc_status`, `inc_global_status`
--   State/Select       src/state.rs: `select`, `select_for_model`, `select_key`, `upstream_by_id`
--   State/Snapshot     src/state.rs: `build_snapshot_from_configs`, `parse_upstream`,
--                      `build_key_states`
--   State/Routes       src/state.rs: `save_model_routes`, `build_model_routes`,
--                      `apply_routes_to_upstreams`, `cleanup_model_routes`; State/Routes/Disk the
--                      interface of the files
--   State/Upstreams    src/state.rs: `replace_upstreams`, `add_upstream`, `update_upstream`,
--                      `delete_upstream`
--   State/Start        src/state.rs: `RouterState::new`
--   Storage            src/storage.rs: the key store; Storage/Database the interface of its trees
--   Util               src/util.rs: `query_get`
--   Admin              src/admin.rs: Admin/Routes `handle_admin` and the routes, Admin/Body what is
--                      read of a body, Admin/Keys, Admin/Reload, Admin/Accounts, Admin/Upstreams
--                      and Admin/Pages the handlers
--   Requests           src/state.rs: `RequestsLog`, `RequestMetrics`, `update_bucket`
--   Billing            src/billing.rs: the calls; Billing/Bytes the stored form, Billing/Tree the
--                      interface of the tree, Billing/Writer `new` and the writer thread
--   Proxy/Auth         src/state.rs and src/proxy.rs: `authorize_proxy`, `authorize_admin_header`,
--                      `should_inject_usage`, `extract_api_key`
--   Proxy/Retry        src/proxy.rs: `forward` and its loop
--   Proxy/Json         `serde_json::Value`, as src/proxy.rs uses it
--   Proxy/Incoming     src/proxy.rs: the body of a request, its model, `ensure_stream_usage`
--   Proxy/Sse          src/proxy.rs: `parse_sse_usage`, `extract_usage_from_value`
--   Proxy/Relay        src/proxy.rs: the task of `proxy_upstream_response`
--   Proxy/Server       src/proxy.rs: `handle`, `record_request`, what a response costs; src/state.rs:
--                      `record_latency`
--   Tests              concrete inputs and what the theorems say of them
--
-- Numbers are naturals; a field of a fixed width wraps where the code's atomics do, and the code's
-- saturating operations saturate. Each handler of an outcome, each selection and each call of the
-- billing store is one step: a theorem about one of them starts from any state, and so holds
-- whatever other threads have done before it, but none run inside it. While a request waits for an
-- upstream, other requests and changes of the upstreams may run: what they do to the router is a
-- parameter of `forward_among`. `forward`, and `handle` with it, is a request by itself, during which
-- nobody else changes the router or the balances.
--
-- Fuel: the loop of `forward` gets `max_retries + 1` rounds, since each round but the last uses up
-- one retry; the loop that appends buckets gets one round more than there are milliseconds between
-- the last bucket and the new one, since each round moves on by a step of at least a millisecond.
-- All other loops are structural.
--
-- Parameters: parsing a URI and checking a header value (`Http`), the trees of the key database
-- (`Sled`, with laws) and the tree that keeps the balances (`Tree`, with laws), whose calls may all
-- fail, the files of the routes and the upstreams (`Files`, with laws), reading UTF-8, JSON and gzip
-- (`Decoders`, `Readers`), what an upstream does with a request, and the clock. `Proxy.Server` is
-- given what is read of a request's body; `Proxy.Incoming` reads it.
--
-- Not modelled: fetching the models of an upstream, the statistics, building
-- the URI and the headers of a request, the loop inside the gzip decoder, export and import of keys,
-- and the file and network I/O of the packages tokio, hyper, sled, serde and flate2. A handler of the
-- admin interface is one step, as is a call of the key store: other threads do not run inside it.
mod Prelude
pub mod Config
pub mod State
pub mod Requests
pub mod Storage
pub mod Util
pub mod Admin
pub mod Billing
pub mod Proxy
mod Tests
