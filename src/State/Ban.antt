-- ===== src/State/Ban.antt =====
-- Cooldowns and counters: `on_upstream_status`, `on_timeout`, `on_network_error`, `ban_key`,
-- `ban_upstream`, `inc_status` and `inc_global_status` of src/state.rs.
pub mod Backoff
pub mod Effects
use gptload_rs.Prelude.{ℕ, ◌+◌, ◌^◌, min, ◌||◌, if◌then◌else◌}
use gptload_rs.Prelude.Words.{add64, add32, sub32, saturating_add, saturating_mul}
use gptload_rs.State.Defs.{
  KeyState, UpstreamStats, Upstream, UpstreamCell, Stats, RouterState, Selected, upstream_cell,
  key_cell, set_upstream, set_key,
}
use gptload_rs.State.Status.{
  StatusCode, is_success, is_redirection, is_client_error, is_server_error, has_code,
}

-- The end of a cooldown: `base_ms` doubled for each earlier failure of the streak, up to the cap.
-- `fail_streak` is an AtomicU32, so `fetch_add` and the sums around it wrap at 2 ^ 32.
unfoldable pub ban_until : RouterState → ℕ → ℕ → ℕ → ℕ
ban_until s fail_streak base_ms now_ms =
    let streak = add32 fail_streak 1 in
    let max_pow = min s.ban.max_backoff_pow 30 in
    let pow = min (sub32 streak 1) max_pow in
    let mult = 2 ^ pow in let ban_ms = saturating_mul base_ms mult in saturating_add now_ms ban_ms

unfoldable pub ban_key : KeyState → ℕ → ℕ → RouterState → RouterState
unfolding ban_until
ban_key k base_ms now_ms s =
    let streak = (key_cell s k).fail_streak in
    set_key k
      (record {
        cooldown_until_ms = ban_until s streak base_ms now_ms;
        fail_streak = add32 streak 1;
      })
      s

unfoldable pub ban_upstream : Upstream → ℕ → ℕ → RouterState → RouterState
unfolding ban_until
ban_upstream u base_ms now_ms s =
    let c = upstream_cell s u in
    set_upstream u
      (record c {
        cooldown_until_ms = ban_until s c.fail_streak base_ms now_ms;
        fail_streak = add32 c.fail_streak 1;
      })
      s

unfoldable pub inc_status : UpstreamStats → StatusCode → UpstreamStats
inc_status t status =
    if is_success status.class
    then record t { responses_2xx = add64 t.responses_2xx 1 }
    else if is_redirection status.class
    then record t { responses_3xx = add64 t.responses_3xx 1 }
    else if is_client_error status.class
    then record t { responses_4xx = add64 t.responses_4xx 1 }
    else if is_server_error status.class
    then record t { responses_5xx = add64 t.responses_5xx 1 }
    else t

unfoldable pub inc_global_status : Stats → StatusCode → Stats
inc_global_status t status =
    if is_success status.class
    then record t { responses_2xx = add64 t.responses_2xx 1 }
    else if is_redirection status.class
    then record t { responses_3xx = add64 t.responses_3xx 1 }
    else if is_client_error status.class
    then record t { responses_4xx = add64 t.responses_4xx 1 }
    else if is_server_error status.class
    then record t { responses_5xx = add64 t.responses_5xx 1 }
    else t

-- The first half of `on_upstream_status`: the upstream has answered, so its cooldown and streak are
-- cleared, and the answer is counted.
unfoldable pub note_response : Selected → StatusCode → RouterState → RouterState
unfolding inc_status inc_global_status
note_response sel status s =
    let c = upstream_cell s sel.upstream in
    let s' =
      set_upstream sel.upstream
        (record c { cooldown_until_ms = 0; fail_streak = 0; stats = inc_status c.stats status })
        s in
    record s' { stats = inc_global_status s.stats status }

unfoldable pub reset_key_streak : KeyState → RouterState → RouterState
reset_key_streak k s = let c = key_cell s k in set_key k (record c { fail_streak = 0 }) s

unfoldable pub on_upstream_status : Selected → StatusCode → ℕ → RouterState → RouterState
unfolding note_response ban_key ban_upstream reset_key_streak
on_upstream_status sel status now_ms s =
    let s' = note_response sel status s in
    if has_code status 429
    then ban_key sel.key s.ban.rate_limit_ms now_ms s'
    else if has_code status 401 || has_code status 403
    then ban_key sel.key s.ban.auth_error_ms now_ms s'
    else if is_server_error status.class
    then ban_upstream sel.upstream s.ban.server_error_ms now_ms s'
    else reset_key_streak sel.key s'

unfoldable pub on_timeout : Selected → ℕ → RouterState → RouterState
unfolding ban_upstream
on_timeout sel now_ms s =
    let c = upstream_cell s sel.upstream in
    let t = c.stats in
    let g = s.stats in
    let s' =
      set_upstream sel.upstream
        (record c { stats = record t { errors_timeout = add64 t.errors_timeout 1 } }) s in
    ban_upstream sel.upstream s.ban.network_error_ms now_ms
      (record s' { stats = record g { errors_timeout = add64 g.errors_timeout 1 } })

unfoldable pub on_network_error : Selected → ℕ → RouterState → RouterState
unfolding ban_upstream
on_network_error sel now_ms s =
    let c = upstream_cell s sel.upstream in
    let t = c.stats in
    let g = s.stats in
    let s' =
      set_upstream sel.upstream
        (record c { stats = record t { errors_network = add64 t.errors_network 1 } }) s in
    ban_upstream sel.upstream s.ban.network_error_ms now_ms
      (record s' { stats = record g { errors_network = add64 g.errors_network 1 } })
