-- ===== src/Tests/Cooldowns.antt =====
-- Answers and failures of one upstream.
use gptload_rs.Prelude.{
  ◌+◌, ◌*◌, ◌^◌, ◌≤◌, ◌<◌, ◌≡◌, refl, min, [], ◌∷◌, ◌==◌, if◌then◌else◌, arith,
}
use gptload_rs.Prelude.Text.{trim, is_whitespace, str_eq, trim_end_matches}
use gptload_rs.Prelude.Words.{u64_max, saturating_add}
use gptload_rs.State.Defs.{upstream_cell, key_cell}
use gptload_rs.State.Ban.{on_upstream_status}
use gptload_rs.State.Ban.Backoff.{
  timeout, network, answers, failures, on_failure, backoff, rate_limited_backoff,
  network_failures-backoff, server_error_never_backs_off,
}
use gptload_rs.State.Ban.Effects.{
  failed, on_outcome, of_timeout, upstream_count, global_count, on_outcome-counts, on_outcome-keeps,
}
use gptload_rs.State.Snapshot.{build_snapshot_from_configs, build_key_states, alloc_key}
use gptload_rs.Tests.World.{
  router, memory, snapshot, first_selected, first_upstream, first_key, too_many, unavailable,
}

key-room : (key_cell router first_key).fail_streak + 2 + 1 < 2 ^ 32
unfolding router snapshot memory build_snapshot_from_configs build_key_states alloc_key trim
    is_whitespace str_eq trim_end_matches
key-room = omega arith

rate_limited_backoff_example :
    let streak = (key_cell router first_key).fail_streak + 2 in
    let s =
      on_upstream_status first_selected too_many 900
        (answers first_selected too_many (500 ∷ 700 ∷ []) router) in
    ((key_cell s first_key).fail_streak ≡ streak + 1)
    × ((key_cell s first_key).cooldown_until_ms
        ≡ backoff router streak router.ban.rate_limit_ms 900)
rate_limited_backoff_example =
    rate_limited_backoff first_selected too_many (500 ∷ 700 ∷ []) 900 router refl key-room

upstream-room : (upstream_cell router first_upstream).fail_streak + 1 + 1 < 2 ^ 32
unfolding router snapshot memory build_snapshot_from_configs build_key_states alloc_key trim
    is_whitespace str_eq trim_end_matches
upstream-room = omega arith

network_failures-backoff_example :
    let streak = (upstream_cell router first_upstream).fail_streak + 1 in
    let s =
      on_failure first_selected network 900
        (failures first_selected ((timeout, 500) ∷ []) router) in
    ((upstream_cell s first_upstream).fail_streak ≡ streak + 1)
    × ((upstream_cell s first_upstream).cooldown_until_ms
        ≡ backoff router streak router.ban.network_error_ms 900)
network_failures-backoff_example =
    network_failures-backoff first_selected ((timeout, 500) ∷ []) network 900 router upstream-room

server_error_never_backs_off_example :
    let c =
      upstream_cell (on_upstream_status first_selected unavailable 900 router) first_upstream in
    (c.fail_streak ≡ 1)
    × (c.cooldown_until_ms ≡ saturating_add 900 (min router.ban.server_error_ms u64_max))
server_error_never_backs_off_example =
    server_error_never_backs_off first_selected unavailable 900 router refl refl refl refl

window-room : 900 + 1000 * 2 ^ min router.ban.max_backoff_pow 30 ≤ u64_max
unfolding router
window-room = omega arith

upstream-below : upstream_count of_timeout (upstream_cell router first_upstream).stats < u64_max
unfolding router snapshot memory build_snapshot_from_configs build_key_states alloc_key trim
    is_whitespace str_eq trim_end_matches
upstream-below = omega arith

global-below : global_count of_timeout router.stats < u64_max
unfolding router
global-below = omega arith

on_outcome-counts_example :
    let s = on_outcome first_selected (failed timeout) 900 router in
    (upstream_count of_timeout (upstream_cell s first_upstream).stats
      ≡ upstream_count of_timeout (upstream_cell router first_upstream).stats + 1)
    × (global_count of_timeout s.stats ≡ global_count of_timeout router.stats + 1)
on_outcome-counts_example =
    on_outcome-counts of_timeout first_selected (failed timeout) 900 router upstream-below
      global-below

on_outcome-keeps_example :
    let s = on_outcome first_selected (failed network) 900 router in
    (upstream_cell s first_upstream ≡ (
      if first_upstream.cell == first_upstream.cell
      then upstream_cell s first_upstream
      else upstream_cell router first_upstream))
    × (key_cell s first_key ≡ (
        if first_key.cell == first_key.cell
        then key_cell router first_key
        else key_cell router first_key))
    × ((upstream_cell s first_upstream).keys ≡ (upstream_cell router first_upstream).keys)
    × ((upstream_cell s first_upstream).models ≡ (upstream_cell router first_upstream).models)
    × ((upstream_cell s first_upstream).key_rr ≡ (upstream_cell router first_upstream).key_rr)
    × (s.snapshot ≡ router.snapshot)
    × (s.sched_rr ≡ router.sched_rr)
    × (s.ban ≡ router.ban)
    × (s.max_retries ≡ router.max_retries)
    × (s.retry_status_codes ≡ router.retry_status_codes)
on_outcome-keeps_example =
    on_outcome-keeps first_selected (failed network) 900 router first_upstream first_key
