-- ===== src/State/Ban/Effects.antt =====
-- What an answer or a failure changes, and what it leaves alone.
use gptload_rs.Prelude.{ℕ, ◌+◌, ◌<◌, ◌≡◌, false, ◌==◌, if◌then◌else◌, arith}
use gptload_rs.Prelude.Words.{u64_max}
use gptload_rs.State.Defs.{
  KeyState, KeyCell, Upstream, UpstreamStats, Stats, RouterState, Selected, upstream_cell, key_cell,
}
use gptload_rs.State.Status.{
  success, redirection, client_error, server_error, StatusCode, is_server_error, has_code,
}
use gptload_rs.State.Ban.{on_upstream_status, on_timeout, on_network_error}
use gptload_rs.State.Ban.Backoff.{Failure, timeout, network, on_failure}

-- An attempt at an upstream ends with an answer, a timeout or a network error.
pub data Outcome : Type 0 where
  answered : StatusCode → Outcome
  failed : Failure → Outcome

abbrev pub on_outcome : Selected → Outcome → ℕ → RouterState → RouterState
on_outcome sel (answered status) = on_upstream_status sel status
on_outcome sel (failed f) = on_failure sel f

-- The six counters that answers and failures have, in an upstream and in the whole.
pub data Counter : Type 0 where
  of_2xx of_3xx of_4xx of_5xx of_timeout of_network : Counter

abbrev pub upstream_count : Counter → UpstreamStats → ℕ
upstream_count of_2xx t = t.responses_2xx
upstream_count of_3xx t = t.responses_3xx
upstream_count of_4xx t = t.responses_4xx
upstream_count of_5xx t = t.responses_5xx
upstream_count of_timeout t = t.errors_timeout
upstream_count of_network t = t.errors_network

abbrev pub global_count : Counter → Stats → ℕ
global_count of_2xx t = t.responses_2xx
global_count of_3xx t = t.responses_3xx
global_count of_4xx t = t.responses_4xx
global_count of_5xx t = t.responses_5xx
global_count of_timeout t = t.errors_timeout
global_count of_network t = t.errors_network

-- What an outcome adds to a counter: 1 to that of its class or its failure, and 0 to the others.
-- Informational answers and codes outside every class are not counted.
abbrev pub counted : Counter → Outcome → ℕ
counted of_2xx (answered status) = elim status.class [ success ↦ 1 | _ ↦ 0 ]
counted of_3xx (answered status) = elim status.class [ redirection ↦ 1 | _ ↦ 0 ]
counted of_4xx (answered status) = elim status.class [ client_error ↦ 1 | _ ↦ 0 ]
counted of_5xx (answered status) = elim status.class [ server_error ↦ 1 | _ ↦ 0 ]
counted of_timeout (failed timeout) = 1
counted of_network (failed network) = 1
counted _ _ = 0

-- Each of the six counters, of the upstream and of the whole, grows by 1 if the outcome is of its
-- kind and stays as it was otherwise, as long as it is not at the end of its range.
pub on_outcome-counts :
    (c : Counter) (sel : Selected) (o : Outcome) (now_ms : ℕ) (s : RouterState)
    → upstream_count c (upstream_cell s sel.upstream).stats < u64_max
    → global_count c s.stats < u64_max
    → let s' = on_outcome sel o now_ms s in
      (upstream_count c (upstream_cell s' sel.upstream).stats
        ≡ upstream_count c (upstream_cell s sel.upstream).stats + counted c o)
      × (global_count c s'.stats ≡ global_count c s.stats + counted c o)
unfolding on_upstream_status on_timeout on_network_error
on_outcome-counts of_2xx sel (answered status) now_ms s h g = ground arith
on_outcome-counts of_2xx sel (failed timeout) now_ms s h g = ground arith
on_outcome-counts of_2xx sel (failed network) now_ms s h g = ground arith
on_outcome-counts of_3xx sel (answered status) now_ms s h g = ground arith
on_outcome-counts of_3xx sel (failed timeout) now_ms s h g = ground arith
on_outcome-counts of_3xx sel (failed network) now_ms s h g = ground arith
on_outcome-counts of_4xx sel (answered status) now_ms s h g = ground arith
on_outcome-counts of_4xx sel (failed timeout) now_ms s h g = ground arith
on_outcome-counts of_4xx sel (failed network) now_ms s h g = ground arith
on_outcome-counts of_5xx sel (answered status) now_ms s h g = ground arith
on_outcome-counts of_5xx sel (failed timeout) now_ms s h g = ground arith
on_outcome-counts of_5xx sel (failed network) now_ms s h g = ground arith
on_outcome-counts of_timeout sel (answered status) now_ms s h g = ground arith
on_outcome-counts of_timeout sel (failed timeout) now_ms s h g = ground arith
on_outcome-counts of_timeout sel (failed network) now_ms s h g = ground arith
on_outcome-counts of_network sel (answered status) now_ms s h g = ground arith
on_outcome-counts of_network sel (failed timeout) now_ms s h g = ground arith
on_outcome-counts of_network sel (failed network) now_ms s h g = ground arith

-- An answer that is neither 429, 401, 403 nor a server error ends the upstream's cooldown and both
-- streaks. The key's cooldown stays as it was.
pub on_upstream_status-recovers :
    (sel : Selected) (status : StatusCode) (now_ms : ℕ) (s : RouterState)
    → has_code status 429 ≡ false
    → has_code status 401 ≡ false
    → has_code status 403 ≡ false
    → is_server_error status.class ≡ false
    → let s' = on_upstream_status sel status now_ms s in
      ((upstream_cell s' sel.upstream).cooldown_until_ms ≡ 0)
      × ((upstream_cell s' sel.upstream).fail_streak ≡ 0)
      × ((key_cell s' sel.key).fail_streak ≡ 0)
      × ((key_cell s' sel.key).cooldown_until_ms ≡ (key_cell s sel.key).cooldown_until_ms)
unfolding on_upstream_status
on_upstream_status-recovers sel status now_ms s a b c d = ground arith

-- The key of a selection after an outcome: a failure without an answer leaves it alone.
abbrev key_after : Outcome → KeyCell → KeyCell → KeyCell
key_after (answered _) new old = new
key_after (failed _) new old = old

-- An outcome changes the cell of the selected upstream alone, and there neither the keys, the models
-- nor the position; it changes the cell of the selected key alone, and that only if there was an
-- answer. The snapshot, the schedule's position and the configuration stay.
pub on_outcome-keeps :
    (sel : Selected) (o : Outcome) (now_ms : ℕ) (s : RouterState) (u : Upstream) (k : KeyState)
    → let s' = on_outcome sel o now_ms s in
      (upstream_cell s' u ≡ (
        if u.cell == sel.upstream.cell then upstream_cell s' sel.upstream else upstream_cell s u))
      × (key_cell s' k ≡ (
          if k.cell == sel.key.cell
          then key_after o (key_cell s' sel.key) (key_cell s sel.key)
          else key_cell s k))
      × ((upstream_cell s' u).keys ≡ (upstream_cell s u).keys)
      × ((upstream_cell s' u).models ≡ (upstream_cell s u).models)
      × ((upstream_cell s' u).key_rr ≡ (upstream_cell s u).key_rr)
      × (s'.snapshot ≡ s.snapshot)
      × (s'.sched_rr ≡ s.sched_rr)
      × (s'.ban ≡ s.ban)
      × (s'.max_retries ≡ s.max_retries)
      × (s'.retry_status_codes ≡ s.retry_status_codes)
unfolding on_upstream_status on_timeout on_network_error
on_outcome-keeps sel (answered status) now_ms s u k = ground arith
on_outcome-keeps sel (failed timeout) now_ms s u k = ground arith
on_outcome-keeps sel (failed network) now_ms s u k = ground arith
