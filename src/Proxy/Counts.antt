-- ===== src/Proxy/Counts.antt =====
-- The counters over all attempts of a request.
use gptload_rs.Prelude.{
  ℕ, zero, suc, ◌+◌, ◌≤◌, ◌<◌, ◌≡◌, refl, ◌∙◌, ap, sym, inl, inr, Option, Option-cases, none, some,
  List, [], ◌∷◌, arith,
}
use gptload_rs.Prelude.Words.{u64_max}
use gptload_rs.Prelude.Text.{Str}
use gptload_rs.State.Defs.{RouterState, Selected, Stats}
use gptload_rs.State.Ban.{on_upstream_status, on_timeout, on_network_error}
use gptload_rs.State.Ban.Backoff.{timeout, network}
use gptload_rs.State.Ban.Effects.{
  Outcome, answered, failed, on_outcome, counted, Counter, of_2xx, of_3xx, of_4xx, of_5xx,
  of_timeout, of_network, global_count,
}
use gptload_rs.State.Select.{select_for_model}
use gptload_rs.Proxy.Retry.{
  Attempt, bad_uri, bad_request, sent, forward_loop, alone, forward_among, forward,
}
use gptload_rs.Proxy.Rounds.{
  on_outcome-requests, select_for_model-IsSettled, on_attempt, met, loop, round,
}

-- The outcomes among some attempts that a counter sees.
abbrev pub counted_all : Counter → List (Selected × Attempt) → ℕ
counted_all c [] = 0
counted_all c ((sel, sent o) ∷ attempts) = counted c o + counted_all c attempts
counted_all c ((sel, _) ∷ attempts) = counted_all c attempts

global_count_one :
    (c : Counter) (sel : Selected) (o : Outcome) (now_ms : ℕ) (s : RouterState)
    → global_count c s.stats < u64_max
    → global_count c (on_outcome sel o now_ms s).stats ≡ global_count c s.stats + counted c o
unfolding on_upstream_status on_timeout on_network_error
global_count_one of_2xx sel (answered status) now_ms s h = ground arith
global_count_one of_2xx sel (failed timeout) now_ms s h = ground arith
global_count_one of_2xx sel (failed network) now_ms s h = ground arith
global_count_one of_3xx sel (answered status) now_ms s h = ground arith
global_count_one of_3xx sel (failed timeout) now_ms s h = ground arith
global_count_one of_3xx sel (failed network) now_ms s h = ground arith
global_count_one of_4xx sel (answered status) now_ms s h = ground arith
global_count_one of_4xx sel (failed timeout) now_ms s h = ground arith
global_count_one of_4xx sel (failed network) now_ms s h = ground arith
global_count_one of_5xx sel (answered status) now_ms s h = ground arith
global_count_one of_5xx sel (failed timeout) now_ms s h = ground arith
global_count_one of_5xx sel (failed network) now_ms s h = ground arith
global_count_one of_timeout sel (answered status) now_ms s h = ground arith
global_count_one of_timeout sel (failed timeout) now_ms s h = ground arith
global_count_one of_timeout sel (failed network) now_ms s h = ground arith
global_count_one of_network sel (answered status) now_ms s h = ground arith
global_count_one of_network sel (failed timeout) now_ms s h = ground arith
global_count_one of_network sel (failed network) now_ms s h = ground arith

counted_one : (c : Counter) (o : Outcome) → counted c o ≤ 1
counted_one of_2xx (answered status) = ground arith
counted_one of_2xx (failed timeout) = omega arith
counted_one of_2xx (failed network) = omega arith
counted_one of_3xx (answered status) = ground arith
counted_one of_3xx (failed timeout) = omega arith
counted_one of_3xx (failed network) = omega arith
counted_one of_4xx (answered status) = ground arith
counted_one of_4xx (failed timeout) = omega arith
counted_one of_4xx (failed network) = omega arith
counted_one of_5xx (answered status) = ground arith
counted_one of_5xx (failed timeout) = omega arith
counted_one of_5xx (failed network) = omega arith
counted_one of_timeout (answered status) = ground arith
counted_one of_timeout (failed timeout) = omega arith
counted_one of_timeout (failed network) = omega arith
counted_one of_network (answered status) = ground arith
counted_one of_network (failed timeout) = omega arith
counted_one of_network (failed network) = omega arith

attempt-counts :
    (c : Counter) (now_ms n : ℕ) (sel : Selected) (a : Attempt) (s : RouterState)
    → global_count c s.stats < u64_max
    → global_count c (on_attempt sel a now_ms (met alone n a s)).stats
      ≡ global_count c s.stats + counted_all c ((sel, a) ∷ [])
attempt-counts c now_ms n sel bad_uri s h = omega arith
attempt-counts c now_ms n sel bad_request s h = omega arith
attempt-counts c now_ms n sel (sent o) s h =
    let one = global_count_one c sel o now_ms s h in omega (arith, one)

module _ (upstream_does : ℕ → Selected → Attempt) (model : Str) (now_ms : ℕ) where
  -- The counters of requests in the end are those in the beginning.
  abbrev KeepsRequests : Stats → Stats → Type 0
  KeepsRequests t t' =
      (t'.requests_inflight ≡ t.requests_inflight) × (t'.requests_total ≡ t.requests_total)

  attempt-KeepsRequests :
      (n : ℕ) (sel : Selected) (a : Attempt) (s : RouterState)
      → KeepsRequests s.stats (on_attempt sel a now_ms (met alone n a s)).stats
  attempt-KeepsRequests n sel bad_uri s = (refl, refl)
  attempt-KeepsRequests n sel bad_request s = (refl, refl)
  attempt-KeepsRequests n sel (sent o) s = on_outcome-requests sel o now_ms s

  forward_loop-KeepsRequests :
      (fuel retry_count : ℕ) (sel : Selected) (s : RouterState)
      → KeepsRequests s.stats (loop upstream_does alone model now_ms fuel retry_count sel s).2.stats
  unfolding forward_loop
  forward_loop-KeepsRequests zero retry_count sel s = (refl, refl)
  forward_loop-KeepsRequests (suc fuel) retry_count sel s =
      elim (round upstream_does alone model now_ms fuel retry_count sel s) [
        | inl e ↦
            let (a, b) = attempt-KeepsRequests retry_count sel e.a s in
            rw (e.result) (e.settled.inflight ∙ a, e.settled.total ∙ b)
        | inr g ↦
            let (a, b) = on_outcome-requests sel g.o now_ms s in
            let settled = select_for_model-IsSettled model now_ms (on_outcome sel g.o now_ms s) in
            let (c, d) = forward_loop-KeepsRequests fuel (retry_count + 1) g.new_sel g.left in
            let left = sym g.selected in
            rw (g.state) (
              c ∙ ap (λ p. p.1.stats.requests_inflight) left ∙ settled.inflight ∙ a,
              d ∙ ap (λ p. p.1.stats.requests_total) left ∙ settled.total ∙ b,
            )
      ]

  forward_loop-counts :
      (c : Counter) (fuel retry_count : ℕ) (sel : Selected) (s : RouterState)
      → global_count c s.stats + fuel ≤ u64_max
      → let (reply, attempts, s') = loop upstream_does alone model now_ms fuel retry_count sel s in
        global_count c s'.stats ≡ global_count c s.stats + counted_all c attempts
  unfolding forward_loop
  forward_loop-counts c zero retry_count sel s h = omega arith
  forward_loop-counts c (suc fuel) retry_count sel s h =
      elim (round upstream_does alone model now_ms fuel retry_count sel s) [
        | inl e ↦
            rw (e.result)
              (e.settled.outcomes c ∙ attempt-counts c now_ms retry_count sel e.a s (omega arith))
        | inr g ↦
            let one = global_count_one c sel g.o now_ms s (omega arith) in
            let few = counted_one c g.o in
            let settled = select_for_model-IsSettled model now_ms (on_outcome sel g.o now_ms s) in
            let left = ap (λ p. global_count c p.1.stats) (sym g.selected) ∙ settled.outcomes c in
            let rest =
              forward_loop-counts c fuel (retry_count + 1) g.new_sel g.left
                (omega (arith, left, one, few, h)) in
            rw (g.state, g.attempts) (omega (arith, rest, left, one))
      ]

-- Each of the six counters of answers (2xx, 3xx, 4xx, 5xx) and failures (timeout, network error)
-- grows by the number of attempts that ended with an outcome of its kind, as long as it is more than
-- the number of retries away from the end of its range and nobody else counts in between.
pub forward-counts :
    (c : Counter) (upstream_does : ℕ → Selected → Attempt) (model : Option Str) (now_ms : ℕ)
    (s : RouterState)
    → global_count c s.stats + suc s.max_retries ≤ u64_max
    → let (reply, attempts, s') = forward upstream_does model now_ms s in
      global_count c s'.stats ≡ global_count c s.stats + counted_all c attempts
unfolding forward_among
forward-counts c upstream_does none now_ms s h = omega arith
forward-counts c upstream_does (some model) now_ms s h =
    let settled = select_for_model-IsSettled model now_ms s in
    let same = settled.outcomes c in
    let retries = settled.max_retries in
    elim (Option-cases (select_for_model model now_ms s).0) [
      | inl e ↦ ground arith
      | inr (sel, e) ↦
          let s1 = (select_for_model model now_ms s).1 in
          let run =
            forward_loop-counts upstream_does model now_ms c (suc s1.max_retries) 0 sel s1
              (omega (arith, same, retries, h)) in
          ground (arith, run, same)
    ]

-- `forward` leaves the counters of requests alone.
pub forward-KeepsRequests :
    (upstream_does : ℕ → Selected → Attempt) (model : Option Str) (now_ms : ℕ) (s : RouterState)
    → let (reply, attempts, s') = forward upstream_does model now_ms s in
      (s'.stats.requests_inflight ≡ s.stats.requests_inflight)
      × (s'.stats.requests_total ≡ s.stats.requests_total)
unfolding forward_among
forward-KeepsRequests upstream_does none now_ms s = (refl, refl)
forward-KeepsRequests upstream_does (some model) now_ms s =
    let settled = select_for_model-IsSettled model now_ms s in
    let a = settled.inflight in
    let b = settled.total in
    elim (Option-cases (select_for_model model now_ms s).0) [
      | inl e ↦ ground (arith, a, b)
      | inr (sel, e) ↦
          let s1 = (select_for_model model now_ms s).1 in
          let run =
            forward_loop-KeepsRequests upstream_does model now_ms (suc s1.max_retries) 0 sel s1 in
          ground (arith, run, a, b)
    ]
