-- ===== src/Proxy/Retry.antt =====
-- `forward` of src/proxy.rs from the model on: the first selection and the loop over the upstreams.
-- What an upstream does, and whether a URI and a request can be built for it, is a parameter, and so
-- is what other requests do to the router while this one waits for an upstream.
use gptload_rs.Prelude.{
  ℕ, zero, suc, ◌+◌, Bool, true, false, ◌&&◌, ◌||◌, ◌==◌, not, Option, none, some, List, [], ◌∷◌,
  ltb, if◌then◌else◌,
}
use gptload_rs.Prelude.Text.{Str}
use gptload_rs.State.Defs.{RouterState, Selected}
use gptload_rs.State.Status.{StatusCode, has_code}
use gptload_rs.State.Ban.Backoff.{timeout, network}
use gptload_rs.State.Ban.Effects.{Outcome, answered, failed, on_outcome}
use gptload_rs.State.Select.{select_for_model, model_exists}

-- `contains` of a set of numbers.
unfoldable pub contains_code : List ℕ → ℕ → Bool
contains_code [] n = false
contains_code (c ∷ codes) n = c == n || contains_code codes n

-- `should_retry_status` of proxy.rs, around the one of state.rs.
unfoldable pub should_retry_status : RouterState → StatusCode → Bool
unfolding contains_code
should_retry_status s status =
    has_code status 401 || has_code status 403 || contains_code s.retry_status_codes status.as_u16

-- One round of the loop: `build_uri` fails, `build_upstream_request` fails, or the request is sent.
pub data Attempt : Type 0 where
  bad_uri bad_request : Attempt
  sent : Outcome → Attempt

-- The answer to the client: the upstream's, or an error of the proxy with its code.
pub data Reply : Type 0 where
  model_required model_not_found model_unavailable : Reply
  invalid_upstream_uri request_build_error : Reply
  proxied : StatusCode → Reply
  upstream_error upstream_timeout : Reply

abbrev pub reply_to : Outcome → Reply
reply_to (answered status) = proxied status
reply_to (failed network) = upstream_error
reply_to (failed timeout) = upstream_timeout

abbrev pub should_retry : RouterState → Outcome → Bool
should_retry s (answered status) = should_retry_status s status
should_retry s (failed _) = true

-- The reply, the attempts in their order and the state they leave; no reply when the fuel is spent.
abbrev pub Forwarded : Type 0
Forwarded = Option Reply × List (Selected × Attempt) × RouterState

abbrev after : Selected → Attempt → Forwarded → Forwarded
after sel a (reply, attempts, s) = (reply, (sel, a) ∷ attempts, s)

-- Nobody else changes the router.
abbrev pub alone : ℕ → RouterState → RouterState
alone retry_count s = s

-- `others` is what happens to the router during the wait of a round: answers and failures of other
-- requests, their selections, changes of the upstreams.
module _ (upstream_does : ℕ → Selected → Attempt) (others : ℕ → RouterState → RouterState)
    (model : Str) (now_ms : ℕ) where
  unfoldable pub forward_loop : ℕ → ℕ → Selected → RouterState → Forwarded
  unfolding should_retry_status
  forward_loop zero retry_count sel s = (none, [], s)
  forward_loop (suc fuel) retry_count sel s = elim (upstream_does retry_count sel) [
    | bad_uri ↦ (some invalid_upstream_uri, (sel, bad_uri) ∷ [], s)
    | bad_request ↦ (some request_build_error, (sel, bad_request) ∷ [], s)
    | sent o ↦
        let s1 = on_outcome sel o now_ms (others retry_count s) in
        elim (should_retry s1 o && ltb retry_count s1.max_retries) [
          | false ↦ (some (reply_to o), (sel, sent o) ∷ [], s1)
          | true ↦
              let (found, s2) = select_for_model model now_ms s1 in
              elim found [
                | none ↦ (some (reply_to o), (sel, sent o) ∷ [], s2)
                | some new_sel ↦ after sel (sent o) (forward_loop fuel (retry_count + 1) new_sel s2)
              ]
        ]
  ]

-- `forward` after the body has been read; `max_retries + 1` rounds are enough fuel.
unfoldable pub forward_among :
    (ℕ → Selected → Attempt)
    → (ℕ → RouterState → RouterState)
    → Option Str
    → ℕ
    → RouterState
    → Forwarded
unfolding forward_loop model_exists select_for_model
forward_among upstream_does others none now_ms s = (some model_required, [], s)
forward_among upstream_does others (some model) now_ms s =
    if not (model_exists model s)
    then (some model_not_found, [], s)
    else let (found, s1) = select_for_model model now_ms s in
      elim found [
        | none ↦ (some model_unavailable, [], s1)
        | some sel ↦ forward_loop upstream_does others model now_ms (suc s1.max_retries) 0 sel s1
      ]

-- A request by itself.
abbrev pub forward : (ℕ → Selected → Attempt) → Option Str → ℕ → RouterState → Forwarded
forward upstream_does model now_ms s = forward_among upstream_does alone model now_ms s
