-- ===== src/Proxy/Attempts.antt =====
-- How often a request is tried, why it is tried again, and where.
use gptload_rs.Prelude.{
  ℕ, zero, suc, ◌+◌, ◌≤◌, ◌<◌, ◌≡◌, ◌≢◌, ◌∙◌, ap, sym, inl, inr, Option, Option-cases, none, some,
  length, arith,
}
use gptload_rs.Prelude.Text.{Str}
use gptload_rs.State.Defs.{RouterState, Selected}
use gptload_rs.State.Ban.Effects.{on_outcome}
use gptload_rs.State.Select.{select_for_model}
use gptload_rs.Proxy.Retry.{Attempt, Forwarded, alone, forward_among, forward}
use gptload_rs.Proxy.Rounds.{select_for_model-IsSettled, on_outcome-configuration, loop, round}

module _ (upstream_does : ℕ → Selected → Attempt) (model : Str) (now_ms : ℕ) where
  -- There is a reply, after no more attempts than the configuration allows.
  abbrev Replies : ℕ → ℕ → Forwarded → Type 0
  Replies retries tried r = (r.0 ≢ none) × (length r.1 + tried ≤ suc retries)

  forward_loop-Replies :
      (fuel retry_count : ℕ) (sel : Selected) (s : RouterState)
      → retry_count ≤ s.max_retries
      → s.max_retries < fuel + retry_count
      → Replies s.max_retries retry_count
          (loop upstream_does alone model now_ms fuel retry_count sel s)
  forward_loop-Replies zero retry_count sel s h f = omega arith
  forward_loop-Replies (suc fuel) retry_count sel s h f =
      elim (round upstream_does alone model now_ms fuel retry_count sel s) [
        | inl e ↦ rw (e.result) (ground arith)
        | inr g ↦
            let (m, _, _) = on_outcome-configuration sel g.o now_ms s in
            let m2 =
              (select_for_model-IsSettled model now_ms (on_outcome sel g.o now_ms s)).max_retries in
            let kept : g.left.max_retries ≡ s.max_retries =
              ap (λ p. p.1.max_retries) (sym g.selected) ∙ m2 ∙ m in
            let below = g.below in
            let (some_reply, few) =
              forward_loop-Replies fuel (retry_count + 1) g.new_sel g.left (omega arith)
                (omega arith) in
            (rw (g.reply) some_reply, rw (g.attempts) (omega arith))
      ]

-- `forward` answers every request, and tries it at most `max_retries + 1` times.
pub forward-answers :
    (upstream_does : ℕ → Selected → Attempt) (model : Option Str) (now_ms : ℕ) (s : RouterState)
    → let (reply, attempts, s') = forward upstream_does model now_ms s in
      (reply ≢ none) × (length attempts ≤ suc s.max_retries)
unfolding forward_among
forward-answers upstream_does none now_ms s = ground arith
forward-answers upstream_does (some model) now_ms s =
    elim (Option-cases (select_for_model model now_ms s).0) [
      | inl e ↦ ground arith
      | inr (sel, e) ↦
          let s1 = (select_for_model model now_ms s).1 in
          let m = (select_for_model-IsSettled model now_ms s).max_retries in
          let run =
            forward_loop-Replies upstream_does model now_ms (suc s1.max_retries) 0 sel s1
              (omega arith) (omega arith) in
          ground (arith, run)
    ]
