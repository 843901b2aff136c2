-- ===== src/Proxy/Reasons.antt =====
-- Why a request is tried again, and what the reply tells of the last attempt.
use mathlib.Core.Option.{some-injective}
use gptload_rs.Prelude.{
  ℕ, zero, suc, ◌+◌, ◌≡◌, ◌≢◌, refl, ◌∙◌, ap, sym, Bool, true, false, ◌⊎◌, Bool-cases, inl, inr,
  Option, Option-cases, none, some, List, [], ◌∷◌, arith,
}
use gptload_rs.Prelude.Text.{Str}
use gptload_rs.State.Defs.{RouterState, Selected}
use gptload_rs.State.Ban.Effects.{Outcome, answered, failed, on_outcome}
use gptload_rs.State.Select.{select_for_model, model_exists}
use gptload_rs.Proxy.Retry.{
  should_retry_status, Attempt, sent, Reply, model_required, model_not_found, model_unavailable,
  should_retry, forward_loop, alone, forward_among, forward,
}
use gptload_rs.Proxy.Rounds.{
  select_for_model-IsSettled, on_outcome-configuration, reply_of, loop, round,
}

-- Whether the code tries again after an attempt, as far as it depends on the attempt.
abbrev pub is_retried : RouterState → Attempt → Bool
is_retried s (sent o) = should_retry s o
is_retried s _ = false

-- The attempts before the last are such that the code tries again, and the reply is that of the
-- last; without an attempt, the model was missing, unknown or not available.
unfoldable pub IsExplained : RouterState → List (Selected × Attempt) → Reply → Type 0
IsExplained s [] reply =
    (reply ≡ model_required) ⊎ ((reply ≡ model_not_found) ⊎ (reply ≡ model_unavailable))
IsExplained s ((sel, a) ∷ []) reply = reply ≡ reply_of a
IsExplained s ((sel, a) ∷ b ∷ attempts) reply =
    (is_retried s a ≡ true) × IsExplained s (b ∷ attempts) reply

should_retry_same :
    (s s' : RouterState) (o : Outcome)
    → s'.retry_status_codes ≡ s.retry_status_codes
    → should_retry s' o ≡ should_retry s o
unfolding should_retry_status
should_retry_same s s' (answered status) e = ground (arith, e)
should_retry_same s s' (failed f) e = refl

IsExplained-before :
    (s : RouterState) (sel : Selected) (a : Attempt) (attempts : List (Selected × Attempt))
    (reply : Reply)
    → is_retried s a ≡ true
    → (attempts ≢ []) × IsExplained s attempts reply
    → ((sel, a) ∷ attempts ≢ []) × IsExplained s ((sel, a) ∷ attempts) reply
unfolding IsExplained
IsExplained-before s sel a [] reply h (full, e) = absurd (full refl)
IsExplained-before s sel a (b ∷ attempts) reply h (full, e) = (ground arith, (h, e))

module _ (upstream_does : ℕ → Selected → Attempt) (model : Str) (now_ms : ℕ) where
  forward_loop-IsExplained :
      (s0 : RouterState) (fuel retry_count : ℕ) (sel : Selected) (s : RouterState) (reply : Reply)
      → s.retry_status_codes ≡ s0.retry_status_codes
      → (loop upstream_does alone model now_ms fuel retry_count sel s).0 ≡ some reply
      → ((loop upstream_does alone model now_ms fuel retry_count sel s).1 ≢ [])
        × IsExplained s0 (loop upstream_does alone model now_ms fuel retry_count sel s).1 reply
  unfolding forward_loop IsExplained
  forward_loop-IsExplained s0 zero retry_count sel s reply codes e = absurd (ground (arith, e))
  forward_loop-IsExplained s0 (suc fuel) retry_count sel s reply codes e =
      elim (round upstream_does alone model now_ms fuel retry_count sel s) [
        | inl d ↦
            let same = some-injective _ _ (sym (ap (λ r. r.0) d.result) ∙ e) in
            rw (d.result) (ground arith, sym same)
        | inr g ↦
            let s1 = on_outcome sel g.o now_ms s in
            let (_, same, _) = on_outcome-configuration sel g.o now_ms s in
            let settled = select_for_model-IsSettled model now_ms s1 in
            let left = ap (λ p. p.1.retry_status_codes) (sym g.selected) ∙ settled.codes in
            let again = should_retry_same s1 s0 g.o (sym (same ∙ codes)) ∙ g.again in
            let rest =
              forward_loop-IsExplained s0 fuel (retry_count + 1) g.new_sel g.left reply
                (left ∙ same ∙ codes) (sym g.reply ∙ e) in
            rw (g.attempts) (IsExplained-before s0 sel (sent g.o) _ reply again rest)
      ]

-- The reply of `forward` is that of the last attempt, and every attempt before it got 401, 403, one
-- of the configured codes, or no answer at all; without an attempt, the reply says that the model is
-- missing, unknown or not available.
pub forward-IsExplained :
    (upstream_does : ℕ → Selected → Attempt) (model : Option Str) (now_ms : ℕ) (s : RouterState)
    (reply : Reply)
    → (forward upstream_does model now_ms s).0 ≡ some reply
    → IsExplained s (forward upstream_does model now_ms s).1 reply
unfolding forward_among IsExplained
forward-IsExplained upstream_does none now_ms s reply h = inl (sym (some-injective _ _ h))
forward-IsExplained upstream_does (some model) now_ms s reply h =
    elim (Bool-cases (model_exists model s)) [
      | inr e ↦
          let same : reply ≡ model_not_found = ground (arith, h, e) in
          let none_tried : (forward upstream_does (some model) now_ms s).1 ≡ [] =
            ground (arith, e) in
          rw none_tried (inr (inl same))
      | inl e ↦ elim (Option-cases (select_for_model model now_ms s).0) [
        | inl f ↦
            let same : reply ≡ model_unavailable = ground (arith, h, e, f) in
            let none_tried : (forward upstream_does (some model) now_ms s).1 ≡ [] =
              ground (arith, e, f) in
            rw none_tried (inr (inr same))
        | inr (sel, f) ↦
            let s1 = (select_for_model model now_ms s).1 in
            let codes = (select_for_model-IsSettled model now_ms s).codes in
            let tried : forward upstream_does (some model) now_ms s
                ≡ loop upstream_does alone model now_ms (suc s1.max_retries) 0 sel s1 =
              ground (arith, e, f) in
            let run =
              forward_loop-IsExplained upstream_does model now_ms s (suc s1.max_retries) 0 sel s1
                reply codes (sym (ap (λ r. r.0) tried) ∙ h) in
            rw tried (run.1)
      ]
    ]
