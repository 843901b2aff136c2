-- ===== src/Proxy/Failures.antt =====
-- An upstream that failed is not tried again for the same request.
use native.Mathlib.Nat.{mul-le-mul_left}
use gptload_rs.Prelude.{
  ℕ, zero, suc, ◌+◌, ◌*◌, ◌≤◌, ◌<◌, ◌^◌, ◌≡◌, ◌≢◌, refl, ◌∙◌, ap, sym, subst, Bool, false, ◌||◌,
  ◌==◌, inl, inr, Option, Option-cases, none, some, List, [], ◌∷◌, arith, min,
}
use gptload_rs.Prelude.Words.{u64_max, add32, sub32, two_pow_pos, saturating_add, saturating_mul}
use gptload_rs.Prelude.Text.{Str}
use gptload_rs.State.Defs.{Upstream, RouterState, Selected, upstream_cell}
use gptload_rs.State.Ban.{on_upstream_status, on_timeout, on_network_error, ban_until}
use gptload_rs.State.Ban.Backoff.{Failure, timeout, network}
use gptload_rs.State.Ban.Effects.{Outcome, answered, failed, on_outcome}
use gptload_rs.State.Select.{select_for_model}
use gptload_rs.State.Snapshot.Uses.{select_for_model_sound}
use gptload_rs.Proxy.Retry.{
  Attempt, bad_uri, bad_request, sent, Forwarded, forward_loop, forward_among,
}
use gptload_rs.Proxy.Rounds.{
  select_for_model-IsSettled, on_outcome-configuration, loop, GoesOn, round,
}

-- Whether an upstream is tried again after a failure without an answer. An upstream is known by its
-- cell.
unfoldable pub tries : ℕ → List (Selected × Attempt) → Bool
tries cell [] = false
tries cell ((sel, a) ∷ attempts) = sel.upstream.cell == cell || tries cell attempts

unfoldable pub tries_failed_again : List (Selected × Attempt) → Bool
unfolding tries
tries_failed_again [] = false
tries_failed_again ((sel, sent (failed f)) ∷ attempts) =
    tries sel.upstream.cell attempts || tries_failed_again attempts
tries_failed_again ((sel, sent (answered status)) ∷ attempts) = tries_failed_again attempts
tries_failed_again ((sel, bad_uri) ∷ attempts) = tries_failed_again attempts
tries_failed_again ((sel, bad_request) ∷ attempts) = tries_failed_again attempts

later_lem :
    (base mult now_ms : ℕ)
    → 0 < base
    → 0 < mult
    → now_ms < u64_max
    → now_ms < saturating_add now_ms (saturating_mul base mult)
later_lem base mult now_ms h p g =
    let once : base * 1 ≤ base * mult = mul-le-mul_left base p in omega arith

ban_until-later :
    (s : RouterState) (streak base_ms now_ms : ℕ)
    → 0 < base_ms
    → now_ms < u64_max
    → now_ms < ban_until s streak base_ms now_ms
unfolding ban_until
ban_until-later s streak base_ms now_ms h g =
    let pow = min (sub32 (add32 streak 1) 1) (min s.ban.max_backoff_pow 30) in
    later_lem base_ms (2 ^ pow) now_ms h (two_pow_pos pow) g

-- The cooldown of an upstream's cell.
abbrev pub cooldown_at : RouterState → ℕ → ℕ
cooldown_at s cell = (s.memory.upstream_at cell).cooldown_until_ms

failed-cooldown :
    (sel : Selected) (f : Failure) (now_ms : ℕ) (s : RouterState)
    → 0 < s.ban.network_error_ms
    → now_ms < u64_max
    → now_ms < cooldown_at (on_outcome sel (failed f) now_ms s) sel.upstream.cell
unfolding on_timeout on_network_error
failed-cooldown sel timeout now_ms s h g =
    let later =
      ban_until-later s (upstream_cell s sel.upstream).fail_streak s.ban.network_error_ms now_ms h
        g in
    ground (arith, later)
failed-cooldown sel network now_ms s h g =
    let later =
      ban_until-later s (upstream_cell s sel.upstream).fail_streak s.ban.network_error_ms now_ms h
        g in
    ground (arith, later)

on_outcome-others :
    (sel : Selected) (o : Outcome) (now_ms cell : ℕ) (s : RouterState)
    → sel.upstream.cell ≢ cell
    → cooldown_at (on_outcome sel o now_ms s) cell ≡ cooldown_at s cell
unfolding on_timeout on_network_error on_upstream_status
on_outcome-others sel (answered status) now_ms cell s h = ground arith
on_outcome-others sel (failed timeout) now_ms cell s h = ground arith
on_outcome-others sel (failed network) now_ms cell s h = ground arith

last-tries_failed_again :
    (sel : Selected) (a : Attempt) → tries_failed_again ((sel, a) ∷ []) ≡ false
unfolding tries_failed_again tries
last-tries_failed_again sel bad_uri = refl
last-tries_failed_again sel bad_request = refl
last-tries_failed_again sel (sent (answered status)) = refl
last-tries_failed_again sel (sent (failed f)) = refl

after-tries_failed_again :
    (sel : Selected) (o : Outcome) (attempts : List (Selected × Attempt))
    → tries_failed_again attempts ≡ false
    → ((f : Failure) → o ≡ failed f → tries sel.upstream.cell attempts ≡ false)
    → tries_failed_again ((sel, sent o) ∷ attempts) ≡ false
unfolding tries_failed_again
after-tries_failed_again sel (answered status) attempts h avoids = h
after-tries_failed_again sel (failed f) attempts h avoids = ground (arith, h, avoids f refl)

-- What others do while a request waits ends no cooldown that lasts past the request's reading of the
-- clock, and leaves the configuration alone.
pub record KeepsCooldowns (now_ms : ℕ) (others : ℕ → RouterState → RouterState) : Type 0 where
  pub ban : (n : ℕ) (s : RouterState) → (others n s).ban ≡ s.ban
  pub down :
      (n cell : ℕ) (s : RouterState)
      → now_ms < cooldown_at s cell
      → now_ms < cooldown_at (others n s) cell

module _ (upstream_does : ℕ → Selected → Attempt) (others : ℕ → RouterState → RouterState)
    (model : Str) (now_ms : ℕ) (kept : KeepsCooldowns now_ms others) where
  -- What a round that goes on says of the cells of the two selections.
  new_sel-up :
      {fuel retry_count : ℕ} {sel : Selected} {s : RouterState} {r : Forwarded}
      → (g : GoesOn upstream_does others model now_ms fuel retry_count sel s r)
      → cooldown_at (on_outcome sel g.o now_ms (others retry_count s)) g.new_sel.upstream.cell
        ≤ now_ms
  new_sel-up {retry_count} {sel} {s} g =
      (select_for_model_sound model now_ms (on_outcome sel g.o now_ms (others retry_count s))
        {sel = g.new_sel} (ap (λ p. p.0) g.selected)).up

  left-cooldown :
      {fuel retry_count : ℕ} {sel : Selected} {s : RouterState} {r : Forwarded}
      → (g : GoesOn upstream_does others model now_ms fuel retry_count sel s r) (u : Upstream)
      → cooldown_at g.left u.cell
        ≡ cooldown_at (on_outcome sel g.o now_ms (others retry_count s)) u.cell
  left-cooldown {retry_count} {sel} {s} g u =
      let settled =
        select_for_model-IsSettled model now_ms
          (on_outcome sel g.o now_ms (others retry_count s)) in
      ap (λ p. cooldown_at p.1 u.cell) (sym g.selected) ∙ settled.cooldown u

  -- A cell that is cooling down is not tried.
  forward_loop-avoids :
      (fuel retry_count : ℕ) (sel : Selected) (s : RouterState) (u : Upstream)
      → sel.upstream.cell ≢ u.cell
      → now_ms < cooldown_at s u.cell
      → tries u.cell (loop upstream_does others model now_ms fuel retry_count sel s).1 ≡ false
  unfolding tries forward_loop
  forward_loop-avoids zero retry_count sel s u other down = refl
  forward_loop-avoids (suc fuel) retry_count sel s u other down =
      elim (round upstream_does others model now_ms fuel retry_count sel s) [
        | inl e ↦ rw (e.result) (ground arith)
        | inr g ↦
            let m = others retry_count s in
            let still = kept.down retry_count u.cell s down in
            let same = on_outcome-others sel g.o now_ms u.cell m other in
            let left = left-cooldown g u in
            let up = new_sel-up g in
            let moved : g.new_sel.upstream.cell ≢ u.cell = λ e.
              let at = ap (cooldown_at (on_outcome sel g.o now_ms m)) e in
              omega (arith, at, same, up, still) in
            let rest =
              forward_loop-avoids fuel (retry_count + 1) g.new_sel g.left u moved
                (omega (arith, same, left, still)) in
            rw (g.attempts) (ground (arith, rest, other))
      ]

  failed-avoids :
      {fuel retry_count : ℕ} {sel : Selected} {s : RouterState} {r : Forwarded}
      → (g : GoesOn upstream_does others model now_ms fuel retry_count sel s r)
      → 0 < s.ban.network_error_ms
      → now_ms < u64_max
      → (f : Failure) → g.o ≡ failed f
      → tries sel.upstream.cell
          (loop upstream_does others model now_ms fuel (retry_count + 1) g.new_sel g.left).1
        ≡ false
  failed-avoids {fuel} {retry_count} {sel} {s} g h l f e =
      let m = others retry_count s in
      let ms = ap (λ b. b.network_error_ms) (kept.ban retry_count s) in
      let down : now_ms < cooldown_at (on_outcome sel g.o now_ms m) sel.upstream.cell =
        subst (λ o. now_ms < cooldown_at (on_outcome sel o now_ms m) sel.upstream.cell) (sym e)
          (failed-cooldown sel f now_ms m (omega (arith, ms, h)) l) in
      let up = new_sel-up g in
      let left = left-cooldown g sel.upstream in
      let moved : g.new_sel.upstream.cell ≢ sel.upstream.cell = λ e.
        let at = ap (cooldown_at (on_outcome sel g.o now_ms m)) e in omega (arith, at, up, down) in
      forward_loop-avoids fuel (retry_count + 1) g.new_sel g.left sel.upstream moved
        (omega (arith, left, down))

  -- The invariant of the loop: what follows a failed attempt avoids its upstream.
  forward_loop-tries_failed_again :
      (fuel retry_count : ℕ) (sel : Selected) (s : RouterState)
      → 0 < s.ban.network_error_ms
      → now_ms < u64_max
      → tries_failed_again (loop upstream_does others model now_ms fuel retry_count sel s).1 ≡ false
  unfolding tries_failed_again forward_loop
  forward_loop-tries_failed_again zero retry_count sel s h l = refl
  forward_loop-tries_failed_again (suc fuel) retry_count sel s h l =
      elim (round upstream_does others model now_ms fuel retry_count sel s) [
        | inl e ↦ rw (e.result) (last-tries_failed_again sel e.a)
        | inr g ↦
            let m = others retry_count s in
            let (_, _, same) = on_outcome-configuration sel g.o now_ms m in
            let settled = select_for_model-IsSettled model now_ms (on_outcome sel g.o now_ms m) in
            let ban : g.left.ban ≡ s.ban =
              ap (λ p. p.1.ban) (sym g.selected) ∙ settled.ban ∙ same ∙ kept.ban retry_count s in
            let ms = ap (λ b. b.network_error_ms) ban in
            let rest =
              forward_loop-tries_failed_again fuel (retry_count + 1) g.new_sel g.left
                (omega (arith, ms, h)) l in
            rw (g.attempts) (
              after-tries_failed_again sel g.o
                (loop upstream_does others model now_ms fuel (retry_count + 1) g.new_sel g.left).1
                rest (failed-avoids g h l))
      ]

-- An upstream that has timed out or failed to connect is not tried again for the same request,
-- whatever other requests do to the router while this one waits, as long as they end no cooldown
-- that is still running and leave the configuration alone, `network_error_ms` is not 0 and the
-- clock is not at the end of its range. An upstream is known by its cell: one that a change of the
-- upstreams has built anew counts as another.
pub forward-leaves_failed :
    (upstream_does : ℕ → Selected → Attempt) (others : ℕ → RouterState → RouterState)
    (model : Option Str) (now_ms : ℕ) (s : RouterState)
    → KeepsCooldowns now_ms others
    → 0 < s.ban.network_error_ms
    → now_ms < u64_max
    → tries_failed_again (forward_among upstream_does others model now_ms s).1 ≡ false
unfolding forward_among tries_failed_again
forward-leaves_failed upstream_does others none now_ms s kept h l = refl
forward-leaves_failed upstream_does others (some model) now_ms s kept h l =
    elim (Option-cases (select_for_model model now_ms s).0) [
      | inl e ↦ ground arith
      | inr (sel, e) ↦
          let s1 = (select_for_model model now_ms s).1 in
          let ms = ap (λ b. b.network_error_ms) (select_for_model-IsSettled model now_ms s).ban in
          let run =
            forward_loop-tries_failed_again upstream_does others model now_ms kept
              (suc s1.max_retries) 0 sel s1 (omega (arith, ms, h)) l in
          ground (arith, run)
    ]
