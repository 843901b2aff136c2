-- ===== src/Proxy/Rounds.antt =====
-- A round of the loop of `forward`: it ends the loop, or another follows. What a selection leaves alone.
use gptload_rs.Prelude.{
  ℕ, zero, suc, ◌+◌, ◌≤◌, ◌<◌, ◌≡◌, refl, ◌∙◌, Bool, true, false, ◌&&◌, ◌==◌, ◌⊎◌, Bool-cases, inl,
  inr, Option, Option-cases, none, some, List, [], ◌∷◌, length, ltb, if◌then◌else◌, arith,
}
use gptload_rs.Prelude.Words.{add64}
use gptload_rs.Prelude.Text.{Str}
use gptload_rs.State.Defs.{Upstream, RouterSnapshot, RouterState, Selected, upstream_cell}
use gptload_rs.State.Ban.{on_upstream_status, on_timeout, on_network_error}
use gptload_rs.State.Ban.Backoff.{timeout, network}
use gptload_rs.State.Ban.Effects.{
  Outcome, answered, failed, on_outcome, Counter, of_2xx, of_3xx, of_4xx, of_5xx, of_timeout,
  of_network, global_count,
}
use gptload_rs.State.Select.{
  scheduled, visit, select_loop, select_where, select_for_model, has_model,
}
use gptload_rs.Proxy.Retry.{
  Attempt, bad_uri, bad_request, sent, Reply, invalid_upstream_uri, request_build_error, reply_to,
  should_retry, Forwarded, forward_loop,
}

-- What a selection leaves alone, besides the keys and the models: the configuration, the cooldowns
-- and the counters of the outcomes.
pub record IsSettled (s s' : RouterState) : Type 0 where
  pub max_retries : s'.max_retries ≡ s.max_retries
  pub codes : s'.retry_status_codes ≡ s.retry_status_codes
  pub ban : s'.ban ≡ s.ban
  pub inflight : s'.stats.requests_inflight ≡ s.stats.requests_inflight
  pub total : s'.stats.requests_total ≡ s.stats.requests_total
  pub outcomes : (c : Counter) → global_count c s'.stats ≡ global_count c s.stats
  pub cooldown :
      (u : Upstream)
      → (upstream_cell s' u).cooldown_until_ms ≡ (upstream_cell s u).cooldown_until_ms

IsSettled-∙ : (s s' s'' : RouterState) → IsSettled s s' → IsSettled s' s'' → IsSettled s s''
IsSettled-∙ s s' s'' a b = record {
  max_retries = b.max_retries ∙ a.max_retries;
  codes = b.codes ∙ a.codes;
  ban = b.ban ∙ a.ban;
  inflight = b.inflight ∙ a.inflight;
  total = b.total ∙ a.total;
  outcomes = λ c. b.outcomes c ∙ a.outcomes c;
  cooldown = λ u. b.cooldown u ∙ a.cooldown u;
}

IsSettled-same : (s : RouterState) → IsSettled s s
IsSettled-same s = record {
  max_retries = refl;
  codes = refl;
  ban = refl;
  inflight = refl;
  total = refl;
  outcomes = λ c. refl;
  cooldown = λ u. refl;
}

visit-counts :
    (wanted : List Str → Bool) (now_ms : ℕ) (u : Upstream) (s : RouterState) (c : Counter)
    → global_count c (visit wanted now_ms u s).1.stats ≡ global_count c s.stats
unfolding visit
visit-counts wanted now_ms u s of_2xx = ground arith
visit-counts wanted now_ms u s of_3xx = ground arith
visit-counts wanted now_ms u s of_4xx = ground arith
visit-counts wanted now_ms u s of_5xx = ground arith
visit-counts wanted now_ms u s of_timeout = ground arith
visit-counts wanted now_ms u s of_network = ground arith

visit-IsSettled :
    (wanted : List Str → Bool) (now_ms : ℕ) (u : Upstream) (s : RouterState)
    → IsSettled s (visit wanted now_ms u s).1
unfolding visit
visit-IsSettled wanted now_ms u s = record {
  max_retries = ground arith;
  codes = ground arith;
  ban = ground arith;
  inflight = ground arith;
  total = ground arith;
  outcomes = λ c. visit-counts wanted now_ms u s c;
  cooldown = λ v. ground arith;
}

advance-IsSettled : (s : RouterState) → IsSettled s (record s { sched_rr = add64 s.sched_rr 1 })
advance-IsSettled s = record {
  max_retries = refl;
  codes = refl;
  ban = refl;
  inflight = refl;
  total = refl;
  outcomes = λ c. refl;
  cooldown = λ u. refl;
}

-- A selection, and the state after it; one that goes on by cases.
abbrev Selecting : Type 0
Selecting = Option Selected × RouterState

by_cases :
    {A : Type 0} (m : Option A) (s : RouterState) (x : Selecting) (f : A → Selecting)
    → IsSettled s x.1
    → ((a : A) → IsSettled s (f a).1)
    → IsSettled s (elim m as (λ _. Selecting) [ none ↦ x | some a ↦ f a ]).1
by_cases none s x f a b = a
by_cases (some c) s x f a b = b c

by_test :
    (c : Bool) (s : RouterState) (x y : Selecting)
    → IsSettled s x.1
    → IsSettled s y.1
    → IsSettled s (if c then x else y).1
by_test true s x y a b = a
by_test false s x y a b = b

select_loop-IsSettled :
    (wanted : List Str → Bool) (snap : RouterSnapshot) (now_ms rounds : ℕ) (s : RouterState)
    → IsSettled s (select_loop wanted snap now_ms rounds s).1
unfolding select_loop
select_loop-IsSettled wanted snap now_ms zero s = IsSettled-same s
select_loop-IsSettled wanted snap now_ms (suc rounds) s =
    let s1 = record s { sched_rr = add64 s.sched_rr 1 } in
    by_cases (scheduled snap s.sched_rr) s (none, s1) _ (advance-IsSettled s)
      (λ u.
        let s2 = (visit wanted now_ms u s1).1 in
        let a = IsSettled-∙ s s1 s2 (advance-IsSettled s) (visit-IsSettled wanted now_ms u s1) in
        let b = select_loop-IsSettled wanted snap now_ms rounds s2 in
        by_cases (visit wanted now_ms u s1).0 s (select_loop wanted snap now_ms rounds s2)
          (λ sel. (some sel, s2)) (IsSettled-∙ s s2 _ a b) (λ _. a))

pub select_for_model-IsSettled :
    (model : Str) (now_ms : ℕ) (s : RouterState) → IsSettled s (select_for_model model now_ms s).1
unfolding select_for_model select_where
select_for_model-IsSettled model now_ms s =
    let n = length s.snapshot.schedule in
    by_test (n == 0) s (none, s) (select_loop (has_model model) s.snapshot now_ms n s)
      (IsSettled-same s) (select_loop-IsSettled (has_model model) s.snapshot now_ms n s)

pub on_outcome-configuration :
    (sel : Selected) (o : Outcome) (now_ms : ℕ) (s : RouterState)
    → let s' = on_outcome sel o now_ms s in
      (s'.max_retries ≡ s.max_retries)
      × (s'.retry_status_codes ≡ s.retry_status_codes)
      × (s'.ban ≡ s.ban)
unfolding on_upstream_status on_timeout on_network_error
on_outcome-configuration sel (answered status) now_ms s = ground arith
on_outcome-configuration sel (failed timeout) now_ms s = ground arith
on_outcome-configuration sel (failed network) now_ms s = ground arith

both : (b : Bool) (m n : ℕ) → b && ltb m n ≡ true → (b ≡ true) × (m < n)
both b m n e = ground (arith, e)

not_both : (P : Type 0) (b : Bool) (m n : ℕ) → b && ltb m n ≡ false → (b ≡ false) ⊎ ((n ≤ m) ⊎ P)
not_both P true m n e = inr (inl (ground (arith, e)))
not_both P false m n e = inl refl

abbrev pub reply_of : Attempt → Reply
reply_of bad_uri = invalid_upstream_uri
reply_of bad_request = request_build_error
reply_of (sent o) = reply_to o

-- What an attempt does to the state.
abbrev pub on_attempt : Selected → Attempt → ℕ → RouterState → RouterState
on_attempt sel (sent o) now_ms s = on_outcome sel o now_ms s
on_attempt sel _ now_ms s = s

-- The state in which an attempt ends: others may have changed it while the attempt waited.
abbrev pub met : (ℕ → RouterState → RouterState) → ℕ → Attempt → RouterState → RouterState
met others retry_count (sent o) s = others retry_count s
met others retry_count _ s = s

module _ (upstream_does : ℕ → Selected → Attempt) (others : ℕ → RouterState → RouterState)
    (model : Str) (now_ms : ℕ) where
  abbrev pub loop : ℕ → ℕ → Selected → RouterState → Forwarded
  loop = forward_loop upstream_does others model now_ms

  -- Why a request is not tried again after an attempt, in the state that the attempt leaves.
  abbrev pub GivesUp : ℕ → Attempt → RouterState → Type 0
  GivesUp retry_count (sent o) s =
      (should_retry s o ≡ false)
      ⊎ ((s.max_retries ≤ retry_count) ⊎ ((select_for_model model now_ms s).0 ≡ none))
  GivesUp retry_count _ s = Unit

  -- A round ends the loop ...
  pub record Ends (retry_count : ℕ) (sel : Selected) (s : RouterState) (r : Forwarded)
      : Type 0 where
    pub a : Attempt
    pub left : RouterState
    pub result : r ≡ (some (reply_of a), (sel, a) ∷ [], left)
    pub settled : IsSettled (on_attempt sel a now_ms (met others retry_count a s)) left
    pub why : GivesUp retry_count a (on_attempt sel a now_ms (met others retry_count a s))

  -- ... or another follows.
  pub record GoesOn (fuel retry_count : ℕ) (sel : Selected) (s : RouterState) (r : Forwarded)
      : Type 0 where
    pub o : Outcome
    pub new_sel : Selected
    pub left : RouterState
    pub again : should_retry (on_outcome sel o now_ms (others retry_count s)) o ≡ true
    pub below : retry_count < (on_outcome sel o now_ms (others retry_count s)).max_retries
    pub selected :
        select_for_model model now_ms (on_outcome sel o now_ms (others retry_count s))
        ≡ (some new_sel, left)
    pub reply : r.0 ≡ (loop fuel (retry_count + 1) new_sel left).0
    pub attempts : r.1 ≡ (sel, sent o) ∷ (loop fuel (retry_count + 1) new_sel left).1
    pub state : r.2 ≡ (loop fuel (retry_count + 1) new_sel left).2

  by_attempt :
      (fuel retry_count : ℕ) (sel : Selected) (s : RouterState) (a : Attempt)
      → upstream_does retry_count sel ≡ a
      → Ends retry_count sel s (loop (suc fuel) retry_count sel s)
        ⊎ GoesOn fuel retry_count sel s (loop (suc fuel) retry_count sel s)
  unfolding forward_loop
  by_attempt fuel retry_count sel s bad_uri e = inl (record {
    a = bad_uri;
    left = s;
    result = ground (arith, e);
    settled = IsSettled-same s;
    why = tt;
  })
  by_attempt fuel retry_count sel s bad_request e = inl (record {
    a = bad_request;
    left = s;
    result = ground (arith, e);
    settled = IsSettled-same s;
    why = tt;
  })
  by_attempt fuel retry_count sel s (sent o) e =
      let s1 = on_outcome sel o now_ms (others retry_count s) in
      elim (Bool-cases (should_retry s1 o && ltb retry_count s1.max_retries)) [
        | inl again ↦ elim (Option-cases (select_for_model model now_ms s1).0) [
          | inl none_left ↦ inl (record {
            a = sent o;
            left = (select_for_model model now_ms s1).1;
            result = ground (arith, e, again, none_left);
            settled = select_for_model-IsSettled model now_ms s1;
            why = inr (inr none_left);
          })
          | inr (new_sel, f) ↦ inr (record {
            o = o;
            new_sel = new_sel;
            left = (select_for_model model now_ms s1).1;
            again = (both _ _ _ again).0;
            below = (both _ _ _ again).1;
            selected = ground (arith, f);
            reply = ground (arith, e, again, f);
            attempts = ground (arith, e, again, f);
            state = ground (arith, e, again, f);
          })
        ]
        | inr enough ↦ inl (record {
          a = sent o;
          left = s1;
          result = ground (arith, e, enough);
          settled = IsSettled-same s1;
          why = not_both _ _ _ _ enough;
        })
      ]

  pub round :
      (fuel retry_count : ℕ) (sel : Selected) (s : RouterState)
      → Ends retry_count sel s (loop (suc fuel) retry_count sel s)
        ⊎ GoesOn fuel retry_count sel s (loop (suc fuel) retry_count sel s)
  round fuel retry_count sel s =
      by_attempt fuel retry_count sel s (upstream_does retry_count sel) refl

pub on_outcome-requests :
    (sel : Selected) (o : Outcome) (now_ms : ℕ) (s : RouterState)
    → let s' = on_outcome sel o now_ms s in
      (s'.stats.requests_inflight ≡ s.stats.requests_inflight)
      × (s'.stats.requests_total ≡ s.stats.requests_total)
unfolding on_upstream_status on_timeout on_network_error
on_outcome-requests sel (answered status) now_ms s = ground arith
on_outcome-requests sel (failed timeout) now_ms s = ground arith
on_outcome-requests sel (failed network) now_ms s = ground arith
