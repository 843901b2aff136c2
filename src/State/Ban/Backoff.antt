-- ===== src/State/Ban/Backoff.antt =====
-- How the cooldowns of keys and upstreams grow, and what an answer leaves alone.
use native.Mathlib.Nat.{mul-le-mul_left, le-mul_of_pos_right, two-pow-succ}
use gptload_rs.Prelude.{
  ap, Bool-cases, inl, inr, ltb, List, [], ◌∷◌, ◌∙◌, length, ◌-◌, ◌%◌, ℕ, suc, ◌+◌, ◌*◌, ◌^◌, ◌≤◌,
  ◌<◌, min, ◌≡◌, refl, true, false, if◌then◌else◌, arith,
}
use gptload_rs.Prelude.Words.{
  u64_max, add32, saturating_add, saturating_mul, two_pow_pos, two_pow-le,
}
use gptload_rs.State.Defs.{RouterState, Selected, upstream_cell, key_cell}
use gptload_rs.State.Status.{StatusCode, is_server_error, has_code}
use gptload_rs.State.Ban.{ban_until, on_upstream_status, on_timeout, on_network_error}

-- The exponent after `n` earlier failures.
abbrev pub backoff_pow : RouterState → ℕ → ℕ
backoff_pow s n = min n (min s.ban.max_backoff_pow 30)

-- The documented end of a cooldown after `n` earlier failures in a row.
abbrev pub backoff : RouterState → ℕ → ℕ → ℕ → ℕ
backoff s n base_ms now_ms = saturating_add now_ms (saturating_mul base_ms (2 ^ backoff_pow s n))

pub ban_until-eq-backoff :
    (s : RouterState) (n base_ms now_ms : ℕ)
    → n < 2 ^ 32
    → ban_until s n base_ms now_ms ≡ backoff s n base_ms now_ms
unfolding ban_until
ban_until-eq-backoff s n base_ms now_ms h =
    let same : (add32 n 1 + 2 ^ 32 - 1) % 2 ^ 32 ≡ n = omega arith in rw same

-- Repeated answers with one status, at the given times.
abbrev pub answers : Selected → StatusCode → List ℕ → RouterState → RouterState
answers sel status [] s = s
answers sel status (now_ms ∷ times) s =
    answers sel status times (on_upstream_status sel status now_ms s)

on_upstream_status-429 :
    (sel : Selected) (status : StatusCode) (now_ms : ℕ) (s : RouterState)
    → has_code status 429 ≡ true
    → let s' = on_upstream_status sel status now_ms s in
      ((key_cell s' sel.key).fail_streak ≡ add32 (key_cell s sel.key).fail_streak 1)
      × ((key_cell s' sel.key).cooldown_until_ms
          ≡ ban_until s (key_cell s sel.key).fail_streak s.ban.rate_limit_ms now_ms)
      × (s'.ban ≡ s.ban)
unfolding on_upstream_status
on_upstream_status-429 sel status now_ms s h = ground arith

answers-429 :
    (sel : Selected) (status : StatusCode) (times : List ℕ) (s : RouterState)
    → has_code status 429 ≡ true
    → (key_cell s sel.key).fail_streak + length times < 2 ^ 32
    → let s' = answers sel status times s in
      ((key_cell s' sel.key).fail_streak ≡ (key_cell s sel.key).fail_streak + length times)
      × (s'.ban ≡ s.ban)
answers-429 sel status [] s h room = (omega arith, refl)
answers-429 sel status (t ∷ times) s h room =
    let (streak, _, ban) = on_upstream_status-429 sel status t s h in
    let s1 = on_upstream_status sel status t s in
    let (streak', ban') = answers-429 sel status times s1 h (omega arith) in
    (omega arith, ban' ∙ ban)

-- A run of 429 answers on one selection, the last one at `now_ms`: the key's streak has grown by
-- one for each, and the key is banned from `now_ms` on for `rate_limit_ms` doubled once for each
-- earlier failure of the streak, up to the cap. The streak must not reach 2 ^ 32.
pub rate_limited_backoff :
    (sel : Selected) (status : StatusCode) (times : List ℕ) (now_ms : ℕ) (s : RouterState)
    → has_code status 429 ≡ true
    → (key_cell s sel.key).fail_streak + length times + 1 < 2 ^ 32
    → let streak = (key_cell s sel.key).fail_streak + length times in
      let s' = on_upstream_status sel status now_ms (answers sel status times s) in
      ((key_cell s' sel.key).fail_streak ≡ streak + 1)
      × ((key_cell s' sel.key).cooldown_until_ms ≡ backoff s streak s.ban.rate_limit_ms now_ms)
rate_limited_backoff sel status times now_ms s h room =
    let (streak, ban) = answers-429 sel status times s h (omega arith) in
    let s1 = answers sel status times s in
    let (grown, until, _) = on_upstream_status-429 sel status now_ms s1 h in
    let n = (key_cell s sel.key).fail_streak + length times in
    (
      omega arith,
      until ∙ ban_until-eq-backoff s1 _ s1.ban.rate_limit_ms now_ms (omega arith) ∙ (λ i.
          saturating_add now_ms (
            saturating_mul (ban i).rate_limit_ms
              (2 ^ min (streak i) (min (ban i).max_backoff_pow 30)))),
    )

-- The way an attempt fails without an answer.
pub data Failure : Type 0 where
  timeout network : Failure

abbrev pub on_failure : Selected → Failure → ℕ → RouterState → RouterState
on_failure sel timeout = on_timeout sel
on_failure sel network = on_network_error sel

-- Repeated failures at the given times.
abbrev pub failures : Selected → List (Failure × ℕ) → RouterState → RouterState
failures sel [] s = s
failures sel ((f, now_ms) ∷ rest) s = failures sel rest (on_failure sel f now_ms s)

on_failure-streak :
    (sel : Selected) (f : Failure) (now_ms : ℕ) (s : RouterState)
    → let s' = on_failure sel f now_ms s in
      ((upstream_cell s' sel.upstream).fail_streak
        ≡ add32 (upstream_cell s sel.upstream).fail_streak 1)
      × ((upstream_cell s' sel.upstream).cooldown_until_ms
          ≡ ban_until s (upstream_cell s sel.upstream).fail_streak s.ban.network_error_ms now_ms)
      × (s'.ban ≡ s.ban)
unfolding on_timeout on_network_error
on_failure-streak sel timeout now_ms s = ground arith
on_failure-streak sel network now_ms s = ground arith

failures-streak :
    (sel : Selected) (fs : List (Failure × ℕ)) (s : RouterState)
    → (upstream_cell s sel.upstream).fail_streak + length fs < 2 ^ 32
    → let s' = failures sel fs s in
      ((upstream_cell s' sel.upstream).fail_streak
        ≡ (upstream_cell s sel.upstream).fail_streak + length fs)
      × (s'.ban ≡ s.ban)
failures-streak sel [] s room = (omega arith, refl)
failures-streak sel ((f, t) ∷ fs) s room =
    let (streak, _, ban) = on_failure-streak sel f t s in
    let (streak', ban') = failures-streak sel fs (on_failure sel f t s) (omega arith) in
    (omega arith, ban' ∙ ban)

-- A run of timeouts and network errors on one selection, the last one at `now_ms`: the upstream's
-- streak has grown by one for each, and the upstream cools down from `now_ms` on for
-- `network_error_ms` doubled once for each earlier failure of the streak, up to the cap. The
-- streak must not reach 2 ^ 32.
pub network_failures-backoff :
    (sel : Selected) (fs : List (Failure × ℕ)) (f : Failure) (now_ms : ℕ) (s : RouterState)
    → (upstream_cell s sel.upstream).fail_streak + length fs + 1 < 2 ^ 32
    → let streak = (upstream_cell s sel.upstream).fail_streak + length fs in
      let s' = on_failure sel f now_ms (failures sel fs s) in
      ((upstream_cell s' sel.upstream).fail_streak ≡ streak + 1)
      × ((upstream_cell s' sel.upstream).cooldown_until_ms
          ≡ backoff s streak s.ban.network_error_ms now_ms)
network_failures-backoff sel fs f now_ms s room =
    let (streak, ban) = failures-streak sel fs s (omega arith) in
    let s1 = failures sel fs s in
    let (grown, until, _) = on_failure-streak sel f now_ms s1 in
    (
      omega arith,
      until ∙ ban_until-eq-backoff s1 _ s1.ban.network_error_ms now_ms (omega arith) ∙ (λ i.
          saturating_add now_ms (
            saturating_mul (ban i).network_error_ms
              (2 ^ min (streak i) (min (ban i).max_backoff_pow 30)))),
    )

-- A server error (that is none of 429, 401 and 403) leaves the upstream with a streak of one and a
-- cooldown of exactly `server_error_ms`, whatever its streak was before: the streak is cleared
-- first, so repeated server errors never lengthen the cooldown.
pub server_error_never_backs_off :
    (sel : Selected) (status : StatusCode) (now_ms : ℕ) (s : RouterState)
    → is_server_error status.class ≡ true
    → has_code status 429 ≡ false
    → has_code status 401 ≡ false
    → has_code status 403 ≡ false
    → let c = upstream_cell (on_upstream_status sel status now_ms s) sel.upstream in
      (c.fail_streak ≡ 1)
      × (c.cooldown_until_ms ≡ saturating_add now_ms (min s.ban.server_error_ms u64_max))
unfolding on_upstream_status
server_error_never_backs_off sel status now_ms s h a b c = ground arith

abbrev max_pow : RouterState → ℕ
max_pow s = min s.ban.max_backoff_pow 30

-- Where nothing saturates the cooldown is the plain product.
ban_until_exact :
    (s : RouterState) (n base_ms now_ms : ℕ)
    → n < 2 ^ 32
    → now_ms + base_ms * 2 ^ max_pow s ≤ u64_max
    → ban_until s n base_ms now_ms ≡ now_ms + base_ms * 2 ^ backoff_pow s n
ban_until_exact s n base_ms now_ms small fits =
    let le : base_ms * 2 ^ backoff_pow s n ≤ base_ms * 2 ^ max_pow s =
      mul-le-mul_left base_ms (two_pow-le (backoff_pow s n) (max_pow s) (omega arith)) in
    rw (ban_until-eq-backoff s n base_ms now_ms small) (omega arith)

-- While no sum or product saturates, the cooldown after one more failure is twice as long until
-- the exponent reaches the cap, and from there on it stays; it is never shorter than `base_ms` nor
-- longer than `base_ms` doubled as often as the cap allows.
pub backoff_doubles :
    (s : RouterState) (n base_ms now_ms : ℕ)
    → suc n < 2 ^ 32
    → now_ms + base_ms * 2 ^ min s.ban.max_backoff_pow 30 ≤ u64_max
    → let window = λ (k : ℕ). ban_until s k base_ms now_ms - now_ms in
      (window (suc n) ≡ (if ltb n (min s.ban.max_backoff_pow 30) then 2 * window n else window n))
      × (now_ms + base_ms ≤ ban_until s n base_ms now_ms)
      × (ban_until s n base_ms now_ms ≤ now_ms + base_ms * 2 ^ min s.ban.max_backoff_pow 30)
backoff_doubles s n base_ms now_ms small fits =
    let now_at = ban_until_exact s n base_ms now_ms (omega arith) fits in
    let next_at = ban_until_exact s (suc n) base_ms now_ms small fits in
    let one : base_ms ≤ base_ms * 2 ^ backoff_pow s n =
      le-mul_of_pos_right base_ms (two_pow_pos _) in
    let cap : base_ms * 2 ^ backoff_pow s n ≤ base_ms * 2 ^ max_pow s =
      mul-le-mul_left base_ms (two_pow-le (backoff_pow s n) (max_pow s) (omega arith)) in
    (
      elim (Bool-cases (ltb n (max_pow s))) [
        | inl below ↦
            let e : backoff_pow s (suc n) ≡ suc (backoff_pow s n) = ground arith in
            let grows : 2 ^ backoff_pow s (suc n) ≡ 2 ^ backoff_pow s n + 2 ^ backoff_pow s n =
              rw e (two-pow-succ (backoff_pow s n)) in
            rw below (omega (arith, ap (λ (t : ℕ). base_ms * t) grows))
        | inr above ↦
            let e : backoff_pow s (suc n) ≡ backoff_pow s n = ground arith in
            rw above (omega (arith, ap (λ (t : ℕ). base_ms * 2 ^ t) e))
      ],
      omega arith,
      omega arith,
    )
