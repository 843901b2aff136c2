-- ===== src/State/Select/Keys.antt =====
-- The scan of an upstream's keys from the position of its round robin.
use native.Mathlib.Nat.{mod-add-mod, mod-eq_of_lt, mod-eq-sub-mod, mod-lt}
use gptload_rs.Prelude.{
  ◌≢◌, lt_of_get_elem?, sym, ◌∙◌, ℕ, zero, suc, ◌+◌, ◌-◌, ◌%◌, ◌^◌, ◌≤◌, ◌<◌, ◌≡◌, refl, Bool-cases,
  inl, inr, true, Option, none, some, List, length, get_elem?, get_elem?-lt, leb, ◌==◌, arith,
}
use gptload_rs.Prelude.Words.{add64}
use gptload_rs.State.Defs.{KeyState, Upstream, RouterState, upstream_cell, key_cell}
use gptload_rs.State.Select.{is_ready, scan_keys, select_key}

-- Position `p` of `n` is met within one round from any start.
pub round_meets : (start p n : ℕ) → p < n → (i : ℕ) × (i < n) × ((start + i) % n ≡ p)
round_meets start p n h = elim (Bool-cases (leb (start % n) p)) [
  | inl before ↦ (
    p - start % n,
    ground arith,
    sym (mod-add-mod start n (p - start % n))
        ∙ (let e : start % n + (p - start % n) ≡ p = ground arith in rw e (mod-eq_of_lt h)),
  )
  | inr after ↦
      let small : start % n < n = mod-lt start (omega arith) in
      (
        p + n - start % n,
        ground arith,
        sym (mod-add-mod start n (p + n - start % n))
            ∙ (let e : start % n + (p + n - start % n) ≡ p + n = omega arith in
                let back : p + n - n ≡ p = omega arith in
                rw (e, mod-eq-sub-mod {n = p + n} {m = n} (omega arith), back) (mod-eq_of_lt h)),
      )
]

scan_keys_found :
    (s : RouterState) (keys : List KeyState) (now_ms start i rounds : ℕ) {k : KeyState}
    → scan_keys s keys now_ms start i rounds ≡ some k
    → (p : ℕ) × (get_elem? keys p ≡ some k) × (is_ready s now_ms k ≡ true)
unfolding scan_keys
scan_keys_found s keys now_ms start i zero e = cc
scan_keys_found s keys now_ms start i (suc rounds) {k} e =
    go (get_elem? keys (add64 start i % length keys)) refl
      (scan_keys_found s keys now_ms start (i + 1) rounds {k = k})
  where
    go :
        (found : Option KeyState)
        → get_elem? keys (add64 start i % length keys) ≡ found
        → (scan_keys s keys now_ms start (i + 1) rounds ≡ some k
            → (p : ℕ) × (get_elem? keys p ≡ some k) × (is_ready s now_ms k ≡ true))
        → (p : ℕ) × (get_elem? keys p ≡ some k) × (is_ready s now_ms k ≡ true)
    go none at ih = ground arith
    go (some j) at ih = elim (Bool-cases (is_ready s now_ms j)) [
      | inl ok ↦
          let same : j ≡ k = ground arith in
          (add64 start i % length keys, rw same at at, rw same at ok)
      | inr banned ↦ ih (ground arith)
    ]

scan_keys_meets :
    (s : RouterState) (keys : List KeyState) (now_ms start i rounds j p : ℕ) {k : KeyState}
    → start + i + rounds ≤ 2 ^ 64
    → get_elem? keys p ≡ some k
    → is_ready s now_ms k ≡ true
    → i ≤ j
    → j < i + rounds
    → (start + j) % length keys ≡ p
    → scan_keys s keys now_ms start i rounds ≢ none
unfolding scan_keys
scan_keys_meets s keys now_ms start i zero j p room at ready from to meets = absurd (omega arith)
scan_keys_meets s keys now_ms start i (suc rounds) j p {k} room at ready from to meets =
    elim (Bool-cases (i == j)) [
      | inl now ↦ let here : add64 start i % length keys ≡ p = ground arith in ground arith
      | inr later ↦
          let inside : add64 start i % length keys < length keys =
            mod-lt _ (ground (arith, lt_of_get_elem? keys p at)) in
          let (x, ex) = get_elem?-lt keys (add64 start i % length keys) inside in
          let rest =
            scan_keys_meets s keys now_ms start (i + 1) rounds j p (omega arith) at ready
              (ground arith) (omega arith) meets in
          ground arith
    ]

-- A key that `select_key` returns is one of the upstream's, and its cooldown is over.
pub select_key_sound :
    (u : Upstream) (now_ms : ℕ) (s : RouterState) {k : KeyState}
    → (select_key u now_ms s).0 ≡ some k
    → (p : ℕ) × (get_elem? (upstream_cell s u).keys p ≡ some k)
      × ((key_cell s k).cooldown_until_ms ≤ now_ms)
unfolding select_key
select_key_sound u now_ms s {k} e =
    let c = upstream_cell s u in
    let (p, at, ready) =
      scan_keys_found s c.keys now_ms c.key_rr 0 (length c.keys) {k = k} (ground arith) in
    (p, at, ground arith)

-- `select_key` returns a key whenever the cooldown of one of the upstream's keys is over, as long
-- as the round robin is at least a round away from the end of a usize.
pub select_key_complete :
    (u : Upstream) (now_ms : ℕ) (s : RouterState) (p : ℕ) {k : KeyState}
    → get_elem? (upstream_cell s u).keys p ≡ some k
    → (key_cell s k).cooldown_until_ms ≤ now_ms
    → (upstream_cell s u).key_rr + length (upstream_cell s u).keys ≤ 2 ^ 64
    → (select_key u now_ms s).0 ≢ none
unfolding select_key
select_key_complete u now_ms s p {k} at ready room =
    let c = upstream_cell s u in
    let inside : p < length c.keys = lt_of_get_elem? c.keys p at in
    let (j, lt, meets) = round_meets c.key_rr p (length c.keys) inside in
    let found =
      scan_keys_meets s c.keys now_ms c.key_rr 0 (length c.keys) j p {k = k} (omega arith) at
        (ground arith) (omega arith) (omega arith) meets in
    ground arith
